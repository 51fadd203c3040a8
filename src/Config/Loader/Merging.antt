-- ===== src/Config/Loader/Merging.antt =====
-- What the merge of config/loader.py keeps of the denials.
use ops_incident_collector.Prelude.{
  String, Bool, true, false, ◌||◌, List, [], ◌∷◌, ◌++◌, ◌===◌, ◌≡◌, refl, All, Distinct,
  Distinct-snoc, sym, eq_iff, one_of, if◌then◌else◌,
}
use ops_incident_collector.Config.Settings.{AppSettings, default_deny_patterns}
use ops_incident_collector.Config.Loader.{insert_key, from_keys, merge_default_denies}

one_of-append :
    (xs ys : List String) (p : String) → one_of (xs ++ ys) p ≡ one_of xs p || one_of ys p
one_of-append [] ys p = refl
one_of-append (x ∷ xs) ys p = by (x === p) (one_of-append xs ys p)
  where
    by :
        (b : Bool)
        → one_of (xs ++ ys) p ≡ one_of xs p || one_of ys p
        → b || one_of (xs ++ ys) p ≡ (b || one_of xs p) || one_of ys p
    by true e = refl
    by false e = e

one_of-same :
    (xs : List String) (k p : String) → one_of xs k ≡ true → (k === p) ≡ true → one_of xs p ≡ true
one_of-same xs k p h e = rw (sym ((eq_iff k p).0 e)) h

insert_key_lem :
    (k : String) (keys : List String) (p : String)
    → one_of (insert_key k keys) p ≡ one_of keys p || (k === p)
unfolding insert_key
insert_key_lem k keys p = by (one_of keys k) refl (k === p) refl (one_of keys p) refl
  where
    clash : one_of keys p ≡ true → one_of keys p ≡ false → ⊥
    clash a b = cc

    last : (a b : Bool) → a || (b || false) ≡ a || b
    last a true = refl
    last a false = refl

    by :
        (there : Bool)
        → one_of keys k ≡ there
        → (same : Bool) → (k === p) ≡ same
        → (old : Bool) → one_of keys p ≡ old
        → one_of (if there then keys else keys ++ k ∷ []) p ≡ old || same
    by true h true e true o = o
    by true h true e false o = absurd (clash (one_of-same keys k p h e) o)
    by true h false e true o = o
    by true h false e false o = o
    by false h same e old o = rw (one_of-append keys (k ∷ []) p, o, e) (last old same)

one_of-All : (k : String) (xs : List String) → one_of xs k ≡ false → All (λ x. (x === k) ≡ false) xs
one_of-All k [] h = tt
one_of-All k (x ∷ xs) h = by (x === k) refl h (one_of-All k xs)
  where
    by :
        (b : Bool)
        → (x === k) ≡ b
        → b || one_of xs k ≡ false
        → (one_of xs k ≡ false → All (λ y. (y === k) ≡ false) xs)
        → All (λ y. (y === k) ≡ false) (x ∷ xs)
    by true e k rest = absurd cc
    by false e k rest = (e, rest k)

insert_key-Distinct :
    (k : String) (keys : List String)
    → Distinct (λ a b. a === b) keys
    → Distinct (λ a b. a === b) (insert_key k keys)
unfolding insert_key
insert_key-Distinct k keys d = by (one_of keys k) refl
  where
    by :
        (there : Bool)
        → one_of keys k ≡ there
        → Distinct (λ a b. a === b) (if there then keys else keys ++ k ∷ [])
    by true h = d
    by false h = Distinct-snoc (λ a b. a === b) keys k (one_of-All k keys h) d

from_keys_lem :
    (names keys : List String) (p : String)
    → one_of (from_keys names keys) p ≡ one_of keys p || one_of names p
unfolding from_keys
from_keys_lem [] keys p = by (one_of keys p)
  where
    by : (b : Bool) → b ≡ b || false
    by true = refl
    by false = refl
from_keys_lem (name ∷ names) keys p =
    rw (from_keys_lem names (insert_key name keys) p, insert_key_lem name keys p)
      (assoc (one_of keys p) (name === p) (one_of names p))
  where
    assoc : (a b c : Bool) → (a || b) || c ≡ a || (b || c)
    assoc true b c = refl
    assoc false b c = refl

from_keys-Distinct :
    (names keys : List String)
    → Distinct (λ a b. a === b) keys
    → Distinct (λ a b. a === b) (from_keys names keys)
unfolding from_keys
from_keys-Distinct [] keys d = d
from_keys-Distinct (name ∷ names) keys d =
    from_keys-Distinct names (insert_key name keys) (insert_key-Distinct name keys d)

-- Merging the default denials keeps every pattern of the settings and adds every default, and nothing
-- else, and leaves no pattern twice.
pub merge_default_denies_lem :
    (settings : AppSettings)
    → ((p : String)
        → one_of (merge_default_denies settings).security.deny_patterns p
          ≡ one_of settings.security.deny_patterns p || one_of default_deny_patterns p)
      × Distinct (λ a b. a === b) (merge_default_denies settings).security.deny_patterns
unfolding merge_default_denies
merge_default_denies_lem settings = (
  λ p.
      rw (from_keys_lem (settings.security.deny_patterns ++ default_deny_patterns) [] p)
        (one_of-append settings.security.deny_patterns default_deny_patterns p),
  from_keys-Distinct (settings.security.deny_patterns ++ default_deny_patterns) [] tt,
)
