-- ===== src/LanggraphAgent/RunStore/Sanitizing.antt =====
-- What `sanitize_for_storage` of langgraph_agent/checkpoints/sqlite_checkpointer.py leaves of a state.
use ops_incident_collector.Prelude.{
  String, Bool, true, false, Option, none, some, ◌===◌, ◌≡◌, refl, ap, ap₂, eq_iff, if◌then◌else◌,
  ◌∙◌,
}
use ops_incident_collector.Core.Json.{
  Value, Items, Fields, null, boolean, number, text, array, object, nil, cons, end, field,
  get_field,
}
use ops_incident_collector.LanggraphAgent.RunStore.{
  is_sensitive, sanitize_for_storage, sanitize_items, sanitize_fields,
}

-- No key of an object is sensitive, at any depth.
unfoldable mutual
  pub IsClean : Value → Type 0
  IsClean null = Unit
  IsClean (boolean b) = Unit
  IsClean (number n) = Unit
  IsClean (text s) = Unit
  IsClean (array vs) = IsCleanItems vs
  IsClean (object fs) = IsCleanFields fs

  pub IsCleanItems : Items → Type 0
  IsCleanItems nil = Unit
  IsCleanItems (cons v vs) = IsClean v × IsCleanItems vs

  pub IsCleanFields : Fields → Type 0
  IsCleanFields end = Unit
  IsCleanFields (field k v fs) = (is_sensitive k ≡ false) × IsClean v × IsCleanFields fs

kept-IsClean :
    (k : String) (b : Bool) (v : Value) (fs : Fields)
    → is_sensitive k ≡ b
    → IsClean v
    → IsCleanFields fs
    → IsCleanFields (if b then fs else field k v fs)
unfolding IsClean
kept-IsClean k true v fs e h hs = hs
kept-IsClean k false v fs e h hs = (e, h, hs)

mutual
  unfolding sanitize_for_storage IsClean

  clean : (v : Value) → IsClean (sanitize_for_storage v)
  clean null = tt
  clean (boolean b) = tt
  clean (number n) = tt
  clean (text s) = tt
  clean (array vs) = clean_items vs
  clean (object fs) = clean_fields fs

  clean_items : (vs : Items) → IsCleanItems (sanitize_items vs)
  clean_items nil = tt
  clean_items (cons v vs) = (clean v, clean_items vs)

  clean_fields : (fs : Fields) → IsCleanFields (sanitize_fields fs)
  clean_fields end = tt
  clean_fields (field k v fs) =
      kept-IsClean k (is_sensitive k) (sanitize_for_storage v) (sanitize_fields fs) refl (clean v)
        (clean_fields fs)

mutual
  unfolding sanitize_for_storage IsClean

  same : (v : Value) → IsClean v → sanitize_for_storage v ≡ v
  same null h = refl
  same (boolean b) h = refl
  same (number n) h = refl
  same (text s) h = refl
  same (array vs) h = ap array (same_items vs h)
  same (object fs) h = ap object (same_fields fs h)

  same_items : (vs : Items) → IsCleanItems vs → sanitize_items vs ≡ vs
  same_items nil h = refl
  same_items (cons v vs) h = ap₂ cons (same v h.0) (same_items vs h.1)

  same_fields : (fs : Fields) → IsCleanFields fs → sanitize_fields fs ≡ fs
  same_fields end h = refl
  same_fields (field k v fs) h = rw h.0 (ap₂ (field k) (same v h.1) (same_fields fs h.2))

-- A state that was stored once is stored again as it is.
pub sanitize_for_storage-idempotent :
    (v : Value) → sanitize_for_storage (sanitize_for_storage v) ≡ sanitize_for_storage v
sanitize_for_storage-idempotent v = same (sanitize_for_storage v) (clean v)

abbrev pub sanitized : Option Value → Option Value
sanitized none = none
sanitized (some v) = some (sanitize_for_storage v)

pub get_field-sanitize_fields :
    (key : String) (fs : Fields)
    → get_field key (sanitize_fields fs)
      ≡ (if is_sensitive key then none else sanitized (get_field key fs))
unfolding sanitize_for_storage get_field
get_field-sanitize_fields key end = by (is_sensitive key)
  where
    by : (b : Bool) → none ≡ (if b then none else sanitized none)
    by true = refl
    by false = refl
get_field-sanitize_fields key (field k v fs) =
    by (is_sensitive k) (k === key) refl refl (get_field-sanitize_fields key fs)
  where
    key_of : (k === key) ≡ true → is_sensitive key ≡ is_sensitive k
    key_of e = rw ((eq_iff k key).0 e)

    by :
        (hidden same : Bool)
        → is_sensitive k ≡ hidden
        → (k === key) ≡ same
        → get_field key (sanitize_fields fs)
          ≡ (if is_sensitive key then none else sanitized (get_field key fs))
        → get_field key (
            if hidden
            then sanitize_fields fs
            else field k (sanitize_for_storage v) (sanitize_fields fs))
          ≡ (if is_sensitive key
              then none
              else sanitized (if same then some v else get_field key fs))
    by true true h e ih = ih ∙ rw (key_of e ∙ h)
    by true false h e ih = ih
    by false true h e ih = rw (e, key_of e ∙ h) refl
    by false false h e ih = rw e ih

-- What is stored of a state has no sensitive key at any depth; a key of the state that is not sensitive
-- keeps its value, sanitized, and storing what is stored changes nothing.
pub sanitize_for_storage_lem :
    (key : String) (state : Fields)
    → IsClean (sanitize_for_storage (object state))
      × (get_field key (sanitize_fields state)
          ≡ (if is_sensitive key then none else sanitized (get_field key state)))
      × (sanitize_for_storage (sanitize_for_storage (object state))
          ≡ sanitize_for_storage (object state))
sanitize_for_storage_lem key state = (
  clean (object state),
  get_field-sanitize_fields key state,
  sanitize_for_storage-idempotent (object state),
)
