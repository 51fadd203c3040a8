-- ===== src/Prelude/Lists.antt =====
-- Lists measured by native numbers, under the library's names, and predicates over lists.
use Prim.Native.Nat.{ℕ, zero, suc, ◌+◌, ◌≤◌}
use mathlib.Core.Path.{◌≡◌, ◌∙◌, refl}
use mathlib.Core.Bool.{Bool, true, false, not, ◌||◌}
use mathlib.Core.List.{List, [], ◌∷◌, ◌++◌, map}
use mathlib.Core.List.{Perm, perm_middle}
use mathlib.Core.List.Perm
use native.Mathlib.Omega.{arith}
use ops_incident_collector.Prelude.Tests.{if◌then◌else◌}

module _ {ℓ} {A : Type ℓ} where
  abbrev pub length : List A → ℕ
  length [] = 0
  length (x ∷ xs) = suc (length xs)

  abbrev pub take : ℕ → List A → List A
  take zero xs = []
  take (suc n) [] = []
  take (suc n) (x ∷ xs) = x ∷ take n xs

  -- The truth value of a Python list.
  abbrev pub non_empty : List A → Bool
  non_empty [] = false
  non_empty (x ∷ xs) = true

  -- `any(test(x) for x in xs)`
  abbrev pub any : (A → Bool) → List A → Bool
  any test [] = false
  any test (x ∷ xs) = test x || any test xs

  -- `[x for x in xs if test(x)]`
  abbrev pub keep : (A → Bool) → List A → List A
  keep test [] = []
  keep test (x ∷ xs) = if test x then x ∷ keep test xs else keep test xs

  -- `sum(f(x) for x in xs)`
  abbrev pub sum_of : (A → ℕ) → List A → ℕ
  sum_of f [] = 0
  sum_of f (x ∷ xs) = f x + sum_of f xs

  pub length-append : (xs ys : List A) → length (xs ++ ys) ≡ length xs + length ys
  length-append [] ys = omega arith
  length-append (x ∷ xs) ys = omega (arith, length-append xs ys)

  pub sum_of-append : (f : A → ℕ) (xs ys : List A) → sum_of f (xs ++ ys) ≡ sum_of f xs + sum_of f ys
  sum_of-append f [] ys = omega arith
  sum_of-append f (x ∷ xs) ys = omega (arith, sum_of-append f xs ys)

  pub length-keep-le : (test : A → Bool) (xs : List A) → length (keep test xs) ≤ length xs
  length-keep-le test [] = omega arith
  length-keep-le test (x ∷ xs) = ground (arith, length-keep-le test xs)

-- Every element has the property.
abbrev pub All {ℓ κ} : {A : Type ℓ} → (A → Type κ) → List A → Type κ
All P [] = Unit
All P (x ∷ xs) = P x × All P xs

module _ {ℓ κ} {A : Type ℓ} (P : A → Type κ) where
  pub All-append : (xs ys : List A) → All P xs → All P ys → All P (xs ++ ys)
  All-append [] ys hx hy = hy
  All-append (x ∷ xs) ys hx hy = (hx.0, All-append xs ys hx.1 hy)

  pub All-at : (xs : List A) (y : A) (ys : List A) → All P (xs ++ y ∷ ys) → P y
  All-at [] y ys h = h.0
  All-at (x ∷ xs) y ys h = All-at xs y ys h.1

  pub All-keep : (test : A → Bool) (xs : List A) → All P xs → All P (keep test xs)
  All-keep test [] h = tt
  All-keep test (x ∷ xs) h = All-keep_step (test x) x (keep test xs) h.0 (All-keep test xs h.1)
    where
      All-keep_step :
          (b : Bool) (x : A) (rest : List A)
          → P x
          → All P rest
          → All P (if b then x ∷ rest else rest)
      All-keep_step true x rest p h = (p, h)
      All-keep_step false x rest p h = h

-- Pointwise implication.
pub All-map {ℓ κ μ} :
    {A : Type ℓ} (P : A → Type κ) (Q : A → Type μ) (f : (x : A) → P x → Q x) (xs : List A)
    → All P xs
    → All Q xs
All-map P Q f [] h = tt
All-map P Q f (x ∷ xs) h = (f x h.0, All-map P Q f xs h.1)

-- No two elements are the same by a test.
abbrev pub Distinct {ℓ} : {A : Type ℓ} → (A → A → Bool) → List A → Type 0
Distinct same [] = Unit
Distinct same (x ∷ xs) = All (λ y. same x y ≡ false) xs × Distinct same xs

module _ {ℓ} {A : Type ℓ} (same : A → A → Bool) where
  pub Distinct-keep :
      (test : A → Bool) (xs : List A) → Distinct same xs → Distinct same (keep test xs)
  Distinct-keep test [] d = tt
  Distinct-keep test (x ∷ xs) d =
      step (test x) (All-keep (λ y. same x y ≡ false) test xs d.0) (Distinct-keep test xs d.1)
    where
      step :
          (b : Bool)
          → All (λ y. same x y ≡ false) (keep test xs)
          → Distinct same (keep test xs)
          → Distinct same (if b then x ∷ keep test xs else keep test xs)
      step true a d = (a, d)
      step false a d = d

  All-map-same :
      (f : A → A) (x : A) (h : (y : A) → same (f x) (f y) ≡ same x y) (xs : List A)
      → All (λ y. same x y ≡ false) xs
      → All (λ y. same (f x) y ≡ false) (map f xs)
  All-map-same f x h [] a = tt
  All-map-same f x h (y ∷ ys) a = (h y ∙ a.0, All-map-same f x h ys a.1)

  -- A function that the test does not see through keeps the elements apart.
  pub Distinct-map :
      (f : A → A) (h : (x y : A) → same (f x) (f y) ≡ same x y) (xs : List A)
      → Distinct same xs
      → Distinct same (map f xs)
  Distinct-map f h [] d = tt
  Distinct-map f h (x ∷ xs) d = (All-map-same f x (h x) xs d.0, Distinct-map f h xs d.1)

  pub Distinct-snoc :
      (xs : List A) (n : A)
      → All (λ y. same y n ≡ false) xs
      → Distinct same xs
      → Distinct same (xs ++ n ∷ [])
  Distinct-snoc [] n a d = (tt, tt)
  Distinct-snoc (x ∷ xs) n a d =
      (All-append (λ y. same x y ≡ false) xs (n ∷ []) d.0 (a.0, tt), Distinct-snoc xs n a.1 d.1)

-- What a test keeps passes it, and what its negation keeps does not.
pub All-keep-test {ℓ} :
    {A : Type ℓ} (test : A → Bool) (xs : List A) → All (λ x. test x ≡ true) (keep test xs)
All-keep-test test [] = tt
All-keep-test {A = A} test (x ∷ xs) = by (test x) refl (All-keep-test test xs)
  where
    rest : List A
    rest = keep test xs

    by :
        (b : Bool)
        → test x ≡ b
        → All (λ x. test x ≡ true) rest
        → All (λ x. test x ≡ true) (if b then x ∷ rest else rest)
    by true e h = (e, h)
    by false e h = h

pub All-keep-not {ℓ} :
    {A : Type ℓ} (test : A → Bool) (xs : List A)
    → All (λ x. test x ≡ false) (keep (λ x. not (test x)) xs)
All-keep-not test [] = tt
All-keep-not {A = A} test (x ∷ xs) = by (test x) refl (All-keep-not test xs)
  where
    rest : List A
    rest = keep (λ x. not (test x)) xs

    by :
        (b : Bool)
        → test x ≡ b
        → All (λ x. test x ≡ false) rest
        → All (λ x. test x ≡ false) (if not b then x ∷ rest else rest)
    by true e h = h
    by false e h = (e, h)

-- The elements that pass a test and those that do not are all of them.
pub keep-perm {ℓ} :
    {A : Type ℓ} (test : A → Bool) (xs : List A)
    → Perm (keep test xs ++ keep (λ x. not (test x)) xs) xs
keep-perm test [] = Perm.refl []
keep-perm {A = A} test (x ∷ xs) = by (test x) (keep-perm test xs)
  where
    rest : List A
    rest = keep (λ x. not (test x)) xs

    by :
        (b : Bool)
        → Perm (keep test xs ++ rest) xs
        → Perm
            ((if b then x ∷ keep test xs else keep test xs) ++ (if not b then x ∷ rest else rest))
            (x ∷ xs)
    by true h = Perm.cons x h
    by false h = Perm.trans (perm_middle (keep test xs) rest) (Perm.cons x h)
