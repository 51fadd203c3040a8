-- ===== src/Prelude/Actions.antt =====
-- Python code that changes state and may raise: the state comes back beside the result, also where
-- an exception is raised, since what was written before stays written.
use Prim.Native.Nat.{ℕ}
use Prim.Native.String.{String}
use mathlib.Core.Path.{◌≡◌, refl}
use mathlib.Core.Logic.{◌⊎◌, inl, inr}

-- The exceptions that the code tells apart, or raises itself.
pub data Exc : Type 0 where
  missing_batch_endpoint : Exc
  request_error : String → Exc
  http_status_error : ℕ → Exc
  value_error permission_error key_error os_error startup_error : String → Exc

pub data Result {ℓ} (A : Type ℓ) : Type ℓ where
  ok : A → Result A
  raise : Exc → Result A

-- A split on a computed result that keeps the equation.
pub Result-cases {ℓ} :
    {A : Type ℓ} (r : Result A) → ((a : A) × (r ≡ ok a)) ⊎ ((e : Exc) × (r ≡ raise e))
Result-cases (ok a) = inl (a, refl)
Result-cases (raise e) = inr (e, refl)

abbrev pub Action {ℓ κ} : Type ℓ → Type κ → Type (ℓ ⊔ κ)
Action S A = S → Result A × S

module _ {ℓ κ} {S : Type ℓ} {A : Type κ} where
  abbrev pub pure : A → Action S A
  pure a s = (ok a, s)

  abbrev pub throw : Exc → Action S A
  throw e s = (raise e, s)

  abbrev pub lift : Result A → Action S A
  lift r s = (r, s)

  abbrev pub gets : (S → A) → Action S A
  gets f s = (ok (f s), s)

  abbrev handle : (Exc → Action S A) → Result A × S → Result A × S
  handle h (ok a, s) = (ok a, s)
  handle h (raise e, s) = h e s

  -- `try: m / except Exception as e: h(e)`
  abbrev pub try_except : Action S A → (Exc → Action S A) → Action S A
  try_except m h s = handle h (m s)

abbrev pub modify {ℓ} : {S : Type ℓ} → (S → S) → Action S (Unit {0})
modify f s = (ok tt, f s)

module _ {ℓ κ μ} {S : Type ℓ} {A : Type κ} {B : Type μ} where
  abbrev continue : (A → Action S B) → Result A × S → Result B × S
  continue f (ok a, s) = f a s
  continue f (raise e, s) = (raise e, s)

  infixl 5 ◌>>=◌ ◌>>◌
  abbrev pub ◌>>=◌ : Action S A → (A → Action S B) → Action S B
  ◌>>=◌ m f s = continue f (m s)

  abbrev pub ◌>>◌ : Action S A → Action S B → Action S B
  m >> n = m >>= λ _. n
