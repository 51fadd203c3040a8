-- ===== src/Prelude/Triples.antt =====
-- Actions with a condition before them, one after they return, and one that they leave when they raise.
use ops_incident_collector.Prelude.Preservation.{Preserves}
use ops_incident_collector.Prelude.Actions.{
  Exc, Result, ok, raise, Action, modify, try_except, ◌>>=◌,
}

-- What holds after an action: `Q` where it returns, `R` where it raises.
abbrev pub After {ℓ κ μ} : {S : Type ℓ} {A : Type κ} → (R Q : S → Type μ) → Result A × S → Type μ
After R Q (ok a, s) = Q s
After R Q (raise e, s) = R s

pub record Triple {ℓ κ μ} {S : Type ℓ} {A : Type κ} (R P Q : S → Type μ) (m : Action S A)
    : Type (ℓ ⊔ κ ⊔ μ) where
  pub at : (s : S) → P s → After R Q (m s)

pub Triple-modify {ℓ μ} :
    {S : Type ℓ} {R P Q : S → Type μ} (f : S → S)
    → ((s : S) → P s → Q (f s))
    → Triple R P Q (modify f)
Triple-modify f h = record { at = h }

module _ {ℓ κ λ' μ} {S : Type ℓ} {A : Type κ} {B : Type λ'} {R Q T : S → Type μ} where
  continued :
      (f : A → Action S B) (p : Result A × S)
      → ((a : A) → Triple R Q T (f a))
      → After R Q p
      → After R T (((λ (_ : S). p) >>= f) p.1)
  continued f (ok a, s) h q = (h a).at s q
  continued f (raise e, s) h q = q

  pub Triple-bind :
      {P : S → Type μ} {m : Action S A} {f : A → Action S B}
      → Triple R P Q m
      → ((a : A) → Triple R Q T (f a))
      → Triple R P T (m >>= f)
  Triple-bind {m = m} {f = f} hm hf = record { at = λ s p. continued f (m s) hf (hm.at s p) }

module _ {ℓ κ μ} {S : Type ℓ} {A : Type κ} {R R' Q : S → Type μ} where
  handled :
      (f : Exc → Action S A) (p : Result A × S)
      → ((e : Exc) → Triple R' R Q (f e))
      → After R Q p
      → After R' Q (try_except (λ (_ : S). p) f p.1)
  handled f (ok a, s) h q = q
  handled f (raise e, s) h q = (h e).at s q

  pub Triple-try_except :
      {P : S → Type μ} {m : Action S A} {f : Exc → Action S A}
      → Triple R P Q m
      → ((e : Exc) → Triple R' R Q (f e))
      → Triple R' P Q (try_except m f)
  Triple-try_except {m = m} {f = f} hm hf = record { at = λ s p. handled f (m s) hf (hm.at s p) }

-- What an action preserves, it leaves in both cases.
pub Triple-kept {ℓ κ μ} :
    {S : Type ℓ} {A : Type κ} {P : S → Type μ} {m : Action S A} → Preserves P m → Triple P P P m
Triple-kept {S = S} {A = A} {P = P} {m = m} h = record { at = λ s p. by (m s) (h.at s p) }
  where
    by : (r : Result A × S) → P r.1 → After P P r
    by (ok a, s) q = q
    by (raise e, s) q = q
