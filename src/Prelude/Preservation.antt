-- ===== src/Prelude/Preservation.antt =====
-- Actions that preserve a property of the state, whether they return or raise.
use mathlib.Core.Bool.{Bool, true, false}
use ops_incident_collector.Prelude.Tests.{if◌then◌else◌}
use ops_incident_collector.Prelude.Actions.{
  Exc, Result, ok, raise, Action, pure, throw, lift, gets, modify, try_except, ◌>>=◌,
}

pub record Preserves {ℓ κ μ} {S : Type ℓ} {A : Type κ} (P : S → Type μ) (m : Action S A)
    : Type (ℓ ⊔ κ ⊔ μ) where
  pub at : (s : S) → P s → P (m s).1

module _ {ℓ κ μ} {S : Type ℓ} {A : Type κ} {P : S → Type μ} where
  pub Preserves-pure : (a : A) → Preserves P (pure a)
  Preserves-pure a = record { at = λ s h. h }

  pub Preserves-throw : (e : Exc) → Preserves P (throw {A = A} e)
  Preserves-throw e = record { at = λ s h. h }

  pub Preserves-lift : (r : Result A) → Preserves P (lift r)
  Preserves-lift r = record { at = λ s h. h }

  pub Preserves-if :
      (b : Bool) {m n : Action S A}
      → Preserves P m
      → Preserves P n
      → Preserves P (if b then m else n)
  Preserves-if true m n = m
  Preserves-if false m n = n

  pub Preserves-gets : (f : S → A) → Preserves P (gets f)
  Preserves-gets f = record { at = λ s h. h }

  handled :
      (r : Result A) (f : Exc → Action S A) (s : S)
      → ((e : Exc) → Preserves P (f e))
      → P s
      → P (try_except (λ (_ : S). (r, s)) f s).1
  handled (ok a) f s h p = p
  handled (raise e) f s h p = (h e).at s p

  pub Preserves-try_except :
      {m : Action S A} {f : Exc → Action S A}
      → Preserves P m
      → ((e : Exc) → Preserves P (f e))
      → Preserves P (try_except m f)
  Preserves-try_except {m} {f} hm hf = record {
    at = λ s p. handled (m s).0 f (m s).1 hf (hm.at s p);
  }

pub Preserves-modify {ℓ μ} :
    {S : Type ℓ} {P : S → Type μ} (f : S → S) → ((s : S) → P s → P (f s)) → Preserves P (modify f)
Preserves-modify f h = record { at = h }

module _ {ℓ κ λ' μ} {S : Type ℓ} {A : Type κ} {B : Type λ'} {P : S → Type μ} where
  after :
      (r : Result A) (f : A → Action S B) (s : S)
      → ((a : A) → Preserves P (f a))
      → P s
      → P ((lift r >>= f) s).1
  after (ok a) f s h p = (h a).at s p
  after (raise e) f s h p = p

  pub Preserves-bind :
      {m : Action S A} {f : A → Action S B}
      → Preserves P m
      → ((a : A) → Preserves P (f a))
      → Preserves P (m >>= f)
  Preserves-bind {m} {f} hm hf = record { at = λ s p. after (m s).0 f (m s).1 hf (hm.at s p) }

pub ruleset preserves_rules =
    (Preserves-pure, Preserves-throw, Preserves-lift, Preserves-if, Preserves-bind)
