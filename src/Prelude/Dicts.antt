-- ===== src/Prelude/Dicts.antt =====
-- A `dict` with text keys, in insertion order.
use Prim.Native.Nat.{ℕ, ◌+◌}
use Prim.Native.String.{String}
use mathlib.Core.Path.{◌≡◌, refl}
use mathlib.Core.Option.{Option, none, some}
use mathlib.Core.List.{List, [], ◌∷◌}
use native.Mathlib.Omega.{arith}
use text.Mathlib.TextEquality.{eq_iff}
use Prim.Native.Nat.{Ordering}
use ops_incident_collector.Prelude.Tests.{if◌then◌else◌}
use ops_incident_collector.Prelude.Lists.{sum_of}
use ops_incident_collector.Prelude.Text.{◌===◌}

abbrev pub Dict {ℓ} : Type ℓ → Type ℓ
Dict V = List (String × V)

module _ {ℓ} {V : Type ℓ} where
  -- `d.get(k)`
  unfoldable pub get : String → Dict V → Option V
  get k [] = none
  get k ((j, v) ∷ d) = if j === k then some v else get k d

  -- `d[k] = v`
  unfoldable pub put : String → V → Dict V → Dict V
  put k v [] = (k, v) ∷ []
  put k v ((j, w) ∷ d) = if j === k then (k, v) ∷ d else (j, w) ∷ put k v d

  pub get-put :
      (k j : String) (v : V) (d : Dict V)
      → get j (put k v d) ≡ (if k === j then some v else get j d)
  unfolding get put
  get-put k j v [] = refl
  get-put k j v ((i, w) ∷ d) = ground (arith, eq_iff k j, eq_iff i k, eq_iff i j, get-put k j v d)

  -- `sorted(d.items())`, as an insertion sort by the key.
  unfoldable pub insert_sorted : String → V → Dict V → Dict V
  insert_sorted k v [] = (k, v) ∷ []
  insert_sorted k v ((j, w) ∷ d) = elim (Prim.Native.String.compare k j) [
    | Ordering.gt ↦ (j, w) ∷ insert_sorted k v d
    | _ ↦ (k, v) ∷ (j, w) ∷ d
  ]

  unfoldable pub sort_dict : Dict V → Dict V
  unfolding insert_sorted
  sort_dict [] = []
  sort_dict ((k, v) ∷ d) = insert_sorted k v (sort_dict d)

-- `d.get(k, 0)`
abbrev pub count_of : String → Dict ℕ → ℕ
count_of k d = elim (get k d) [ none ↦ 0 | some n ↦ n ]

-- `d[k] = d.get(k, 0) + 1`
unfoldable pub increment : String → Dict ℕ → Dict ℕ
increment k [] = (k, 1) ∷ []
increment k ((j, n) ∷ d) = if j === k then (j, n + 1) ∷ d else (j, n) ∷ increment k d

-- `sum(d.values())`
abbrev pub total : Dict ℕ → ℕ
total d = sum_of (λ e. e.1) d

pub total-increment : (k : String) (d : Dict ℕ) → total (increment k d) ≡ total d + 1
unfolding increment
total-increment k [] = omega arith
total-increment k ((j, n) ∷ d) = ground (arith, total-increment k d)

total-insert_sorted : (k : String) (n : ℕ) (d : Dict ℕ) → total (insert_sorted k n d) ≡ n + total d
unfolding insert_sorted
total-insert_sorted k n [] = omega arith
total-insert_sorted k n ((j, m) ∷ d) =
    by (Prim.Native.String.compare k j) (total-insert_sorted k n d)
  where
    by :
        (o : Ordering)
        → total (insert_sorted k n d) ≡ n + total d
        → total (elim o [ Ordering.gt ↦ (j, m) ∷ insert_sorted k n d | _ ↦ (k, n) ∷ (j, m) ∷ d ])
          ≡ n + (m + total d)
    by Ordering.gt h = omega (arith, h)
    by Ordering.lt h = refl
    by Ordering.eq h = refl

-- Sorting keeps the sum.
pub total-sort_dict : (d : Dict ℕ) → total (sort_dict d) ≡ total d
unfolding sort_dict
total-sort_dict [] = refl
total-sort_dict ((k, n) ∷ d) =
    omega (arith, total-insert_sorted k n (sort_dict d), total-sort_dict d)
