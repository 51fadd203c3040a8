-- ===== src/Processors/Batcher/Batches.antt =====
-- The batches of processors/batcher.py cover the items in order.
use mathlib.Core.List.{flatten}
use ops_incident_collector.Prelude.{
  ℕ, true, false, List, [], ◌∷◌, ◌++◌, ◌<◌, ◌≤◌, ◌≡◌, refl, max, length, leb, append_assoc,
  length-append, Bool-cases, inl, inr, arith, ◌∙◌,
}
use ops_incident_collector.Processors.Batcher.{fill_batch, batch_items}

module _ {ℓ} {A : Type ℓ} where
  -- Every batch but the last has the size, and the last has between one item and the size.
  abbrev pub AreBatches : ℕ → List (List A) → Type 0
  AreBatches size [] = Unit
  AreBatches size (b ∷ []) = (0 < length b) × (length b ≤ size)
  AreBatches size (b ∷ c ∷ rest) = (length b ≡ size) × AreBatches size (c ∷ rest)

  flatten-fill_batch :
      (n : ℕ) (batch items : List A) → flatten (fill_batch n batch items) ≡ batch ++ items
  unfolding fill_batch flatten
  flatten-fill_batch n [] [] = refl
  flatten-fill_batch n (x ∷ batch) [] = refl
  flatten-fill_batch n batch (item ∷ items) =
      let full = append_assoc batch (item ∷ []) items in
      elim (Bool-cases (leb n (length (batch ++ item ∷ [])))) [
        | inl t ↦ rw (t, fill_batch) (rw (flatten-fill_batch n [] items) full)
        | inr f ↦ rw (f, fill_batch) (flatten-fill_batch n (batch ++ item ∷ []) items ∙ full)
      ]

  AreBatches-cons :
      (size : ℕ) (b : List A) (rest : List (List A))
      → length b ≡ size
      → 0 < size
      → AreBatches size rest
      → AreBatches size (b ∷ rest)
  AreBatches-cons size b [] e p h = (omega arith, omega arith)
  AreBatches-cons size b (c ∷ rest) e p h = (e, h)

  fill_batch-nil :
      (n : ℕ) (batch : List A)
      → length batch < max n 1
      → AreBatches (max n 1) (fill_batch n batch [])
  unfolding fill_batch
  fill_batch-nil n [] h = tt
  fill_batch-nil n (x ∷ batch) h = (omega arith, omega arith)

  module _ (n : ℕ) (batch : List A) (item : A) (items : List A) where
    fill_batch_full :
        leb n (length (batch ++ item ∷ [])) ≡ true
        → fill_batch n batch (item ∷ items) ≡ (batch ++ item ∷ []) ∷ fill_batch n [] items
    unfolding fill_batch
    fill_batch_full t = rw (t, fill_batch)

    fill_batch_room :
        leb n (length (batch ++ item ∷ [])) ≡ false
        → fill_batch n batch (item ∷ items) ≡ fill_batch n (batch ++ item ∷ []) items
    unfolding fill_batch
    fill_batch_room f = rw (f, fill_batch)

  AreBatches-fill_batch :
      (n : ℕ) (batch items : List A)
      → length batch < max n 1
      → AreBatches (max n 1) (fill_batch n batch items)
  AreBatches-fill_batch n batch [] h = fill_batch-nil n batch h
  AreBatches-fill_batch n batch (item ∷ items) h =
      let size = length-append batch (item ∷ []) in
      elim (Bool-cases (leb n (length (batch ++ item ∷ [])))) [
        | inl full ↦ rw (fill_batch_full n batch item items full) (
            AreBatches-cons (max n 1) (batch ++ item ∷ []) (fill_batch n [] items)
              (ground (arith, size)) (omega arith) (AreBatches-fill_batch n [] items (omega arith)))
        | inr room ↦
            rw (fill_batch_room n batch item items room)
              (AreBatches-fill_batch n (batch ++ item ∷ []) items (ground (arith, size)))
      ]

-- Put together the batches are the items in their order; each batch but the last has exactly the
-- batch size, and the last one at least one item and at most that. A size of 0 counts as 1.
pub batch_items_lem {ℓ} :
    {A : Type ℓ} (items : List A) (batch_size : ℕ)
    → (flatten (batch_items items batch_size) ≡ items)
      × AreBatches (max batch_size 1) (batch_items items batch_size)
unfolding batch_items
batch_items_lem items n =
    (flatten-fill_batch n [] items, AreBatches-fill_batch n [] items (omega arith))
