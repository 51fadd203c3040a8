-- ===== src/Processors/Batcher.antt =====
-- processors/batcher.py
pub mod Batches
use ops_incident_collector.Prelude.{
  ℕ, Bool, true, false, List, [], ◌∷◌, ◌++◌, length, leb, non_empty, if◌then◌else◌,
}

module _ {ℓ} {A : Type ℓ} where
  -- The loop, with the batch that is being filled.
  unfoldable pub fill_batch : ℕ → List A → List A → List (List A)
  fill_batch batch_size batch [] = if non_empty batch then batch ∷ [] else []
  fill_batch batch_size batch (item ∷ items) =
      let full = batch ++ item ∷ [] in
      elim (leb batch_size (length full)) [
        | true ↦ full ∷ fill_batch batch_size [] items
        | false ↦ fill_batch batch_size full items
      ]

  unfoldable pub batch_items : List A → ℕ → List (List A)
  unfolding fill_batch
  batch_items items batch_size = fill_batch batch_size [] items
