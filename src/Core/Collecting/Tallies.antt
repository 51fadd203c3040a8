-- ===== src/Core/Collecting/Tallies.antt =====
-- The numbers that core/pipeline.py's `run_sync` counts in its loop.
use ops_incident_collector.Prelude.{
  ℕ, String, List, [], ◌∷◌, ◌+◌, ◌≡◌, refl, ◌===◌, eq_iff, truthy, length, sum_of, length-append,
  sum_of-append, Dict, get, count_of, increment, total, total-increment, All, ok, arith, Bool-cases,
  inl, inr, if◌then◌else◌, subst, ap, sym,
}
use ops_incident_collector.Core.Models.{SourceItem, NormalizedDocument}
use ops_incident_collector.Core.Machine.{System}
use ops_incident_collector.Core.Collecting.{
  SyncRequest, Sync, skip, add_document, kind_of, see, take_items,
}
use ops_incident_collector.Core.Collecting.Rounds.{
  Round, failed, skipped, collected, take_items-keeps,
}
use ops_incident_collector.Config.Settings.{AppSettings}

count_of-increment :
    (k j : String) (d : Dict ℕ)
    → count_of j (increment k d) ≡ (if k === j then count_of j d + 1 else count_of j d)
unfolding increment get
count_of-increment k j [] = ground (arith, eq_iff k j)
count_of-increment k j ((i, n) ∷ d) =
    ground (arith, eq_iff k j, eq_iff i k, eq_iff i j, count_of-increment k j d)

extension_counted :
    (reason key : String) (reasons extensions : Dict ℕ)
    → total extensions ≡ count_of "unsupported_extension" reasons
    → total (if reason === "unsupported_extension" then increment key extensions else extensions)
      ≡ count_of "unsupported_extension" (increment reason reasons)
extension_counted reason key reasons extensions h =
    rw (count_of-increment reason "unsupported_extension" reasons)
      (elim (Bool-cases (reason === "unsupported_extension")) [
        | inl t ↦ rw (t, total-increment key extensions, h) refl
        | inr f ↦ rw (f, h) refl
      ])

-- The counts agree with each other and with the documents.
pub record Tallied (s : Sync) : Type 0 where
  pub seen : s.summary.files_seen ≡ s.summary.files_skipped + s.summary.documents_normalized
  pub reasons : total s.summary.skipped_reasons ≡ s.summary.files_skipped
  pub kinds : total s.summary.source_type_counts ≡ s.summary.documents_normalized
  pub extensions :
      total s.summary.unsupported_extensions
      ≡ count_of "unsupported_extension" s.summary.skipped_reasons
  pub documents : s.summary.documents_normalized ≡ length s.documents
  pub bytes : s.summary.bytes_processed ≡ sum_of (λ d. d.size_bytes) s.documents
  pub redactions : s.summary.redaction_count ≡ sum_of (λ d. d.redaction.redacted_count) s.documents

module _ (system : System) (settings : AppSettings) (request : SyncRequest) where
  skip-Tallied :
      (reason extension : String) (s : Sync)
      → Tallied s
      → Tallied (skip reason extension (see system settings request s))
  unfolding skip
  skip-Tallied reason extension s t = record {
    seen = omega (arith, t.seen);
    reasons = omega (arith, total-increment reason s.summary.skipped_reasons, t.reasons);
    kinds = t.kinds;
    extensions =
        extension_counted reason (if truthy extension then extension else "<none>")
          s.summary.skipped_reasons s.summary.unsupported_extensions t.extensions;
    documents = t.documents;
    bytes = t.bytes;
    redactions = t.redactions;
  }

  add_document-Tallied :
      (d : NormalizedDocument) (s : Sync)
      → Tallied s
      → Tallied (add_document d (see system settings request s))
  unfolding add_document
  add_document-Tallied d s t = record {
    seen = omega (arith, t.seen);
    reasons = t.reasons;
    kinds = omega (arith, total-increment (kind_of d) s.summary.source_type_counts, t.kinds);
    extensions = t.extensions;
    documents = omega (arith, length-append s.documents (d ∷ []), t.documents);
    bytes = omega (
      arith,
      sum_of-append (λ (d : NormalizedDocument). d.size_bytes) s.documents (d ∷ []),
      t.bytes,
    );
    redactions = omega (
      arith,
      sum_of-append (λ (d : NormalizedDocument). d.redaction.redacted_count) s.documents (d ∷ []),
      t.redactions,
    );
  }

  All-unit : (items : List SourceItem) → All (λ _. Unit {0}) items
  All-unit [] = tt
  All-unit (item ∷ items) = (tt, All-unit items)

  Round-Tallied :
      (item : SourceItem) (s s' : Sync)
      → Unit {0}
      → Tallied s
      → Round system settings request item s (ok tt, s')
      → Tallied s'
  Round-Tallied item s s' u t (failed e h) = cc (ap (λ r. r.0) h)
  Round-Tallied item s s' u t (skipped reason extension h) =
      subst Tallied (sym (ap (λ r. r.1) h)) (skip-Tallied reason extension s t)
  Round-Tallied item s s' u t (collected content d a c h k r) =
      subst Tallied (sym (ap (λ r. r.1) r)) (add_document-Tallied d s t)

  -- When the loop goes through, the files that it has seen are those that it has skipped and those
  -- that it has made documents of; the skips by reason add up to the skipped files, the documents by
  -- type to the documents, and the unsupported extensions to the skips for that reason; the bytes and
  -- the redactions are the sums over the documents.
  pub take_items-Tallied :
      (items : List SourceItem) (s : Sync)
      → Tallied s
      → (take_items system settings request items s).0 ≡ ok tt
      → Tallied (take_items system settings request items s).1
  take_items-Tallied items s =
      take_items-keeps system settings request Tallied (λ _. Unit {0}) Round-Tallied items
        (All-unit items) s
