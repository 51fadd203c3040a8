-- ===== src/Core/Collecting/Admissions.antt =====
-- Which files core/pipeline.py's `run_sync` makes documents of, and of what in them.
use mathlib.Core.List.{Mem, mem-cons_self, mem-cons_of_mem}
use ops_incident_collector.Prelude.{
  String, not, ◌&&◌, some, List, [], ◌∷◌, ◌≡◌, refl, ◌<>◌, All, All-append, All-map, Result, ok,
  raise, subst, ap, sym,
}
use ops_incident_collector.Core.Models.{SourceItem, NormalizedDocument}
use ops_incident_collector.Core.Machine.{System}
use ops_incident_collector.Core.Collecting.{
  SyncRequest, Sync, skip, add_document, document_of, raw_document, take_items,
}
use ops_incident_collector.Core.Collecting.Rounds.{
  Admitted, Round, failed, skipped, collected, take_items-keeps,
}
use ops_incident_collector.Config.Settings.{AppSettings}
use ops_incident_collector.Processors.Redactor.{redact_text}
use ops_incident_collector.Processors.Normalizer.{normalize_document}

-- The items with the property that they are in a list.
All-Mem : (items : List SourceItem) → All (λ item. Mem item items) items
All-Mem [] = tt
All-Mem (item ∷ items) = (
  mem-cons_self,
  All-map (λ i. Mem i items) (λ i. Mem i (item ∷ items)) (λ i m. mem-cons_of_mem item m) items
      (All-Mem items),
)

module _ (system : System) (settings : AppSettings) (request : SyncRequest) where
  -- The document is of one of the files, which passes the tests, and it holds what redaction leaves
  -- of the text of the file.
  pub record IsDocumentOf (items : List SourceItem) (d : NormalizedDocument) : Type 0 where
    pub item : SourceItem
    pub discovered : Mem item items
    pub admitted : Admitted system settings request item
    pub text : String
    pub read : system.files.read_text item.path ≡ ok text
    pub redacted :
        (d.content, d.redaction)
        ≡ redact_text system.engine text (not request.no_redact && settings.security.redact_secrets)
    pub relative : d.relative_path ≡ some item.relative_path
    pub named : d.external_id ≡ request.source_name <> ":" <> item.relative_path
    pub sized : d.size_bytes ≡ item.size_bytes
    pub dated : d.modified_at ≡ item.modified_at

  AreDocuments : List SourceItem → Sync → Type 0
  AreDocuments items s = All (IsDocumentOf items) s.documents

  made :
      (items : List SourceItem) (item : SourceItem) (s : Sync) (text : String)
      (d : NormalizedDocument) (sha256 : Result String)
      → Mem item items
      → Admitted system settings request item
      → system.files.read_text item.path ≡ ok text
      → normalize_document system.engine system.extractors s.machine.world.clock sha256
          (raw_document item text)
          request.source_name
          s.source_type
          (not request.no_redact && settings.security.redact_secrets)
        ≡ ok d
      → IsDocumentOf items d
  unfolding normalize_document
  made items item s text d (raise e) m a h k = cc k
  made items item s text d (ok c) m a h k = subst (IsDocumentOf items) (ok-injective k) (record {
    item = item;
    discovered = m;
    admitted = a;
    text = text;
    read = h;
    redacted = refl;
    relative = refl;
    named = refl;
    sized = refl;
    dated = refl;
  })
    where
      ok-injective : {a b : NormalizedDocument} → (ok a ≡ ok b) → a ≡ b
      ok-injective e = cc e

  Round-AreDocuments :
      (items : List SourceItem) (item : SourceItem) (s s' : Sync)
      → Mem item items
      → AreDocuments items s
      → Round system settings request item s (ok tt, s')
      → AreDocuments items s'
  unfolding AreDocuments skip add_document document_of
  Round-AreDocuments items item s s' m p (failed e h) = cc (ap (λ r. r.0) h)
  Round-AreDocuments items item s s' m p (skipped reason extension h) =
      subst (AreDocuments items) (sym (ap (λ r. r.1) h)) p
  Round-AreDocuments items item s s' m p (collected content d a c h k r) =
      subst (AreDocuments items) (sym (ap (λ r. r.1) r)) (
        All-append (IsDocumentOf items) s.documents (d ∷ []) p
          (made items item s content d (system.files.sha256 item.path) m a h k, tt))

  -- When the loop goes through, each document is of a discovered file that is not denied, not empty,
  -- not too large, not binary and has a supported extension; its content and its account of the
  -- redaction are what `redact_text` gives of the file's text; and its names, size and time are the
  -- file's.
  pub take_items-IsDocumentOf :
      (items : List SourceItem) (s : Sync)
      → s.documents ≡ []
      → (take_items system settings request items s).0 ≡ ok tt
      → All (IsDocumentOf items) (take_items system settings request items s).1.documents
  unfolding AreDocuments
  take_items-IsDocumentOf items s e =
      take_items-keeps system settings request (AreDocuments items) (λ item. Mem item items)
        (Round-AreDocuments items) items (All-Mem items) s
        (subst (All (IsDocumentOf items)) (sym e) tt)
