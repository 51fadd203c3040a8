-- ===== src/Processors/Normalizer/Secrecy.antt =====
-- Nothing of a text but what redaction leaves of it reaches the document of processors/normalizer.py,
-- apart from the checksum, which is the digest of the raw file.
use ops_incident_collector.Prelude.{ℕ, String, Bool, ◌≡◌, refl, ok}
use ops_incident_collector.Core.Models.{RawDocument, NormalizedDocument}
use ops_incident_collector.Processors.Regex.{Engine}
use ops_incident_collector.Processors.Redactor.{redact_text}
use ops_incident_collector.Processors.Normalizer.{
  Extractors, detect_type, build_document, normalize_document,
}

-- Two texts of one file that redaction makes equal and that are classified alike give, whatever the
-- digests of the two files are, documents that differ in their checksum only: metadata and hints
-- included, each column but that one is the same.
pub normalize_document-redact_text :
    (engine : Engine) (x : Extractors) (now : ℕ) (digest other_digest : String) (raw : RawDocument)
    (other source_name source_type : String) (redact_secrets : Bool)
    → redact_text engine raw.content redact_secrets ≡ redact_text engine other redact_secrets
    → detect_type engine raw.source_item raw.content ≡ detect_type engine raw.source_item other
    → (d : NormalizedDocument) × (normalize_document engine x now
          (ok digest)
          raw
          source_name
          source_type
          redact_secrets
        ≡ ok d)
      × (d.checksum ≡ digest)
      × (normalize_document engine x now
            (ok other_digest)
            (record raw { content = other })
            source_name
            source_type
            redact_secrets
          ≡ ok (record d { checksum = other_digest }))
unfolding normalize_document build_document
normalize_document-redact_text engine x now digest other_digest raw other source_name source_type r
      e t =
    (_, refl, refl, rw (e, t) refl)
