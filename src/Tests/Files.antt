-- ===== src/Tests/Files.antt =====
-- The processors and the records of files at concrete data.
use mathlib.Core.List.{flatten}
use ops_incident_collector.Prelude.{
  ℕ, true, false, none, some, List, [], ◌∷◌, ◌≡◌, refl, non_empty, ok, arith, max, ◌↔◌, path_parts,
}
use ops_incident_collector.Core.Json.{end}
use ops_incident_collector.Core.Models.{NormalizedDocument, SourceItem, RawDocument}
use ops_incident_collector.Config.Settings.{default_deny_patterns}
use ops_incident_collector.State.Checkpoints.{CheckpointDecision, should_process_item}
use ops_incident_collector.State.Checkpoints.Decisions.{
  Differs, should_process_item-Differs, should_process_item-upsert_file_record,
}
use ops_incident_collector.State.Store.{get_file_record, upsert_file_record, empty_store}
use ops_incident_collector.Processors.Batcher.{batch_items}
use ops_incident_collector.Processors.Batcher.Batches.{AreBatches, batch_items_lem}
use ops_incident_collector.Processors.PathPolicy.{is_denied_path}
use ops_incident_collector.Processors.PathPolicy.Denials.{is_denied_path-tail_of}
use ops_incident_collector.Processors.Regex.{Replaces}
use ops_incident_collector.Processors.Redactor.{redact_text, redaction_patterns}
use ops_incident_collector.Processors.Redactor.Reference.{replace_all, redact_text-replace_all}
use ops_incident_collector.Processors.Normalizer.{normalize_document, detect_type}
use ops_incident_collector.Processors.Normalizer.Secrecy.{normalize_document-redact_text}
use ops_incident_collector.Tests.Fixtures.{engine, blanking, extractors}

abbrev item : SourceItem
item = record {
  path = "app.log";
  relative_path = "app.log";
  size_bytes = 10;
  modified_at = some 7;
  extension = ".log";
  detected_type = none;
}

abbrev other_item : SourceItem
other_item = record item { relative_path = "run.md" }

abbrev raw : RawDocument
raw = record { source_item = item; content = "Bearer abc 1"; encoding = "utf-8"; metadata = end }

abbrev three : List ℕ
three = 1 ∷ 2 ∷ 3 ∷ []

batch_items_lem_example :
    (flatten (batch_items three 2) ≡ three) × AreBatches (max 2 1) (batch_items three 2)
batch_items_lem_example = batch_items_lem three 2

is_denied_path-tail_of_example :
    is_denied_path "a/node_modules/b/index.js" default_deny_patterns
    ≡ is_denied_path "b/index.js" default_deny_patterns
unfolding path_parts
is_denied_path-tail_of_example =
    is_denied_path-tail_of "a/node_modules/b/index.js" "b/index.js" refl

engine-Replaces : Replaces engine
engine-Replaces = record {
  counted = λ r replacement text. ground arith;
  untouched = λ r replacement text h. ground arith;
}

redact_text-replace_all_example :
    ((redact_text engine "Bearer abc" true).0
      ≡ (replace_all engine engine-Replaces redaction_patterns ("Bearer abc", 0)).0)
    × ((redact_text engine "Bearer abc" true).1.redacted_count
        ≡ (replace_all engine engine-Replaces redaction_patterns ("Bearer abc", 0)).1)
    × ((redact_text engine "Bearer abc" true).1.had_possible_secret
        ≡ non_empty (redact_text engine "Bearer abc" true).1.patterns_matched)
redact_text-replace_all_example = redact_text-replace_all engine engine-Replaces "Bearer abc"

normalize_document-redact_text_example :
    (d : NormalizedDocument) × (normalize_document blanking extractors 7
        (ok "aa")
        raw
        "src"
        "filesystem"
        true
      ≡ ok d)
    × (d.checksum ≡ "aa")
    × (normalize_document blanking extractors 7
          (ok "bb")
          (record raw { content = "Bearer abc 2" })
          "src"
          "filesystem"
          true
        ≡ ok (record d { checksum = "bb" }))
unfolding redact_text detect_type
normalize_document-redact_text_example =
    normalize_document-redact_text blanking extractors 7 "aa" "bb" raw "Bearer abc 2" "src"
      "filesystem" true refl refl

should_process_item-Differs_example :
    (d : CheckpointDecision) × (should_process_item (ok "aa") empty_store "src" item ≡ ok d)
    × ((d.should_process ≡ true) ↔ Differs "aa" item (get_file_record "src" "app.log" empty_store))
should_process_item-Differs_example = should_process_item-Differs "aa" empty_store "src" item

should_process_item-upsert_file_record_example :
    let s' =
      upsert_file_record 100 "src" "app.log" "app.log" "aa" 10
        (some 7)
        "failed"
        (some "down")
        empty_store in
    (should_process_item (ok "bb") s' "src" item
      ≡ ok (record { should_process = false; checksum = none; reason = "mtime_size_unchanged" }))
    × (should_process_item (ok "bb") s' "src" other_item
        ≡ should_process_item (ok "bb") empty_store "src" other_item)
should_process_item-upsert_file_record_example =
    should_process_item-upsert_file_record 100 "src" "app.log" "aa" "failed" (some "down")
      empty_store item (ok "bb") "src" other_item refl
