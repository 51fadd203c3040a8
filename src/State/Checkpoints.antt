-- ===== src/State/Checkpoints.antt =====
-- state/checkpoints.py. The digest of the file is an argument: `hashlib` computes it, and reading
-- the file may raise.
pub mod Decisions
use ops_incident_collector.Prelude.{
  ℕ, String, Bool, true, false, ◌&&◌, Option, none, some, ◌==◌, ◌===◌, Action, Result, ok, raise,
  if◌then◌else◌,
}
use ops_incident_collector.Core.Models.{SourceItem}
use ops_incident_collector.State.Store.{SqliteStore, FileRecord, get_file_record}

pub record CheckpointDecision : Type 0 where
  pub should_process : Bool
  pub checksum : Option String
  pub reason : String

-- `a == b` of two optional times.
abbrev pub same_time : Option ℕ → Option ℕ → Bool
same_time none none = true
same_time none (some b) = false
same_time (some a) none = false
same_time (some a) (some b) = a == b

abbrev digest_then : (String → CheckpointDecision) → Result String → Result CheckpointDecision
digest_then f (ok checksum) = ok (f checksum)
digest_then f (raise e) = raise e

abbrev pub decision : Bool → Option String → String → CheckpointDecision
decision should_process checksum reason = record {
  should_process = should_process;
  checksum = checksum;
  reason = reason;
}

unfoldable pub decide_item :
    (sha256 : Result String) → SourceItem → Option FileRecord → Result CheckpointDecision
decide_item sha256 item none = digest_then (λ c. decision true (some c) "new_file") sha256
decide_item sha256 item (some r) =
    if (r.size_bytes == item.size_bytes) && same_time r.modified_at item.modified_at
    then ok (decision false none "mtime_size_unchanged")
    else digest_then
        (λ c.
          if r.checksum === c
          then decision false (some c) "checksum_unchanged"
          else decision true (some c) "changed")
        sha256

unfoldable pub should_process_item :
    (sha256 : Result String) → SqliteStore → String → SourceItem → Result CheckpointDecision
unfolding decide_item get_file_record
should_process_item sha256 store source_name item =
    decide_item sha256 item (get_file_record source_name item.relative_path store)
