-- ===== src/State/Store.antt =====
-- state/sqlite_store.py over the tables of state/migrations.py. A table is the list of its rows in
-- the order of their row ids, and an operation takes the reading of the clock that it makes.
-- `json.dumps` of a column is the value that it writes. A column that every caller fills is not
-- optional here.
use ops_incident_collector.Prelude.{
  ℕ, String, Bool, not, ◌&&◌, Option, none, some, List, [], ◌∷◌, ◌++◌, Dict, get, put, keep, ltb,
  ◌===◌, truthy, truthy?, if◌then◌else◌,
}
use ops_incident_collector.Core.Json.{Value}
use ops_incident_collector.Core.Models.{SyncSummary, NormalizedDocument}

pub record FileRecord : Type 0 where
  pub source_name : String
  pub path : String
  pub relative_path : String
  pub checksum : String
  pub size_bytes : ℕ
  pub modified_at : Option ℕ
  pub last_synced_at : ℕ
  pub last_status : String
  pub last_error : Option String

pub record SyncRun : Type 0 where
  pub sync_id : String
  pub source_name : Option String
  pub project_id : Option String
  pub export_target : String
  pub status : String
  pub finished_at : ℕ
  pub files_seen : ℕ
  pub files_uploaded : ℕ
  pub files_skipped : ℕ
  pub documents_synced : ℕ
  pub bytes_processed : ℕ
  pub bytes_uploaded : ℕ
  pub warnings_json : List String
  pub errors_json : List String

pub record FailedUpload : Type 0 where
  pub id : ℕ
  pub sync_id : String
  pub source_name : String
  pub path : String
  pub document_external_id : String
  pub payload_json : Option Value
  pub reason : String
  pub retry_count : ℕ
  pub next_retry_at : Option ℕ
  pub last_error : String
  pub created_at : Option ℕ
  pub updated_at : ℕ

pub record SourceCheckpoint : Type 0 where
  pub checkpoint_json : Value
  pub updated_at : ℕ

pub record SqliteStore : Type 0 where
  pub files : List FileRecord
  pub sync_runs : List SyncRun
  pub failed_uploads : List FailedUpload
  pub source_checkpoints : Dict SourceCheckpoint
  pub normalized_documents : Dict NormalizedDocument

abbrev pub empty_store : SqliteStore
empty_store = record {
  files = [];
  sync_runs = [];
  failed_uploads = [];
  source_checkpoints = [];
  normalized_documents = [];
}

-- WHERE source_name = ? AND relative_path = ?
abbrev pub names_file : (source_name relative_path : String) → FileRecord → Bool
names_file source_name relative_path r =
    (r.source_name === source_name) && (r.relative_path === relative_path)

unfoldable pub find_file :
    (source_name relative_path : String) → List FileRecord → Option FileRecord
find_file source_name relative_path [] = none
find_file source_name relative_path (r ∷ rs) =
    if names_file source_name relative_path r
    then some r
    else find_file source_name relative_path rs

unfoldable pub get_file_record :
    (source_name relative_path : String) → SqliteStore → Option FileRecord
unfolding find_file
get_file_record source_name relative_path s = find_file source_name relative_path s.files

-- INSERT ... ON CONFLICT(source_name, relative_path) DO UPDATE
unfoldable pub upsert_file : FileRecord → List FileRecord → List FileRecord
upsert_file n [] = n ∷ []
upsert_file n (r ∷ rs) =
    if names_file n.source_name n.relative_path r
    then record r {
      path = n.path;
      checksum = n.checksum;
      size_bytes = n.size_bytes;
      modified_at = n.modified_at;
      last_synced_at = n.last_synced_at;
      last_status = n.last_status;
      last_error = n.last_error;
    }
      ∷ rs
    else r ∷ upsert_file n rs

unfoldable pub upsert_file_record :
    (now : ℕ) (source_name path relative_path checksum : String) (size_bytes : ℕ)
    (modified_at : Option ℕ) (last_status : String) (last_error : Option String)
    → SqliteStore
    → SqliteStore
unfolding upsert_file
upsert_file_record now source_name path relative_path checksum size_bytes modified_at last_status
      last_error s =
    record s {
      files =
          upsert_file
            (record {
              source_name = source_name;
              path = path;
              relative_path = relative_path;
              checksum = checksum;
              size_bytes = size_bytes;
              modified_at = modified_at;
              last_synced_at = now;
              last_status = last_status;
              last_error = last_error;
            })
            s.files;
    }

unfoldable pub save_source_checkpoint : ℕ → String → Value → SqliteStore → SqliteStore
unfolding put
save_source_checkpoint now source_name checkpoint s = record s {
  source_checkpoints =
      put source_name (record { checkpoint_json = checkpoint; updated_at = now })
        s.source_checkpoints;
}

unfoldable pub get_source_checkpoint : String → SqliteStore → Option Value
unfolding get
get_source_checkpoint source_name s = elim (get source_name s.source_checkpoints) [
  | none ↦ none
  | some c ↦ some c.checkpoint_json
]

-- `a or b`
abbrev or_else : Option String → Option String → Option String
or_else a b = if truthy? a then a else b

-- INSERT OR REPLACE: the row with the same key goes, and the new row is the last.
unfoldable pub record_sync_run : ℕ → SyncSummary → String → SqliteStore → SqliteStore
record_sync_run now summary status s = record s {
  sync_runs =
      keep (λ r. not (r.sync_id === summary.sync_id)) s.sync_runs
      ++ record {
        sync_id = summary.sync_id;
        source_name = or_else summary.source_name summary.source_id;
        project_id = summary.project_id;
        export_target = summary.export_target;
        status = status;
        finished_at = now;
        files_seen = summary.files_seen;
        files_uploaded = summary.files_uploaded;
        files_skipped = summary.files_skipped;
        documents_synced = summary.documents_synced;
        bytes_processed = summary.bytes_processed;
        bytes_uploaded = summary.bytes_uploaded;
        warnings_json = summary.warnings;
        errors_json = summary.errors;
      }
        ∷ [];
}

-- SELECT * FROM sync_runs ORDER BY finished_at DESC LIMIT 1; of two runs that finished at one time
-- SQLite may give either, and this is the older one.
unfoldable pub latest_run : List SyncRun → Option SyncRun
latest_run [] = none
latest_run (r ∷ rs) = elim (latest_run rs) [
  | none ↦ some r
  | some best ↦ if ltb r.finished_at best.finished_at then some best else some r
]

unfoldable pub get_last_sync_summary : SqliteStore → Option SyncRun
unfolding latest_run
get_last_sync_summary s = latest_run s.sync_runs

unfoldable pub save_normalized_document : NormalizedDocument → SqliteStore → SqliteStore
unfolding put
save_normalized_document document s = record s {
  normalized_documents =
      put
        (elim document.document_id [
          | none ↦ document.external_id
          | some i ↦ if truthy i then i else document.external_id
        ])
        document s.normalized_documents;
}
