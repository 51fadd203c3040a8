-- ===== src/State/Uploads.antt =====
-- The failed-upload queue of state/sqlite_store.py, the table `failed_uploads`.
pub mod Order
pub mod WellFormed
pub mod Keyed
pub mod Retries
use ops_incident_collector.Prelude.{
  ℕ, String, Bool, true, false, ◌&&◌, Option, none, some, List, [], ◌∷◌, ◌++◌, ◌+◌, ◌-◌, ◌*◌, ◌^◌,
  max, min, map, keep, length, ltb, leb, ◌==◌, ◌===◌, not, Dict, increment, sort_dict, truthy,
  if◌then◌else◌,
}
use ops_incident_collector.Core.Json.{Value}
use ops_incident_collector.State.Store.{SqliteStore, FailedUpload}

abbrev pub seconds : ℕ → ℕ
seconds n = n * 1_000_000

-- WHERE source_name = ? AND document_external_id = ?
abbrev pub names_upload : (source_name external_id : String) → FailedUpload → Bool
names_upload source_name external_id r =
    (r.source_name === source_name) && (r.document_external_id === external_id)

-- ORDER BY id DESC LIMIT 1
unfoldable pub find_upload : (source_name external_id : String) → List FailedUpload → Option ℕ
find_upload source_name external_id [] = none
find_upload source_name external_id (r ∷ rs) = elim (find_upload source_name external_id rs) [
  | some i ↦ some (if names_upload source_name external_id r then max i r.id else i)
  | none ↦ if names_upload source_name external_id r then some r.id else none
]

-- The row id that SQLite gives to a new row.
unfoldable pub next_id : List FailedUpload → ℕ
next_id [] = 1
next_id (r ∷ rs) = max (r.id + 1) (next_id rs)

-- UPDATE failed_uploads SET ... WHERE id = ?
abbrev pub update_by_id : ℕ → (FailedUpload → FailedUpload) → List FailedUpload → List FailedUpload
update_by_id i f rows = map (λ r. if r.id == i then f r else r) rows

unfoldable pub get_by_id : ℕ → List FailedUpload → Option FailedUpload
get_by_id i [] = none
get_by_id i (r ∷ rs) = if r.id == i then some r else get_by_id i rs

-- The arguments of `record_failed_upload`.
pub record Failure : Type 0 where
  pub sync_id : String
  pub source_name : String
  pub path : String
  pub document_external_id : String
  pub payload_json : Value
  pub reason : String
  pub last_error : String
  pub retry_count : ℕ

abbrev pub refresh : ℕ → Failure → FailedUpload → FailedUpload
refresh now f r = record r {
  sync_id = f.sync_id;
  path = f.path;
  payload_json = some f.payload_json;
  reason = f.reason;
  retry_count = f.retry_count;
  next_retry_at = some now;
  last_error = f.last_error;
  updated_at = now;
}

abbrev pub new_row : ℕ → ℕ → Failure → FailedUpload
new_row now i f = record {
  id = i;
  sync_id = f.sync_id;
  source_name = f.source_name;
  path = f.path;
  document_external_id = f.document_external_id;
  payload_json = some f.payload_json;
  reason = f.reason;
  retry_count = f.retry_count;
  next_retry_at = some now;
  last_error = f.last_error;
  created_at = some now;
  updated_at = now;
}

unfoldable pub record_row : ℕ → Failure → Option ℕ → List FailedUpload → List FailedUpload
record_row now f (some i) rows = update_by_id i (refresh now f) rows
record_row now f none rows = rows ++ new_row now (next_id rows) f ∷ []

unfoldable pub record_failed_upload : ℕ → Failure → SqliteStore → SqliteStore
unfolding record_row
record_failed_upload now f s = record s {
  failed_uploads =
      record_row now f (find_upload f.source_name f.document_external_id s.failed_uploads)
        s.failed_uploads;
}

abbrev pub before_or_null : ℕ → Option ℕ → Bool
before_or_null now none = true
before_or_null now (some t) = leb t now

abbrev pub has_payload : Option Value → Bool
has_payload none = false
has_payload (some v) = true

-- The WHERE clause of `get_due_failed_uploads`.
unfoldable pub is_due : ℕ → String → ℕ → FailedUpload → Bool
is_due now source_name max_retry_count r =
    (r.source_name === source_name)
    && has_payload r.payload_json
    && ltb r.retry_count max_retry_count
    && before_or_null now r.next_retry_at

-- NULL comes first in SQLite's order.
abbrev created : FailedUpload → ℕ
created r = elim r.created_at [ none ↦ 0 | some t ↦ t + 1 ]

-- ORDER BY created_at ASC, id ASC
abbrev pub earlier : FailedUpload → FailedUpload → Bool
earlier a b =
    if ltb (created a) (created b)
    then true
    else if ltb (created b) (created a)
    then false
    else leb a.id b.id

unfoldable pub insert_row : FailedUpload → List FailedUpload → List FailedUpload
insert_row r [] = r ∷ []
insert_row r (q ∷ rows) = if earlier r q then r ∷ q ∷ rows else q ∷ insert_row r rows

unfoldable pub sort_rows : List FailedUpload → List FailedUpload
unfolding insert_row
sort_rows [] = []
sort_rows (r ∷ rows) = insert_row r (sort_rows rows)

unfoldable pub get_due_failed_uploads : ℕ → String → ℕ → SqliteStore → List FailedUpload
unfolding is_due sort_rows
get_due_failed_uploads now source_name max_retry_count s =
    sort_rows (keep (is_due now source_name max_retry_count) s.failed_uploads)

-- What `update_failed_upload_retry` writes into the row: the delay doubles with each attempt.
abbrev pub retried :
    ℕ → String → (retry_backoff_seconds max_retry_count : ℕ) → FailedUpload → FailedUpload
retried now last_error retry_backoff_seconds max_retry_count r =
    let retry_count = min (r.retry_count + 1) max_retry_count in
    record r {
      retry_count = retry_count;
      next_retry_at = some (now + seconds (retry_backoff_seconds * 2 ^ (retry_count - 1)));
      last_error = last_error;
      updated_at = now;
    }

-- The UPDATE of the row that was read; nothing is written where there is none.
unfoldable pub retry_row :
    ℕ
    → ℕ
    → String
    → (retry_backoff_seconds max_retry_count : ℕ) → Option FailedUpload
    → List FailedUpload
    → List FailedUpload
retry_row now i last_error retry_backoff_seconds max_retry_count none rows = rows
retry_row now i last_error retry_backoff_seconds max_retry_count (some row) rows =
    let new = retried now last_error retry_backoff_seconds max_retry_count row in
    update_by_id i
      (λ r. record r {
        retry_count = new.retry_count;
        next_retry_at = new.next_retry_at;
        last_error = last_error;
        updated_at = now;
      })
      rows

unfoldable pub update_failed_upload_retry :
    ℕ → ℕ → String → (retry_backoff_seconds max_retry_count : ℕ) → SqliteStore → SqliteStore
unfolding get_by_id retry_row
update_failed_upload_retry now i last_error retry_backoff_seconds max_retry_count s = record s {
  failed_uploads =
      retry_row now i last_error retry_backoff_seconds max_retry_count
        (get_by_id i s.failed_uploads) s.failed_uploads;
}

abbrev pub given_up : ℕ → String → ℕ → FailedUpload → FailedUpload
given_up now last_error max_retry_count r = record r {
  retry_count = max_retry_count;
  reason = "non_retryable_upload_error";
  next_retry_at = none;
  last_error = last_error;
  updated_at = now;
}

unfoldable pub mark_failed_upload_non_retryable : ℕ → ℕ → String → ℕ → SqliteStore → SqliteStore
mark_failed_upload_non_retryable now i last_error max_retry_count s = record s {
  failed_uploads = update_by_id i (given_up now last_error max_retry_count) s.failed_uploads;
}

unfoldable pub delete_failed_upload : ℕ → SqliteStore → SqliteStore
delete_failed_upload i s = record s {
  failed_uploads = keep (λ r. not (r.id == i)) s.failed_uploads;
}

unfoldable pub failed_upload_queue_depth : Option String → SqliteStore → ℕ
failed_upload_queue_depth none s = length s.failed_uploads
failed_upload_queue_depth (some source_name) s =
    if truthy source_name
    then length (keep (λ r. r.source_name === source_name) s.failed_uploads)
    else length s.failed_uploads

-- `min(values) if values else None`, over the values that are there.
unfoldable pub least : List (Option ℕ) → Option ℕ
least [] = none
least (none ∷ ts) = least ts
least (some t ∷ ts) = elim (least ts) [ none ↦ some t | some u ↦ some (min t u) ]

pub record QueueStatus : Type 0 where
  pub pending_count : ℕ
  pub exhausted_count : ℕ
  pub total_count : ℕ
  pub next_retry_at : Option ℕ
  pub oldest_failed_upload : Option ℕ
  pub by_source : Dict ℕ

unfoldable pub count_sources : List FailedUpload → Dict ℕ → Dict ℕ
count_sources [] d = d
count_sources (r ∷ rs) d =
    count_sources rs (increment (if truthy r.source_name then r.source_name else "<unknown>") d)

-- The rows themselves, `items`, are left out of the result.
unfoldable pub failed_upload_queue_status : ℕ → SqliteStore → QueueStatus
unfolding least count_sources sort_dict
failed_upload_queue_status max_retry_count s =
    let pending = keep (λ r. ltb r.retry_count max_retry_count) s.failed_uploads in
    let exhausted = keep (λ r. leb max_retry_count r.retry_count) s.failed_uploads in
    record {
      pending_count = length pending;
      exhausted_count = length exhausted;
      total_count = length s.failed_uploads;
      next_retry_at = least (map (λ r. r.next_retry_at) pending);
      oldest_failed_upload = least (map (λ r. r.created_at) s.failed_uploads);
      by_source = sort_dict (count_sources s.failed_uploads []);
    }

abbrev pub created_before : ℕ → FailedUpload → Bool
created_before cutoff r = elim r.created_at [ none ↦ false | some t ↦ ltb t cutoff ]

-- The store without the rows, and their number.
unfoldable pub clear_failed_uploads_before : ℕ → SqliteStore → SqliteStore × ℕ
unfolding failed_upload_queue_depth
clear_failed_uploads_before cutoff s =
    let s' : SqliteStore = record s {
      failed_uploads = keep (λ r. not (created_before cutoff r)) s.failed_uploads;
    } in
    (s', failed_upload_queue_depth none s - failed_upload_queue_depth none s')
