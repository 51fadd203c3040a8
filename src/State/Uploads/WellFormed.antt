-- ===== src/State/Uploads/WellFormed.antt =====
-- The queue is keyed: no two rows have one row id, and no two stand for one document of a source.
use ops_incident_collector.Prelude.{
  ℕ, String, Bool, false, Option, none, some, List, [], ◌∷◌, ◌+◌, ◌<◌, ◌≡◌, refl, keep, max, ◌==◌,
  All, All-map, Distinct, Distinct-keep, Distinct-map, Distinct-snoc, arith, if◌then◌else◌,
}
use ops_incident_collector.State.Store.{SqliteStore, FailedUpload}
use ops_incident_collector.State.Uploads.{
  names_upload, find_upload, next_id, update_by_id, get_by_id, retry_row, Failure, refresh, new_row,
  record_row, record_failed_upload, update_failed_upload_retry, mark_failed_upload_non_retryable,
  delete_failed_upload, clear_failed_uploads_before, given_up,
}

abbrev pub same_id : FailedUpload → FailedUpload → Bool
same_id r q = r.id == q.id

abbrev pub same_key : FailedUpload → FailedUpload → Bool
same_key r q = names_upload q.source_name q.document_external_id r

pub record IsWellFormed (rows : List FailedUpload) : Type 0 where
  pub ids : Distinct same_id rows
  pub keys : Distinct same_key rows

-- An update that leaves the id and the key.
abbrev Keeps : (FailedUpload → FailedUpload) → Type 0
Keeps f =
    (r : FailedUpload)
    → ((f r).id ≡ r.id)
      × ((f r).source_name ≡ r.source_name)
      × ((f r).document_external_id ≡ r.document_external_id)

-- What an update by an id does to a row.
abbrev pub at : (FailedUpload → FailedUpload) → ℕ → FailedUpload → FailedUpload
at f i r = if r.id == i then f r else r

module _ (f : FailedUpload → FailedUpload) (k : Keeps f) (i : ℕ) where
  at-Keeps : Keeps (at f i)
  at-Keeps r = (ground (arith, k r), ground (arith, k r), ground (arith, k r))

  pub update_by_id-IsWellFormed :
      (rows : List FailedUpload) → IsWellFormed rows → IsWellFormed (update_by_id i f rows)
  update_by_id-IsWellFormed rows w = record {
    ids = Distinct-map same_id (at f i) (λ x y. cc ((at-Keeps x).0, (at-Keeps y).0)) rows w.ids;
    keys =
        Distinct-map same_key (at f i)
          (λ x y. cc ((at-Keeps x).1, (at-Keeps x).2, (at-Keeps y).1, (at-Keeps y).2)) rows w.keys;
  }

pub keep-IsWellFormed :
    (test : FailedUpload → Bool) (rows : List FailedUpload)
    → IsWellFormed rows
    → IsWellFormed (keep test rows)
keep-IsWellFormed test rows w = record {
  ids = Distinct-keep same_id test rows w.ids;
  keys = Distinct-keep same_key test rows w.keys;
}

-- A new row id is above all others.
pub next_id_above : (rows : List FailedUpload) → All (λ r. r.id < next_id rows) rows
unfolding next_id
next_id_above [] = tt
next_id_above (r ∷ rows) = (
  omega arith,
  All-map (λ q. q.id < next_id rows) (λ q. q.id < max (r.id + 1) (next_id rows))
      (λ q h. omega arith) rows (next_id_above rows),
)

-- No row is found only where none has the key.
pub find_upload-none :
    (s e : String) (rows : List FailedUpload)
    → find_upload s e rows ≡ none
    → All (λ r. names_upload s e r ≡ false) rows
unfolding find_upload
find_upload-none s e [] h = tt
find_upload-none s e (r ∷ rows) h = (ground arith, find_upload-none s e rows (ground arith))

pub record_row-IsWellFormed :
    (now : ℕ) (f : Failure) (rows : List FailedUpload) (found : Option ℕ)
    → find_upload f.source_name f.document_external_id rows ≡ found
    → IsWellFormed rows
    → IsWellFormed (record_row now f found rows)
unfolding record_row
record_row-IsWellFormed now f rows (some i) e w =
    update_by_id-IsWellFormed (refresh now f) (λ r. (refl, refl, refl)) i rows w
record_row-IsWellFormed now f rows none e w = record {
  ids =
      Distinct-snoc same_id rows (new_row now (next_id rows) f)
        (All-map (λ r. r.id < next_id rows) (λ r. (r.id == next_id rows) ≡ false)
          (λ r h. ground arith) rows (next_id_above rows))
        w.ids;
  keys =
      Distinct-snoc same_key rows (new_row now (next_id rows) f)
        (find_upload-none f.source_name f.document_external_id rows e) w.keys;
}

retry_row-IsWellFormed :
    (now i : ℕ) (e : String) (b m : ℕ) (found : Option FailedUpload) (rows : List FailedUpload)
    → IsWellFormed rows
    → IsWellFormed (retry_row now i e b m found rows)
unfolding retry_row
retry_row-IsWellFormed now i e b m none rows w = w
retry_row-IsWellFormed now i e b m (some row) rows w =
    update_by_id-IsWellFormed _ (λ r. (refl, refl, refl)) i rows w

-- The operations that write the table.
pub data QueueOperation : Type 0 where
  fail : Failure → QueueOperation
  retry :
      (id : ℕ) (last_error : String) (retry_backoff_seconds max_retry_count : ℕ) → QueueOperation
  give_up : (id : ℕ) (last_error : String) (max_retry_count : ℕ) → QueueOperation
  delete : (id : ℕ) → QueueOperation
  clear : (cutoff : ℕ) → QueueOperation

abbrev pub apply : ℕ → QueueOperation → SqliteStore → SqliteStore
apply now (fail f) s = record_failed_upload now f s
apply now (retry i e b m) s = update_failed_upload_retry now i e b m s
apply now (give_up i e m) s = mark_failed_upload_non_retryable now i e m s
apply now (delete i) s = delete_failed_upload i s
apply now (clear cutoff) s = (clear_failed_uploads_before cutoff s).0

-- Operations, each with the reading of the clock that it makes.
abbrev pub run : List (ℕ × QueueOperation) → SqliteStore → SqliteStore
run [] s = s
run ((now, o) ∷ rest) s = run rest (apply now o s)

pub apply-IsWellFormed :
    (now : ℕ) (o : QueueOperation) (s : SqliteStore)
    → IsWellFormed s.failed_uploads
    → IsWellFormed (apply now o s).failed_uploads
unfolding record_failed_upload update_failed_upload_retry mark_failed_upload_non_retryable
    delete_failed_upload clear_failed_uploads_before
apply-IsWellFormed now (fail f) s w = record_row-IsWellFormed now f s.failed_uploads _ refl w
apply-IsWellFormed now (retry i e b m) s w =
    retry_row-IsWellFormed now i e b m (get_by_id i s.failed_uploads) s.failed_uploads w
apply-IsWellFormed now (give_up i e m) s w =
    update_by_id-IsWellFormed (given_up now e m) (λ r. (refl, refl, refl)) i s.failed_uploads w
apply-IsWellFormed now (delete i) s w = keep-IsWellFormed _ s.failed_uploads w
apply-IsWellFormed now (clear cutoff) s w = keep-IsWellFormed _ s.failed_uploads w

-- Whatever operations write the queue, from a queue with no two rows of one id or of one document
-- of a source, they leave such a queue.
pub run-IsWellFormed :
    (ops : List (ℕ × QueueOperation)) (s : SqliteStore)
    → IsWellFormed s.failed_uploads
    → IsWellFormed (run ops s).failed_uploads
run-IsWellFormed [] s w = w
run-IsWellFormed ((now, o) ∷ rest) s w =
    run-IsWellFormed rest (apply now o s) (apply-IsWellFormed now o s w)
