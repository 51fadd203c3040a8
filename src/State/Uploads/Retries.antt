-- ===== src/State/Uploads/Retries.antt =====
-- What a failed attempt does to its row: the attempts left fall, the wait doubles, and a row with
-- no attempt left is never due.
use ops_incident_collector.Prelude.{
  ℕ, String, false, some, List, [], ◌∷◌, ◌+◌, ◌-◌, ◌*◌, ◌^◌, ◌≤◌, ◌<◌, ◌≡◌, refl, length, min,
  arith,
}
use ops_incident_collector.State.Store.{SqliteStore, FailedUpload}
use ops_incident_collector.State.Uploads.{
  seconds, update_by_id, get_by_id, retried, retry_row, is_due, update_failed_upload_retry,
}

-- An update of the row with an id, seen by a read of that id.
get_by_id-update_by_id :
    (i : ℕ) (f : FailedUpload → FailedUpload) (h : (r : FailedUpload) → (f r).id ≡ r.id)
    (rows : List FailedUpload) (r : FailedUpload)
    → get_by_id i rows ≡ some r
    → get_by_id i (update_by_id i f rows) ≡ some (f r)
unfolding get_by_id
get_by_id-update_by_id i f h [] r e = ground arith
get_by_id-update_by_id i f h (q ∷ rows) r e =
    ground (arith, h q, get_by_id-update_by_id i f h rows r)

-- The row after a retryable failure: one attempt more, and a wait that doubles with the attempts.
pub update_failed_upload_retry_lem :
    (now i : ℕ) (error : String) (backoff limit : ℕ) (s : SqliteStore) (r : FailedUpload)
    → get_by_id i s.failed_uploads ≡ some r
    → get_by_id i (update_failed_upload_retry now i error backoff limit s).failed_uploads
      ≡ some (retried now error backoff limit r)
unfolding update_failed_upload_retry
update_failed_upload_retry_lem now i error backoff limit s r e =
    rw (e, retry_row) (get_by_id-update_by_id i _ (λ q. refl) s.failed_uploads r e)

-- A row with no attempt left is due at no time, and before its time no row is due.
pub is_due_cases :
    (t : ℕ) (source_name : String) (limit : ℕ) (r : FailedUpload)
    → (limit ≤ r.retry_count → is_due t source_name limit r ≡ false)
      × ((wake : ℕ) → r.next_retry_at ≡ some wake → t < wake → is_due t source_name limit r ≡ false)
unfolding is_due
is_due_cases t source_name limit r = (λ h. ground arith, λ wake e h. ground arith)

-- A retryable failure of a row with attempts left uses up exactly one of them, sets the next attempt
-- to `backoff * 2 ^ k` seconds from now, where `k` is the number of attempts before, and until then
-- the row is not due.
pub update_failed_upload_retry-backoff :
    (now i : ℕ) (error : String) (backoff limit : ℕ) (s : SqliteStore) (r : FailedUpload) (t : ℕ)
    (source_name : String)
    → get_by_id i s.failed_uploads ≡ some r
    → r.retry_count < limit
    → t < now + seconds (backoff * 2 ^ r.retry_count)
    → (q : FailedUpload) × (get_by_id i
          (update_failed_upload_retry now i error backoff limit s).failed_uploads
        ≡ some q)
      × (q.retry_count ≡ r.retry_count + 1)
      × (q.next_retry_at ≡ some (now + seconds (backoff * 2 ^ r.retry_count)))
      × (is_due t source_name limit q ≡ false)
update_failed_upload_retry-backoff now i error backoff limit s r t source_name e h early =
    let q = retried now error backoff limit r in
    let wake : q.next_retry_at ≡ some (now + seconds (backoff * 2 ^ r.retry_count)) =
      rw (count (omega arith)) in
    (
      q,
      update_failed_upload_retry_lem now i error backoff limit s r e,
      omega arith,
      wake,
      (is_due_cases t source_name limit q).1 (now + seconds (backoff * 2 ^ r.retry_count)) wake
          early,
    )
  where
    count : r.retry_count < limit → min (r.retry_count + 1) limit - 1 ≡ r.retry_count
    count h = omega arith

-- Failed attempts on one row, each with its time and its error.
abbrev pub fail_all : ℕ → (backoff limit : ℕ) → List (ℕ × String) → SqliteStore → SqliteStore
fail_all i backoff limit [] s = s
fail_all i backoff limit ((now, error) ∷ rest) s =
    fail_all i backoff limit rest (update_failed_upload_retry now i error backoff limit s)

-- A row on which as many attempts fail as it had left stays in the queue and is never due again.
pub fail_all-exhausts :
    (i backoff limit : ℕ) (attempts : List (ℕ × String)) (s : SqliteStore) (r : FailedUpload)
    → get_by_id i s.failed_uploads ≡ some r
    → limit ≤ r.retry_count + length attempts
    → (q : FailedUpload) × (get_by_id i (fail_all i backoff limit attempts s).failed_uploads
        ≡ some q)
      × ((t : ℕ) (source_name : String) → is_due t source_name limit q ≡ false)
fail_all-exhausts i backoff limit [] s r e h =
    (r, e, λ t source_name. (is_due_cases t source_name limit r).0 (omega arith))
fail_all-exhausts i backoff limit ((now, error) ∷ rest) s r e h =
    fail_all-exhausts i backoff limit rest _ (retried now error backoff limit r)
      (update_failed_upload_retry_lem now i error backoff limit s r e) (omega arith)
