-- ===== src/Tests/Queue.antt =====
-- The queue of the failed uploads at concrete rows.
use mathlib.Core.List.{Perm}
use ops_incident_collector.Prelude.{
  ℕ, String, false, some, List, [], ◌∷◌, ◌+◌, ◌*◌, ◌^◌, ◌≡◌, refl, ◌++◌, All, arith, ◌&&◌, ◌===◌,
  if◌then◌else◌,
}
use ops_incident_collector.Core.Json.{null}
use ops_incident_collector.State.Store.{FailedUpload}
use ops_incident_collector.State.Uploads.{
  Failure, record_failed_upload, get_by_id, update_failed_upload_retry, is_due, seconds,
  get_due_failed_uploads,
}
use ops_incident_collector.State.Uploads.WellFormed.{
  IsWellFormed, QueueOperation, fail, delete, clear, run, run-IsWellFormed,
}
use ops_incident_collector.State.Uploads.Keyed.{view, recorded, record_failed_upload-view}
use ops_incident_collector.State.Uploads.Retries.{
  update_failed_upload_retry-backoff, fail_all, fail_all-exhausts,
}
use ops_incident_collector.State.Uploads.Order.{IsDue, OldestFirst, get_due_failed_uploads_lem}
use ops_incident_collector.Tests.Fixtures.{row, queued}

abbrev failure : Failure
failure = record {
  sync_id = "s2";
  source_name = "src";
  path = "a";
  document_external_id = "one";
  payload_json = null;
  reason = "retryable_upload_error";
  last_error = "down";
  retry_count = 0;
}

abbrev operations : List (ℕ × QueueOperation)
operations = (100, fail failure) ∷ (200, delete 2) ∷ (300, clear 6) ∷ (400, fail failure) ∷ []

pub queued-IsWellFormed : IsWellFormed queued.failed_uploads
queued-IsWellFormed = record { ids = ((refl, tt), (tt, tt)); keys = ((refl, tt), (tt, tt)) }

run-IsWellFormed_example : IsWellFormed (run operations queued).failed_uploads
run-IsWellFormed_example = run-IsWellFormed operations queued queued-IsWellFormed

record_failed_upload-view_example :
    view "src" "two" (record_failed_upload 100 failure queued).failed_uploads ≡ (
      if ("src" === "src") && ("one" === "two")
      then some
          (recorded 100 failure queued.failed_uploads (view "src" "one" queued.failed_uploads))
      else view "src" "two" queued.failed_uploads)
record_failed_upload-view_example =
    record_failed_upload-view 100 failure queued "src" "two" queued-IsWellFormed

update_failed_upload_retry-backoff_example :
    (q : FailedUpload) × (get_by_id 1
        (update_failed_upload_retry 100 1 "down" 5 3 queued).failed_uploads
      ≡ some q)
    × (q.retry_count ≡ 1 + 1)
    × (q.next_retry_at ≡ some (100 + seconds (5 * 2 ^ 1)))
    × (is_due 200 "src" 3 q ≡ false)
unfolding get_by_id
update_failed_upload_retry-backoff_example =
    update_failed_upload_retry-backoff 100 1 "down" 5 3 queued (row 1 1) 200 "src" refl
      (omega arith) (omega arith)

fail_all-exhausts_example :
    (q : FailedUpload) × (get_by_id 1
        (fail_all 1 5 3 ((100, "down") ∷ (200, "down") ∷ []) queued).failed_uploads
      ≡ some q)
    × ((t : ℕ) (source_name : String) → is_due t source_name 3 q ≡ false)
unfolding get_by_id
fail_all-exhausts_example =
    fail_all-exhausts 1 5 3 ((100, "down") ∷ (200, "down") ∷ []) queued (row 1 1) refl (omega arith)

get_due_failed_uploads_lem_example :
    let due = get_due_failed_uploads 100 "src" 1 queued in
    (others : List FailedUpload) × Perm (due ++ others) queued.failed_uploads
    × All (IsDue 100 "src" 1) due
    × All (λ r. ¬ IsDue 100 "src" 1 r) others
    × OldestFirst due
get_due_failed_uploads_lem_example = get_due_failed_uploads_lem 100 "src" 1 queued
