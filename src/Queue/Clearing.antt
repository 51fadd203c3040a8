-- ===== src/Queue/Clearing.antt =====
-- What the command to clear the queue of queue.py leaves in it.
use mathlib.Core.List.{Perm, perm_append_comm}
use mathlib.Core.List.Perm
use ops_incident_collector.Prelude.{
  ℕ, Bool, true, false, not, Option, none, some, List, [], ◌∷◌, ◌++◌, ◌+◌, ◌-◌, ◌≡◌, refl, length,
  keep, ltb, leb, All, All-map, All-keep-test, All-keep-not, keep-perm, ◌*◌, ◌≤◌, ◌<◌, arith,
}
use ops_incident_collector.Config.Settings.{AppSettings}
use ops_incident_collector.State.Store.{SqliteStore, FailedUpload}
use ops_incident_collector.State.Uploads.{
  failed_upload_queue_status, failed_upload_queue_depth, created_before,
  clear_failed_uploads_before,
}
use ops_incident_collector.Queue.{get_queue_status, clear_queue, day}

-- The rows that fail a test and those that pass it are all of them.
length-keep {ℓ} :
    {A : Type ℓ} (test other : A → Bool) (h : (x : A) → other x ≡ not (test x)) (xs : List A)
    → length (keep test xs) + length (keep other xs) ≡ length xs
length-keep test other h [] = refl
length-keep test other h (x ∷ xs) = ground (arith, h x, length-keep test other h xs)

-- The time of a row's creation, before a time, and not before it; a row may have none.
abbrev Before : ℕ → Option ℕ → Type 0
Before cutoff none = ⊥
Before cutoff (some t) = t < cutoff

abbrev NotBefore : ℕ → Option ℕ → Type 0
NotBefore cutoff none = Unit
NotBefore cutoff (some t) = cutoff ≤ t

abbrev pub IsOld : ℕ → FailedUpload → Type 0
IsOld cutoff r = Before cutoff r.created_at

abbrev pub IsRecent : ℕ → FailedUpload → Type 0
IsRecent cutoff r = NotBefore cutoff r.created_at

created_before-IsOld :
    (cutoff : ℕ) (r : FailedUpload) → created_before cutoff r ≡ true → IsOld cutoff r
created_before-IsOld cutoff r = by r.created_at
  where
    by : (o : Option ℕ) → elim o [ none ↦ false | some t ↦ ltb t cutoff ] ≡ true → Before cutoff o
    by none h = cc h
    by (some t) h = ground arith

created_before-IsRecent :
    (cutoff : ℕ) (r : FailedUpload) → created_before cutoff r ≡ false → IsRecent cutoff r
created_before-IsRecent cutoff r = by r.created_at
  where
    by :
        (o : Option ℕ)
        → elim o [ none ↦ false | some t ↦ ltb t cutoff ] ≡ false
        → NotBefore cutoff o
    by none h = tt
    by (some t) h = ground arith

-- The command to clear the queue drops the rows that were created before the given number of days,
-- and no others: the rows that are left and those that are gone are together the rows of before, each
-- that is left was created since then or has no time of creation, and each that is gone was created
-- before. It reports the number of those that are gone, and its status counts those that are left.
pub clear_queue_lem :
    (settings : AppSettings) (failed_before_days now : ℕ) (s : SqliteStore)
    → let cutoff = now - failed_before_days * day in
      let r = clear_queue settings failed_before_days now s in
      (gone : List FailedUpload) × Perm (r.1.failed_uploads ++ gone) s.failed_uploads
      × All (IsRecent cutoff) r.1.failed_uploads
      × All (IsOld cutoff) gone
      × (r.0.0 ≡ length gone)
      × (r.0.1.total_count ≡ length r.1.failed_uploads)
      × (r.0.1.pending_count + r.0.1.exhausted_count ≡ r.0.1.total_count)
unfolding clear_queue get_queue_status failed_upload_queue_status clear_failed_uploads_before
    failed_upload_queue_depth
clear_queue_lem settings failed_before_days now s =
    let cutoff = now - failed_before_days * day in
    let old : FailedUpload → Bool = created_before cutoff in
    let gone : List FailedUpload = keep old s.failed_uploads in
    let left : List FailedUpload = keep (λ u. not (old u)) s.failed_uploads in
    let limit = settings.sync.retry_count in
    (
      gone,
      Perm.trans (perm_append_comm left gone) (keep-perm old s.failed_uploads),
      All-map (λ u. old u ≡ false) (IsRecent cutoff) (λ u e. created_before-IsRecent cutoff u e)
          left (All-keep-not old s.failed_uploads),
      All-map (λ u. old u ≡ true) (IsOld cutoff) (λ u e. created_before-IsOld cutoff u e) gone
          (All-keep-test old s.failed_uploads),
      omega (arith, length-keep old (λ u. not (old u)) (λ u. refl) s.failed_uploads),
      refl,
      length-keep (λ (u : FailedUpload). ltb u.retry_count limit) (λ u. leb limit u.retry_count)
          (λ u. ground arith) left,
    )
