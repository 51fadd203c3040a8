-- ===== src/State/Uploads/Order.antt =====
-- Which rows are due, and in which order they are tried.
use mathlib.Core.List.{Perm}
use mathlib.Core.List.Perm
use ops_incident_collector.Prelude.{
  ℕ, String, Bool, true, false, not, ◌&&◌, ◌===◌, ltb, Option, none, some, List, [], ◌∷◌, ◌++◌, ◌≡◌,
  refl, keep, non_empty, All, All-map, Bool-cases, inl, inr, arith, ◌≤◌, ◌<◌, ◌⊎◌, ◌↔◌, eq_iff,
  keep-perm, All-keep-test, All-keep-not,
}
use ops_incident_collector.Core.Json.{Value}
use ops_incident_collector.State.Store.{SqliteStore, FailedUpload}
use ops_incident_collector.State.Uploads.{
  earlier, insert_row, sort_rows, is_due, get_due_failed_uploads, has_payload, before_or_null,
}

-- Each row may stand before all that follow it.
abbrev pub InOrder : List FailedUpload → Type 0
InOrder [] = Unit
InOrder (r ∷ rows) = All (λ q. earlier r q ≡ true) rows × InOrder rows

earlier_total : (a b : FailedUpload) → earlier a b ≡ false → earlier b a ≡ true
earlier_total a b h = ground arith

earlier_trans :
    (a b c : FailedUpload) → earlier a b ≡ true → earlier b c ≡ true → earlier a c ≡ true
earlier_trans a b c h k = ground arith

All-insert_row :
    (P : FailedUpload → Type 0) (r : FailedUpload) (rows : List FailedUpload)
    → P r
    → All P rows
    → All P (insert_row r rows)
unfolding insert_row
All-insert_row P r [] p h = (p, tt)
All-insert_row P r (q ∷ rows) p h = elim (Bool-cases (earlier r q)) [
  | inl e ↦ rw e (p, h)
  | inr e ↦ rw e (h.0, All-insert_row P r rows p h.1)
]

InOrder-insert_row :
    (r : FailedUpload) (rows : List FailedUpload) → InOrder rows → InOrder (insert_row r rows)
unfolding insert_row
InOrder-insert_row r [] h = (tt, tt)
InOrder-insert_row r (q ∷ rows) h = elim (Bool-cases (earlier r q)) [
  | inl e ↦ rw e (
    (
      e,
      All-map (λ c. earlier q c ≡ true) (λ c. earlier r c ≡ true) (λ c k. earlier_trans r q c e k)
          rows h.0,
    ),
    h,
  )
  | inr e ↦ rw e (
    All-insert_row (λ c. earlier q c ≡ true) r rows (earlier_total r q e) h.0,
    InOrder-insert_row r rows h.1,
  )
]

insert_row-perm :
    (r : FailedUpload) (rows : List FailedUpload) → Perm (insert_row r rows) (r ∷ rows)
unfolding insert_row
insert_row-perm r [] = Perm.refl _
insert_row-perm r (q ∷ rows) = elim (Bool-cases (earlier r q)) [
  | inl e ↦ rw e (Perm.refl _)
  | inr e ↦ rw e (Perm.trans (Perm.cons q (insert_row-perm r rows)) (Perm.swap r q rows))
]

sort_rows-perm : (rows : List FailedUpload) → Perm (sort_rows rows) rows
unfolding sort_rows
sort_rows-perm [] = Perm.refl _
sort_rows-perm (r ∷ rows) =
    Perm.trans (insert_row-perm r (sort_rows rows)) (Perm.cons r (sort_rows-perm rows))

sort_rows-InOrder : (rows : List FailedUpload) → InOrder (sort_rows rows)
unfolding sort_rows
sort_rows-InOrder [] = tt
sort_rows-InOrder (r ∷ rows) = InOrder-insert_row r (sort_rows rows) (sort_rows-InOrder rows)

pub All-sort_rows :
    (P : FailedUpload → Type 0) (rows : List FailedUpload) → All P rows → All P (sort_rows rows)
unfolding sort_rows
All-sort_rows P [] h = tt
All-sort_rows P (r ∷ rows) h = All-insert_row P r (sort_rows rows) h.0 (All-sort_rows P rows h.1)

-- A row may be tried again: it is of the source, has its payload, has tries left, and its time has
-- come.
abbrev HasPayload : Option Value → Type 0
HasPayload none = ⊥
HasPayload (some v) = Unit

abbrev HasCome : ℕ → Option ℕ → Type 0
HasCome now none = Unit
HasCome now (some t) = t ≤ now

abbrev pub IsDue : ℕ → String → ℕ → FailedUpload → Type 0
IsDue now source_name limit r =
    (r.source_name ≡ source_name)
    × HasPayload r.payload_json
    × (r.retry_count < limit)
    × HasCome now r.next_retry_at

-- The older row, a row without a time before all others, and the smaller id of one time.
abbrev NotAfter : Option ℕ → Option ℕ → Type 0 → Type 0
NotAfter none none P = P
NotAfter none (some u) P = Unit
NotAfter (some t) none P = ⊥
NotAfter (some t) (some u) P = (t < u) ⊎ ((t ≡ u) × P)

abbrev pub Precedes : FailedUpload → FailedUpload → Type 0
Precedes a b = NotAfter a.created_at b.created_at (a.id ≤ b.id)

abbrev pub OldestFirst : List FailedUpload → Type 0
OldestFirst [] = Unit
OldestFirst (r ∷ rows) = All (Precedes r) rows × OldestFirst rows

earlier-Precedes : (a b : FailedUpload) → earlier a b ≡ true → Precedes a b
earlier-Precedes a b h = by a.created_at b.created_at refl refl
  where
    by : (s t : Option ℕ) → a.created_at ≡ s → b.created_at ≡ t → NotAfter s t (a.id ≤ b.id)
    by none none p q = ground arith
    by none (some u) p q = tt
    by (some t) none p q = ground arith
    by (some t) (some u) p q = ground arith

InOrder-OldestFirst : (rows : List FailedUpload) → InOrder rows → OldestFirst rows
InOrder-OldestFirst [] h = tt
InOrder-OldestFirst (r ∷ rows) h = (
  All-map (λ q. earlier r q ≡ true) (Precedes r) (λ q e. earlier-Precedes r q e) rows h.0,
  InOrder-OldestFirst rows h.1,
)

is_due_iff :
    (now : ℕ) (source_name : String) (limit : ℕ) (r : FailedUpload)
    → (is_due now source_name limit r ≡ true) ↔ IsDue now source_name limit r
unfolding is_due
is_due_iff now source_name limit r = by r.payload_json r.next_retry_at refl refl
  where
    by :
        (v : Option Value) (t : Option ℕ)
        → r.payload_json ≡ v
        → r.next_retry_at ≡ t
        → ((r.source_name === source_name)
              && has_payload v
              && ltb r.retry_count limit
              && before_or_null now t
            ≡ true)
          ↔ ((r.source_name ≡ source_name) × HasPayload v × (r.retry_count < limit) × HasCome now t)
    by none t p q = (λ h. ground arith, λ h. absurd h.1)
    by (some v) none p q = (
      λ h. ground (arith, eq_iff r.source_name source_name),
      λ h. ground (arith, eq_iff r.source_name source_name),
    )
    by (some v) (some t) p q = (
      λ h. ground (arith, eq_iff r.source_name source_name),
      λ h. ground (arith, eq_iff r.source_name source_name),
    )

insert_row-non_empty :
    (r : FailedUpload) (rows : List FailedUpload) → non_empty (insert_row r rows) ≡ true
unfolding insert_row
insert_row-non_empty r [] = refl
insert_row-non_empty r (q ∷ rows) = elim (Bool-cases (earlier r q)) [
  | inl e ↦ rw e refl
  | inr e ↦ rw e refl
]

sort_rows-non_empty :
    (rows : List FailedUpload) → non_empty rows ≡ true → non_empty (sort_rows rows) ≡ true
unfolding sort_rows
sort_rows-non_empty [] h = h
sort_rows-non_empty (r ∷ rows) h = insert_row-non_empty r (sort_rows rows)

keep-non_empty :
    (test : FailedUpload → Bool) (before after : List FailedUpload) (r : FailedUpload)
    → test r ≡ true
    → non_empty (keep test (before ++ r ∷ after)) ≡ true
keep-non_empty test [] after r h = rw h refl
keep-non_empty test (q ∷ before) after r h = elim (Bool-cases (test q)) [
  | inl e ↦ rw e refl
  | inr e ↦ rw e (keep-non_empty test before after r h)
]

-- A table with a row that is due has rows to retry.
pub get_due_failed_uploads-non_empty :
    (now : ℕ) (source_name : String) (limit : ℕ) (s : SqliteStore)
    (before after : List FailedUpload) (r : FailedUpload)
    → s.failed_uploads ≡ before ++ r ∷ after
    → IsDue now source_name limit r
    → non_empty (get_due_failed_uploads now source_name limit s) ≡ true
unfolding get_due_failed_uploads
get_due_failed_uploads-non_empty now source_name limit s before after r e d =
    sort_rows-non_empty (keep (is_due now source_name limit) s.failed_uploads) (
      rw e (
        keep-non_empty (is_due now source_name limit) before after r
          ((is_due_iff now source_name limit r).1 d)))

-- The rows to retry are rows of the table, each as often as it is there, and with the other rows they
-- are all of it. They are rows of the source, with a payload and tries left, whose time has come, and
-- no other row is such. The oldest comes first, one without a time before it, and of one age the row
-- of the smaller id.
pub get_due_failed_uploads_lem :
    (now : ℕ) (source_name : String) (limit : ℕ) (s : SqliteStore)
    → let due = get_due_failed_uploads now source_name limit s in
      (others : List FailedUpload) × Perm (due ++ others) s.failed_uploads
      × All (IsDue now source_name limit) due
      × All (λ r. ¬ IsDue now source_name limit r) others
      × OldestFirst due
unfolding get_due_failed_uploads
get_due_failed_uploads_lem now source_name limit s =
    let test : FailedUpload → Bool = is_due now source_name limit in
    let due = keep test s.failed_uploads in
    let others = keep (λ r. not (test r)) s.failed_uploads in
    (
      others,
      Perm.trans (Perm.append_right others (sort_rows-perm due)) (keep-perm test s.failed_uploads),
      All-sort_rows (IsDue now source_name limit) due (
          All-map (λ r. test r ≡ true) (IsDue now source_name limit)
            (λ r e. (is_due_iff now source_name limit r).0 e) due
            (All-keep-test test s.failed_uploads)),
      All-map (λ r. test r ≡ false) (λ r. ¬ IsDue now source_name limit r)
          (λ r e d. cc (e, (is_due_iff now source_name limit r).1 d)) others
          (All-keep-not test s.failed_uploads),
      InOrder-OldestFirst (sort_rows due) (sort_rows-InOrder due),
    )
