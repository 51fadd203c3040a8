-- ===== src/State/Uploads/Keyed.antt =====
-- The queue as a map from a document of a source to its row.
use ops_incident_collector.Prelude.{
  ℕ, String, true, false, ◌&&◌, Option, none, some, List, [], ◌∷◌, ◌++◌, ◌≡◌, refl, map, ◌==◌,
  ◌===◌, eq_iff, All, Distinct, Bool-cases, Option-cases, inl, inr, subst, All-map, arith,
  if◌then◌else◌,
}
use ops_incident_collector.State.Store.{SqliteStore, FailedUpload}
use ops_incident_collector.State.Uploads.{
  names_upload, find_upload, next_id, Failure, refresh, new_row, record_row, record_failed_upload,
}
use ops_incident_collector.State.Uploads.WellFormed.{at, same_id, same_key, IsWellFormed}

-- The abstract view: the row of a document of a source.
unfoldable pub view : (source_name external_id : String) → List FailedUpload → Option FailedUpload
view s e [] = none
view s e (r ∷ rows) = if names_upload s e r then some r else view s e rows

view-none :
    (s e : String) (rows : List FailedUpload)
    → All (λ r. names_upload s e r ≡ false) rows
    → view s e rows ≡ none
unfolding view
view-none s e [] h = refl
view-none s e (r ∷ rows) h = rw h.0 (view-none s e rows h.1)

view-append_row :
    (s e : String) (rows : List FailedUpload) (n : FailedUpload)
    → view s e (rows ++ n ∷ []) ≡ elim (view s e rows) [
      | none ↦ if names_upload s e n then some n else none
      | some r ↦ some r
    ]
unfolding view
view-append_row s e [] n = refl
view-append_row s e (r ∷ rows) n = ground (arith, view-append_row s e rows n)

names_upload_iff :
    (s e : String) (r : FailedUpload)
    → names_upload s e r ≡ true
    → (r.source_name ≡ s) × (r.document_external_id ≡ e)
names_upload_iff s e r h =
    (ground (arith, eq_iff r.source_name s), ground (arith, eq_iff r.document_external_id e))

-- The rows that are not the row of a key.
others :
    (s e : String) (r : FailedUpload)
    → names_upload s e r ≡ true
    → (q : FailedUpload) → same_key r q ≡ false
    → names_upload s e q ≡ false
others s e r h q k = ground (
  arith,
  eq_iff r.source_name s,
  eq_iff r.document_external_id e,
  eq_iff q.source_name s,
  eq_iff q.document_external_id e,
  eq_iff r.source_name q.source_name,
  eq_iff r.document_external_id q.document_external_id,
)

-- With one row to a key, the row that is found is the row of the view.
find_upload-view :
    (s e : String) (rows : List FailedUpload)
    → Distinct same_key rows
    → find_upload s e rows ≡ elim (view s e rows) [ none ↦ none | some r ↦ some r.id ]
unfolding find_upload view
find_upload-view s e [] d = refl
find_upload-view s e (r ∷ rows) d = elim (Bool-cases (names_upload s e r)) [
  | inl t ↦ rw (
    find_upload-view s e rows d.1,
    view-none s e rows (
        All-map (λ q. same_key r q ≡ false) (λ q. names_upload s e q ≡ false) (others s e r t) rows
          d.0),
    t,
  )
  | inr f ↦ ground (arith, find_upload-view s e rows d.1)
]

view-All :
    (P : FailedUpload → Type 0) (s e : String) (rows : List FailedUpload) (r : FailedUpload)
    → view s e rows ≡ some r
    → All P rows
    → P r
unfolding view
view-All P s e [] r h a = cc
view-All P s e (q ∷ rows) r h a = elim (Bool-cases (names_upload s e q)) [
  | inl t ↦ let same : q ≡ r = ground arith in subst P same a.0
  | inr f ↦ view-All P s e rows r (ground arith) a.1
]

view-names :
    (s e : String) (rows : List FailedUpload) (r : FailedUpload)
    → view s e rows ≡ some r
    → names_upload s e r ≡ true
unfolding view
view-names s e [] r h = cc
view-names s e (q ∷ rows) r h = elim (Bool-cases (names_upload s e q)) [
  | inl t ↦ let same : q ≡ r = ground arith in subst (λ x. names_upload s e x ≡ true) same t
  | inr f ↦ view-names s e rows r (ground arith)
]

-- An update that leaves the keys, in the view.
view-map :
    (g : FailedUpload → FailedUpload)
    (h : (s e : String) (r : FailedUpload) → names_upload s e (g r) ≡ names_upload s e r)
    (s e : String) (rows : List FailedUpload)
    → view s e (map g rows) ≡ elim (view s e rows) [ none ↦ none | some r ↦ some (g r) ]
unfolding view
view-map g h s e [] = refl
view-map g h s e (r ∷ rows) = ground (arith, h s e r, view-map g h s e rows)

-- Rows of two keys have two ids.
ids_apart :
    (a b c d : String) (rows : List FailedUpload) (q r : FailedUpload)
    → Distinct same_id rows
    → view a b rows ≡ some q
    → view c d rows ≡ some r
    → names_upload a b r ≡ false
    → (q.id == r.id) ≡ false
unfolding view
ids_apart a b c d [] q r w hq hr k = cc
ids_apart a b c d (x ∷ rows) q r w hq hr k = elim (Bool-cases (names_upload a b x)) [
  | inl ta ↦ elim (Bool-cases (names_upload c d x)) [
    | inl tc ↦ ground arith
    | inr fc ↦
        let same : x ≡ q = ground arith in
        subst (λ y. (y.id == r.id) ≡ false) same
          (view-All (λ y. (x.id == y.id) ≡ false) c d rows r (ground arith) w.0)
  ]
  | inr fa ↦ elim (Bool-cases (names_upload c d x)) [
    | inl tc ↦
        let same : x ≡ r = ground arith in
        subst (λ y. (q.id == y.id) ≡ false) same
          (view-All (λ y. (y.id == x.id) ≡ false) a b rows q (ground arith)
            (All-map (λ y. (x.id == y.id) ≡ false) (λ y. (y.id == x.id) ≡ false)
              (λ y h. ground arith) rows w.0))
    | inr fc ↦ ids_apart a b c d rows q r w.1 (ground arith) (ground arith) k
  ]
]

-- What a document is to have in the queue once it failed, column by column. All columns are those of
-- the failure, due at once; a row that the document had gives its id and its age.
abbrev pub recorded : ℕ → Failure → List FailedUpload → Option FailedUpload → FailedUpload
recorded now f rows o = record {
  id = elim o [ none ↦ next_id rows | some r ↦ r.id ];
  sync_id = f.sync_id;
  source_name = elim o [ none ↦ f.source_name | some r ↦ r.source_name ];
  path = f.path;
  document_external_id = elim o [ none ↦ f.document_external_id | some r ↦ r.document_external_id ];
  payload_json = some f.payload_json;
  reason = f.reason;
  retry_count = f.retry_count;
  next_retry_at = some now;
  last_error = f.last_error;
  created_at = elim o [ none ↦ some now | some r ↦ r.created_at ];
  updated_at = now;
}

module _ (now : ℕ) (f : Failure) (rows : List FailedUpload) (w : IsWellFormed rows) where
  abbrev old : Option FailedUpload
  old = view f.source_name f.document_external_id rows

  view-record_row :
      (s e : String) (o : Option FailedUpload)
      → old ≡ o
      → view s e (record_row now f (elim o [ none ↦ none | some r ↦ some r.id ]) rows) ≡ (
          if (f.source_name === s) && (f.document_external_id === e)
          then some (recorded now f rows o)
          else view s e rows)
  unfolding record_row
  view-record_row s e none h = elim (Bool-cases (names_upload s e (new_row now (next_id rows) f))) [
    | inl t ↦
        let (p, q) = names_upload_iff s e (new_row now (next_id rows) f) t in
        let here : view s e rows ≡ none = cc (h, p, q) in
        rw (view-append_row s e rows (new_row now (next_id rows) f)) (rw (here, t) refl)
    | inr n ↦ rw (view-append_row s e rows (new_row now (next_id rows) f)) (ground (arith, n))
  ]
  view-record_row s e (some r) h =
      rw (view-map (at (refresh now f) r.id) (λ a b q. ground arith) s e rows)
        (elim (Bool-cases ((f.source_name === s) && (f.document_external_id === e))) [
          | inl t ↦
              let (p, q) = names_upload_iff s e (new_row now 0 f) t in
              let here : view s e rows ≡ some r = cc (h, p, q) in rw (here, t) (ground arith)
          | inr n ↦ elim (Option-cases (view s e rows)) [
            | inl gone ↦ rw (gone, n) refl
            | inr (q, found) ↦
                let (a, b) =
                  names_upload_iff f.source_name f.document_external_id r
                    (view-names f.source_name f.document_external_id rows r h) in
                let apart : (q.id == r.id) ≡ false =
                  ids_apart s e f.source_name f.document_external_id rows q r w.ids found h
                    (rw (a, b) n) in
                rw (found, n) (ground (arith, apart))
          ]
        ])

-- In a keyed queue a recorded failure gives its document a row with the payload, the reason, the
-- attempts and the error of the failure, which is due at once: a row that the document had keeps its
-- id and its time of creation, and a document without one gets a new row. No other document's row is
-- touched.
pub record_failed_upload-view :
    (now : ℕ) (f : Failure) (s : SqliteStore) (source_name external_id : String)
    → IsWellFormed s.failed_uploads
    → view source_name external_id (record_failed_upload now f s).failed_uploads ≡ (
        if (f.source_name === source_name) && (f.document_external_id === external_id)
        then some (
            recorded now f s.failed_uploads
              (view f.source_name f.document_external_id s.failed_uploads))
        else view source_name external_id s.failed_uploads)
unfolding record_failed_upload
record_failed_upload-view now f s source_name external_id w =
    rw (find_upload-view f.source_name f.document_external_id s.failed_uploads w.keys)
      (view-record_row now f s.failed_uploads w source_name external_id _ refl)
