-- ===== src/State/Checkpoints/Decisions.antt =====
-- What state/checkpoints.py decides, and after which writes.
use ops_incident_collector.Prelude.{
  ℕ, String, true, false, ◌&&◌, Option, none, some, List, [], ◌∷◌, ◌≡◌, refl, inl, inr, ◌==◌, ◌===◌,
  eq_iff, eq_refl, arith, Result, ok, if◌then◌else◌, Bool-cases, ap, ap₂, ◌∙◌, ◌↔◌,
}
use ops_incident_collector.Core.Models.{SourceItem}
use ops_incident_collector.State.Store.{
  SqliteStore, FileRecord, get_file_record, find_file, upsert_file, upsert_file_record, names_file,
}
use ops_incident_collector.State.Checkpoints.{
  CheckpointDecision, decision, same_time, decide_item, should_process_item,
}

module _ (n : FileRecord) (source_name relative_path : String) where
  -- The row that the write leaves, of the row that is there before.
  abbrev pub written : Option FileRecord → FileRecord
  written none = n
  written (some r) = record n { source_name = r.source_name; relative_path = r.relative_path }

  find_file-upsert_file :
      (files : List FileRecord)
      → find_file source_name relative_path (upsert_file n files) ≡ (
          if names_file source_name relative_path n
          then some (written (find_file source_name relative_path files))
          else find_file source_name relative_path files)
  unfolding find_file upsert_file
  find_file-upsert_file [] = refl
  find_file-upsert_file (r ∷ rs) = ground (
    arith,
    find_file-upsert_file rs,
    eq_iff n.source_name source_name,
    eq_iff n.relative_path relative_path,
    eq_iff r.source_name source_name,
    eq_iff r.relative_path relative_path,
    eq_iff r.source_name n.source_name,
    eq_iff r.relative_path n.relative_path,
  )

  same_names :
      (r : FileRecord)
      → names_file source_name relative_path n ≡ true
      → names_file source_name relative_path r ≡ true
      → written (some r) ≡ n
  same_names r h k =
      ap₂ (λ s p. record n { source_name = s; relative_path = p })
        (ground (arith, eq_iff n.source_name source_name, eq_iff r.source_name source_name))
        (ground (arith, eq_iff n.relative_path relative_path, eq_iff r.relative_path relative_path))

  written-find_file :
      (files : List FileRecord)
      → names_file source_name relative_path n ≡ true
      → written (find_file source_name relative_path files) ≡ n
  unfolding find_file
  written-find_file [] h = refl
  written-find_file (r ∷ rs) h = elim (Bool-cases (names_file source_name relative_path r)) [
    | inl t ↦ rw (t, find_file) (same_names r h t)
    | inr f ↦ rw (f, find_file) (written-find_file rs h)
  ]

-- A write of a file's row is what a look at the same names then finds, and a look at other names
-- finds what it found before.
pub get_file_record-upsert_file_record :
    (now : ℕ) (source_name path relative_path checksum : String) (size_bytes : ℕ)
    (modified_at : Option ℕ) (last_status : String) (last_error : Option String) (s : SqliteStore)
    (name look : String)
    → get_file_record name look (
        upsert_file_record now source_name path relative_path checksum size_bytes modified_at
          last_status last_error s)
      ≡ (if (source_name === name) && (relative_path === look)
          then some (record {
            source_name = source_name;
            path = path;
            relative_path = relative_path;
            checksum = checksum;
            size_bytes = size_bytes;
            modified_at = modified_at;
            last_synced_at = now;
            last_status = last_status;
            last_error = last_error;
          })
          else get_file_record name look s)
unfolding get_file_record upsert_file_record
get_file_record-upsert_file_record now source_name path relative_path checksum size_bytes
      modified_at last_status last_error s name look =
    let n : FileRecord = record {
      source_name = source_name;
      path = path;
      relative_path = relative_path;
      checksum = checksum;
      size_bytes = size_bytes;
      modified_at = modified_at;
      last_synced_at = now;
      last_status = last_status;
      last_error = last_error;
    } in
    elim (Bool-cases (names_file name look n)) [
      | inl t ↦
          rw (find_file-upsert_file n name look s.files, t)
            (ap some (written-find_file n name look s.files t))
      | inr f ↦ rw (find_file-upsert_file n name look s.files, f) refl
    ]

-- When a file differs from what the state remembers of it: nothing is remembered, or neither the size
-- and the time nor the digest are as remembered.
pub Differs : (checksum : String) → SourceItem → Option FileRecord → Type 0
Differs checksum item none = Unit
Differs checksum item (some r) =
    (((r.size_bytes == item.size_bytes) && same_time r.modified_at item.modified_at) ≡ false)
    × ((r.checksum === checksum) ≡ false)

-- The decision says to process a file whose digest can be computed exactly when the file differs
-- from what the state remembers under its source and its relative path; it never raises then.
pub should_process_item-Differs :
    (checksum : String) (store : SqliteStore) (source_name : String) (item : SourceItem)
    → (d : CheckpointDecision) × (should_process_item (ok checksum) store source_name item ≡ ok d)
      × ((d.should_process ≡ true)
          ↔ Differs checksum item (get_file_record source_name item.relative_path store))
unfolding should_process_item decide_item Differs
should_process_item-Differs checksum store source_name item =
    decided (get_file_record source_name item.relative_path store)
  where
    decided :
        (o : Option FileRecord)
        → (d : CheckpointDecision) × (decide_item (ok checksum) item o ≡ ok d)
          × ((d.should_process ≡ true) ↔ Differs checksum item o)
    decided none = (decision true (some checksum) "new_file", refl, ground arith)
    decided (some r) =
        elim (Bool-cases
          ((r.size_bytes == item.size_bytes) && same_time r.modified_at item.modified_at)) [
            | inl t ↦ (decision false none "mtime_size_unchanged", rw t refl, rw t (ground arith))
            | inr f ↦ elim (Bool-cases (r.checksum === checksum)) [
              | inl t ↦ (
                decision false (some checksum) "checksum_unchanged",
                rw (f, t) refl,
                rw (f, t) (ground arith),
              )
              | inr g ↦ (
                decision true (some checksum) "changed",
                rw (f, g) refl,
                rw (f, g) (ground arith),
              )
            ]
          ]

pub same_time_refl : (t : Option ℕ) → same_time t t ≡ true
same_time_refl none = refl
same_time_refl (some t) = ground arith

-- After a write of a file's row, whatever its status says, a file of that name, size and time is
-- skipped without a digest of it, and every file of another source or name is decided on as before.
pub should_process_item-upsert_file_record :
    (now : ℕ) (source_name path checksum : String) (last_status : String)
    (last_error : Option String) (s : SqliteStore) (written : SourceItem) (sha256 : Result String)
    (name : String) (item : SourceItem)
    → ((source_name === name) && (written.relative_path === item.relative_path)) ≡ false
    → let s' =
        upsert_file_record now source_name path written.relative_path checksum written.size_bytes
          written.modified_at last_status last_error s in
      (should_process_item sha256 s' source_name written
        ≡ ok (record { should_process = false; checksum = none; reason = "mtime_size_unchanged" }))
      × (should_process_item sha256 s' name item ≡ should_process_item sha256 s name item)
unfolding should_process_item
should_process_item-upsert_file_record now source_name path checksum last_status last_error s
      written sha256 name item h =
    let look =
      get_file_record-upsert_file_record now source_name path written.relative_path checksum
        written.size_bytes written.modified_at last_status last_error s in
    (
      ap (decide_item sha256 written) (look source_name written.relative_path)
          ∙ rw (eq_refl source_name, eq_refl written.relative_path)
              (rw (same_time_refl written.modified_at) (ground arith)),
      ap (decide_item sha256 item) (look name item.relative_path) ∙ rw h refl,
    )
