-- ===== src/Core/Inspection/Totals.antt =====
-- The numbers of an inspection of core/pipeline.py.
use ops_incident_collector.Prelude.{
  ℕ, String, Bool, true, false, List, [], ◌∷◌, ◌+◌, ◌*◌, ◌≡◌, refl, ltb, ◌==◌, length,
  length-append, total, total-increment, total-sort_dict, truthy, arith, Action, Result, ok, raise,
  ◌>>◌, Bool-cases, Result-cases, inl, inr, if◌then◌else◌, subst,
}
use ops_incident_collector.Core.Models.{SourceItem, SourceInspection}
use ops_incident_collector.Core.Machine.{System}
use ops_incident_collector.Core.Inspection.{
  InspectRequest, new_inspection, count_file, set_denied, set_empty, set_oversized, set_binary,
  set_unsupported, set_supported, inspect_readable, inspect_item, inspect_items, max_size_mb,
  finish_inspection, inspect_source, has_all, inspection_of, inspect_allowed,
}
use ops_incident_collector.Config.Settings.{AppSettings}
use ops_incident_collector.Processors.PathPolicy.{is_denied_path, ensure_path_allowed}
use ops_incident_collector.Processors.FileFilter.{is_binary_file, is_supported_extension}
use ops_incident_collector.Receivers.Filesystem.{discover_files}

-- The categories make up the files, but for the given number of files not yet put in one; the rows of
-- the skipped files and the counts by extension and by type go with them.
pub record Counted (pending : ℕ) (i : SourceInspection) : Type 0 where
  pub files :
      i.total_files
      ≡ pending + i.supported_files + i.unsupported_files + i.oversized_files + i.denied_files
        + i.empty_files + i.binary_files
  pub skips : length i.skipped_files + i.supported_files + pending ≡ i.total_files
  pub supported : total i.supported_extensions ≡ i.supported_files
  pub kinds : total i.likely_source_types ≡ i.supported_files
  pub unsupported : total i.unsupported_extensions ≡ i.unsupported_files

abbrev Goes : Result (Unit {0}) × SourceInspection → Type 0
Goes (ok u, i) = Counted 0 i
Goes (raise e, i) = Unit

set_denied-Counted :
    (item : SourceItem) (i : SourceInspection) → Counted 1 i → Counted 0 (set_denied item i)
unfolding set_denied
set_denied-Counted item i c = record {
  files = omega (arith, c.files);
  skips = omega (arith, length-append i.skipped_files (_ ∷ []), c.skips);
  supported = c.supported;
  kinds = c.kinds;
  unsupported = c.unsupported;
}

set_empty-Counted :
    (item : SourceItem) (i : SourceInspection) → Counted 1 i → Counted 0 (set_empty item i)
unfolding set_empty
set_empty-Counted item i c = record {
  files = omega (arith, c.files);
  skips = omega (arith, length-append i.skipped_files (_ ∷ []), c.skips);
  supported = c.supported;
  kinds = c.kinds;
  unsupported = c.unsupported;
}

set_oversized-Counted :
    (item : SourceItem) (i : SourceInspection) → Counted 1 i → Counted 0 (set_oversized item i)
unfolding set_oversized
set_oversized-Counted item i c = record {
  files = omega (arith, c.files);
  skips = omega (arith, length-append i.skipped_files (_ ∷ []), c.skips);
  supported = c.supported;
  kinds = c.kinds;
  unsupported = c.unsupported;
}

set_binary-Counted :
    (item : SourceItem) (i : SourceInspection) → Counted 1 i → Counted 0 (set_binary item i)
unfolding set_binary
set_binary-Counted item i c = record {
  files = omega (arith, c.files);
  skips = omega (arith, length-append i.skipped_files (_ ∷ []), c.skips);
  supported = c.supported;
  kinds = c.kinds;
  unsupported = c.unsupported;
}

set_unsupported-Counted :
    (item : SourceItem) (i : SourceInspection) → Counted 1 i → Counted 0 (set_unsupported item i)
unfolding set_unsupported
set_unsupported-Counted item i c = record {
  files = omega (arith, c.files);
  skips = omega (arith, length-append i.skipped_files (_ ∷ []), c.skips);
  supported = c.supported;
  kinds = c.kinds;
  unsupported = omega (
    arith,
    total-increment (if truthy item.extension then item.extension else "<none>")
        i.unsupported_extensions,
    c.unsupported,
  );
}

set_supported-Counted :
    (kind : String) (secrets : ℕ) (item : SourceItem) (i : SourceInspection)
    → Counted 1 i
    → Counted 0 (set_supported kind secrets item i)
unfolding set_supported
set_supported-Counted kind secrets item i c = record {
  files = omega (arith, c.files);
  skips = omega (arith, c.skips);
  supported = omega (arith, total-increment item.extension i.supported_extensions, c.supported);
  kinds = omega (arith, total-increment kind i.likely_source_types, c.kinds);
  unsupported = c.unsupported;
}

finish_inspection-Counted : (i : SourceInspection) → Counted 0 i → Counted 0 (finish_inspection i)
unfolding finish_inspection
finish_inspection-Counted i c = record {
  files = c.files;
  skips = c.skips;
  supported = omega (arith, total-sort_dict i.supported_extensions, c.supported);
  kinds = omega (arith, total-sort_dict i.likely_source_types, c.kinds);
  unsupported = omega (arith, total-sort_dict i.unsupported_extensions, c.unsupported);
}

module _ (system : System) (settings : AppSettings) (request : InspectRequest) where
  inspect_readable-Goes :
      (item : SourceItem) (bytes : List ℕ) (i : SourceInspection)
      → Counted 1 i
      → Goes (inspect_readable system settings request item bytes i)
  unfolding inspect_readable
  inspect_readable-Goes item bytes i c = elim (Bool-cases (is_binary_file bytes)) [
    | inl t ↦ rw t (set_binary-Counted item i c)
    | inr f ↦ elim (Bool-cases (is_supported_extension item.extension)) [
      | inl t ↦ rw (f, t) (set_supported-Counted _ _ item i c)
      | inr u ↦ rw (f, u) (set_unsupported-Counted item i c)
    ]
  ]

  inspect_item-Goes :
      (item : SourceItem) (i : SourceInspection)
      → Counted 0 i
      → Goes (inspect_item system settings request item i)
  unfolding inspect_item
  inspect_item-Goes item i c =
      elim (Bool-cases (is_denied_path item.relative_path settings.security.deny_patterns)) [
        | inl t ↦ rw t (set_denied-Counted item (count_file i) pending)
        | inr d ↦ elim (Bool-cases (item.size_bytes == 0)) [
          | inl t ↦ rw (d, t) (set_empty-Counted item (count_file i) pending)
          | inr z ↦
              elim (Bool-cases (
                ltb (max_size_mb request.max_file_size_mb settings * 1024 * 1024)
                  item.size_bytes)) [
                    | inl t ↦ rw (d, z, t) (set_oversized-Counted item (count_file i) pending)
                    | inr o ↦ elim (Result-cases (system.files.read_bytes item.path)) [
                      | inr (e, h) ↦ rw (d, z, o, h) tt
                      | inl (bytes, h) ↦
                          rw (d, z, o, h) (inspect_readable-Goes item bytes (count_file i) pending)
                    ]
                  ]
        ]
      ]
    where
      pending : Counted 1 (count_file i)
      pending = record {
        files = omega (arith, c.files);
        skips = omega (arith, c.skips);
        supported = c.supported;
        kinds = c.kinds;
        unsupported = c.unsupported;
      }

  next_file :
      (i : SourceInspection) (r : Result (Unit {0}) × SourceInspection)
      (rest : Action SourceInspection (Unit {0}))
      → Goes r
      → ((j : SourceInspection) → Counted 0 j → Goes (rest j))
      → Goes (((λ (_ : SourceInspection). r) >> rest) i)
  next_file i (ok u, j) rest h k = k j h
  next_file i (raise e, j) rest h k = tt

  inspect_items-Goes :
      (items : List SourceItem) (i : SourceInspection)
      → Counted 0 i
      → Goes (inspect_items system settings request items i)
  unfolding inspect_items
  inspect_items-Goes [] i c = c
  inspect_items-Goes (item ∷ items) i c = by (has_all request.max_files i.total_files) (
      next_file i (inspect_item system settings request item i)
        (inspect_items system settings request items) (inspect_item-Goes item i c)
        (inspect_items-Goes items))
    where
      rounds : Action SourceInspection (Unit {0})
      rounds =
          inspect_item system settings request item >> inspect_items system settings request items

      round : Bool → Action SourceInspection (Unit {0})
      round full = elim full [ true ↦ λ j. (ok tt, j) | false ↦ rounds ]

      by : (full : Bool) → Goes (rounds i) → Goes (round full i)
      by true h = c
      by false h = h

  returned :
      (r : Result (Unit {0}) × SourceInspection) (inspection : SourceInspection)
      → Goes r
      → inspection_of system settings request r ≡ ok inspection
      → Counted 0 inspection
  returned (ok u, i) inspection c e = subst (Counted 0) (cc e) (finish_inspection-Counted i c)
  returned (raise exc, i) inspection c e = cc e

  allowed :
      (r : Result (Unit {0})) (inspection : SourceInspection)
      → inspect_allowed system settings request r ≡ ok inspection
      → Counted 0 inspection
  unfolding inspect_allowed
  allowed (raise exc) inspection e = cc e
  allowed (ok u) inspection e =
      returned
        (inspect_items system settings request
          (discover_files system.files request.path request.max_depth request.include
            request.exclude)
          (new_inspection request.path))
        inspection (inspect_items-Goes _ (new_inspection request.path) fresh) e
    where
      fresh : Counted 0 (new_inspection request.path)
      fresh = record {
        files = refl;
        skips = refl;
        supported = refl;
        kinds = refl;
        unsupported = refl;
      }

  -- An inspection that is returned puts each file that it has seen into one of six categories; it has
  -- a row for each file that is not supported, and its counts by extension and by type add up to the
  -- supported and the unsupported files.
  pub inspect_source-Counted :
      (inspection : SourceInspection)
      → inspect_source system settings request ≡ ok inspection
      → Counted 0 inspection
  unfolding inspect_source
  inspect_source-Counted inspection e =
      allowed (ensure_path_allowed system.paths request.path settings.security.allow_paths)
        inspection e
