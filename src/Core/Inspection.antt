-- ===== src/Core/Inspection.antt =====
-- core/pipeline.py: `inspect_source`.
pub mod Totals
use ops_incident_collector.Prelude.{
  ℕ, String, Bool, true, false, not, ◌||◌, Option, none, some, List, [], ◌∷◌, ◌++◌, ◌+◌, ◌*◌, ltb,
  leb, ◌==◌, ◌===◌, ◌<>◌, truthy, decimal, increment, sort_dict, map, Action, Result, ok, raise,
  pure, lift, gets, modify, ◌>>=◌, ◌>>◌, if◌then◌else◌,
}
use Prim.Native.Nat.{Ordering}
use ops_incident_collector.Core.Models.{SourceItem, SourceInspection, SkippedFile}
use ops_incident_collector.Core.Machine.{System}
use ops_incident_collector.Config.Settings.{AppSettings}
use ops_incident_collector.Processors.PathPolicy.{is_denied_path, ensure_path_allowed}
use ops_incident_collector.Processors.FileFilter.{
  is_binary_file, is_supported_extension, detect_possible_secret_count,
}
use ops_incident_collector.Processors.Classifier.{classify_content}
use ops_incident_collector.Processors.Redactor.{redaction_patterns}
use ops_incident_collector.Processors.Regex.{Regex}
use ops_incident_collector.Receivers.Filesystem.{discover_files}

abbrev pub default_max_file_size_mb : ℕ
default_max_file_size_mb = 10

-- `max_file_size_mb or settings.sync.max_file_size_mb or DEFAULT_MAX_FILE_SIZE_MB`
abbrev pub max_size_mb : Option ℕ → AppSettings → ℕ
max_size_mb none settings =
    if settings.sync.max_file_size_mb == 0
    then default_max_file_size_mb
    else settings.sync.max_file_size_mb
max_size_mb (some n) settings =
    if not (n == 0)
    then n
    else if settings.sync.max_file_size_mb == 0
    then default_max_file_size_mb
    else settings.sync.max_file_size_mb

-- The arguments of `inspect_source`.
pub record InspectRequest : Type 0 where
  pub path : String
  pub max_depth : ℕ
  pub max_file_size_mb : Option ℕ
  pub include : List String
  pub exclude : List String
  pub max_files : Option ℕ

abbrev pub new_inspection : String → SourceInspection
new_inspection path = record {
  path = path;
  total_files = 0;
  supported_files = 0;
  unsupported_files = 0;
  oversized_files = 0;
  denied_files = 0;
  empty_files = 0;
  likely_source_types = [];
  supported_extensions = [];
  unsupported_extensions = [];
  warnings = [];
  skipped_files = [];
  possible_secrets_detected = 0;
  binary_files = 0;
}

-- The row of a skipped file.
abbrev pub set_aside : (reason : String) → SourceItem → SourceInspection → SourceInspection
set_aside reason item i = record i {
  skipped_files =
      i.skipped_files
      ++ record { path = item.relative_path; reason = reason; size_bytes = some item.size_bytes }
        ∷ [];
}

unfoldable pub set_denied : SourceItem → SourceInspection → SourceInspection
set_denied item i = set_aside "denied" item (record i { denied_files = i.denied_files + 1 })

unfoldable pub set_empty : SourceItem → SourceInspection → SourceInspection
set_empty item i = set_aside "empty" item (record i { empty_files = i.empty_files + 1 })

unfoldable pub set_oversized : SourceItem → SourceInspection → SourceInspection
set_oversized item i =
    set_aside "oversized" item (record i { oversized_files = i.oversized_files + 1 })

unfoldable pub set_binary : SourceItem → SourceInspection → SourceInspection
set_binary item i = set_aside "binary" item (record i {
  binary_files = i.binary_files + 1;
  warnings = i.warnings ++ ("binary file skipped: " <> item.relative_path) ∷ [];
})

unfoldable pub set_unsupported : SourceItem → SourceInspection → SourceInspection
unfolding increment
set_unsupported item i = set_aside "unsupported_extension" item (record i {
  unsupported_files = i.unsupported_files + 1;
  unsupported_extensions =
      increment (if truthy item.extension then item.extension else "<none>")
        i.unsupported_extensions;
})

unfoldable pub set_supported :
    (detected_type : String) → (secrets : ℕ) → SourceItem → SourceInspection → SourceInspection
unfolding increment
set_supported detected_type secrets item i = record i {
  supported_files = i.supported_files + 1;
  supported_extensions = increment item.extension i.supported_extensions;
  likely_source_types = increment detected_type i.likely_source_types;
  possible_secrets_detected = i.possible_secrets_detected + secrets;
}

abbrev pub count_file : SourceInspection → SourceInspection
count_file i = record i { total_files = i.total_files + 1 }

-- A text into texts in order, unless it is there.
unfoldable insert_text : String → List String → List String
insert_text s [] = s ∷ []
insert_text s (t ∷ ts) = elim (Prim.Native.String.compare s t) [
  | Ordering.lt ↦ s ∷ t ∷ ts
  | Ordering.eq ↦ t ∷ ts
  | Ordering.gt ↦ t ∷ insert_text s ts
]

-- `sorted(set(texts))`
unfoldable pub sorted_set : List String → List String
unfolding insert_text
sorted_set [] = []
sorted_set (s ∷ ss) = insert_text s (sorted_set ss)

abbrev warn : ℕ → String → List String → List String
unfolding decimal
warn n message ws = if n == 0 then ws else ws ++ (decimal n <> message) ∷ []

-- After the loop.
unfoldable pub finish_inspection : SourceInspection → SourceInspection
unfolding sort_dict sorted_set decimal warn
finish_inspection i = record i {
  supported_extensions = sort_dict i.supported_extensions;
  unsupported_extensions = sort_dict i.unsupported_extensions;
  likely_source_types = sort_dict i.likely_source_types;
  warnings = warn i.unsupported_files " unsupported file(s) skipped" (
      warn i.oversized_files " oversized file(s) skipped"
        (warn i.denied_files " denied file(s) skipped by policy" (sorted_set i.warnings)));
}

abbrev pub patterns : List Regex
patterns = map (λ p. p.1) redaction_patterns

abbrev pub has_all : Option ℕ → ℕ → Bool
has_all none total_files = false
has_all (some n) total_files = leb n total_files

module _ (system : System) (settings : AppSettings) (request : InspectRequest) where
  unfoldable pub inspect_readable : SourceItem → List ℕ → Action SourceInspection (Unit {0})
  unfolding is_binary_file is_supported_extension classify_content detect_possible_secret_count
      set_binary set_supported set_unsupported
  inspect_readable item bytes =
      if is_binary_file bytes
      then modify (set_binary item)
      else if is_supported_extension item.extension
      then modify (
          set_supported
            (classify_content system.engine item.path item.extension (some item.relative_path) none)
            (detect_possible_secret_count system.engine patterns (system.files.read_text item.path))
            item)
      else modify (set_unsupported item)

  abbrev read_and_inspect : SourceItem → Action SourceInspection (Unit {0})
  read_and_inspect item = do
    bytes ← lift (system.files.read_bytes item.path)
    inspect_readable item bytes

  -- One round of the loop.
  unfoldable pub inspect_item : SourceItem → Action SourceInspection (Unit {0})
  unfolding is_denied_path inspect_readable set_denied set_empty set_oversized
  inspect_item item = do
    modify count_file
    if is_denied_path item.relative_path settings.security.deny_patterns
        then modify (set_denied item)
        else if item.size_bytes == 0
        then modify (set_empty item)
        else if ltb (max_size_mb request.max_file_size_mb settings * 1024 * 1024) item.size_bytes
        then modify (set_oversized item)
        else read_and_inspect item

  unfoldable pub inspect_items : List SourceItem → Action SourceInspection (Unit {0})
  unfolding inspect_item
  inspect_items [] = pure tt
  inspect_items (item ∷ items) = do
    full ← gets (λ i. has_all request.max_files i.total_files)
    elim full [ true ↦ pure tt | false ↦ inspect_item item >> inspect_items items ]

  abbrev pub inspection_of : Result (Unit {0}) × SourceInspection → Result SourceInspection
  inspection_of (ok u, i) = ok (finish_inspection i)
  inspection_of (raise e, i) = raise e

  unfoldable pub inspect_allowed : Result (Unit {0}) → Result SourceInspection
  unfolding inspect_items finish_inspection discover_files
  inspect_allowed (raise e) = raise e
  inspect_allowed (ok u) = inspection_of (
      inspect_items
        (discover_files system.files request.path request.max_depth request.include request.exclude)
        (new_inspection request.path))

  unfoldable pub inspect_source : Result SourceInspection
  unfolding ensure_path_allowed inspect_allowed inspect_items finish_inspection discover_files
  inspect_source =
      inspect_allowed (ensure_path_allowed system.paths request.path settings.security.allow_paths)
