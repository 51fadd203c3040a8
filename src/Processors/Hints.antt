-- ===== src/Processors/Hints.antt =====
-- processors/hints.py. `ast` is the argument `Parser`; an expression's match is the engine's. A round
-- of a loop makes a citation and a chunk at once, so the two lists are one list of pairs here.
pub mod Ranges
use ops_incident_collector.Prelude.{
  ℕ, String, Bool, true, false, ◌&&◌, ◌||◌, Option, none, some, List, [], ◌∷◌, ◌++◌, ◌+◌, ◌-◌, max,
  min, map, length, leb, ◌==◌, ◌===◌, ◌<>◌, truthy, one_of, any, ◌≡◌, refl, lower, strip, decimal,
  if◌then◌else◌,
}
use Prim.Native.Char.{code}
use ops_incident_collector.Core.Json.{
  Value, Items, Fields, null, number, text, object, nil, cons, end, field, text_or_null,
  number_or_null,
}
use ops_incident_collector.Core.Models.{CitationHint, ChunkingHint}
use ops_incident_collector.Processors.Regex.{Regex, Engine}
use ops_incident_collector.Receivers.Filesystem.{suffix}

-- A `FunctionDef`, an `AsyncFunctionDef` or a `ClassDef`.
pub record Definition : Type 0 where
  pub name : String
  pub is_class : Bool
  pub lineno : ℕ
  pub end_lineno : ℕ

-- The definitions in `ast.walk(ast.parse(content))`, or a `SyntaxError`.
abbrev pub Parser : Type 0
Parser = String → Option (List Definition)

abbrev heading_re : Regex
heading_re = record { source = "^(#{1,6})\\s+(.+)$"; flags = "" }

abbrev important_log_re : Regex
important_log_re = record { source = "\\b(ERROR|WARN|WARNING|CRITICAL)\\b"; flags = "" }

abbrev api_path_re : Regex
api_path_re = record { source = "\\s{0,8}(/[A-Za-z0-9_\\-/.{}]+):"; flags = "" }

-- The characters that end a line for `str.splitlines`.
abbrev is_break : ℕ → Bool
is_break c = any (λ b. b == c) (10 ∷ 11 ∷ 12 ∷ 13 ∷ 28 ∷ 29 ∷ 30 ∷ 133 ∷ 8232 ∷ 8233 ∷ [])

-- The lines after a word of the present line; a line feed after a carriage return ends no line.
unfoldable pub lines_from : (after_return : Bool) → (word : String) → String → List String
lines_from after_return word String.[] = if truthy word then word ∷ [] else []
lines_from after_return word (String.◌∷◌ c s) = elim (after_return && (code c == 10)) [
  | true ↦ lines_from false word s
  | false ↦ elim (is_break (code c)) [
    | true ↦ word ∷ lines_from (code c == 13) "" s
    | false ↦ lines_from false (word <> String.◌∷◌ c "") s
  ]
]

-- `content.splitlines()`
unfoldable pub split_lines : String → List String
unfolding lines_from
split_lines content = lines_from false "" content

-- `_line_count`
unfoldable pub line_count : String → ℕ
unfolding split_lines
line_count content = max (length (split_lines content)) 1

abbrev pub Hint : Type 0
Hint = CitationHint × ChunkingHint

-- The two records of a round.
abbrev pub hint :
    (relative_path : String)
    → (start_line end_line : ℕ) → (label reason : String) → (confidence : ℕ)
    → (kind priority chunk_reason : String) → Fields
    → Hint
hint relative_path start_line end_line label reason confidence kind priority chunk_reason metadata =
    (
      record {
        path = relative_path;
        relative_path = some relative_path;
        start_line = some start_line;
        end_line = some end_line;
        label = some label;
        reason = some reason;
        confidence = some confidence;
      },
      record {
        kind = kind;
        start_line = some start_line;
        end_line = some end_line;
        priority = priority;
        reason = some chunk_reason;
        metadata = metadata;
      },
    )

-- `_whole_file_hint`
unfoldable pub whole_file_hint :
    (relative_path content label hint_type priority : String) → List Hint
unfolding line_count
whole_file_hint relative_path content label hint_type priority =
    hint relative_path 1 (line_count content) label "fallback whole-file citation hint" 50 hint_type
      priority "fallback whole-file chunking hint" end
    ∷ []

-- What a loop has found, or the hint for the whole file.
abbrev pub or_whole_file : List Hint → List Hint → List Hint
or_whole_file [] whole = whole
or_whole_file (h ∷ hints) whole = h ∷ hints

-- The lines that an expression matches, with their numbers and a group of the match.
unfoldable pub matched_lines : (String → Option String) → ℕ → List String → List (ℕ × String)
matched_lines group index [] = []
matched_lines group index (line ∷ lines) =
    let rest = matched_lines group (index + 1) lines in
    elim (group line) [ none ↦ rest | some g ↦ (index, g) ∷ rest ]

-- `headings[idx + 1][0] - 1 if idx + 1 < len(headings) else max(len(lines), start_line)`
abbrev pub section_end : (total start_line : ℕ) → List (ℕ × String) → ℕ
section_end total start_line [] = max total start_line
section_end total start_line ((next, title) ∷ rest) = next - 1

abbrev section_priority : String → String
unfolding lower
section_priority title =
    if one_of ("summary" ∷ "timeline" ∷ "root cause" ∷ "resolution" ∷ []) (lower title)
    then "high"
    else "medium"

unfoldable pub sections : (relative_path hint_type : String) → ℕ → List (ℕ × String) → List Hint
unfolding section_priority
sections relative_path hint_type total [] = []
sections relative_path hint_type total ((start_line, title) ∷ headings) =
    hint relative_path start_line (section_end total start_line headings) title
      "markdown heading section" 85 hint_type (section_priority title) "heading-delimited section"
      (field "heading" (text title) end)
    ∷ sections relative_path hint_type total headings

-- The windows around the lines that matter in a log.
unfoldable pub windows : (relative_path : String) → ℕ → List (ℕ × String) → List Hint
unfolding decimal
windows relative_path total [] = []
windows relative_path total ((index, level) ∷ found) =
    hint relative_path (max (index - 2) 1) (min (index + 2) total)
      (level <> " near line " <> decimal index) "important log line window" 80 "log_window" "high"
      "window around error or warning log line"
      (field "log_level" (text level) (field "center_line" (number index) end))
    ∷ windows relative_path total found

unfoldable pub endpoints : (relative_path : String) → ℕ → List (ℕ × String) → List Hint
endpoints relative_path total [] = []
endpoints relative_path total ((index, endpoint) ∷ found) =
    hint relative_path index (min (index + 8) total) endpoint "API path definition" 80
      "api_endpoint" "medium" "API endpoint block" (field "endpoint" (text endpoint) end)
    ∷ endpoints relative_path total found

abbrev kind_of_definition : Definition → String
kind_of_definition d = if d.is_class then "class" else "function"

unfoldable pub definitions : (relative_path : String) → List Definition → List Hint
definitions relative_path [] = []
definitions relative_path (d ∷ ds) =
    hint relative_path d.lineno d.end_lineno (kind_of_definition d <> " " <> d.name)
      "python AST definition range" 90 "code_function" "high" "python AST definition range"
      (field "symbol" (text d.name) (field "kind" (text (kind_of_definition d)) end))
    ∷ definitions relative_path ds

abbrev stripped : Option String → Option String
unfolding strip
stripped none = none
stripped (some s) = some (strip s)

module _ (engine : Engine) (parse : Parser) where
  -- `_markdown_hints`
  unfoldable pub markdown_hints : (relative_path content hint_type : String) → List Hint
  unfolding sections matched_lines split_lines whole_file_hint stripped
  markdown_hints relative_path content hint_type =
      or_whole_file
        (sections relative_path hint_type (length (split_lines content)) (
          matched_lines (λ line. stripped (engine.match_group heading_re 2 line)) 1
            (split_lines content)))
        (whole_file_hint relative_path content "markdown document" hint_type "medium")

  -- `_log_hints`
  unfoldable pub log_hints : (relative_path content : String) → List Hint
  unfolding windows matched_lines split_lines whole_file_hint
  log_hints relative_path content =
      or_whole_file
        (windows relative_path (length (split_lines content))
          (matched_lines (engine.search_group important_log_re 1) 1 (split_lines content)))
        (whole_file_hint relative_path content "log file" "log_window" "medium")

  abbrev pub parsed_hints : (relative_path content : String) → Option (List Definition) → List Hint
  parsed_hints relative_path content none =
      whole_file_hint relative_path content "code file" "code_function" "medium"
  parsed_hints relative_path content (some ds) =
      or_whole_file (definitions relative_path ds)
        (whole_file_hint relative_path content "code file" "code_function" "medium")

  -- `_code_hints`
  unfoldable pub code_hints : (relative_path content extension : String) → List Hint
  unfolding definitions whole_file_hint
  code_hints relative_path content extension =
      if extension === ".py"
      then parsed_hints relative_path content (parse content)
      else whole_file_hint relative_path content "code file" "code_function" "medium"

  -- `_api_hints`
  unfoldable pub api_hints : (relative_path content : String) → List Hint
  unfolding endpoints matched_lines split_lines whole_file_hint
  api_hints relative_path content =
      or_whole_file
        (endpoints relative_path (length (split_lines content))
          (matched_lines (engine.match_group api_path_re 1) 1 (split_lines content)))
        (whole_file_hint relative_path content "api document" "api_endpoint" "medium")

  -- The dispatch of `build_document_hints`.
  unfoldable pub document_hints : (path relative_path content detected_type : String) → List Hint
  unfolding markdown_hints log_hints code_hints api_hints whole_file_hint lower suffix
  document_hints path relative_path content detected_type =
      if one_of ("runbook" ∷ "unknown_text" ∷ []) detected_type
        && one_of (".md" ∷ ".txt" ∷ []) (lower (suffix path))
      then markdown_hints relative_path content "markdown_section"
      else if detected_type === "incident_report"
      then markdown_hints relative_path content "incident_section"
      else if detected_type === "logs"
      then log_hints relative_path content
      else if detected_type === "code"
      then code_hints relative_path content (lower (suffix path))
      else if detected_type === "deploy_history"
      then whole_file_hint relative_path content "deploy record" "deploy_record" "high"
      else if detected_type === "patch"
      then whole_file_hint relative_path content "patch file change" "patch_file_change" "medium"
      else if detected_type === "api_doc"
      then api_hints relative_path content
      else if detected_type === "config"
      then whole_file_hint relative_path content "configuration block" "config_block" "low"
      else whole_file_hint relative_path content "document" "text_block" "low"

-- `model_dump(mode="json")`; a confidence is in hundredths.
abbrev dump_citation : CitationHint → Value
dump_citation c = object (
    field "path" (text c.path) (
      field "relative_path" (text_or_null c.relative_path) (
        field "start_line" (number_or_null c.start_line) (
          field "end_line" (number_or_null c.end_line) (
            field "label" (text_or_null c.label) (
              field "reason" (text_or_null c.reason)
                (field "confidence" (number_or_null c.confidence) end)))))))

abbrev dump_chunk : ChunkingHint → Value
dump_chunk k = object (
    field "type" (text k.kind) (
      field "start_line" (number_or_null k.start_line) (
        field "end_line" (number_or_null k.end_line) (
          field "priority" (text k.priority)
            (field "reason" (text_or_null k.reason) (field "metadata" (object k.metadata) end))))))

abbrev citation_items : List Hint → Items
citation_items [] = nil
citation_items ((c, k) ∷ hints) = cons (dump_citation c) (citation_items hints)

abbrev chunk_items : List Hint → Items
chunk_items [] = nil
chunk_items ((c, k) ∷ hints) = cons (dump_chunk k) (chunk_items hints)

-- `build_document_hints`
unfoldable pub build_document_hints :
    Engine → Parser → (path relative_path content detected_type : String) → Items × Items
unfolding document_hints
build_document_hints engine parse path relative_path content detected_type =
    let hints = document_hints engine parse path relative_path content detected_type in
    (citation_items hints, chunk_items hints)

split_lines_runs :
    (split_lines "a\nb\r\n\nc" ≡ "a" ∷ "b" ∷ "" ∷ "c" ∷ []) × (split_lines "a\n" ≡ "a" ∷ [])
unfolding split_lines
split_lines_runs = (refl, refl)
