-- ===== src/Core/Payload.antt =====
-- core/core_payload.py: the payload of a document for Core.
use ops_incident_collector.Prelude.{
  String, not, Option, none, some, List, [], ◌∷◌, Dict, get, truthy, lower, strip, one_of,
  if◌then◌else◌,
}
use ops_incident_collector.Core.Json.{Value, text, number, object, end, field, number_or_null}
use ops_incident_collector.Core.Models.{NormalizedDocument}

abbrev pub core_source_type_aliases : Dict (Option String)
core_source_type_aliases =
    ("filesystem", none)
    ∷ ("logs_folder", some "logs")
    ∷ ("git_local", some "code")
    ∷ ("deploy_history", some "deploy")
    ∷ ("incident_report", some "incident")
    ∷ ("incidents", some "incident")
    ∷ ("runbooks", some "runbook")
    ∷ ("patch", some "deploy")
    ∷ []

abbrev pub core_known_source_types : List String
core_known_source_types =
    "logs" ∷ "code" ∷ "deploy" ∷ "incident" ∷ "runbook" ∷ "api_doc" ∷ "config" ∷ "unknown_text" ∷ []

abbrev known : Option String → Option String
known none = none
known (some v) = if one_of core_known_source_types v then some v else none

-- One candidate: its alias, if Core knows that.
unfoldable pub core_type_of : String → Option String
unfolding get lower strip
core_type_of candidate =
    if not (truthy candidate)
    then none
    else (let value = lower (strip candidate) in
        elim (get value core_source_type_aliases) [ none ↦ known (some value) | some a ↦ known a ])

abbrev or_unknown : Option String → Option String → String
or_unknown (some v) second = v
or_unknown none (some v) = v
or_unknown none none = "unknown_text"

unfoldable pub normalize_core_source_type : NormalizedDocument → String
unfolding core_type_of
normalize_core_source_type d = or_unknown (core_type_of d.content_type) (core_type_of d.source_type)

-- `document.relative_path or document.path`
abbrev pub shown_path : NormalizedDocument → String
shown_path d = elim d.relative_path [ none ↦ d.path | some p ↦ if truthy p then p else d.path ]

unfoldable pub to_core_document_payload : NormalizedDocument → Value
unfolding normalize_core_source_type
to_core_document_payload d = object (
    field "external_id" (text d.external_id) (
      field "path" (text (shown_path d)) (
        field "source_type" (text (normalize_core_source_type d)) (
          field "content" (text d.content) (
            field "content_hash" (text d.checksum) (
              field "metadata" (object d.metadata) (
                field "size_bytes" (number d.size_bytes)
                  (field "modified_at" (number_or_null d.modified_at) end))))))))
