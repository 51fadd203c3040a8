-- ===== src/Processors/Classifier.antt =====
-- processors/content_classifier.py
use mathlib.Core.List.{reverse}
use ops_incident_collector.Prelude.{
  String, Bool, not, ◌&&◌, ◌||◌, Option, none, some, List, [], ◌∷◌, any, ◌===◌, one_of, truthy,
  truthy?, lower, contains, path_parts, if◌then◌else◌,
}
use ops_incident_collector.Processors.Regex.{Engine}
use ops_incident_collector.Processors.FileFilter.{take_text}

abbrev last_part : List String → String
last_part [] = ""
last_part (p ∷ ps) = p

-- `Path(s).name`
unfoldable pub path_name : String → String
unfolding path_parts
path_name s = last_part (reverse (path_parts s))

abbrev or_text : Option String → String → String
or_text none d = d
or_text (some s) d = if truthy s then s else d

abbrev pub contains_any : List String → String → Bool
contains_any tokens s = any (λ token. contains s token) tokens

-- The tests on the four texts that the function derives from its arguments.
unfoldable pub classify :
    Engine
    → (extension semantic_path absolute_path name content : String) → (has_relative_path : Bool)
    → String
unfolding contains
classify engine extension semantic_path absolute_path name content has_relative_path =
    if one_of (".py" ∷ ".js" ∷ ".ts" ∷ ".jsx" ∷ ".tsx" ∷ ".go" ∷ ".java" ∷ ".rs" ∷ []) extension
    then "code"
    else if extension === ".proto"
    then "api_doc"
    else if one_of (".patch" ∷ ".diff" ∷ []) extension
    then "patch"
    else if (extension === ".log") || contains_any ("logs/" ∷ "/logs" ∷ []) semantic_path
    then "logs"
    else if contains semantic_path "deploy" || contains name "deploy-history"
    then "deploy_history"
    else if contains name "openapi"
        || contains name "swagger"
        || engine.search (record { source = "(^|\\n)\\s*(openapi|swagger)\\s*:"; flags = "" })
            content
    then "api_doc"
    else if contains semantic_path "runbook" || contains semantic_path "operations"
    then "runbook"
    else if contains_any ("incident" ∷ "postmortem" ∷ "outage" ∷ []) semantic_path
        || engine.search
            (record {
              source = "(^|\\n)#+\\s*(summary|timeline|root cause|resolution)\\b";
              flags = "";
            })
            content
    then "incident_report"
    else if contains_any (" trace_id" ∷ " request_id" ∷ " error " ∷ " warn " ∷ " info " ∷ [])
        content
    then "logs"
    else if contains semantic_path "docs/" || contains semantic_path "/docs"
    then "runbook"
    else if one_of (".toml" ∷ ".ini" ∷ ".yaml" ∷ ".yml" ∷ ".json" ∷ []) extension
    then "config"
    else if not has_relative_path
        && contains_any ("incident" ∷ "postmortem" ∷ "outage" ∷ []) absolute_path
    then "incident_report"
    else "unknown_text"

unfoldable pub classify_content :
    Engine → (path extension : String) → (relative_path text : Option String) → String
unfolding classify path_name take_text lower
classify_content engine path extension relative_path text =
    classify engine extension (lower (or_text relative_path (path_name path))) (lower path)
      (lower (path_name (or_text relative_path (path_name path))))
      (lower (take_text 20_000 (or_text text ""))) (truthy? relative_path)
