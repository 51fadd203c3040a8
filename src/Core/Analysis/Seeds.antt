-- ===== src/Core/Analysis/Seeds.antt =====
-- core/analysis.py: `generate_eval_seed_cases`. The list under a key of the metadata is a list there,
-- as the extractors make it, and `str` of a value that is no text is an argument.
pub mod Cases
use ops_incident_collector.Prelude.{
  ℕ, String, Bool, true, false, Option, none, some, List, [], ◌∷◌, ◌++◌, ◌+◌, map, length, take,
  non_empty, Dict, get, put, ◌<>◌, truthy?, contains, lower, decimal, Result, ok, raise,
  if◌then◌else◌,
}
use Prim.Native.Nat.{Ordering}
use ops_incident_collector.Core.Json.{Value, Items, Fields, text, array, nil, cons, get_field}
use ops_incident_collector.Core.Models.{NormalizedDocument, EvalSeedCase}
use ops_incident_collector.Core.Machine.{System}
use ops_incident_collector.Core.Inspection.{sorted_set}
use ops_incident_collector.Core.Targets.{or_empty}
use ops_incident_collector.Core.Analysis.{collect_normalized_documents}
use ops_incident_collector.Config.Settings.{AppSettings}
use ops_incident_collector.Adapters.Http.{truthy_value}

abbrev pub or_none_yet {ℓ} : {A : Type ℓ} → Option (List A) → List A
or_none_yet none = []
or_none_yet (some xs) = xs

-- `by_type.setdefault(document.content_type, []).append(document)`
unfoldable pub group_by_type :
    Dict (List NormalizedDocument) → List NormalizedDocument → Dict (List NormalizedDocument)
unfolding get put
group_by_type groups [] = groups
group_by_type groups (d ∷ ds) =
    group_by_type (put d.content_type (or_none_yet (get d.content_type groups) ++ d ∷ []) groups) ds

-- `sorted(texts)`, which keeps a text that is there twice.
unfoldable insert_before : String → List String → List String
insert_before s [] = s ∷ []
insert_before s (t ∷ ts) = elim (Prim.Native.String.compare s t) [
  | Ordering.gt ↦ t ∷ insert_before s ts
  | _ ↦ s ∷ t ∷ ts
]

unfoldable pub sort_texts : List String → List String
unfolding insert_before
sort_texts [] = []
sort_texts (s ∷ ss) = insert_before s (sort_texts ss)

-- `document.relative_path or document.path`
abbrev pub shown_path : NormalizedDocument → String
shown_path d = if truthy? d.relative_path then or_empty d.relative_path else d.path

abbrev new_case :
    (source_type question : String)
    → (terms : List String) → (number_of_cases : ℕ) → List NormalizedDocument
    → EvalSeedCase
new_case source_type question terms number_of_cases docs = record {
  id = "seed_" <> source_type <> "_" <> decimal (number_of_cases + 1);
  question = question;
  expected_documents = sort_texts (map shown_path docs);
  expected_terms = take 20 terms;
  forbidden_terms = "[REDACTED_SECRET]" ∷ [];
  source_type = source_type;
  difficulty = "easy";
  notes = some "deterministic seed generated from local normalized documents";
}

abbrev with_case : EvalSeedCase → List NormalizedDocument → List EvalSeedCase → List EvalSeedCase
with_case c [] cases = cases
with_case c (d ∷ ds) cases = cases ++ c ∷ []

-- `_add_case`
unfoldable pub add_case :
    Dict (List NormalizedDocument)
    → (source_type question : String) → (terms : List String) → List EvalSeedCase
    → List EvalSeedCase
unfolding get sort_texts decimal
add_case grouped source_type question terms cases =
    with_case
      (new_case source_type question terms (length cases) (or_none_yet (get source_type grouped)))
      (or_none_yet (get source_type grouped)) cases

module _ (show : Value → String) where
  abbrev pub str : Value → String
  str (text s) = s
  str v = show v

  abbrev texts : Items → List String
  texts nil = []
  texts (cons v vs) = str v ∷ texts vs

  -- The texts of the list under a key.
  abbrev pub listed : String → Fields → List String
  listed key metadata = elim (get_field key metadata) [ some (array vs) ↦ texts vs | _ ↦ [] ]

  -- A list under a key, or one value that is true.
  abbrev pub listed_or_one : String → Fields → List String
  listed_or_one key metadata = elim (get_field key metadata) [
    | some (array vs) ↦ texts vs
    | some v ↦ if truthy_value v then str v ∷ [] else []
    | none ↦ []
  ]

  abbrev concat_map : (NormalizedDocument → List String) → List NormalizedDocument → List String
  concat_map f [] = []
  concat_map f (d ∷ ds) = f d ++ concat_map f ds

  -- `_terms_for_logs`
  unfoldable pub terms_for_logs : List NormalizedDocument → List String
  unfolding sorted_set lower contains get_field
  terms_for_logs documents = sorted_set (
      concat_map
        (λ d.
          listed "log_levels" d.metadata
          ++ (if contains (lower d.content) "timeout" then "timeout" ∷ [] else []))
        documents)

  abbrev of_keys : List String → NormalizedDocument → List String
  of_keys [] d = []
  of_keys (key ∷ keys) d = listed_or_one key d.metadata ++ of_keys keys d

  -- `_terms_from_metadata`
  unfoldable pub terms_from_metadata : List NormalizedDocument → (keys : List String) → List String
  unfolding sorted_set get_field
  terms_from_metadata documents keys = sorted_set (concat_map (of_keys keys) documents)

  -- `_heading_terms`
  unfoldable pub heading_terms : List NormalizedDocument → List String
  unfolding sorted_set get_field
  heading_terms documents = sorted_set (concat_map (λ d. listed "headings" d.metadata) documents)

  abbrev tokens_in : List String → String → List String
  tokens_in [] lowered = []
  tokens_in (token ∷ tokens) lowered =
      let rest = tokens_in tokens lowered in if contains lowered token then token ∷ rest else rest

  -- `_incident_terms`
  unfoldable pub incident_terms : List NormalizedDocument → List String
  unfolding sorted_set heading_terms lower contains
  incident_terms documents = sorted_set (
      heading_terms documents
      ++ concat_map
          (λ d.
            tokens_in ("root cause" ∷ "resolution" ∷ "summary" ∷ "timeline" ∷ "severity" ∷ [])
              (lower d.content))
          documents)

  -- The five cases of `generate_eval_seed_cases`.
  unfoldable pub seed_cases : List NormalizedDocument → List EvalSeedCase
  unfolding group_by_type add_case terms_for_logs terms_from_metadata incident_terms heading_terms
  seed_cases documents =
      let grouped = group_by_type [] documents in
      let of_type = λ (kind : String). or_none_yet (get kind grouped) in
      add_case grouped "api_doc" "What API endpoints are documented?"
        (terms_from_metadata (of_type "api_doc") ("api_paths" ∷ "endpoints" ∷ []))
        (add_case grouped "runbook" "What remediation steps are documented?"
          (heading_terms (of_type "runbook"))
          (add_case grouped "incident_report" "What previous incidents are documented?"
            (incident_terms (of_type "incident_report"))
            (add_case grouped "deploy_history" "What deploys or commit hashes are present?"
              (terms_from_metadata (of_type "deploy_history")
                ("deploy_hashes" ∷ "commit_shas" ∷ "commit_sha" ∷ []))
              (add_case grouped "logs" "What errors or warnings appear in the logs?"
                (terms_for_logs (of_type "logs")) []))))

  abbrev pub seeded : Result (List NormalizedDocument) → Result (List EvalSeedCase)
  seeded (raise e) = raise e
  seeded (ok documents) = ok (seed_cases documents)

  unfoldable pub generate_eval_seed_cases :
      System
      → AppSettings
      → (now : ℕ) → (path : String) → (max_depth : ℕ) → Result (List EvalSeedCase)
  unfolding collect_normalized_documents seed_cases
  generate_eval_seed_cases system settings now path max_depth =
      seeded (collect_normalized_documents system settings now path max_depth)
