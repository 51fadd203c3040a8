-- ===== src/LanggraphAgent/Nodes/Local.antt =====
-- langgraph_agent/nodes/common.py: the nodes that read the configuration and the local tree.
use ops_incident_collector.Prelude.{
  ℕ, String, Bool, true, false, not, ◌&&◌, Option, none, some, List, [], ◌∷◌, ◌++◌, length, take,
  ltb, ◌==◌, ◌<>◌, truthy?, Result, ok, if◌then◌else◌,
}
use ops_incident_collector.Core.Json.{
  Value, Items, Fields, boolean, text, number, array, object, nil, cons, end, field, get_field,
  text_or_null,
}
use ops_incident_collector.Core.Models.{
  SourceInspection, SourceCoverageReport, RagReadinessReport, EvalSeedCase,
}
use ops_incident_collector.Core.Inspection.{InspectRequest, inspect_source, sorted_set}
use ops_incident_collector.Core.Analysis.{build_source_coverage_report, build_rag_readiness_report}
use ops_incident_collector.Core.Analysis.Seeds.{generate_eval_seed_cases}
use ops_incident_collector.Config.Settings.{AppSettings, resolve_token}
use ops_incident_collector.Processors.PathPolicy.{is_allowed_path}
use ops_incident_collector.LanggraphAgent.State.{
  flag, is_in, get_true_text, get_object, get_items, items_of, texts_of, errors_with,
}
use ops_incident_collector.LanggraphAgent.Dumps.{
  dump_inspection, dump_coverage, dump_readiness, dump_case,
}
use ops_incident_collector.LanggraphAgent.Nodes.{
  Agent, Node, pure_node, with_ok, load_settings_for_state,
}

-- `sorted(set([*state.get("warnings", []), *warnings]))`
abbrev pub warnings_with : List String → Fields → Value
warnings_with warnings state =
    array (items_of (sorted_set (texts_of (get_items "warnings" state) ++ warnings)))

-- `state.get("inspection") or state.get("local_inspection")`
abbrev pub inspection_in : Fields → Fields
inspection_in state = elim (get_object "inspection" state) [
  | end ↦ get_object "local_inspection" state
  | field k v fs ↦ field k v fs
]

abbrev pub number_in : String → Fields → ℕ
number_in key fs = elim (get_field key fs) [ some (number n) ↦ n | _ ↦ 0 ]

module _ (agent : Agent) where
  abbrev pub config_update : AppSettings → Fields
  config_update settings = field "config_loaded" (boolean true) (
      field "config_summary"
        (object (
          field "api_url_configured" (boolean (truthy? settings.api.base_url)) (
            field "project_id" (text_or_null settings.project_id) (
              field "collector_mode" (text settings.collector.mode) (
                field "source_count" (number (length settings.sources)) (
                  field "token_present"
                    (boolean (truthy? (resolve_token agent.system.environment settings.api)))
                    (field "token_env" (text settings.api.token_env)
                      (field "state_path" (text settings.sqlite_path) end))))))))
        (field "status" (text "running") end))

  unfoldable pub load_config_node : Node
  unfolding load_settings_for_state resolve_token
  load_config_node = pure_node (λ state.
      with_ok (load_settings_for_state agent state) (λ settings. ok (config_update settings)))

  abbrev policy : (resolved reason : String) → (allowed : Bool) → AppSettings → Value
  policy resolved reason allowed settings = object (
      field "path" (text resolved) (
        field "allowed" (boolean allowed) (
          field "allow_paths" (array (items_of settings.security.allow_paths))
            (field "reason" (text reason) end))))

  abbrev pub policy_update : (resolved : String) → (allowed : Bool) → AppSettings → Fields → Fields
  policy_update resolved true settings state =
      field "path_policy" (policy resolved "allowed" true settings) end
  policy_update resolved false settings state =
      field "path_policy" (policy resolved "path not allowlisted" false settings) (
        field "errors" (errors_with ("path is not allowlisted: " <> resolved) state)
          (field "status" (text "failed") end))

  abbrev pub no_path : Fields
  no_path =
      field "path_policy"
        (object
          (field "allowed" (boolean true) (field "reason" (text "no local path supplied") end)))
        end

  abbrev pub validated_path : Option String → Fields → Result Fields
  validated_path none state = ok no_path
  validated_path (some path) state = with_ok (load_settings_for_state agent state) (λ settings. ok (
      policy_update (agent.system.paths.resolve path)
        (is_allowed_path agent.system.paths (agent.system.paths.resolve path)
          settings.security.allow_paths)
        settings state))

  unfoldable pub validate_path_policy_node : Node
  unfolding load_settings_for_state is_allowed_path get_true_text get_items
  validate_path_policy_node = pure_node (λ state. validated_path (get_true_text "path" state) state)

  -- A node that does its work on the path only where the run has not failed and there is a path.
  abbrev pub on_path : (String → AppSettings → Fields → Result Fields) → Fields → Result Fields
  on_path work state =
      if is_in "status" ("failed" ∷ []) state then ok end else elim (get_true_text "path" state) [
        | none ↦ ok end
        | some path ↦
            with_ok (load_settings_for_state agent state) (λ settings. work path settings state)
      ]

  abbrev pub inspection_request : String → InspectRequest
  inspection_request path = record {
    path = path;
    max_depth = 8;
    max_file_size_mb = none;
    include = [];
    exclude = [];
    max_files = none;
  }

  abbrev pub inspection_update : SourceInspection → Fields → Fields
  inspection_update i state = field "inspection" (object (dump_inspection i)) (
      field "local_inspection" (object (dump_inspection i))
        (field "warnings" (warnings_with i.warnings state) end))

  abbrev pub inspected : (path : String) → AppSettings → Fields → Result Fields
  inspected path settings state =
      with_ok (inspect_source agent.system settings (inspection_request path))
        (λ i. ok (inspection_update i state))

  unfoldable pub inspect_sources_node : Node
  unfolding load_settings_for_state is_in get_true_text inspect_source dump_inspection get_items
      sorted_set
  inspect_sources_node = pure_node (on_path inspected)

  abbrev pub preview_update : Fields → AppSettings → Fields
  preview_update inspection settings =
      field "redaction_preview"
        (object (
          field "enabled" (boolean settings.security.redact_secrets) (
            field "possible_secrets_detected"
              (number (number_in "possible_secrets_detected" inspection))
              (field "note"
                (text "Graph state stores counts only; raw preview text is not persisted.") end))))
        end

  abbrev pub previewed : Fields → Fields → Result Fields
  previewed end state = ok end
  previewed (field k v fs) state =
      with_ok (load_settings_for_state agent state)
        (λ settings. ok (preview_update (field k v fs) settings))

  unfoldable pub preview_redaction_summary_node : Node
  unfolding load_settings_for_state get_object get_field
  preview_redaction_summary_node = pure_node (λ state. previewed (inspection_in state) state)

  abbrev pub coverage_update : SourceCoverageReport → Fields → Fields
  coverage_update c state = field "coverage" (object (dump_coverage c)) (
      field "missing_data" (array (items_of c.missing_recommended_sources))
        (field "warnings" (warnings_with c.warnings state) end))

  abbrev pub with_coverage : (path : String) → AppSettings → Fields → Result Fields
  with_coverage path settings state =
      with_ok (build_source_coverage_report agent.system settings 0 path 8)
        (λ c. ok (coverage_update c state))

  unfoldable pub compute_coverage_node : Node
  unfolding load_settings_for_state is_in get_true_text build_source_coverage_report dump_coverage
      get_items sorted_set
  compute_coverage_node = pure_node (on_path with_coverage)

  abbrev pub readiness_update : RagReadinessReport → Fields → Fields
  readiness_update r state =
      field "rag_readiness" (object (dump_readiness r))
        (field "warnings" (warnings_with r.weaknesses state) end)

  abbrev pub with_readiness : ℕ → (path : String) → AppSettings → Fields → Result Fields
  with_readiness now path settings state =
      with_ok (build_rag_readiness_report agent.system settings now path 8)
        (λ r. ok (readiness_update r state))

  -- The time of discovery that a document gets does not reach the report.
  unfoldable pub compute_rag_readiness_node : Node
  unfolding load_settings_for_state is_in get_true_text build_rag_readiness_report dump_readiness
      get_items sorted_set
  compute_rag_readiness_node state m = pure_node (on_path (with_readiness m.world.clock)) state m

  abbrev pub case_items : List EvalSeedCase → Items
  case_items [] = nil
  case_items (c ∷ cs) = cons (object (dump_case c)) (case_items cs)

  abbrev pub preview_cases : List EvalSeedCase → Fields
  preview_cases cases = field "eval_seed_preview" (array (case_items (take 5 cases))) end

  unfoldable pub generate_eval_seed_preview_node : Node
  unfolding load_settings_for_state is_in get_true_text generate_eval_seed_cases dump_case
  generate_eval_seed_preview_node state m =
      pure_node
        (on_path (λ path settings state.
          with_ok (generate_eval_seed_cases agent.show agent.system settings m.world.clock path 8)
            (λ cases. ok (preview_cases cases))))
        state m

  -- The decision of `plan_sync_node`, with its reasons and its risks.
  abbrev pub decision :
      (inspection readiness redaction policy : Fields) → String × List String × List String
  decision inspection readiness redaction policy =
      if not (flag "allowed" true policy)
      then ("do_not_sync", "path policy failed" ∷ [], [])
      else if number_in "supported_files" inspection == 0
      then ("do_not_sync", "no supported documents found" ∷ [], [])
      else if not (flag "enabled" true redaction)
          && ltb 0 (number_in "possible_secrets_detected" inspection)
      then (
        "do_not_sync",
        [],
        "secret redaction disabled while possible secrets were detected" ∷ [],
      )
      else if is_in "grade" ("poor" ∷ "weak" ∷ []) readiness
      then ("dry_run_first", "RAG readiness is weak; dry-run recommended first" ∷ [], [])
      else ("sync", "source has supported, redacted, investigation-ready documents" ∷ [], [])

  abbrev pub plan_of : String × List String × List String → Fields → Value → Fields
  plan_of (decision, reasons, risks) state prompt =
      field "sync_plan"
        (object (
          field "decision" (text decision) (
            field "requires_human_approval"
              (boolean
                (is_in "export_target" ("api" ∷ []) state && not (flag "dry_run" false state)))
              (field "reasons" (array (items_of reasons))
                (field "risks" (array (items_of risks)) (field "prompt_asset" prompt end))))))
        end

  unfoldable pub plan_sync_node : Node
  unfolding flag is_in get_object get_field
  plan_sync_node = pure_node (λ state. with_ok (agent.prompt "sync_decision") (λ prompt. ok (
      plan_of
        (decision (get_object "inspection" state) (get_object "rag_readiness" state)
          (get_object "redaction_preview" state) (get_object "path_policy" state))
        state prompt)))
