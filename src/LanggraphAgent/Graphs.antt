-- ===== src/LanggraphAgent/Graphs.antt =====
-- langgraph_agent/graphs and langgraph_agent/state.py: the nodes of each graph in the order of its
-- edges, and the keys of its schema.
use ops_incident_collector.Prelude.{String, Option, none, some, List, [], ◌∷◌, ◌===◌, if◌then◌else◌}
use ops_incident_collector.LanggraphAgent.Nodes.{Agent, Node}
use ops_incident_collector.LanggraphAgent.Nodes.Local.{
  load_config_node, validate_path_policy_node, inspect_sources_node, preview_redaction_summary_node,
  compute_coverage_node, compute_rag_readiness_node, generate_eval_seed_preview_node,
  plan_sync_node,
}
use ops_incident_collector.LanggraphAgent.Nodes.Syncing.{
  approval_gate_node, sync_source_node, sync_source_if_needed_node, verify_sync_node,
}
use ops_incident_collector.LanggraphAgent.Nodes.Bridge.{
  check_core_health_node, get_core_capabilities_node, decide_if_sync_needed_node,
  call_core_investigate_node,
}
use ops_incident_collector.LanggraphAgent.Nodes.Summaries.{
  summarize_source_onboarding_node, summarize_rag_readiness_node, summarize_sync_quality_node,
  summarize_investigation_bridge_node,
}

pub record Graph : Type 0 where
  pub schema : List String
  pub nodes : List (String × Node)

-- `SourceOnboardingState`
abbrev pub source_onboarding_state : List String
source_onboarding_state =
    "run_id" ∷ "path" ∷ "project_id" ∷ "config_path" ∷ "export_target" ∷ "output" ∷ "dry_run"
    ∷ "approved" ∷ "require_approval" ∷ "config_loaded" ∷ "config_summary" ∷ "path_policy"
    ∷ "inspection" ∷ "redaction_preview" ∷ "coverage" ∷ "rag_readiness" ∷ "sync_plan"
    ∷ "approval_request" ∷ "sync_summary" ∷ "post_sync_quality" ∷ "final_report" ∷ "errors"
    ∷ "warnings" ∷ "status" ∷ []

-- `RAGReadinessState`
abbrev pub rag_readiness_state : List String
rag_readiness_state =
    "run_id" ∷ "path" ∷ "config_path" ∷ "config_loaded" ∷ "path_policy" ∷ "inspection" ∷ "coverage"
    ∷ "rag_readiness" ∷ "eval_seed_preview" ∷ "final_report" ∷ "errors" ∷ "warnings" ∷ "status" ∷ []

-- `SyncQualityState`
abbrev pub sync_quality_state : List String
sync_quality_state =
    "run_id" ∷ "path" ∷ "project_id" ∷ "config_path" ∷ "config_loaded" ∷ "path_policy"
    ∷ "sync_summary" ∷ "failed_uploads" ∷ "coverage" ∷ "rag_readiness" ∷ "final_report" ∷ "errors"
    ∷ "warnings" ∷ "status" ∷ []

-- `InvestigationBridgeState`
abbrev pub investigation_bridge_state : List String
investigation_bridge_state =
    "run_id" ∷ "path" ∷ "project_id" ∷ "query" ∷ "config_path" ∷ "top_k" ∷ "debug" ∷ "export_target"
    ∷ "dry_run" ∷ "sync_approved" ∷ "config_loaded" ∷ "config_summary" ∷ "core_health"
    ∷ "core_capabilities" ∷ "local_inspection" ∷ "coverage" ∷ "rag_readiness" ∷ "sync_required"
    ∷ "approval_request" ∷ "sync_summary" ∷ "core_investigation_result" ∷ "core_run_result"
    ∷ "final_report" ∷ "missing_data" ∷ "errors" ∷ "warnings" ∷ "status" ∷ []

module _ (agent : Agent) where
  abbrev pub source_onboarding : Graph
  source_onboarding = record {
    schema = source_onboarding_state;
    nodes =
        ("load_config", load_config_node agent)
        ∷ ("validate_path_policy", validate_path_policy_node agent)
        ∷ ("inspect_sources", inspect_sources_node agent)
        ∷ ("preview_redaction", preview_redaction_summary_node agent)
        ∷ ("compute_coverage", compute_coverage_node agent)
        ∷ ("compute_rag_readiness", compute_rag_readiness_node agent)
        ∷ ("plan_sync", plan_sync_node agent)
        ∷ ("approval_gate", approval_gate_node)
        ∷ ("sync_source", sync_source_node agent)
        ∷ ("verify_sync", verify_sync_node agent)
        ∷ ("final_report", summarize_source_onboarding_node agent)
        ∷ [];
  }

  abbrev pub rag_readiness : Graph
  rag_readiness = record {
    schema = rag_readiness_state;
    nodes =
        ("load_config", load_config_node agent)
        ∷ ("validate_path_policy", validate_path_policy_node agent)
        ∷ ("inspect_sources", inspect_sources_node agent)
        ∷ ("compute_coverage", compute_coverage_node agent)
        ∷ ("compute_rag_readiness", compute_rag_readiness_node agent)
        ∷ ("generate_eval_seed_preview", generate_eval_seed_preview_node agent)
        ∷ ("final_report", summarize_rag_readiness_node agent)
        ∷ [];
  }

  abbrev pub sync_quality : Graph
  sync_quality = record {
    schema = sync_quality_state;
    nodes =
        ("load_config", load_config_node agent)
        ∷ ("validate_path_policy", validate_path_policy_node agent)
        ∷ ("load_failed_upload_queue", verify_sync_node agent)
        ∷ ("compute_coverage", compute_coverage_node agent)
        ∷ ("compute_rag_readiness", compute_rag_readiness_node agent)
        ∷ ("final_report", summarize_sync_quality_node agent)
        ∷ [];
  }

  abbrev pub investigation_bridge : Graph
  investigation_bridge = record {
    schema = investigation_bridge_state;
    nodes =
        ("load_config", load_config_node agent)
        ∷ ("check_core_health", check_core_health_node agent)
        ∷ ("get_core_capabilities", get_core_capabilities_node agent)
        ∷ ("inspect_local_sources", inspect_sources_node agent)
        ∷ ("compute_coverage", compute_coverage_node agent)
        ∷ ("compute_rag_readiness", compute_rag_readiness_node agent)
        ∷ ("decide_if_sync_needed", decide_if_sync_needed_node agent)
        ∷ ("approval_gate", approval_gate_node)
        ∷ ("sync_source_if_needed", sync_source_if_needed_node agent)
        ∷ ("call_core_investigate", call_core_investigate_node agent)
        ∷ ("final_report", summarize_investigation_bridge_node agent)
        ∷ [];
  }

  -- `GRAPH_BUILDERS`
  unfoldable pub graph_builders : String → Option Graph
  graph_builders name =
      if name === "source_onboarding"
      then some source_onboarding
      else if name === "rag_readiness"
      then some rag_readiness
      else if name === "sync_quality"
      then some sync_quality
      else if name === "investigation_bridge"
      then some investigation_bridge
      else none
