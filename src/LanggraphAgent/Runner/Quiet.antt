-- ===== src/LanggraphAgent/Runner/Quiet.antt =====
-- The nodes of langgraph_agent/nodes that leave the machine, and the keys of the gate of the approval,
-- as they are.
use ops_incident_collector.Prelude.{true, false, ◌≡◌, refl}
use ops_incident_collector.Core.Json.{Fields}
use ops_incident_collector.Core.Machine.{Machine}
use ops_incident_collector.LanggraphAgent.Nodes.{Agent, Node}
use ops_incident_collector.LanggraphAgent.Nodes.Local.{
  load_config_node, validate_path_policy_node, inspect_sources_node, preview_redaction_summary_node,
  compute_coverage_node, compute_rag_readiness_node, plan_sync_node, policy_update,
}
use ops_incident_collector.LanggraphAgent.Nodes.Syncing.{verify_sync_node}
use ops_incident_collector.LanggraphAgent.Nodes.Summaries.{summarize_source_onboarding_node}
use ops_incident_collector.LanggraphAgent.Nodes.Outputs.{
  Writes, load_config_node-Writes, validate_path_policy_node-Writes, inspect_sources_node-Writes,
  preview_redaction_summary_node-Writes, compute_coverage_node-Writes,
  compute_rag_readiness_node-Writes, plan_sync_node-Writes,
}
use ops_incident_collector.LanggraphAgent.Runner.Guards.{guards, is_silent}

-- An update that writes no key of a guard.
abbrev pub IsSilent : Fields → Type 0
IsSilent delta = is_silent guards delta ≡ true

pub record IsQuiet (node : Node) : Type 0 where
  pub update : (state : Fields) (m : Machine) → Writes IsSilent (node state m).0
  pub machine : (state : Fields) (m : Machine) → (node state m).1 ≡ m

module _ (agent : Agent) where
  pub load_config_node-IsQuiet : IsQuiet (load_config_node agent)
  unfolding load_config_node is_silent
  load_config_node-IsQuiet = record {
    update = λ state m. load_config_node-Writes agent IsSilent state m (λ settings. refl);
    machine = λ state m. refl;
  }

  pub validate_path_policy_node-IsQuiet : IsQuiet (validate_path_policy_node agent)
  unfolding validate_path_policy_node is_silent
  validate_path_policy_node-IsQuiet = record {
    update = λ state m.
        validate_path_policy_node-Writes agent IsSilent state m refl (λ resolved allowed settings.
          elim allowed as (λ b. IsSilent (policy_update agent resolved b settings state)) [
            | true ↦ refl
            | false ↦ refl
          ]);
    machine = λ state m. refl;
  }

  pub inspect_sources_node-IsQuiet : IsQuiet (inspect_sources_node agent)
  unfolding inspect_sources_node is_silent
  inspect_sources_node-IsQuiet = record {
    update = λ state m. inspect_sources_node-Writes agent IsSilent state m refl (λ i. refl);
    machine = λ state m. refl;
  }

  pub preview_redaction_summary_node-IsQuiet : IsQuiet (preview_redaction_summary_node agent)
  unfolding preview_redaction_summary_node is_silent
  preview_redaction_summary_node-IsQuiet = record {
    update = λ state m.
        preview_redaction_summary_node-Writes agent IsSilent state m refl (λ i settings. refl);
    machine = λ state m. refl;
  }

  pub compute_coverage_node-IsQuiet : IsQuiet (compute_coverage_node agent)
  unfolding compute_coverage_node is_silent
  compute_coverage_node-IsQuiet = record {
    update = λ state m. compute_coverage_node-Writes agent IsSilent state m refl (λ c. refl);
    machine = λ state m. refl;
  }

  pub compute_rag_readiness_node-IsQuiet : IsQuiet (compute_rag_readiness_node agent)
  unfolding compute_rag_readiness_node is_silent
  compute_rag_readiness_node-IsQuiet = record {
    update = λ state m. compute_rag_readiness_node-Writes agent IsSilent state m refl (λ r. refl);
    machine = λ state m. refl;
  }

  pub plan_sync_node-IsQuiet : IsQuiet (plan_sync_node agent)
  unfolding plan_sync_node is_silent
  plan_sync_node-IsQuiet = record {
    update = λ state m. plan_sync_node-Writes agent IsSilent state m (λ plan. refl);
    machine = λ state m. refl;
  }

  pub verify_sync_node-machine :
      (state : Fields) (m : Machine) → (verify_sync_node agent state m).1 ≡ m
  unfolding verify_sync_node
  verify_sync_node-machine state m = refl

  pub summarize_source_onboarding_node-machine :
      (state : Fields) (m : Machine) → (summarize_source_onboarding_node agent state m).1 ≡ m
  unfolding summarize_source_onboarding_node
  summarize_source_onboarding_node-machine state m = refl
