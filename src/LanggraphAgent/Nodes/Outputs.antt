-- ===== src/LanggraphAgent/Nodes/Outputs.antt =====
-- What holds of the update that a node of langgraph_agent/nodes writes, where it holds of every update that
-- the node can write. A node that raises writes none.
use ops_incident_collector.Prelude.{
  String, Bool, true, false, Option, none, some, [], ◌∷◌, Result, ok, raise, if◌then◌else◌,
}
use ops_incident_collector.Core.Json.{Value, Fields, object, end, field}
use ops_incident_collector.Core.Models.{
  SyncSummary, SourceInspection, SourceCoverageReport, RagReadinessReport,
}
use ops_incident_collector.Core.Machine.{Machine}
use ops_incident_collector.Core.Inspection.{inspect_source}
use ops_incident_collector.Core.Analysis.{build_source_coverage_report, build_rag_readiness_report}
use ops_incident_collector.Core.Pipeline.{run_sync}
use ops_incident_collector.Config.Settings.{AppSettings}
use ops_incident_collector.LanggraphAgent.State.{get_true_text, is_in}
use ops_incident_collector.LanggraphAgent.Dumps.{dump_summary}
use ops_incident_collector.LanggraphAgent.Nodes.{Agent, with_ok, load_settings_for_state}
use ops_incident_collector.LanggraphAgent.Nodes.Local.{
  load_config_node, validate_path_policy_node, inspect_sources_node, preview_redaction_summary_node,
  compute_coverage_node, compute_rag_readiness_node, plan_sync_node, on_path, config_update,
  no_path, policy_update, inspection_in, validated_path, previewed, preview_update, inspected,
  inspection_update, with_coverage, coverage_update, with_readiness, readiness_update,
  inspection_request,
}
use ops_incident_collector.LanggraphAgent.Nodes.Syncing.{
  sync_source_node, verify_sync_node, verify_update, summarized, synced_with, sync_path,
  sync_unless, stopped_statuses, node_request,
}
use ops_incident_collector.LanggraphAgent.Nodes.Summaries.{
  summarize_source_onboarding_node, summary_update, onboarding_status,
}

abbrev pub Writes : (Fields → Type 0) → Result Fields → Type 0
Writes P (ok delta) = P delta
Writes P (raise e) = Unit

Writes-with_ok {ℓ} :
    {A : Type ℓ} (P : Fields → Type 0) (r : Result A) (f : A → Result Fields)
    → ((a : A) → Writes P (f a))
    → Writes P (with_ok r f)
Writes-with_ok P (ok a) f h = h a
Writes-with_ok P (raise e) f h = tt

Writes-if :
    (P : Fields → Type 0) (b : Bool) (r t : Result Fields)
    → Writes P r
    → Writes P t
    → Writes P (if b then r else t)
Writes-if P true r t hr ht = hr
Writes-if P false r t hr ht = ht

module _ (agent : Agent) (P : Fields → Type 0) where
  pub load_config_node-Writes :
      (state : Fields) (m : Machine)
      → ((settings : AppSettings) → P (config_update agent settings))
      → Writes P (load_config_node agent state m).0
  unfolding load_config_node
  load_config_node-Writes state m h = Writes-with_ok P (load_settings_for_state agent state) _ h

  validated_path-Writes :
      (o : Option String) (state : Fields)
      → P (no_path agent)
      → ((resolved : String) (allowed : Bool) (settings : AppSettings)
          → P (policy_update agent resolved allowed settings state))
      → Writes P (validated_path agent o state)
  validated_path-Writes none state empty h = empty
  validated_path-Writes (some path) state empty h =
      Writes-with_ok P (load_settings_for_state agent state) _ (λ settings. h _ _ settings)

  pub validate_path_policy_node-Writes :
      (state : Fields) (m : Machine)
      → P (no_path agent)
      → ((resolved : String) (allowed : Bool) (settings : AppSettings)
          → P (policy_update agent resolved allowed settings state))
      → Writes P (validate_path_policy_node agent state m).0
  unfolding validate_path_policy_node
  validate_path_policy_node-Writes state m empty h =
      validated_path-Writes (get_true_text "path" state) state empty h

  previewed-Writes :
      (i state : Fields)
      → P end
      → ((i : Fields) (settings : AppSettings) → P (preview_update agent i settings))
      → Writes P (previewed agent i state)
  previewed-Writes end state empty h = empty
  previewed-Writes (field k v fs) state empty h =
      Writes-with_ok P (load_settings_for_state agent state) _ (h (field k v fs))

  pub preview_redaction_summary_node-Writes :
      (state : Fields) (m : Machine)
      → P end
      → ((i : Fields) (settings : AppSettings) → P (preview_update agent i settings))
      → Writes P (preview_redaction_summary_node agent state m).0
  unfolding preview_redaction_summary_node
  preview_redaction_summary_node-Writes state m empty h =
      previewed-Writes (inspection_in state) state empty h

  Writes-on_path :
      (work : String → AppSettings → Fields → Result Fields) (state : Fields)
      → P end
      → ((path : String) (settings : AppSettings) → Writes P (work path settings state))
      → Writes P (on_path agent work state)
  Writes-on_path work state empty h =
      Writes-if P (is_in "status" ("failed" ∷ []) state) _ _ empty (by (get_true_text "path" state))
    where
      by :
          (o : Option String)
          → Writes P (elim o as (λ x. Result Fields) [
            | none ↦ ok end
            | some path ↦
                with_ok (load_settings_for_state agent state) (λ settings. work path settings state)
          ])
      by none = empty
      by (some path) = Writes-with_ok P (load_settings_for_state agent state) _ (h path)

  pub inspect_sources_node-Writes :
      (state : Fields) (m : Machine)
      → P end
      → ((i : SourceInspection) → P (inspection_update agent i state))
      → Writes P (inspect_sources_node agent state m).0
  unfolding inspect_sources_node
  inspect_sources_node-Writes state m empty h =
      Writes-on_path (inspected agent) state empty (λ path settings.
        Writes-with_ok P (inspect_source agent.system settings (inspection_request agent path)) _ h)

  pub compute_coverage_node-Writes :
      (state : Fields) (m : Machine)
      → P end
      → ((c : SourceCoverageReport) → P (coverage_update agent c state))
      → Writes P (compute_coverage_node agent state m).0
  unfolding compute_coverage_node
  compute_coverage_node-Writes state m empty h =
      Writes-on_path (with_coverage agent) state empty (λ path settings.
        Writes-with_ok P (build_source_coverage_report agent.system settings 0 path 8) _ h)

  pub compute_rag_readiness_node-Writes :
      (state : Fields) (m : Machine)
      → P end
      → ((r : RagReadinessReport) → P (readiness_update agent r state))
      → Writes P (compute_rag_readiness_node agent state m).0
  unfolding compute_rag_readiness_node
  compute_rag_readiness_node-Writes state m empty h =
      Writes-on_path (with_readiness agent m.world.clock) state empty (λ path settings.
        Writes-with_ok P (build_rag_readiness_report agent.system settings m.world.clock path 8) _
          h)

  pub plan_sync_node-Writes :
      (state : Fields) (m : Machine)
      → ((plan : Value) → P (field "sync_plan" plan end))
      → Writes P (plan_sync_node agent state m).0
  unfolding plan_sync_node
  plan_sync_node-Writes state m h =
      Writes-with_ok P (agent.prompt "sync_decision") _ (λ prompt. h _)

  summarized-Writes :
      (r : Result SyncSummary × Machine)
      → ((s : SyncSummary) → P (field "sync_summary" (object (dump_summary s)) end))
      → Writes P (summarized agent r).0
  summarized-Writes (ok s, m) h = h s
  summarized-Writes (raise e, m) h = tt

  synced_with-Writes :
      (path : String) (state : Fields) (r : Result AppSettings) (m : Machine)
      → ((s : SyncSummary) → P (field "sync_summary" (object (dump_summary s)) end))
      → Writes P (synced_with agent path state r m).0
  synced_with-Writes path state (raise e) m h = tt
  synced_with-Writes path state (ok settings) m h =
      summarized-Writes
        (run_sync agent.system settings (node_request agent path settings state)
          (agent.draw m.world.clock) m)
        h

  pub sync_source_node-Writes :
      (state : Fields) (m : Machine)
      → P end
      → ((s : SyncSummary) → P (field "sync_summary" (object (dump_summary s)) end))
      → Writes P (sync_source_node agent state m).0
  unfolding sync_source_node
  sync_source_node-Writes state m empty h =
      unless (is_in "status" stopped_statuses state) (get_true_text "path" state)
    where
      on : (o : Option String) → Writes P (sync_path agent o state m).0
      on none = empty
      on (some path) = synced_with-Writes path state (load_settings_for_state agent state) m h

      unless : (b : Bool) (o : Option String) → Writes P (sync_unless agent b state m).0
      unless true o = empty
      unless false o = on (get_true_text "path" state)

  pub verify_sync_node-Writes :
      (state : Fields) (m : Machine)
      → ((summary uploads quality warnings : Value)
          → P (
              field "sync_summary" summary (
                field "failed_uploads" uploads
                  (field "post_sync_quality" quality (field "warnings" warnings end)))))
      → Writes P (verify_sync_node agent state m).0
  unfolding verify_sync_node verify_update
  verify_sync_node-Writes state m h =
      Writes-with_ok P (load_settings_for_state agent state) _ (λ settings. h _ _ _ _)

  pub summarize_source_onboarding_node-Writes :
      (state : Fields) (m : Machine)
      → ((report : Fields) → P (summary_update (onboarding_status state) report))
      → Writes P (summarize_source_onboarding_node agent state m).0
  unfolding summarize_source_onboarding_node
  summarize_source_onboarding_node-Writes state m h =
      Writes-with_ok P (agent.prompt "sync_decision") _
        (λ a. Writes-with_ok P (agent.prompt "post_sync_quality_gate") _ (λ b. h _))
