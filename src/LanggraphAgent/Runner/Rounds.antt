-- ===== src/LanggraphAgent/Runner/Rounds.antt =====
-- langgraph_agent/runner.py: the rounds of the onboarding of a source for which no approval is given.
use ops_incident_collector.Prelude.{
  String, Bool, true, false, List, [], ◌∷◌, ◌≡◌, refl, ap, ap₂, subst, ◌∙◌, Result, ok, raise,
  Triple, Triple-bind, After,
}
use ops_incident_collector.Core.Json.{Fields, get_field}
use ops_incident_collector.Core.Machine.{Machine}
use ops_incident_collector.LanggraphAgent.State.{is_in, text_in}
use ops_incident_collector.LanggraphAgent.State.Updates.{or_else}
use ops_incident_collector.LanggraphAgent.Nodes.{Agent, Node}
use ops_incident_collector.LanggraphAgent.Nodes.Syncing.{
  approval_gate_node, sync_source_node, gated, gate_update, sync_unless, stopped_statuses,
}
use ops_incident_collector.LanggraphAgent.Graphs.{source_onboarding, source_onboarding_state}
use ops_incident_collector.LanggraphAgent.Session.{
  GraphSession, take_update, took, run_node, run_nodes,
}
use ops_incident_collector.LanggraphAgent.Runner.Steps.{
  TakesSchema, take_update-channels, take_update-machine,
}
use ops_incident_collector.LanggraphAgent.Runner.Guards.{
  guards-other, guards, IsGuarded, take_update-Holds,
}
use ops_incident_collector.LanggraphAgent.Runner.Gate.{
  requires_approval-guarded, is_approved-guarded, still_stopped, stopped_by_gate,
}
use ops_incident_collector.LanggraphAgent.Nodes.Outputs.{Writes}
use ops_incident_collector.LanggraphAgent.Runner.Quiet.{
  IsSilent, IsQuiet, load_config_node-IsQuiet, validate_path_policy_node-IsQuiet,
  inspect_sources_node-IsQuiet, preview_redaction_summary_node-IsQuiet,
  compute_coverage_node-IsQuiet, compute_rag_readiness_node-IsQuiet, plan_sync_node-IsQuiet,
  verify_sync_node-machine, summarize_source_onboarding_node-machine,
}

-- The machine is as it was.
abbrev pub Kept : Machine → GraphSession → Type 0
Kept m s = s.machine ≡ m

abbrev pub Before : Machine → GraphSession → Type 0
Before m s = IsGuarded s.channels × (s.machine ≡ m)

abbrev pub Halted : Machine → GraphSession → Type 0
Halted m s = (text_in stopped_statuses (get_field "status" s.channels) ≡ true) × (s.machine ≡ m)

-- The state is guarded, and the machine is as it was.
abbrev pub Prepared : Machine → GraphSession → Type 0
Prepared m s = IsGuarded s.state × (s.machine ≡ m)

module _ (agent : Agent) (takes : TakesSchema agent.channel_writes) (graph_name run_id : String)
    (m : Machine) where
  -- The round of a node whose outcome on the channels of `s` is known.
  took-After :
      (Q : GraphSession → Type 0) (schema : List String) (node_name : String)
      (p : Result Fields × Machine) (s : GraphSession)
      → p.1 ≡ m
      → ((delta : Fields)
          → p.0 ≡ ok delta
          → Q (
              take_update agent graph_name run_id node_name
                (agent.channel_writes schema delta)
                (record s { machine = p.1 })))
      → After (Kept m) Q (took agent graph_name run_id node_name schema p s)
  took-After Q schema node_name (ok delta, n) s h k = k delta refl
  took-After Q schema node_name (raise e, n) s h k = h

  take_update-Kept :
      (schema : List String) (node_name : String) (s : GraphSession) (n : Machine) (delta : Fields)
      → n ≡ m
      → Kept m (
          take_update agent graph_name run_id node_name
            (agent.channel_writes schema delta)
            (record s { machine = n }))
  take_update-Kept schema node_name s n delta h =
      take_update-machine agent graph_name run_id node_name (agent.channel_writes schema delta)
        (record s { machine = n })
      ∙ h

  run_node-quiet :
      (schema : List String) (node_name : String) (node : Node)
      → IsQuiet node
      → Triple
          (Kept m)
          (Before m)
          (Before m)
          (run_node agent graph_name run_id schema (node_name, node))
  unfolding run_node
  run_node-quiet schema node_name node quiet = record {
    at = λ s h.
        took-After (Before m) schema node_name (node s.channels s.machine) s
          (quiet.machine s.channels s.machine ∙ h.1)
          (λ delta e. (
            take_update-Holds agent takes graph_name run_id node_name schema _ delta guards
                guards-other (subst (Writes IsSilent) e (quiet.update s.channels s.machine)) h.0,
            take_update-Kept schema node_name s _ delta (quiet.machine s.channels s.machine ∙ h.1),
          ));
  }

  run_node-Kept :
      (schema : List String) (node_name : String) (node : Node)
      → ((state : Fields) (n : Machine) → (node state n).1 ≡ n)
      → Triple
          (Kept m)
          (Kept m)
          (Kept m)
          (run_node agent graph_name run_id schema (node_name, node))
  unfolding run_node
  run_node-Kept schema node_name node kept = record {
    at = λ s h.
        took-After (Kept m) schema node_name (node s.channels s.machine) s
          (kept s.channels s.machine ∙ h)
          (λ delta e. take_update-Kept schema node_name s _ delta (kept s.channels s.machine ∙ h));
  }

  after_gate :
      (w : Fields) (s : GraphSession) (delta : Fields)
      → w ≡ agent.channel_writes source_onboarding_state delta
      → get_field "status" (take_update agent graph_name run_id "approval_gate" w s).channels
        ≡ or_else (get_field "status" delta) (get_field "status" s.channels)
  after_gate w s delta e =
      take_update-channels agent graph_name run_id "approval_gate" "status" refl w s
      ∙ ap (λ o. or_else o (get_field "status" s.channels))
          (ap (get_field "status") e ∙ takes source_onboarding_state delta "status")

  run_node-gate : Triple (Kept m) (Before m) (Halted m) (
      run_node agent graph_name run_id source_onboarding_state
        ("approval_gate", approval_gate_node))
  unfolding run_node approval_gate_node
  run_node-gate = record {
    at = λ s h. (
      ap (text_in stopped_statuses) (
            after_gate _ s (gate_update s.channels) refl
            ∙ ap (λ d. or_else (get_field "status" d) (get_field "status" s.channels))
                (ap₂
                  (λ r a.
                    gated (is_in "status" ("failed" ∷ "core_unavailable" ∷ []) s.channels) r a
                      s.channels)
                  (requires_approval-guarded s.channels h.0) (is_approved-guarded s.channels h.0)))
          ∙ stopped_by_gate (is_in "status" ("failed" ∷ "core_unavailable" ∷ []) s.channels)
              s.channels (unfold is_in in still_stopped (get_field "status" s.channels)),
      take_update-Kept source_onboarding_state "approval_gate" s s.machine (gate_update s.channels)
          h.1,
    );
  }

  sync_unless-kept :
      (b : Bool) (state : Fields) (n : Machine) → b ≡ true → (sync_unless agent b state n).1 ≡ n
  sync_unless-kept true state n h = refl
  sync_unless-kept false state n h = absurd cc

  run_node-sync : Triple (Kept m) (Halted m) (Kept m) (
      run_node agent graph_name run_id source_onboarding_state
        ("sync_source", sync_source_node agent))
  unfolding run_node sync_source_node is_in
  run_node-sync = record {
    at = λ s h.
        let kept =
          sync_unless-kept (is_in "status" stopped_statuses s.channels) s.channels s.machine h.0
          ∙ h.1 in
        took-After (Kept m) source_onboarding_state "sync_source"
          (sync_source_node agent s.channels s.machine) s kept
          (λ delta e. take_update-Kept source_onboarding_state "sync_source" s _ delta kept);
  }

  run_nodes-then :
      {P Q : GraphSession → Type 0} (schema : List String) (node : String × Node)
      (nodes : List (String × Node))
      → Triple (Kept m) P Q (run_node agent graph_name run_id schema node)
      → Triple (Kept m) Q (Kept m) (run_nodes agent graph_name run_id schema nodes)
      → Triple (Kept m) P (Kept m) (run_nodes agent graph_name run_id schema (node ∷ nodes))
  unfolding run_nodes
  run_nodes-then schema node nodes h k = Triple-bind h (λ u. k)

  run_nodes-quiet :
      (schema : List String) (nodes : List (String × Node)) (node_name : String) (node : Node)
      → IsQuiet node
      → Triple (Kept m) (Before m) (Kept m) (run_nodes agent graph_name run_id schema nodes)
      → Triple
          (Kept m)
          (Before m)
          (Kept m)
          (run_nodes agent graph_name run_id schema ((node_name, node) ∷ nodes))
  run_nodes-quiet schema nodes node_name node quiet k =
      run_nodes-then schema _ nodes (run_node-quiet schema node_name node quiet) k

  pub run_nodes-Kept :
      Triple
        (Kept m)
        (Before m)
        (Kept m)
        (run_nodes agent graph_name run_id source_onboarding_state (source_onboarding agent).nodes)
  run_nodes-Kept = run_nodes-quiet _ _ _ _ (load_config_node-IsQuiet agent) (
      run_nodes-quiet _ _ _ _ (validate_path_policy_node-IsQuiet agent) (
        run_nodes-quiet _ _ _ _ (inspect_sources_node-IsQuiet agent) (
          run_nodes-quiet _ _ _ _ (preview_redaction_summary_node-IsQuiet agent) (
            run_nodes-quiet _ _ _ _ (compute_coverage_node-IsQuiet agent) (
              run_nodes-quiet _ _ _ _ (compute_rag_readiness_node-IsQuiet agent) (
                run_nodes-quiet _ _ _ _ (plan_sync_node-IsQuiet agent) (
                  run_nodes-then _ _ _ run_node-gate (
                    run_nodes-then _ _ _ run_node-sync (
                      run_nodes-then _ _ _
                        (run_node-Kept source_onboarding_state "verify_sync" _
                          (verify_sync_node-machine agent))
                        (run_nodes-then _ _ []
                          (run_node-Kept source_onboarding_state "final_report" _
                            (summarize_source_onboarding_node-machine agent))
                          (unfold run_nodes in record { at = λ s h. h })))))))))))
