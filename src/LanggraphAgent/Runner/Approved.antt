-- ===== src/LanggraphAgent/Runner/Approved.antt =====
-- langgraph_agent/runner.py: the rounds of the onboarding of a source in whose state an approval stands.
use ops_incident_collector.Prelude.{
  String, Bool, true, false, not, ◌===◌, Option, All, none, some, List, [], ◌∷◌, ◌≡◌, refl, ap, sym,
  subst, ◌∙◌, one_of, Result, ok, raise, ◌>>◌, modify, Triple, Triple-modify, Triple-bind, After,
  if◌then◌else◌,
}
use ops_incident_collector.Core.Json.{Value, Fields, text, end, field, get_field, put_field}
use ops_incident_collector.Core.Machine.{Machine}
use ops_incident_collector.LanggraphAgent.RunStore.{update_run_state}
use ops_incident_collector.LanggraphAgent.State.{update, is_in, text_in}
use ops_incident_collector.LanggraphAgent.State.Updates.{
  or_else, get_field-put_field, get_field-update,
}
use ops_incident_collector.LanggraphAgent.Nodes.{Agent, Node}
use ops_incident_collector.LanggraphAgent.Nodes.Outputs.{Writes}
use ops_incident_collector.LanggraphAgent.Graphs.{source_onboarding, source_onboarding_state}
use ops_incident_collector.LanggraphAgent.Session.{
  GraphSession, plain, to_persist, persist_as, persist_approval_if_needed, take_update, took,
  run_node, run_nodes, last_status, finish_run,
}
use ops_incident_collector.LanggraphAgent.Runner.{stream_graph}
use ops_incident_collector.LanggraphAgent.Runner.Steps.{TakesSchema, take_update-channels}
use ops_incident_collector.LanggraphAgent.Runner.Settling.{
  is_settled, Approved, Settles, IsSettling, approval_gate_node-IsSettling,
  load_config_node-IsSettling, validate_path_policy_node-IsSettling,
  inspect_sources_node-IsSettling, preview_redaction_summary_node-IsSettling,
  compute_coverage_node-IsSettling, compute_rag_readiness_node-IsSettling,
  plan_sync_node-IsSettling, sync_source_node-IsSettling, verify_sync_node-IsSettling,
  summarize_source_onboarding_node-IsSettling,
}

abbrev pub Settled : Fields → Type 0
Settled fs = is_settled (get_field "status" fs) ≡ true

-- A state with an approval, in which nothing waits for one.
abbrev pub Ready : Fields → Type 0
Ready fs = Approved fs × Settled fs

-- An approval stands in the channels, and nothing waits for one.
record Goes (s : GraphSession) : Type 0 where
  approved : Approved s.channels
  channels : Settled s.channels
  state : Settled s.state

settled-or_else :
    (a b : Option Value)
    → is_settled a ≡ true
    → is_settled b ≡ true
    → is_settled (or_else a b) ≡ true
settled-or_else none b h k = k
settled-or_else (some v) b h k = h

pub waits_not :
    (o : Option Value) → is_settled o ≡ true → text_in ("pending_approval" ∷ []) o ≡ false
waits_not none h = refl
waits_not (some v) h = by (text_in ("pending_approval" ∷ []) (some v)) h
  where
    by : (b : Bool) → not b ≡ true → b ≡ false
    by true g = absurd cc
    by false g = refl

module _ (agent : Agent) (takes : TakesSchema agent.channel_writes)
    (graph_name run_id : String) where
  to_persist-none :
      (fs : Fields) (delta : Fields) (node_name : String) (s : GraphSession)
      → Settled fs
      → persist_as agent graph_name node_name delta (to_persist agent graph_name fs) s ≡ (delta, s)
  to_persist-none fs delta node_name s h = rw waits refl
    where
      waits : is_in "status" ("pending_approval" ∷ []) fs ≡ false
      waits = unfold is_in in waits_not (get_field "status" fs) h

  -- What a settled update leaves of the state.
  take_update-state :
      (node_name : String) (w : Fields) (s : GraphSession)
      → is_settled (or_else (get_field "status" w) (get_field "status" s.state)) ≡ true
      → Settled (take_update agent graph_name run_id node_name w s).state
  unfolding take_update persist_approval_if_needed
  take_update-state node_name end s h = unfold get_field in h
  take_update-state node_name (field k v fs) s h =
      subst (λ p. Settled p.1.state)
        (sym (to_persist-none (update s.state (field k v fs)) (field k v fs) node_name _ settled))
        settled
    where
      settled : Settled (update s.state (field k v fs))
      settled = ap is_settled (get_field-update "status" s.state (field k v fs)) ∙ h

  settled-taken :
      (schema : List String) (delta : Fields)
      → is_settled (get_field "status" delta) ≡ true
      → is_settled (get_field "status" (agent.channel_writes schema delta)) ≡ true
  settled-taken schema delta h =
      ap is_settled (takes schema delta "status") ∙ by (one_of schema "status")
    where
      by : (b : Bool) → is_settled (if b then get_field "status" delta else none) ≡ true
      by true = h
      by false = refl

  take_update-Goes :
      (schema : List String) (node_name : String) (delta : Fields) (s : GraphSession)
      → Settles delta
      → Goes s
      → Goes (take_update agent graph_name run_id node_name (agent.channel_writes schema delta) s)
  take_update-Goes schema node_name delta s h g = record {
    approved =
        take_update-channels agent graph_name run_id node_name "approved" refl
          (agent.channel_writes schema delta) s
        ∙ ap (λ o. or_else o (get_field "approved" s.channels)) unwritten
        ∙ g.approved;
    channels =
        ap is_settled (
          take_update-channels agent graph_name run_id node_name "status" refl
            (agent.channel_writes schema delta) s)
        ∙ settled-or_else (get_field "status" (agent.channel_writes schema delta))
            (get_field "status" s.channels) (settled-taken schema delta h.0) g.channels;
    state = take_update-state node_name (agent.channel_writes schema delta) s (
        settled-or_else (get_field "status" (agent.channel_writes schema delta))
          (get_field "status" s.state) (settled-taken schema delta h.0) g.state);
  }
    where
      none_of : (b : Bool) → (if b then get_field "approved" delta else none) ≡ none
      none_of true = h.1
      none_of false = refl

      unwritten : get_field "approved" (agent.channel_writes schema delta) ≡ none
      unwritten = takes schema delta "approved" ∙ none_of (one_of schema "approved")

  took-Goes :
      (schema : List String) (node_name : String) (p : Result Fields × Machine) (s : GraphSession)
      → Writes Settles p.0
      → Goes s
      → After (λ s. Unit {0}) Goes (took agent graph_name run_id node_name schema p s)
  took-Goes schema node_name (ok delta, m) s h g =
      take_update-Goes schema node_name delta (record s { machine = m }) h
        (record { approved = g.approved; channels = g.channels; state = g.state })
  took-Goes schema node_name (raise e, m) s h g = tt

  run_nodes-Goes :
      (schema : List String) (nodes : List (String × Node))
      → All (λ node. IsSettling node.1) nodes
      → Triple (λ s. Unit {0}) Goes Goes (run_nodes agent graph_name run_id schema nodes)
  unfolding run_nodes run_node
  run_nodes-Goes schema [] h = record { at = λ s g. g }
  run_nodes-Goes schema ((node_name, node) ∷ nodes) h =
      Triple-bind
        (record {
          at = λ s g.
              took-Goes schema node_name (node s.channels s.machine) s
                (h.0.update s.channels s.machine g.approved g.channels) g;
        })
        (λ u. run_nodes-Goes schema nodes h.1)

  -- The last write keeps the status, or says that the run is completed.
  finish_run-Settled :
      (s : GraphSession) → Settled s.state → Settled (finish_run agent graph_name run_id s).state
  unfolding finish_run
  finish_run-Settled s h = by (last_status agent graph_name s.state === "running")
    where
      by :
          (b : Bool)
          → Settled (
              if b
              then put_field "status"
                  (text (if b then "completed" else last_status agent graph_name s.state))
                  s.state
              else s.state)
      by true = ap is_settled (get_field-put_field "status" "status" (text "completed") s.state)
      by false = h

  pub stream_graph-Settled :
      Triple
        (λ s. Unit {0})
        (λ s. Ready s.state)
        (λ s. Settled s.state)
        (stream_graph agent graph_name run_id (source_onboarding agent))
  unfolding stream_graph
  stream_graph-Settled =
      Triple-bind
        {f = λ u.
          run_nodes agent graph_name run_id source_onboarding_state (source_onboarding agent).nodes
          >> modify (finish_run agent graph_name run_id)}
        (Triple-modify {Q = Goes} _ start)
        (λ u.
          Triple-bind (run_nodes-Goes source_onboarding_state (source_onboarding agent).nodes all)
            (λ v.
              Triple-modify (finish_run agent graph_name run_id)
                (λ s g. finish_run-Settled s g.state)))
    where
      written :
          (key : String) (s : GraphSession)
          → one_of source_onboarding_state key ≡ true
          → get_field key (update end (agent.channel_writes source_onboarding_state s.state))
            ≡ get_field key s.state
      written key s e =
          get_field-update key end (agent.channel_writes source_onboarding_state s.state)
          ∙ ap (λ o. or_else o (get_field key end))
              (takes source_onboarding_state s.state key
                ∙ ap (λ b. if b then get_field key s.state else none) e)
          ∙ alone (get_field key s.state)
        where
          alone : (o : Option Value) → or_else o none ≡ o
          alone none = refl
          alone (some v) = refl

      start :
          (s : GraphSession)
          → Ready s.state
          → Goes (record s {
            store =
                update_run_state s.machine.world.clock run_id s.state
                  (plain (some "running"))
                  s.store;
            channels = update end (agent.channel_writes source_onboarding_state s.state);
          })
      start s h = record {
        approved = written "approved" s refl ∙ h.0;
        channels = ap is_settled (written "status" s refl) ∙ h.1;
        state = h.1;
      }

      all : All (λ node. IsSettling node.1) (source_onboarding agent).nodes
      all = (
        load_config_node-IsSettling agent,
        (
          validate_path_policy_node-IsSettling agent,
          (
            inspect_sources_node-IsSettling agent,
            (
              preview_redaction_summary_node-IsSettling agent,
              (
                compute_coverage_node-IsSettling agent,
                (
                  compute_rag_readiness_node-IsSettling agent,
                  (
                    plan_sync_node-IsSettling agent,
                    (
                      approval_gate_node-IsSettling,
                      (
                        sync_source_node-IsSettling agent,
                        (
                          verify_sync_node-IsSettling agent,
                          (summarize_source_onboarding_node-IsSettling agent, tt),
                        ),
                      ),
                    ),
                  ),
                ),
              ),
            ),
          ),
        ),
      )
