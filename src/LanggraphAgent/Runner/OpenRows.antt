-- ===== src/LanggraphAgent/Runner/OpenRows.antt =====
-- langgraph_agent/runner.py: the row of a run while its nodes are run.
use ops_incident_collector.Prelude.{
  ℕ, String, Bool, true, false, Option, none, some, List, [], ◌∷◌, ◌===◌, ◌≡◌, refl, sym, subst,
  Result, ok, raise, modify, ◌>>◌, Triple-kept, eq_refl, if◌then◌else◌, Preserves, Preserves-bind,
  Preserves-pure, Triple, Triple-modify, Triple-bind,
}
use ops_incident_collector.Core.Json.{Fields, object, end, field}
use ops_incident_collector.Core.Machine.{Machine}
use ops_incident_collector.LanggraphAgent.RunStore.{
  GraphRun, GraphApproval, GraphRunStore, create_run, created_run, update_run_state, record_event,
  get_run,
}
use ops_incident_collector.LanggraphAgent.ApprovalStore.{ensured, ensure_approval}
use ops_incident_collector.LanggraphAgent.RunStore.Runs.{
  updated, get_run-updated, get_run-create_run,
}
use ops_incident_collector.LanggraphAgent.State.{update}
use ops_incident_collector.LanggraphAgent.Nodes.{Agent, Node}
use ops_incident_collector.LanggraphAgent.Graphs.{Graph}
use ops_incident_collector.LanggraphAgent.Runner.{stream_graph}
use ops_incident_collector.LanggraphAgent.Session.{
  GraphSession, plain, log_update, status_in, to_persist, persist_as, persist_approval_if_needed,
  take_update, took, run_node, run_nodes, finish_run,
}

-- A row that stands as that of a run that goes on.
abbrev pub IsOpen : Option GraphRun → Type 0
IsOpen none = ⊥
IsOpen (some r) = (r.completed_at ≡ none) × (r.error ≡ none)

abbrev pub OpenIn : (run_id : String) → GraphRunStore → Type 0
OpenIn i s = IsOpen (get_run i s)

update_run_state-OpenIn :
    (now : ℕ) (i j : String) (state : Fields) (status : Option String) (s : GraphRunStore)
    → OpenIn j s
    → OpenIn j (update_run_state now i state (plain status) s)
update_run_state-OpenIn now i j state status s h =
    subst IsOpen (sym (get_run-updated now i j state (plain status) s))
      (by (i === j) (get_run j s) h)
  where
    by :
        (b : Bool) (o : Option GraphRun)
        → IsOpen o
        → IsOpen (if b then updated now state (plain status) o else o)
    by true none g = absurd g
    by true (some r) g = (refl, refl)
    by false o g = g

pub create_run-OpenIn :
    (now : ℕ) (g i : String) (input : Fields) (s : GraphRunStore)
    → OpenIn i (create_run now g i input s)
create_run-OpenIn now g i input s =
    subst IsOpen (sym (get_run-create_run now g i i input s)) (by (i === i) (eq_refl i))
  where
    by :
        (b : Bool) → b ≡ true → IsOpen (if b then some (created_run now g i input) else get_run i s)
    by true e = (refl, refl)
    by false e = absurd cc

ensured-OpenIn :
    (j : String) (o : Option GraphApproval) (a : GraphApproval) (s : GraphRunStore)
    → OpenIn j s
    → OpenIn j (ensured o a s).1
unfolding get_run
ensured-OpenIn j none a s h = h
ensured-OpenIn j (some b) a s h = h

module _ (agent : Agent) (graph_name run_id : String) where
  abbrev Open : GraphSession → Type 0
  Open s = OpenIn run_id s.store

  persisted-Open :
      (node_name : String) (delta : Fields) (o : Option Fields) (s : GraphSession)
      → Open s
      → Open (persist_as agent graph_name node_name delta o s).1
  unfolding ensure_approval
  persisted-Open node_name delta none s h = h
  persisted-Open node_name delta (some request) s h = ensured-OpenIn run_id _ _ s.store h

  log_update-Open :
      (node_name : String) (p : Fields × GraphSession)
      → Open p.1
      → Open (log_update agent graph_name run_id node_name p)
  unfolding record_event get_run
  log_update-Open node_name (delta, s) h =
      update_run_state-OpenIn s.machine.world.clock run_id run_id s.state (status_in s.state)
        (record_event s.machine.world.clock run_id graph_name node_name "node_update" (object delta)
          s.store)
        h

  take_update-Open :
      (node_name : String) (w : Fields) (s : GraphSession)
      → Open s
      → Open (take_update agent graph_name run_id node_name w s)
  unfolding take_update persist_approval_if_needed
  take_update-Open node_name end s h = h
  take_update-Open node_name (field k v fs) s h =
      log_update-Open node_name
        (persist_as agent graph_name node_name (field k v fs)
          (to_persist agent graph_name (update s.state (field k v fs))) _)
        (persisted-Open node_name (field k v fs)
          (to_persist agent graph_name (update s.state (field k v fs)))
          (record s {
            state = update s.state (field k v fs);
            channels = update s.channels (field k v fs);
          })
          h)

  took-Open :
      (node_name : String) (schema : List String) (p : Result Fields × Machine) (s : GraphSession)
      → Open s
      → Open (took agent graph_name run_id node_name schema p s).1
  took-Open node_name schema (ok delta, m) s h =
      take_update-Open node_name _ (record s { machine = m }) h
  took-Open node_name schema (raise e, m) s h = h

  run_nodes-Open :
      (schema : List String) (nodes : List (String × Node))
      → Preserves Open (run_nodes agent graph_name run_id schema nodes)
  unfolding run_nodes run_node
  run_nodes-Open schema [] = Preserves-pure tt
  run_nodes-Open schema ((node_name, node) ∷ nodes) =
      Preserves-bind
        (record { at = λ s h. took-Open node_name schema (node s.channels s.machine) s h })
        (λ u. run_nodes-Open schema nodes)

  pub stream_graph-Open :
      (graph : Graph)
      → Triple Open Open (λ s. Unit {0}) (stream_graph agent graph_name run_id graph)
  unfolding stream_graph
  stream_graph-Open graph =
      Triple-bind
        {f = λ u.
          run_nodes agent graph_name run_id graph.schema graph.nodes
          >> modify (finish_run agent graph_name run_id)}
        (Triple-modify {Q = Open} _ (λ s h.
          update_run_state-OpenIn s.machine.world.clock run_id run_id s.state (some "running")
            s.store h))
        (λ u.
          Triple-bind (Triple-kept (run_nodes-Open graph.schema graph.nodes))
            (λ v. Triple-modify (finish_run agent graph_name run_id) (λ s h. tt)))
