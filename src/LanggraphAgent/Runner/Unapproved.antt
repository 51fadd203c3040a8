-- ===== src/LanggraphAgent/Runner/Unapproved.antt =====
-- langgraph_agent/runner.py: the onboarding of a source for which no approval is given.
use ops_incident_collector.Prelude.{
  String, true, false, Option, none, some, ◌≡◌, refl, Result, ok, raise, Exc, gets, Triple,
  Triple-modify, Triple-bind, Triple-try_except, After,
}
use ops_incident_collector.Core.Json.{
  Value, Fields, text, boolean, array, nil, get_field, put_field,
}
use ops_incident_collector.Core.Machine.{Machine}
use ops_incident_collector.Config.Loader.{load_settings_optional}
use ops_incident_collector.Config.Settings.{AppSettings}
use ops_incident_collector.LanggraphAgent.State.{get_true_text}
use ops_incident_collector.LanggraphAgent.Nodes.{Agent}
use ops_incident_collector.LanggraphAgent.Graphs.{
  source_onboarding, source_onboarding_state, graph_builders,
}
use ops_incident_collector.LanggraphAgent.Runner.{
  stream_graph, prepare_run, graph_failed, graph_body, named_graph, input_or, with_graph, run_graph,
}
use ops_incident_collector.LanggraphAgent.Session.{
  GraphSession, initial_state, set_default, finish_run,
}
use ops_incident_collector.LanggraphAgent.Runner.Steps.{TakesSchema}
use ops_incident_collector.LanggraphAgent.Runner.Guards.{
  passes, guards-none, guards, IsGuarded, writes-Holds, put_field-Holds,
}
use ops_incident_collector.LanggraphAgent.Runner.Rounds.{Kept, Before, Prepared, run_nodes-Kept}

-- The guards of a state, with the state in view.
record Guarded (fs : Fields) : Type 0 where
  holds : IsGuarded fs

set_default-Guarded :
    (key : String) (v : Value) (fs : Fields)
    → passes key v guards ≡ true
    → Guarded fs
    → Guarded (set_default key v fs)
set_default-Guarded key v fs passed h = by (get_field key fs)
  where
    by :
        (o : Option Value)
        → Guarded (elim o as (λ x. Fields) [ none ↦ put_field key v fs | some w ↦ fs ])
    by none = record { holds = put_field-Holds key v fs guards passed h.holds }
    by (some w) = h

-- The defaults are those of a run that is not approved.
initial_state-IsGuarded : (fs : Fields) → IsGuarded fs → IsGuarded (initial_state fs)
unfolding initial_state
initial_state-IsGuarded fs h =
    (set_default-Guarded "approved" (boolean false) _ refl (
      set_default-Guarded "dry_run" (boolean false) _ refl (
        set_default-Guarded "require_approval" (boolean true) _ refl (
          set_default-Guarded "config_loaded" (boolean false) _ refl (
            set_default-Guarded "status" (text "running") _ refl (
              set_default-Guarded "warnings" (array nil) _ refl (
                set_default-Guarded "errors" (array nil) fs refl (record { holds = h })))))))).holds

module _ (agent : Agent) (takes : TakesSchema agent.channel_writes) (graph_name run_id : String)
    (m : Machine) where
  stream_graph-Kept :
      Triple
        (Kept m)
        (Prepared m)
        (Kept m)
        (stream_graph agent graph_name run_id (source_onboarding agent))
  unfolding stream_graph finish_run
  stream_graph-Kept =
      Triple-bind
        (Triple-modify {Q = (Before m)} _ (λ s h. (
          writes-Holds agent.channel_writes takes source_onboarding_state s.state guards guards-none
              h.0,
          h.1,
        )))
        (λ u.
          Triple-bind (run_nodes-Kept agent takes graph_name run_id m)
            (λ v. Triple-modify (finish_run agent graph_name run_id) (λ s h. h)))

module _ (agent : Agent) (takes : TakesSchema agent.channel_writes) (m : Machine) (input : Fields)
    (guarded : IsGuarded input) (fresh other : String) where
  prepare_run-Kept :
      Triple (Kept m) (Kept m) (Prepared m) (prepare_run agent "source_onboarding" none fresh input)
  unfolding prepare_run
  prepare_run-Kept = record {
    at = λ s h. (
      initial_state-IsGuarded
          (put_field "run_id"
            (text (input_or agent "source_onboarding" (get_true_text "run_id" input) fresh)) input)
          (put_field-Holds "run_id" _ input guards refl guarded),
      h,
    );
  }

  graph_body-Kept :
      Triple
        (Kept m)
        (Kept m)
        (Kept m)
        (graph_body agent "source_onboarding" (source_onboarding agent) none fresh input)
  unfolding graph_body
  graph_body-Kept = Triple-bind prepare_run-Kept (λ id.
      Triple-bind {f = λ u. gets (λ s. s.state)}
        (stream_graph-Kept agent takes "source_onboarding" id m) (λ u. record { at = λ s h. h }))

  graph_failed-Kept :
      (e : Exc)
      → Triple
          (Kept m)
          (Kept m)
          (Kept m)
          (graph_failed agent "source_onboarding" none other input e)
  unfolding graph_failed
  graph_failed-Kept e = record { at = λ s h. h }

  with_graph-Kept :
      (r : Result AppSettings)
      → Triple (Kept m) (Kept m) (Kept m) (
          with_graph agent "source_onboarding" none fresh other input
            (named_graph agent "source_onboarding" r (some (source_onboarding agent))))
  with_graph-Kept (raise e) = record { at = λ s h. h }
  with_graph-Kept (ok settings) = Triple-try_except graph_body-Kept graph_failed-Kept

  run_graph-Kept :
      (config_path : Option String)
      → Triple
          (Kept m)
          (Kept m)
          (Kept m)
          (run_graph agent "source_onboarding" config_path none fresh other input)
  unfolding run_graph graph_builders
  run_graph-Kept config_path =
      with_graph-Kept (load_settings_optional agent.models agent.system.environment config_path)

-- With LangGraph as `TakesSchema` has it, a new run of the graph `source_onboarding` whose input gives
-- no approval, and has an upload to Core that needs one, leaves the machine as it is, whether it
-- returns or raises: of the state database neither the files, the documents, the runs of the sync, the
-- queue nor the checkpoints are touched, and neither the network, an output nor the audit log is. The
-- rows of the graphs themselves, which the run writes, are not among these.
pub run_graph-unapproved :
    (agent : Agent) (takes : TakesSchema agent.channel_writes) (input : Fields)
    (guarded : IsGuarded input) (config_path : Option String) (fresh other : String)
    (s : GraphSession)
    → (run_graph agent "source_onboarding" config_path none fresh other input s).1.machine
      ≡ s.machine
run_graph-unapproved agent takes input guarded config_path fresh other s =
    by (run_graph agent "source_onboarding" config_path none fresh other input s)
      ((run_graph-Kept agent takes s.machine input guarded fresh other config_path).at s refl)
  where
    by :
        (p : Result Fields × GraphSession)
        → After (Kept s.machine) (Kept s.machine) p
        → p.1.machine ≡ s.machine
    by (ok state, t) h = h
    by (raise e, t) h = h
