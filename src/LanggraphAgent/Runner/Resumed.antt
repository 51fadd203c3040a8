-- ===== src/LanggraphAgent/Runner/Resumed.antt =====
-- langgraph_agent/runner.py: the onboarding of a source that is resumed after its approval.
use ops_incident_collector.Prelude.{
  String, Bool, false, ◌===◌, Option, some, [], ◌∷◌, ◌≡◌, refl, ap, ◌∙◌, Result, ok, raise, Action,
  ◌>>◌, gets, try_except, After,
}
use ops_incident_collector.Core.Json.{Fields, text, end, get_field, put_field}
use ops_incident_collector.Config.Loader.{load_settings_optional}
use ops_incident_collector.Config.Settings.{AppSettings}
use ops_incident_collector.LanggraphAgent.RunStore.{GraphRun, get_run}
use ops_incident_collector.LanggraphAgent.State.{fields_in, update, is_in}
use ops_incident_collector.LanggraphAgent.State.Updates.{get_field-put_field}
use ops_incident_collector.LanggraphAgent.Nodes.{Agent}
use ops_incident_collector.LanggraphAgent.Graphs.{source_onboarding, graph_builders}
use ops_incident_collector.LanggraphAgent.Session.{GraphSession}
use ops_incident_collector.LanggraphAgent.Runner.{
  stream_graph, prepare_run, graph_failed, graph_body, named_graph, with_graph, run_graph,
}
use ops_incident_collector.LanggraphAgent.Runner.Steps.{TakesSchema}
use ops_incident_collector.LanggraphAgent.Runner.Settling.{is_settled}
use ops_incident_collector.LanggraphAgent.Runner.Approved.{
  Ready, Settled, waits_not, stream_graph-Settled,
}

-- Whether what a run returns waits for an approval.
abbrev pub waits : Result Fields → Bool
waits (ok state) = is_in "status" ("pending_approval" ∷ []) state
waits (raise e) = false

module _ (agent : Agent) (takes : TakesSchema agent.channel_writes) (run_id fresh other : String)
    (s : GraphSession) (r : GraphRun) (named : (run_id === "") ≡ false)
    (found : get_run run_id s.store ≡ some r) (ready : Ready (fields_in r.state)) where
  abbrev loaded : GraphSession
  loaded = record s { state = put_field "run_id" (text run_id) (fields_in r.state) }

  loaded-Ready : Ready loaded.state
  loaded-Ready = (
    get_field-put_field "approved" "run_id" (text run_id) (fields_in r.state) ∙ ready.0,
    ap is_settled (get_field-put_field "status" "run_id" (text run_id) (fields_in r.state))
        ∙ ready.1,
  )

  abbrev streamed : Action GraphSession Fields
  streamed =
      stream_graph agent "source_onboarding" run_id (source_onboarding agent) >> gets (λ s. s.state)

  graph_body-resumed :
      graph_body agent "source_onboarding" (source_onboarding agent) (some run_id) fresh end s
      ≡ streamed loaded
  unfolding graph_body prepare_run update
  graph_body-resumed = rw (named, found) refl

  caught :
      (p : Result (Unit {0}) × GraphSession)
      → After (λ t. Unit {0}) (λ t. Settled t.state) p
      → waits
          (try_except
            ((λ (t : GraphSession). p) >> gets (λ t. t.state))
            (graph_failed agent "source_onboarding" (some run_id) other end)
            s).0
        ≡ false
  unfolding graph_failed is_in
  caught (ok u, t) h = waits_not (get_field "status" t.state) h
  caught (raise e, t) h = refl

  with_graph-resumed :
      (settings : Result AppSettings)
      → waits
          (with_graph agent "source_onboarding"
            (some run_id)
            fresh
            other
            end
            (named_graph agent "source_onboarding" settings (some (source_onboarding agent)))
            s).0
        ≡ false
  with_graph-resumed (raise e) = refl
  with_graph-resumed (ok settings) = rw graph_body-resumed (
      caught (stream_graph agent "source_onboarding" run_id (source_onboarding agent) loaded)
        ((stream_graph-Settled agent takes "source_onboarding" run_id).at loaded loaded-Ready))

  pub run_graph-resumed :
      (config_path : Option String)
      → waits (run_graph agent "source_onboarding" config_path (some run_id) fresh other end s).0
        ≡ false
  unfolding run_graph graph_builders
  run_graph-resumed config_path =
      with_graph-resumed (load_settings_optional agent.models agent.system.environment config_path)
