-- ===== src/LanggraphAgent/Runner.antt =====
-- langgraph_agent/runner.py: `run_graph`, from the state of a new run or a resumed one to its last
-- write. The store of the runs is given, in place of `state_db_path`, and is apart from the `Machine`.
pub mod Steps
pub mod Guards
pub mod Gate
pub mod Quiet
pub mod Settling
pub mod Rounds
pub mod Unapproved
pub mod Approved
pub mod Resumed
pub mod OpenRows
pub mod Failures
use ops_incident_collector.Prelude.{
  ℕ, String, Bool, true, false, not, ◌&&◌, ◌||◌, Option, none, some, List, [], ◌∷◌, ◌===◌, ◌<>◌,
  truthy, truthy?, one_of, Exc, Result, ok, raise, value_error, key_error, try_except, Action, pure,
  throw, lift, gets, modify, ◌>>=◌, ◌>>◌, if◌then◌else◌,
}
use ops_incident_collector.Core.Json.{
  Value, Items, Fields, null, boolean, text, array, object, nil, cons, end, field, get_field,
  put_field,
}
use ops_incident_collector.Config.Settings.{AppSettings}
use ops_incident_collector.Config.Loader.{load_settings_optional}
use ops_incident_collector.Core.Machine.{Machine}
use ops_incident_collector.Exporters.ExportState.{describe}
use ops_incident_collector.LanggraphAgent.RunStore.{
  GraphRun, GraphApproval, GraphEvent, GraphRunStore, RunUpdate, create_run, update_run_state,
  record_event, get_run, list_events, status_of,
}
use ops_incident_collector.LanggraphAgent.ApprovalStore.{
  ensure_approval, decide_approval, list_pending_approvals,
}
use ops_incident_collector.LanggraphAgent.State.{
  fields_in, update, flag, is_in, get_true_text, get_text_or, get_items, append_item, errors_with,
}
use ops_incident_collector.LanggraphAgent.Nodes.{Agent, Node}
use ops_incident_collector.LanggraphAgent.Graphs.{Graph, graph_builders}
use ops_incident_collector.LanggraphAgent.Session.{
  GraphSession, set_default, initial_state, on_graph_store, plain, status_in, named_request,
  stored_request, request_in, replace, asked, to_persist, persist_as, persist_approval_if_needed,
  log_update, take_update, took, run_node, run_nodes, last_status, finish_run, session,
}

module _ (agent : Agent) (graph_name : String) where
  -- From the input of the graph on.
  unfoldable pub stream_graph : (run_id : String) → Graph → Action GraphSession (Unit {0})
  unfolding update_run_state update run_nodes finish_run
  stream_graph run_id graph = do
    modify (λ s.
        record (on_graph_store (λ now. update_run_state now run_id s.state (plain (some "running")))
          s) { channels = update end (agent.channel_writes graph.schema s.state) })
    run_nodes agent graph_name run_id graph.schema graph.nodes
    modify (finish_run agent graph_name run_id)

  abbrev pub read_run : (run_id : String) → Option GraphRun → Result GraphRun
  read_run run_id none = raise (key_error ("graph run not found: " <> run_id))
  read_run run_id (some r) = ok r

  -- The start of a run that is resumed, and of a new one.
  abbrev pub resumed : (run_id : String) → (input : Fields) → Action GraphSession String
  resumed run_id input = do
    r ← λ s. (read_run run_id (get_run run_id s.store), s)
    modify (λ s. record s {
      state = put_field "run_id" (text run_id) (update (fields_in r.state) input);
    })
    pure run_id

  abbrev pub started : (run_id : String) → (input : Fields) → Action GraphSession String
  started run_id input = do
    modify (λ s.
        let state = initial_state (put_field "run_id" (text run_id) input) in
        on_graph_store (λ now. create_run now graph_name run_id state) (record s { state = state }))
    pure run_id

  abbrev pub input_or : Option String → String → String
  input_or none fresh = fresh
  input_or (some run_id) fresh = run_id

  unfoldable pub prepare_run :
      (resume_run_id : Option String)
      → (fresh : String) → (input : Fields) → Action GraphSession String
  unfolding get_run update initial_state put_field create_run get_true_text
  prepare_run none fresh input = started (input_or (get_true_text "run_id" input) fresh) input
  prepare_run (some run_id) fresh input =
      if truthy run_id
      then resumed run_id input
      else started (input_or (get_true_text "run_id" input) fresh) input

  abbrev pub failed_state : (run_id : String) → Exc → (input : Fields) → Fields
  failed_state run_id exc input =
      put_field "errors" (array (cons (text (describe exc)) nil))
        (put_field "status" (text "failed") (put_field "run_id" (text run_id) input))

  -- `if not existing: store.create_run(...)`
  abbrev pub create_unless :
      Option GraphRun → (now : ℕ) → (run_id : String) → Fields → GraphRunStore → GraphRunStore
  create_unless none now run_id state store = create_run now graph_name run_id state store
  create_unless (some r) now run_id state store = store

  -- `input_state.get("run_id") or resume_run_id or new_run_id(graph_name)`
  abbrev pub failed_id :
      (input : Fields) → (resume_run_id : Option String) → (other : String) → String
  failed_id input none other = input_or (get_true_text "run_id" input) other
  failed_id input (some r) other =
      input_or (get_true_text "run_id" input) (if truthy r then r else other)

  abbrev pub fail_as : (run_id : String) → Exc → (input : Fields) → GraphSession → GraphSession
  fail_as run_id exc input = on_graph_store (λ now store.
      update_run_state now run_id (failed_state run_id exc input)
        (record { status = some "failed"; error = some (describe exc); completed = true })
        (create_unless (get_run run_id store) now run_id (failed_state run_id exc input) store))

  -- The handler of the exceptions, which raises again.
  unfoldable pub graph_failed :
      (resume_run_id : Option String)
      → (other : String) → (input : Fields) → Exc
      → Action GraphSession Fields
  unfolding get_true_text describe put_field get_run create_run update_run_state
  graph_failed resume_run_id other input exc = do
    modify (fail_as (failed_id input resume_run_id other) exc input)
    throw exc

  -- The body of the `try`.
  unfoldable pub graph_body :
      Graph
      → (resume_run_id : Option String) → (fresh : String) → (input : Fields)
      → Action GraphSession Fields
  unfolding prepare_run stream_graph
  graph_body graph resume_run_id fresh input = do
    run_id ← prepare_run resume_run_id fresh input
    stream_graph run_id graph
    gets (λ s. s.state)

  -- The graph of the name, once the configuration is read.
  abbrev pub named_graph : Result AppSettings → Option Graph → Result Graph
  named_graph settings none = raise (value_error ("unknown graph: " <> graph_name))
  named_graph (ok settings) (some graph) = ok graph
  named_graph (raise e) (some graph) = raise e

  abbrev pub with_graph :
      (resume_run_id : Option String)
      → (fresh other : String) → (input : Fields) → Result Graph
      → Action GraphSession Fields
  with_graph resume_run_id fresh other input (raise e) = throw e
  with_graph resume_run_id fresh other input (ok graph) =
      try_except (graph_body graph resume_run_id fresh input)
        (graph_failed resume_run_id other input)

  -- `run_graph`; `fresh` is the identifier that is drawn at the start, `other` the one that the
  -- handler draws. The session starts with an empty state.
  unfoldable pub run_graph :
      (config_path resume_run_id : Option String)
      → (fresh other : String) → (input : Fields) → Action GraphSession Fields
  unfolding load_settings_optional graph_builders graph_body graph_failed
  run_graph config_path resume_run_id fresh other input =
      with_graph resume_run_id fresh other input (
        named_graph (load_settings_optional agent.models agent.system.environment config_path)
          (graph_builders agent graph_name))
