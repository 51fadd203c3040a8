-- ===== src/LanggraphAgent/Session.antt =====
-- langgraph_agent/runner.py: the variables of a run, and the rounds of the loop over what LangGraph streams.
-- LangGraph runs the nodes along the edges of the graph, gives each the values of its channels, and takes
-- of an update the keys of the schema into them; it hands the objects themselves on, so that what the
-- runner writes into an approval request is in the channel too. An update of which it takes nothing is
-- streamed as `None`.
use ops_incident_collector.Prelude.{
  ℕ, String, true, false, not, Option, none, some, List, [], ◌∷◌, ◌===◌, ◌<>◌, truthy, one_of,
  Result, ok, raise, Action, pure, ◌>>◌, if◌then◌else◌,
}
use ops_incident_collector.Core.Json.{
  Value, Fields, null, boolean, text, array, object, nil, end, field, get_field, put_field,
}
use ops_incident_collector.Core.Machine.{Machine}
use ops_incident_collector.LanggraphAgent.RunStore.{
  GraphRunStore, RunUpdate, update_run_state, record_event,
}
use ops_incident_collector.LanggraphAgent.ApprovalStore.{ensure_approval}
use ops_incident_collector.LanggraphAgent.State.{update, flag, is_in, get_text_or}
use ops_incident_collector.LanggraphAgent.Nodes.{Agent, Node}

-- The variables of `run_graph`, with the channels of LangGraph.
pub record GraphSession : Type 0 where
  pub machine : Machine
  pub store : GraphRunStore
  pub state : Fields
  pub channels : Fields

abbrev pub set_default : String → Value → Fields → Fields
set_default key v state = elim (get_field key state) [
  | none ↦ put_field key v state
  | some w ↦ state
]

-- `_initial_state`
unfoldable pub initial_state : Fields → Fields
unfolding put_field get_field
initial_state state = set_default "approved" (boolean false) (
    set_default "dry_run" (boolean false) (
      set_default "require_approval" (boolean true) (
        set_default "config_loaded" (boolean false) (
          set_default "status" (text "running")
            (set_default "warnings" (array nil) (set_default "errors" (array nil) state))))))

abbrev pub on_graph_store : (ℕ → GraphRunStore → GraphRunStore) → GraphSession → GraphSession
on_graph_store f s = record s { store = f s.machine.world.clock s.store }

abbrev pub plain : Option String → RunUpdate
plain status = record { status = status; error = none; completed = false }

-- `state.get("status")`
abbrev pub status_in : Fields → Option String
status_in state = elim (get_field "status" state) [ some (text t) ↦ some t | _ ↦ none ]

-- The three writes into a request that gets an approval.
abbrev pub named_request : (approval_id run_id graph_name : String) → Fields → Fields
named_request approval_id run_id graph_name request =
    put_field "graph_name" (text graph_name)
      (put_field "run_id" (text run_id) (put_field "approval_id" (text approval_id) request))

-- What `_persist_approval_if_needed` gives to `ensure_approval`: `**request` goes over the names.
abbrev pub stored_request : (run_id graph_name node_name : String) → Fields → Value
stored_request run_id graph_name node_name request = object (
    update
      (field "approval_id" null (
        field "run_id" (text run_id)
          (field "graph_name" (text graph_name) (field "node_name" (text node_name) end))))
      request)

-- The request that stands under its key, if it is an object.
abbrev pub request_in : Fields → Option Fields
request_in state = elim (get_field "approval_request" state) [
  | some (object fs) ↦ some fs
  | _ ↦ none
]

-- A key that is there gets a new value.
abbrev pub replace : String → Value → Fields → Fields
replace key v fs = elim (get_field key fs) [ none ↦ fs | some w ↦ put_field key v fs ]

module _ (agent : Agent) (graph_name : String) where
  abbrev pub asked : (node_name : String) → Fields → GraphSession → Fields × GraphSession
  asked node_name request s =
      let run_id = get_text_or "run_id" "" s.state in
      let (approval_id, store) =
        ensure_approval s.machine.world.clock ("approval_" <> agent.draw s.machine.world.clock)
          run_id graph_name node_name (get_text_or "action" "DATA_EXPORT" request)
          (stored_request run_id graph_name node_name request) s.store in
      let named = named_request approval_id run_id graph_name request in
      (
        named,
        record s {
          store = store;
          state = put_field "approval_request" (object named) s.state;
          channels = replace "approval_request" (object named) s.channels;
        },
      )

  -- The request that `_persist_approval_if_needed` writes, if it does.
  abbrev pub to_persist : Fields → Option Fields
  to_persist state =
      if is_in "status" ("pending_approval" ∷ []) state
      then elim (request_in state) [
        | none ↦ none
        | some request ↦ if flag "approval_id" false request then none else some request
      ]
      else none

  abbrev pub persist_as :
      (node_name : String) → (delta : Fields) → Option Fields → GraphSession → Fields × GraphSession
  persist_as node_name delta none s = (delta, s)
  persist_as node_name delta (some request) s =
      let (named, t) = asked node_name request s in
      (replace "approval_request" (object named) delta, t)

  -- `_persist_approval_if_needed`; the update comes back with the request that it holds.
  unfoldable pub persist_approval_if_needed :
      (node_name : String) → (delta : Fields) → GraphSession → Fields × GraphSession
  unfolding is_in flag get_text_or get_field put_field ensure_approval update
  persist_approval_if_needed node_name delta s = persist_as node_name delta (to_persist s.state) s

  abbrev pub log_update : (run_id node_name : String) → Fields × GraphSession → GraphSession
  log_update run_id node_name (delta, s) =
      on_graph_store (λ now. update_run_state now run_id s.state (plain (status_in s.state)))
        (on_graph_store
          (λ now. record_event now run_id graph_name node_name "node_update" (object delta)) s)

  -- What the loop does with what a node writes.
  unfoldable pub take_update : (run_id node_name : String) → Fields → GraphSession → GraphSession
  unfolding update persist_approval_if_needed record_event update_run_state get_field
  take_update run_id node_name end s = s
  take_update run_id node_name (field k v fs) s = log_update run_id node_name (
      persist_approval_if_needed node_name (field k v fs) (record s {
        state = update s.state (field k v fs);
        channels = update s.channels (field k v fs);
      }))

  abbrev pub took :
      (run_id node_name : String)
      → (schema : List String) → Result Fields × Machine
      → GraphSession
      → Result (Unit {0}) × GraphSession
  took run_id node_name schema (raise e, m) s = (raise e, record s { machine = m })
  took run_id node_name schema (ok delta, m) s = (
    ok tt,
    take_update run_id node_name (agent.channel_writes schema delta) (record s { machine = m }),
  )

  -- One node, and the round of the loop for its update.
  unfoldable pub run_node :
      (run_id : String) → (schema : List String) → String × Node → Action GraphSession (Unit {0})
  unfolding take_update
  run_node run_id schema (node_name, node) s =
      took run_id node_name schema (node s.channels s.machine) s

  unfoldable pub run_nodes :
      (run_id : String)
      → (schema : List String) → List (String × Node)
      → Action GraphSession (Unit {0})
  unfolding run_node
  run_nodes run_id schema [] = pure tt
  run_nodes run_id schema (node ∷ nodes) = do
    run_node run_id schema node
    run_nodes run_id schema nodes

  -- `str(state.get("status") or "completed")`
  abbrev pub last_status : Fields → String
  last_status state =
      if truthy (get_text_or "status" "" state) then get_text_or "status" "" state else "completed"

  -- After the stream.
  unfoldable pub finish_run : (run_id : String) → GraphSession → GraphSession
  unfolding get_text_or put_field update_run_state
  finish_run run_id s =
      let status = last_status s.state in
      let final = if status === "running" then "completed" else status in
      let t = record s {
        state = if status === "running" then put_field "status" (text final) s.state else s.state;
      } in
      on_graph_store
        (λ now. update_run_state now run_id t.state (record {
          status = some final;
          error = none;
          completed = not (one_of ("pending_approval" ∷ "running" ∷ []) status);
        }))
        t

  abbrev pub session : Machine → GraphRunStore → Fields → GraphSession
  session machine store state = record {
    machine = machine;
    store = store;
    state = state;
    channels = end;
  }
