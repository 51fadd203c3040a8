-- ===== src/LanggraphAgent/RunStore.antt =====
-- langgraph_agent/checkpoints/sqlite_checkpointer.py: `GraphRunStore` over the tables of graphs in
-- state/migrations.py. A row is at its place in the order of the row ids, a column of JSON holds its
-- value, and an operation takes the reading of the clock that it makes. A status is a text, as all
-- code that writes one makes it, and a fresh identifier is drawn by the caller. The tables are apart
-- from those of State/Store.antt, which may lie in the same file.
pub mod Sanitizing
pub mod Runs
use ops_incident_collector.Prelude.{
  ℕ, String, Bool, true, false, ◌&&◌, ◌||◌, Option, none, some, List, [], ◌∷◌, ◌++◌, ◌+◌, map, keep,
  length, ltb, ◌===◌, truthy, one_of, lower, ends_with, Result, ok, raise, key_error, ◌<>◌,
  if◌then◌else◌,
}
use ops_incident_collector.Core.Json.{
  Value, Items, Fields, null, boolean, number, text, array, object, nil, cons, end, field,
  get_field,
}

abbrev pub sensitive_keys : List String
sensitive_keys =
    "content" ∷ "payload_json" ∷ "preview" ∷ "token" ∷ "authorization" ∷ "password" ∷ "secret" ∷ []

-- The keys that `sanitize_for_storage` leaves out.
unfoldable pub is_sensitive : String → Bool
unfolding lower ends_with
is_sensitive key = one_of sensitive_keys (lower key) || ends_with (lower key) "_token"

-- `sanitize_for_storage`
unfoldable mutual
  pub sanitize_for_storage : Value → Value
  sanitize_for_storage null = null
  sanitize_for_storage (boolean b) = boolean b
  sanitize_for_storage (number n) = number n
  sanitize_for_storage (text s) = text s
  sanitize_for_storage (array vs) = array (sanitize_items vs)
  sanitize_for_storage (object fs) = object (sanitize_fields fs)

  pub sanitize_items : Items → Items
  sanitize_items nil = nil
  sanitize_items (cons v vs) = cons (sanitize_for_storage v) (sanitize_items vs)

  pub sanitize_fields : Fields → Fields
  sanitize_fields end = end
  sanitize_fields (field k v fs) =
      let rest = sanitize_fields fs in
      if is_sensitive k then rest else field k (sanitize_for_storage v) rest

pub record GraphRun : Type 0 where
  pub run_id : String
  pub graph_name : String
  pub status : String
  pub input : Value
  pub state : Value
  pub created_at : ℕ
  pub updated_at : ℕ
  pub completed_at : Option ℕ
  pub error : Option String

pub record GraphEvent : Type 0 where
  pub run_id : String
  pub graph_name : String
  pub node_name : String
  pub event_type : String
  pub payload : Value
  pub created_at : ℕ

pub record GraphApproval : Type 0 where
  pub approval_id : String
  pub run_id : String
  pub graph_name : String
  pub node_name : String
  pub approval_type : String
  pub status : String
  pub request : Value
  pub response : Option Value
  pub created_at : ℕ
  pub decided_at : Option ℕ

pub record GraphRunStore : Type 0 where
  pub graph_runs : List GraphRun
  pub graph_events : List GraphEvent
  pub graph_approvals : List GraphApproval

abbrev pub empty_graph_store : GraphRunStore
empty_graph_store = record { graph_runs = []; graph_events = []; graph_approvals = [] }

-- `state.get("status", default)`, for a status that is a text.
unfoldable pub status_of : String → Fields → String
unfolding get_field
status_of default state = elim (get_field "status" state) [ some (text s) ↦ s | _ ↦ default ]

-- `status or str(state.get("status") or "running")`
unfoldable pub status_or : Option String → Fields → String
unfolding status_of
status_or none state = if truthy (status_of "" state) then status_of "" state else "running"
status_or (some s) state =
    if truthy s then s else if truthy (status_of "" state) then status_of "" state else "running"

-- `INSERT OR REPLACE` drops the row of the same `run_id`.
abbrev pub other_runs : String → List GraphRun → List GraphRun
other_runs i rows = keep (λ r. if r.run_id === i then false else true) rows

abbrev pub created_run : ℕ → (graph_name run_id : String) → Fields → GraphRun
created_run now graph_name run_id input_state = record {
  run_id = run_id;
  graph_name = graph_name;
  status = status_of "running" input_state;
  input = sanitize_for_storage (object input_state);
  state = sanitize_for_storage (object input_state);
  created_at = now;
  updated_at = now;
  completed_at = none;
  error = none;
}

unfoldable pub create_run :
    ℕ → (graph_name run_id : String) → Fields → GraphRunStore → GraphRunStore
unfolding sanitize_for_storage status_of
create_run now graph_name run_id input_state s = record s {
  graph_runs = other_runs run_id s.graph_runs ++ created_run now graph_name run_id input_state ∷ [];
}

-- The arguments of `update_run_state` that are not the run.
pub record RunUpdate : Type 0 where
  pub status : Option String
  pub error : Option String
  pub completed : Bool

abbrev pub updated_run : ℕ → Fields → RunUpdate → GraphRun → GraphRun
updated_run now state u r = record r {
  status = status_or u.status state;
  state = sanitize_for_storage (object state);
  updated_at = now;
  completed_at = if u.completed then some now else none;
  error = u.error;
}

unfoldable pub update_run_state :
    ℕ → (run_id : String) → Fields → RunUpdate → GraphRunStore → GraphRunStore
unfolding sanitize_for_storage status_or
update_run_state now run_id state u s = record s {
  graph_runs = map (λ r. if r.run_id === run_id then updated_run now state u r else r) s.graph_runs;
}

unfoldable pub record_event :
    ℕ → (run_id graph_name node_name event_type : String) → Value → GraphRunStore → GraphRunStore
unfolding sanitize_for_storage
record_event now run_id graph_name node_name event_type payload s = record s {
  graph_events =
      s.graph_events
      ++ record {
        run_id = run_id;
        graph_name = graph_name;
        node_name = node_name;
        event_type = event_type;
        payload = sanitize_for_storage payload;
        created_at = now;
      }
        ∷ [];
}

unfoldable pub find_run : String → List GraphRun → Option GraphRun
find_run i [] = none
find_run i (r ∷ rows) = if r.run_id === i then some r else find_run i rows

unfoldable pub get_run : String → GraphRunStore → Option GraphRun
unfolding find_run
get_run i s = find_run i s.graph_runs

unfoldable pub list_events : String → GraphRunStore → List GraphEvent
list_events i s = keep (λ e. e.run_id === i) s.graph_events
