-- ===== src/LanggraphAgent/Runner/Steps.antt =====
-- One round of the loop of langgraph_agent/runner.py: what it leaves of the machine, and what is found
-- in the channels after it.
use ops_incident_collector.Prelude.{
  String, false, Option, none, some, List, ◌===◌, ◌≡◌, refl, ◌∙◌, one_of, if◌then◌else◌,
}
use ops_incident_collector.Core.Json.{Value, Fields, end, field, get_field, put_field}
use ops_incident_collector.LanggraphAgent.State.{update}
use ops_incident_collector.LanggraphAgent.State.Updates.{
  or_else, get_field-put_field, get_field-update,
}
use ops_incident_collector.LanggraphAgent.Nodes.{Agent}
use ops_incident_collector.LanggraphAgent.Session.{
  GraphSession, to_persist, persist_as, persist_approval_if_needed, take_update, replace,
}

-- LangGraph writes the keys of the schema, and no others.
abbrev pub TakesSchema : (List String → Fields → Fields) → Type 0
TakesSchema writes =
    (schema : List String) (delta : Fields) (key : String)
    → get_field key (writes schema delta)
      ≡ (if one_of schema key then get_field key delta else none)

get_field-replace :
    (key k : String) (v : Value) (fs : Fields)
    → (k === key) ≡ false
    → get_field key (replace k v fs) ≡ get_field key fs
get_field-replace key k v fs h = by (get_field k fs)
  where
    by :
        (o : Option Value)
        → get_field key (elim o as (λ x. Fields) [ none ↦ fs | some w ↦ put_field k v fs ])
          ≡ get_field key fs
    by none = refl
    by (some w) = get_field-put_field key k v fs ∙ rw h

module _ (agent : Agent) (graph_name run_id node_name key : String)
    (other : ("approval_request" === key) ≡ false) where
  persisted-channels :
      (delta : Fields) (o : Option Fields) (s : GraphSession)
      → get_field key (persist_as agent graph_name node_name delta o s).1.channels
        ≡ get_field key s.channels
  persisted-channels delta none s = refl
  persisted-channels delta (some request) s =
      get_field-replace key "approval_request" _ s.channels other

  pub take_update-channels :
      (w : Fields) (s : GraphSession)
      → get_field key (take_update agent graph_name run_id node_name w s).channels
        ≡ or_else (get_field key w) (get_field key s.channels)
  unfolding take_update persist_approval_if_needed
  take_update-channels end s = unfold get_field in refl
  take_update-channels (field k v fs) s =
      persisted-channels (field k v fs)
        (to_persist agent graph_name (update s.state (field k v fs)))
        (record s {
          state = update s.state (field k v fs);
          channels = update s.channels (field k v fs);
        })
      ∙ get_field-update key s.channels (field k v fs)

module _ (agent : Agent) (graph_name run_id node_name : String) where
  persisted-machine :
      (delta : Fields) (o : Option Fields) (s : GraphSession)
      → (persist_as agent graph_name node_name delta o s).1.machine ≡ s.machine
  persisted-machine delta none s = refl
  persisted-machine delta (some request) s = refl

  pub take_update-machine :
      (w : Fields) (s : GraphSession)
      → (take_update agent graph_name run_id node_name w s).machine ≡ s.machine
  unfolding take_update persist_approval_if_needed
  take_update-machine end s = refl
  take_update-machine (field k v fs) s =
      persisted-machine (field k v fs) (to_persist agent graph_name (update s.state (field k v fs)))
        _
