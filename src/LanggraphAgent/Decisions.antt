-- ===== src/LanggraphAgent/Decisions.antt =====
-- langgraph_agent/runner.py: the decision on an approval, and the status of a run.
pub mod Resuming
use ops_incident_collector.Prelude.{
  ℕ, String, Bool, true, false, not, Option, none, some, List, ◌<>◌, Result, ok, raise, key_error,
  if◌then◌else◌,
}
use ops_incident_collector.Core.Json.{Value, Fields, boolean, text, object, end, field, put_field}
use ops_incident_collector.LanggraphAgent.RunStore.{
  GraphRun, GraphApproval, GraphEvent, GraphRunStore, update_run_state, get_run, list_events,
}
use ops_incident_collector.LanggraphAgent.ApprovalStore.{decide_approval, list_pending_approvals}
use ops_incident_collector.LanggraphAgent.State.{fields_in, get_items, append_item, errors_with}

-- `approve_action` on the store, once the configuration is read.
abbrev pub decision_state : (approved : Bool) → Fields → Fields
decision_state true state =
    put_field "status" (text "running")
      (put_field "sync_approved" (boolean true) (put_field "approved" (boolean true) state))
decision_state false state =
    put_field "errors" (errors_with "approval rejected" state)
      (put_field "status" (text "rejected") state)

abbrev pub decided_run :
    ℕ
    → (approved : Bool) → GraphApproval
    → Option GraphRun
    → GraphRunStore
    → Result (GraphApproval × Fields) × GraphRunStore
decided_run now approved approval none store =
    (raise (key_error ("graph run not found: " <> approval.run_id)), store)
decided_run now approved approval (some run) store =
    let state = decision_state approved (fields_in run.state) in
    (
      ok (approval, state),
      update_run_state now approval.run_id state
          (record {
            status = some (if approved then "running" else "rejected");
            error = none;
            completed = not approved;
          })
          store,
    )

abbrev pub after_decision :
    ℕ
    → (approved : Bool) → Result GraphApproval × GraphRunStore
    → Result (GraphApproval × Fields) × GraphRunStore
after_decision now approved (raise e, store) = (raise e, store)
after_decision now approved (ok approval, store) =
    decided_run now approved approval (get_run approval.run_id store) store

unfoldable pub approve_action :
    ℕ
    → (approval_id : String) → (approved : Bool) → GraphRunStore
    → Result (GraphApproval × Fields) × GraphRunStore
unfolding decide_approval get_run put_field get_items append_item update_run_state
approve_action now approval_id approved store = after_decision now approved (
    decide_approval now approval_id approved (object (field "approved" (boolean approved) end))
      store)

pub record GraphStatus : Type 0 where
  pub run : GraphRun
  pub events : List GraphEvent
  pub pending_approvals : List GraphApproval

abbrev status_of_run : String → GraphRunStore → Option GraphRun → Result GraphStatus
status_of_run run_id store none = raise (key_error ("graph run not found: " <> run_id))
status_of_run run_id store (some run) = ok (record {
  run = run;
  events = list_events run_id store;
  pending_approvals = list_pending_approvals (some run_id) store;
})

unfoldable pub get_graph_run_status : String → GraphRunStore → Result GraphStatus
unfolding get_run list_events list_pending_approvals
get_graph_run_status run_id store = status_of_run run_id store (get_run run_id store)
