-- ===== src/LanggraphAgent/Decisions/Resuming.antt =====
-- langgraph_agent/runner.py: a run that is resumed once its approval is given, as cli/commands/agent.py
-- does it.
use ops_incident_collector.Prelude.{
  ℕ, String, true, false, ◌===◌, Option, none, some, ◌≡◌, refl, ap, sym, subst, ◌∙◌, Result, ok,
  raise, eq_refl, if◌then◌else◌,
}
use ops_incident_collector.Core.Json.{Fields, object, text, boolean, end, field, get_field}
use ops_incident_collector.LanggraphAgent.RunStore.{
  GraphRun, GraphApproval, GraphRunStore, RunUpdate, sanitize_for_storage, sanitize_fields,
  is_sensitive, updated_run, get_run,
}
use ops_incident_collector.LanggraphAgent.ApprovalStore.{decide_approval}
use ops_incident_collector.LanggraphAgent.RunStore.Sanitizing.{sanitized, get_field-sanitize_fields}
use ops_incident_collector.LanggraphAgent.RunStore.Runs.{updated, get_run-updated}
use ops_incident_collector.LanggraphAgent.State.Updates.{get_field-put_field}
use ops_incident_collector.LanggraphAgent.Nodes.{Agent}
use ops_incident_collector.LanggraphAgent.Session.{GraphSession}
use ops_incident_collector.LanggraphAgent.Runner.{run_graph}
use ops_incident_collector.LanggraphAgent.State.{fields_in}
use ops_incident_collector.LanggraphAgent.Runner.Steps.{TakesSchema}
use ops_incident_collector.LanggraphAgent.Runner.Settling.{is_settled}
use ops_incident_collector.LanggraphAgent.Runner.Approved.{Ready}
use ops_incident_collector.LanggraphAgent.Runner.Resumed.{waits, run_graph-resumed}
use ops_incident_collector.LanggraphAgent.Decisions.{
  decision_state, decided_run, after_decision, approve_action,
}

-- What is stored of a state that is approved.
decision_state-Ready : (state : Fields) → Ready (sanitize_fields (decision_state true state))
unfolding is_sensitive sanitize_for_storage
decision_state-Ready state = (
  get_field-sanitize_fields "approved" (decision_state true state) ∙ ap sanitized approved,
  ap is_settled
      (get_field-sanitize_fields "status" (decision_state true state) ∙ ap sanitized status),
)
  where
    approved : get_field "approved" (decision_state true state) ≡ some (boolean true)
    approved =
        get_field-put_field "approved" "status" (text "running") _
        ∙ get_field-put_field "approved" "sync_approved" (boolean true) _
        ∙ get_field-put_field "approved" "approved" (boolean true) state

    status : get_field "status" (decision_state true state) ≡ some (text "running")
    status = get_field-put_field "status" "status" (text "running") _

module _ (agent : Agent) where
  -- An approval whose run can be resumed.
  abbrev IsResumable : Result (GraphApproval × Fields) × GraphRunStore → Type 0
  IsResumable (raise e, t) = Unit
  IsResumable (ok (a, state), t) =
      (r : GraphRun) × (get_run a.run_id t ≡ some r) × Ready (fields_in r.state)

  decided_run-IsResumable :
      (now : ℕ) (a : GraphApproval) (o : Option GraphRun) (store : GraphRunStore)
      → get_run a.run_id store ≡ o
      → IsResumable (decided_run now true a o store)
  unfolding sanitize_for_storage
  decided_run-IsResumable now a none store h = tt
  decided_run-IsResumable now a (some run) store h =
      let state = decision_state true (fields_in run.state) in
      let u : RunUpdate = record { status = some "running"; error = none; completed = false } in
      (
        updated_run now state u run,
        get_run-updated now a.run_id a.run_id state u store
            ∙ ap
                (λ b.
                  if b
                  then updated now state u (get_run a.run_id store)
                  else get_run a.run_id store)
                (eq_refl a.run_id)
            ∙ ap (updated now state u) h,
        decision_state-Ready (fields_in run.state),
      )

  approve_action-IsResumable :
      (now : ℕ) (approval_id : String) (store : GraphRunStore)
      → IsResumable (approve_action now approval_id true store)
  unfolding approve_action
  approve_action-IsResumable now approval_id store =
      by (decide_approval now approval_id true (object (field "approved" (boolean true) end)) store)
    where
      by : (d : Result GraphApproval × GraphRunStore) → IsResumable (after_decision now true d)
      by (raise e, t) = tt
      by (ok a, t) = decided_run-IsResumable now a (get_run a.run_id t) t refl

  -- With LangGraph as `TakesSchema` has it: once an approval of a run of the graph `source_onboarding`
  -- is given, and the run is resumed from the store that the decision leaves, the run does not come
  -- back to wait for an approval.
  pub approve_action-run_graph :
      (takes : TakesSchema agent.channel_writes) (now : ℕ) (approval_id : String)
      (store t : GraphRunStore) (a : GraphApproval) (state : Fields) (config_path : Option String)
      (fresh other : String) (s : GraphSession)
      → approve_action now approval_id true store ≡ (ok (a, state), t)
      → a.graph_name ≡ "source_onboarding"
      → (a.run_id === "") ≡ false
      → waits
          (run_graph agent a.graph_name config_path
            (some a.run_id)
            fresh
            other
            end
            (record s { store = t })).0
        ≡ false
  approve_action-run_graph takes now approval_id store t a state config_path fresh other s decided
        onboarding named =
      let (r, found, ready) =
        subst IsResumable decided (approve_action-IsResumable now approval_id store) in
      subst
        (λ g.
          waits
            (run_graph agent g config_path (some a.run_id) fresh other end
              (record s { store = t })).0
          ≡ false)
        (sym onboarding)
        (run_graph-resumed agent takes a.run_id fresh other (record s { store = t }) r named found
          ready config_path)
