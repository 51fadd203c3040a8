-- ===== src/LanggraphAgent/Nodes/Summaries.antt =====
-- langgraph_agent/nodes/summarize_result.py: the reports at the end of the graphs.
use ops_incident_collector.Prelude.{
  String, false, not, ◌&&◌, none, some, List, [], ◌∷◌, ◌===◌, ◌<>◌, ok, if◌then◌else◌,
}
use ops_incident_collector.Core.Json.{
  Value, Items, Fields, null, boolean, text, array, object, nil, cons, end, field, get_field,
}
use ops_incident_collector.LanggraphAgent.State.{
  flag, is_in, get_text_or, get_or_null, get_object, get_items, items_of,
}
use ops_incident_collector.LanggraphAgent.Nodes.{Agent, Node, pure_node, with_ok}

-- `state.get(key, default)`
abbrev get_or : String → Value → Fields → Value
get_or key default fs = elim (get_field key fs) [ none ↦ default | some v ↦ v ]

abbrev or_items : Items → List String → Items
or_items nil texts = items_of texts
or_items (cons v vs) texts = cons v vs

-- `_next_steps`
unfoldable pub next_steps : Fields → Items
unfolding flag is_in get_text_or get_object get_items get_field
next_steps state =
    if is_in "status" ("pending_approval" ∷ []) state
    then items_of (
        ("approve or reject DATA_EXPORT approval "
          <> get_text_or "approval_id" "<approval_id>" (get_object "approval_request" state))
        ∷ [])
    else if flag "errors" false state
    then items_of ("fix reported errors" ∷ "rerun graph" ∷ [])
    else or_items (get_items "recommended_next_actions" (get_object "post_sync_quality" state))
        ("review readiness report" ∷ [])

-- `_investigation_next_steps`
unfoldable pub investigation_next_steps : Fields → List String
unfolding flag is_in
investigation_next_steps state =
    if is_in "status" ("core_unavailable" ∷ []) state
    then "bring IncidentOps Core online" ∷ "review local readiness and missing data" ∷ []
    else if is_in "status" ("pending_approval" ∷ []) state
    then "approve sync if you want Collector to upload evidence before Core investigation" ∷ []
    else if not (flag "core_investigation_result" false state)
    then "call Core investigate after sync/readiness requirements are met" ∷ []
    else "review Core investigation result and citations returned by Core" ∷ []

abbrev pub onboarding_status : Fields → String
onboarding_status state =
    if is_in "status" ("failed" ∷ "pending_approval" ∷ "rejected" ∷ []) state
    then get_text_or "status" "completed" state
    else "completed"

abbrev pub bridge_status : Fields → String
bridge_status state =
    if get_text_or "status" "completed" state === "running"
    then "completed"
    else get_text_or "status" "completed" state

abbrev onboarding_report : Fields → (sync_decision post_sync_quality_gate : Value) → Fields
onboarding_report state sync_decision post_sync_quality_gate =
    field "type" (text "source_onboarding") (
      field "path" (get_or_null "path" state) (
        field "readiness_score" (get_or_null "score" (get_object "rag_readiness" state)) (
          field "source_coverage" (get_or_null "coverage" state) (
            field "sync_decision" (get_or_null "sync_plan" state) (
              field "approval_status"
                (text (
                  if onboarding_status state === "pending_approval"
                  then onboarding_status state
                  else "not_pending"))
                (field "approval_request" (get_or_null "approval_request" state) (
                  field "sync_summary" (get_or_null "sync_summary" state) (
                    field "post_sync_quality" (get_or_null "post_sync_quality" state) (
                      field "failed_upload_queue_depth"
                        (get_or_null "queue_depth" (get_object "failed_uploads" state))
                        (field "missing_data"
                          (get_or "missing_recommended_sources" (array nil)
                            (get_object "coverage" state))
                          (field "next_steps" (array (next_steps state)) (
                            field "prompt_assets"
                              (array (cons sync_decision (cons post_sync_quality_gate nil)))
                              end))))))))))))

abbrev readiness_report : Fields → (source_coverage_review rag_readiness_report : Value) → Fields
readiness_report state source_coverage_review rag_readiness_report =
    field "type" (text "rag_readiness") (
      field "path" (get_or_null "path" state) (
        field "inspection" (get_or_null "inspection" state) (
          field "coverage" (get_or_null "coverage" state) (
            field "rag_readiness" (get_or_null "rag_readiness" state) (
              field "eval_seed_preview" (get_or "eval_seed_preview" (array nil) state) (
                field "prompt_assets"
                  (array (cons source_coverage_review (cons rag_readiness_report nil))) end))))))

abbrev quality_report : Fields → (post_sync_quality_gate : Value) → Fields
quality_report state post_sync_quality_gate =
    let quality = get_object "post_sync_quality" state in
    field "type" (text "sync_quality") (
      field "path" (get_or_null "path" state) (
        field "sync_summary" (get_or_null "sync_summary" state) (
          field "failed_uploads" (get_or_null "failed_uploads" state) (
            field "coverage" (get_or_null "coverage" state) (
              field "rag_readiness" (get_or_null "rag_readiness" state) (
                field "sync_quality" (get_or "sync_quality" (text "weak") quality) (
                  field "blocking_issues" (get_or "blocking_issues" (array nil) quality) (
                    field "warnings" (get_or "warnings" (array nil) quality) (
                      field "recommended_next_actions"
                        (get_or "recommended_next_actions" (array nil) quality)
                        (field "prompt_assets" (array (cons post_sync_quality_gate nil))
                          end))))))))))

abbrev bridge_report : Fields → (core_investigation_bridge missing_data_advisor : Value) → Fields
bridge_report state core_investigation_bridge missing_data_advisor =
    field "type" (text "investigation_bridge") (
      field "project_id" (get_or_null "project_id" state) (
        field "query" (get_or_null "query" state) (
          field "core_reachable"
            (boolean
              (flag "core_health" false state && not (bridge_status state === "core_unavailable")))
            (field "source_readiness" (get_or_null "rag_readiness" state) (
              field "sync_required" (get_or_null "sync_required" state) (
                field "sync_summary" (get_or_null "sync_summary" state) (
                  field "core_investigation_status"
                    (text (
                      if flag "core_investigation_result" false state
                      then "called"
                      else "not_called"))
                    (field "core_investigation_result"
                      (get_or_null "core_investigation_result" state)
                      (field "missing_data" (get_or "missing_data" (array nil) state) (
                        field "next_steps" (array (items_of (investigation_next_steps state))) (
                          field "local_diagnosis" null (
                            field "note"
                              (text
                                "Collector did not diagnose locally; Core remains the investigation brain.")
                              (field "prompt_assets"
                                (array
                                  (cons core_investigation_bridge (cons missing_data_advisor nil)))
                                end)))))))))))))

abbrev pub summary_update : (status : String) → (report : Fields) → Fields
summary_update status report =
    field "status" (text status) (field "final_report" (object report) end)

module _ (agent : Agent) where
  unfoldable pub summarize_source_onboarding_node : Node
  unfolding next_steps is_in get_text_or get_or_null get_object get_field
  summarize_source_onboarding_node = pure_node (λ state.
      with_ok (agent.prompt "sync_decision") (λ a.
        with_ok (agent.prompt "post_sync_quality_gate")
          (λ b. ok (summary_update (onboarding_status state) (onboarding_report state a b)))))

  unfoldable pub summarize_rag_readiness_node : Node
  unfolding flag get_or_null get_field
  summarize_rag_readiness_node = pure_node (λ state.
      with_ok (agent.prompt "source_coverage_review") (λ a.
        with_ok (agent.prompt "rag_readiness_report") (λ b. ok (
          summary_update (if flag "errors" false state then "failed" else "completed")
            (readiness_report state a b)))))

  unfoldable pub summarize_sync_quality_node : Node
  unfolding flag get_or_null get_object get_field
  summarize_sync_quality_node = pure_node (λ state.
      with_ok (agent.prompt "post_sync_quality_gate") (λ a. ok (
        summary_update (if not (flag "errors" false state) then "completed" else "failed")
          (quality_report state a))))

  unfoldable pub summarize_investigation_bridge_node : Node
  unfolding investigation_next_steps flag get_text_or get_or_null get_field
  summarize_investigation_bridge_node = pure_node (λ state.
      with_ok (agent.prompt "core_investigation_bridge") (λ a.
        with_ok (agent.prompt "missing_data_advisor")
          (λ b. ok (summary_update (bridge_status state) (bridge_report state a b)))))
