-- ===== src/LanggraphAgent/Nodes/Syncing.antt =====
-- langgraph_agent/nodes/common.py: the gate of the approval, the sync behind it, and its verification.
use ops_incident_collector.Prelude.{
  ℕ, String, Bool, true, false, not, ◌&&◌, ◌||◌, Option, none, some, List, [], ◌∷◌, ltb, ◌==◌,
  ◌===◌, ◌<>◌, decimal, Result, ok, raise, if◌then◌else◌,
}
use ops_incident_collector.Core.Json.{
  Value, Items, Fields, null, boolean, text, number, array, object, nil, cons, end, field,
  get_field,
}
use ops_incident_collector.Core.Models.{SyncSummary}
use ops_incident_collector.Core.Machine.{Machine}
use ops_incident_collector.Core.Collecting.{SyncRequest}
use ops_incident_collector.Core.Pipeline.{run_sync}
use ops_incident_collector.Config.Settings.{AppSettings}
use ops_incident_collector.State.Store.{FailedUpload, SyncRun, get_last_sync_summary}
use ops_incident_collector.State.Uploads.{failed_upload_queue_depth}
use ops_incident_collector.Processors.Classifier.{path_name}
use ops_incident_collector.LanggraphAgent.State.{
  flag, is_in, get_true_text, get_text_or, get_or_null, get_object, get_items, items_of,
}
use ops_incident_collector.LanggraphAgent.Dumps.{dump_summary, row_of_run, safe_failed_upload}
use ops_incident_collector.LanggraphAgent.Nodes.{
  Agent, Node, pure_node, with_ok, load_settings_for_state,
}
use ops_incident_collector.LanggraphAgent.Nodes.Local.{warnings_with}

-- `state.get("export_target", "api") == "api"`
abbrev pub to_api : Fields → Bool
to_api state = elim (get_field "export_target" state) [
  | none ↦ true
  | some v ↦ is_in "export_target" ("api" ∷ []) state
]

unfoldable pub is_approved : Fields → Bool
unfolding flag
is_approved state = flag "approved" false state || flag "sync_approved" false state

-- `requires` of the gate.
unfoldable pub requires_approval : Fields → Bool
unfolding flag is_in get_field
requires_approval state =
    flag "require_approval" true state
    && (flag "sync_required" true state && (to_api state && not (flag "dry_run" false state)))

abbrev approval_request : Fields → Value
approval_request state = object (
    field "action" (text "sync_source") (
      field "reason" (text "API sync uploads normalized documents to IncidentOps Core.") (
        field "risk_level" (text "medium") (
          field "payload_summary"
            (object (
              field "path" (get_or_null "path" state) (
                field "project_id" (get_or_null "project_id" state) (
                  field "export_target" (text (get_text_or "export_target" "api" state)) (
                    field "dry_run" (boolean (flag "dry_run" false state)) (
                      field "supported_files"
                        (get_or_null "supported_files" (get_object "inspection" state)) end))))))
            end))))

abbrev pub pending_update : Fields → Fields
pending_update state =
    field "status" (text "pending_approval") (field "approval_request" (approval_request state) end)

-- `state.get("status", "running")`
abbrev status_or_running : Fields → Value
status_or_running state = elim (get_field "status" state) [ none ↦ text "running" | some v ↦ v ]

-- The update of the gate, with its three tests taken out.
abbrev pub gated : (stopped requires approved : Bool) → Fields → Fields
gated true requires approved state = end
gated false true false state = pending_update state
gated false true true state = field "status" (text "approved") end
gated false false approved state = field "status" (status_or_running state) end

abbrev pub gate_update : Fields → Fields
gate_update state =
    gated (is_in "status" ("failed" ∷ "core_unavailable" ∷ []) state) (requires_approval state)
      (is_approved state) state

unfoldable pub approval_gate_node : Node
unfolding is_in requires_approval is_approved get_text_or get_or_null get_object get_field flag
approval_gate_node = pure_node (λ state. ok (gate_update state))

abbrev pub stopped_statuses : List String
stopped_statuses = "failed" ∷ "pending_approval" ∷ "rejected" ∷ "core_unavailable" ∷ []

-- `_quality_next_actions`
abbrev quality_next_actions : String → ℕ → List String
quality_next_actions quality queue_depth =
    if quality === "failed"
    then "fix sync errors" ∷ "rerun sync" ∷ []
    else if ltb 0 queue_depth
    then "retry failed uploads" ∷ "verify Core ingestion endpoint health" ∷ []
    else if quality === "weak"
    then "add missing recommended source types" ∷ "rerun readiness report" ∷ []
    else "proceed to Core investigation when needed" ∷ []

abbrev pub row_or_null : Option SyncRun → Value
row_or_null none = null
row_or_null (some r) = object (row_of_run r)

-- `state.get("sync_summary") or last_sync`
abbrev pub summary_in : Fields → Option SyncRun → Value
summary_in state last_sync =
    if flag "sync_summary" false state
    then get_or_null "sync_summary" state
    else row_or_null last_sync

-- `sync_summary and sync_summary.get("errors_json")`
abbrev pub has_errors : Value → Bool
has_errors (object fs) = flag "errors_json" false fs
has_errors v = false

abbrev pub quality_of : (blocked : Bool) → (readiness : Fields) → (queue_depth : ℕ) → String
quality_of blocked readiness queue_depth =
    if blocked
    then "failed"
    else if is_in "grade" ("poor" ∷ "weak" ∷ []) readiness || ltb 0 queue_depth
    then "weak"
    else if is_in "grade" ("usable" ∷ []) readiness
    then "usable"
    else "strong"

abbrev failed_items : List FailedUpload → Items
failed_items [] = nil
failed_items (r ∷ rows) = cons (safe_failed_upload r) (failed_items rows)

abbrev queue_warnings : ℕ → List String
queue_warnings n = if n == 0 then [] else (decimal n <> " failed upload(s) remain queued") ∷ []

-- The update of `verify_sync_node` on what it reads of the state database.
unfoldable pub verify_update :
    (queue_depth : ℕ) → Option SyncRun → List FailedUpload → Fields → Fields
unfolding flag is_in get_or_null get_object get_items row_of_run safe_failed_upload decimal
verify_update queue_depth last_sync failed_uploads state =
    let summary = summary_in state last_sync in
    let blocked = has_errors summary in
    let readiness = get_object "rag_readiness" state in
    let quality = quality_of blocked readiness queue_depth in
    field "sync_summary" summary (
      field "failed_uploads"
        (object (
          field "queue_depth" (number queue_depth)
            (field "items" (array (failed_items failed_uploads)) end)))
        (field "post_sync_quality"
          (object (
            field "sync_quality" (text quality) (
              field "blocking_issues"
                (array (items_of (if blocked then "sync recorded errors" ∷ [] else [])))
                (field "warnings" (array (items_of (queue_warnings queue_depth))) (
                  field "retry_queue_depth" (number queue_depth) (
                    field "rag_readiness_score" (get_or_null "score" readiness) (
                      field "recommended_next_actions"
                        (array (items_of (quality_next_actions quality queue_depth))) end)))))))
          (field "warnings" (warnings_with (queue_warnings queue_depth) state) end)))

module _ (agent : Agent) where
  -- The arguments that `sync_source_node` gives to `run_sync`.
  unfoldable pub node_request : (path : String) → AppSettings → Fields → SyncRequest
  unfolding get_text_or get_true_text flag path_name
  node_request path settings state = record {
    path = path;
    export_target = get_text_or "export_target" "api" state;
    project_id = elim (get_true_text "project_id" state) [
      | none ↦ settings.project_id
      | some p ↦ some p
    ];
    source_name = path_name path;
    output = get_true_text "output" state;
    dry_run = flag "dry_run" false state;
    force = false;
    no_redact = false;
    max_depth = 8;
    source_type = "filesystem";
    include = [];
    exclude = [];
    max_files = none;
  }

  abbrev pub summarized : Result SyncSummary × Machine → Result Fields × Machine
  summarized (ok s, m) = (ok (field "sync_summary" (object (dump_summary s)) end), m)
  summarized (raise e, m) = (raise e, m)

  abbrev pub synced_with :
      (path : String) → Fields → Result AppSettings → Machine → Result Fields × Machine
  synced_with path state (raise e) m = (raise e, m)
  synced_with path state (ok settings) m = summarized (
      run_sync agent.system settings (node_request path settings state) (agent.draw m.world.clock)
        m)

  abbrev pub sync_path : Option String → Fields → Machine → Result Fields × Machine
  sync_path none state m = (ok end, m)
  sync_path (some path) state m = synced_with path state (load_settings_for_state agent state) m

  abbrev pub sync_unless : (stopped : Bool) → Fields → Machine → Result Fields × Machine
  sync_unless true state m = (ok end, m)
  sync_unless false state m = sync_path (get_true_text "path" state) state m

  unfoldable pub sync_source_node : Node
  unfolding is_in get_true_text load_settings_for_state run_sync node_request dump_summary
  sync_source_node state m = sync_unless (is_in "status" stopped_statuses state) state m

  unfoldable pub sync_source_if_needed_node : Node
  unfolding flag sync_source_node
  sync_source_if_needed_node state m =
      if flag "sync_required" false state then sync_source_node state m else (ok end, m)

  -- The store is that of the machine, wherever the settings say that it lies.
  unfoldable pub verify_sync_node : Node
  unfolding load_settings_for_state failed_upload_queue_depth get_last_sync_summary verify_update
  verify_sync_node state m =
      pure_node
        (λ state. with_ok (load_settings_for_state agent state) (λ settings. ok (
          verify_update (failed_upload_queue_depth none m.world.store)
            (get_last_sync_summary m.world.store) m.world.store.failed_uploads state)))
        state m
