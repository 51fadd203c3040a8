-- ===== src/Tests/Agents.antt =====
-- Runs of the agent's graphs on the small project, of its store and of its nodes.
use ops_incident_collector.Prelude.{
  String, Bool, true, false, Option, none, some, List, [], ◌∷◌, ◌===◌, ◌≡◌, refl, ◌∙◌, ok, raise,
  key_error, one_of, eq_iff, if◌then◌else◌,
}
use ops_incident_collector.Core.Json.{Value, Fields, null, text, object, end, field, get_field}
use ops_incident_collector.Core.Machine.{Machine}
use ops_incident_collector.Config.Settings.{AppSettings}
use ops_incident_collector.Config.Loader.{Models, load_settings_optional}
use ops_incident_collector.Config.Loader.Loading.{redone}
use ops_incident_collector.State.Store.{SyncRun, empty_store, get_last_sync_summary}
use ops_incident_collector.LanggraphAgent.RunStore.{
  RunUpdate, GraphRunStore, empty_graph_store, sanitize_for_storage, sanitize_fields, is_sensitive,
  create_run, created_run, find_run, update_run_state, get_run,
}
use ops_incident_collector.LanggraphAgent.ApprovalStore.{
  new_approval, decide_approval, get_approval, find_approval,
}
use ops_incident_collector.LanggraphAgent.RunStore.Sanitizing.{
  IsClean, sanitized, sanitize_for_storage_lem,
}
use ops_incident_collector.LanggraphAgent.RunStore.Runs.{stored, get_run-update_run_state}
use ops_incident_collector.LanggraphAgent.ApprovalStore.Approvals.{
  ensure, decide, perform_all, HasOneRequest, perform_all-HasOneRequest,
}
use ops_incident_collector.LanggraphAgent.State.{get_object, get_true_text}
use ops_incident_collector.LanggraphAgent.Nodes.{Agent, load_settings_for_state}
use ops_incident_collector.LanggraphAgent.Nodes.Local.{
  load_config_node, validate_path_policy_node, compute_coverage_node, compute_rag_readiness_node,
}
use ops_incident_collector.LanggraphAgent.Nodes.Summaries.{summarize_sync_quality_node}
use ops_incident_collector.LanggraphAgent.Nodes.Syncing.{verify_sync_node}
use ops_incident_collector.LanggraphAgent.Nodes.Verifying.{sync_quality, verify_sync_node-quality}
use ops_incident_collector.LanggraphAgent.Graphs.{graph_builders}
use ops_incident_collector.LanggraphAgent.Runner.{run_graph}
use ops_incident_collector.LanggraphAgent.Session.{GraphSession, session}
use ops_incident_collector.LanggraphAgent.Runner.Steps.{TakesSchema}
use ops_incident_collector.LanggraphAgent.Runner.Unapproved.{run_graph-unapproved}
use ops_incident_collector.LanggraphAgent.Runner.OpenRows.{IsOpen}
use ops_incident_collector.LanggraphAgent.Runner.Failures.{IsFailed, run_graph-raised}
use ops_incident_collector.LanggraphAgent.Decisions.{approve_action}
use ops_incident_collector.LanggraphAgent.Decisions.Resuming.{approve_action-run_graph}
use ops_incident_collector.LanggraphAgent.Runner.Resumed.{waits}
use ops_incident_collector.Tests.Fixtures.{system, settings, machine}

-- No file of settings.
abbrev models : Models
models = record {
  Data = AppSettings;
  exists = λ path. false;
  read = λ path. ok settings;
  validate = λ fields. ok fields;
  dump = redone;
  defaults = settings;
}

-- The keys of the schema.
restrict : (schema : List String) → Fields → Fields
restrict schema end = end
restrict schema (field k v fs) =
    let rest = restrict schema fs in if one_of schema k then field k v rest else rest

restrict-TakesSchema : TakesSchema restrict
unfolding restrict get_field
restrict-TakesSchema schema end key = by (one_of schema key) none refl
  where
    by : (b : Bool) (o : Option Value) → none ≡ o → none ≡ (if b then o else none)
    by true o e = e
    by false o e = refl
restrict-TakesSchema schema (field k v fs) key =
    by (one_of schema k) (k === key) refl refl (restrict-TakesSchema schema fs key)
  where
    named : (k === key) ≡ true → one_of schema key ≡ one_of schema k
    named e = rw ((eq_iff k key).0 e)

    by :
        (taken same : Bool)
        → one_of schema k ≡ taken
        → (k === key) ≡ same
        → get_field key (restrict schema fs)
          ≡ (if one_of schema key then get_field key fs else none)
        → get_field key (if taken then field k v (restrict schema fs) else restrict schema fs)
          ≡ (if one_of schema key then (if same then some v else get_field key fs) else none)
    by true true t e ih = rw (e, named e ∙ t) refl
    by true false t e ih = rw e ih
    by false true t e ih = ih ∙ rw (named e ∙ t) refl
    by false false t e ih = ih

-- An agent with prompts, and one without.
abbrev agent : Agent
agent = record {
  system = system;
  models = models;
  prompt = λ name. ok (text name);
  draw = λ now. "drawn";
  show = λ v. "";
  channel_writes = restrict;
}

abbrev promptless : Agent
promptless = record agent { prompt = λ name. raise (key_error "no such prompt") }

abbrev idle : GraphSession
idle = session agent "source_onboarding" machine empty_graph_store end

abbrev onboarding_input : Fields
onboarding_input = field "path" (text "/data") (field "project_id" (text "p") end)

run_graph-unapproved_example :
    (run_graph agent "source_onboarding" none none "run_1" "run_2" onboarding_input idle).1.machine
    ≡ machine
unfolding get_field
run_graph-unapproved_example =
    run_graph-unapproved agent restrict-TakesSchema onboarding_input
      (refl, (refl, (refl, (refl, (refl, (refl, tt)))))) none "run_1" "run_2" idle

-- A run of the graph `sync_quality` without prompts raises at its report.
run_graph-raised_example :
    IsOpen (
      get_run "run_1"
        (run_graph promptless "sync_quality" none none "run_1" "run_2" end idle).1.store)
    × IsFailed 50_000 (key_error "no such prompt") (
        get_run "run_2"
          (run_graph promptless "sync_quality" none none "run_1" "run_2" end idle).1.store)
unfolding get_true_text get_field graph_builders run_graph load_settings_optional restrict
    load_config_node validate_path_policy_node verify_sync_node compute_coverage_node
    compute_rag_readiness_node summarize_sync_quality_node
run_graph-raised_example =
    run_graph-raised promptless "sync_quality" _ "run_1" "run_2" end refl _ none idle
      (key_error "no such prompt") refl refl refl refl

-- A run without an error, the last of the store.
abbrev last_run : SyncRun
last_run = record {
  sync_id = "sync_1";
  source_name = some "src";
  project_id = some "p";
  export_target = "api";
  status = "completed";
  finished_at = 40_000;
  files_seen = 2;
  files_uploaded = 2;
  files_skipped = 0;
  documents_synced = 2;
  bytes_processed = 17;
  bytes_uploaded = 17;
  warnings_json = [];
  errors_json = [];
}

abbrev synced : Machine
synced = record machine {
  world = record machine.world { store = record empty_store { sync_runs = last_run ∷ [] } };
}

verify_sync_node-quality_example :
    sync_quality (verify_sync_node agent end synced).0 ≡ some (text "failed")
unfolding get_object get_field load_settings_for_state load_settings_optional get_true_text
    get_last_sync_summary
verify_sync_node-quality_example =
    verify_sync_node-quality agent _ end synced last_run none refl refl refl

abbrev secret_state : Fields
secret_state = field "status" (text "running") (
    field "config_summary" (object (field "api_token" (text "t") (field "mode" (text "local") end)))
      end)

sanitize_for_storage_lem_example :
    IsClean (sanitize_for_storage (object secret_state))
    × (get_field "status" (sanitize_fields secret_state)
        ≡ (if is_sensitive "status" then none else sanitized (get_field "status" secret_state)))
    × (sanitize_for_storage (sanitize_for_storage (object secret_state))
        ≡ sanitize_for_storage (object secret_state))
sanitize_for_storage_lem_example = sanitize_for_storage_lem "status" secret_state

get_run-update_run_state_example :
    let u : RunUpdate = record { status = some "running"; error = none; completed = false } in
    let kept = stored 5 7 "sync_quality" "run_1" end secret_state u in
    (get_run "run_1" (
        update_run_state 7 "run_1" secret_state u
          (create_run 5 "sync_quality" "run_1" end empty_graph_store))
      ≡ some kept)
    × IsClean kept.input
    × IsClean kept.state
get_run-update_run_state_example =
    get_run-update_run_state 5 7 "sync_quality" "run_1" "run_1" end secret_state
      (record { status = some "running"; error = none; completed = false }) empty_graph_store

abbrev asked_twice : GraphRunStore
asked_twice =
    perform_all
      ((1, ensure "a" "run_1" "source_onboarding" "approval_gate" "sync_source" null)
        ∷ (2, ensure "b" "run_1" "source_onboarding" "approval_gate" "sync_source" null)
        ∷ (3, decide "a" true null)
        ∷ [])
      empty_graph_store

perform_all-HasOneRequest_example : HasOneRequest asked_twice
perform_all-HasOneRequest_example =
    perform_all-HasOneRequest
      ((1, ensure "a" "run_1" "source_onboarding" "approval_gate" "sync_source" null)
        ∷ (2, ensure "b" "run_1" "source_onboarding" "approval_gate" "sync_source" null)
        ∷ (3, decide "a" true null)
        ∷ [])
      empty_graph_store tt

-- A run that waits for its approval.
abbrev waiting : GraphRunStore
waiting = record empty_graph_store {
  graph_runs =
      created_run 5 "source_onboarding" "run_1" (field "status" (text "pending_approval") end) ∷ [];
  graph_approvals =
      new_approval 6 "a" "run_1" "source_onboarding" "approval_gate" "sync_source" null ∷ [];
}

approve_action-run_graph_example :
    waits
      (run_graph agent "source_onboarding" none
        (some "run_1")
        "run_2"
        "run_3"
        end
        (record idle { store = (approve_action 7 "a" true waiting).1 })).0
    ≡ false
unfolding approve_action decide_approval get_approval find_approval get_run find_run
approve_action-run_graph_example =
    approve_action-run_graph agent restrict-TakesSchema 7 "a" waiting
      (approve_action 7 "a" true waiting).1 _ _ none "run_2" "run_3" idle refl refl refl
