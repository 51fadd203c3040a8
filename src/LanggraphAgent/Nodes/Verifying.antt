-- ===== src/LanggraphAgent/Nodes/Verifying.antt =====
-- langgraph_agent/nodes/common.py: what `verify_sync_node` makes of the errors of a sync.
use ops_incident_collector.Prelude.{
  String, Bool, true, false, Option, none, some, List, ◌≡◌, refl, ap, ◌∙◌, Result, ok, raise, not,
  truthy, ◌===◌, eq_iff, if◌then◌else◌,
}
use ops_incident_collector.Core.Json.{Value, Fields, null, text, object, get_field}
use ops_incident_collector.Core.Models.{SyncSummary}
use ops_incident_collector.Core.Machine.{Machine}
use ops_incident_collector.Config.Settings.{AppSettings}
use ops_incident_collector.State.Store.{SyncRun, get_last_sync_summary}
use ops_incident_collector.State.Uploads.{failed_upload_queue_depth}
use ops_incident_collector.Adapters.Http.{truthy_value}
use ops_incident_collector.LanggraphAgent.State.{flag, get_object, get_or_null}
use ops_incident_collector.LanggraphAgent.Dumps.{dump_summary, row_of_run, json_of_texts}
use ops_incident_collector.LanggraphAgent.Nodes.{Agent, load_settings_for_state}
use ops_incident_collector.LanggraphAgent.Nodes.Syncing.{
  summary_in, has_errors, quality_of, verify_update, verify_sync_node,
}

-- The quality in the update of the node.
abbrev pub sync_quality : Result Fields → Option Value
sync_quality (ok delta) = get_field "sync_quality" (get_object "post_sync_quality" delta)
sync_quality (raise e) = none

-- The summary that `sync_source_node` puts into the state, or none.
abbrev pub summary_field : Option SyncSummary → Option Value
summary_field none = none
summary_field (some s) = some (object (dump_summary s))

abbrev pub is_missing : Option SyncSummary → Bool
is_missing none = true
is_missing (some s) = false

abbrev is_empty : String → Bool
is_empty String.[] = true
is_empty (String.◌∷◌ c s) = false

-- The text of a list of texts is true, also that of the empty list.
json_of_texts-truthy : (texts : List String) → truthy (json_of_texts texts) ≡ true
unfolding json_of_texts
json_of_texts-truthy texts = by (json_of_texts texts === "") refl
  where
    by : (b : Bool) → (json_of_texts texts === "") ≡ b → not b ≡ true
    by true e = absurd (cc (ap is_empty ((eq_iff (json_of_texts texts) "").0 e)))
    by false e = refl

module _ (state : Fields) (r : SyncRun) (o : Option SyncSummary)
    (summary : get_field "sync_summary" state ≡ summary_field o) where
  has_errors-summary : has_errors (summary_in state (some r)) ≡ is_missing o
  unfolding flag get_or_null row_of_run dump_summary json_of_texts get_field
  has_errors-summary = ap errors_at summary ∙ by o
    where
      errors_at : Option Value → Bool
      errors_at x = has_errors (
          if (elim x as (λ y. Bool) [ none ↦ false | some v ↦ truthy_value v ])
          then (elim x as (λ y. Value) [ none ↦ null | some v ↦ v ])
          else object (row_of_run r))

      by : (o : Option SyncSummary) → errors_at (summary_field o) ≡ is_missing o
      by none = json_of_texts-truthy r.errors_json
      by (some s) = refl

-- Where the configuration is read and a sync is recorded, the node says that the quality is `failed` if the
-- state holds no summary, whatever that sync recorded, since the column `errors_json` is a text; and with
-- a summary that `sync_source_node` left it looks at the readiness and the queue alone, whatever errors the
-- summary has, since these stand under `errors`.
pub verify_sync_node-quality :
    (agent : Agent) (settings : AppSettings) (state : Fields) (m : Machine) (r : SyncRun)
    (o : Option SyncSummary)
    → load_settings_for_state agent state ≡ ok settings
    → get_last_sync_summary m.world.store ≡ some r
    → get_field "sync_summary" state ≡ summary_field o
    → sync_quality (verify_sync_node agent state m).0
      ≡ some (
          text (
            quality_of
              (is_missing o)
              (get_object "rag_readiness" state)
              (failed_upload_queue_depth none m.world.store)))
unfolding verify_sync_node verify_update get_object get_field
verify_sync_node-quality agent settings state m r o read last summary =
    rw (read, last, has_errors-summary state r o summary) refl
