-- ===== src/Adapters/Client/Store.antt =====
-- No call of adapters/core_client.py writes the state database.
use ops_incident_collector.Prelude.{◌≡◌, Preserves, preserves_rules, String, List, Option}
use ops_incident_collector.Core.Json.{Value, Fields}
use ops_incident_collector.State.Store.{SqliteStore}
use ops_incident_collector.Adapters.Http.{World, Service, send, Method, CoreCapabilities}
use ops_incident_collector.Adapters.Client.{
  batch_upload_documents, capabilities, register_collector, register_source, create_sync,
  update_sync,
}

module _ (service : Service) (version : String) (s : SqliteStore) where
  abbrev pub HasStore : World → Type 0
  HasStore w = w.store ≡ s

  send-HasStore :
      (m : Method) (url : String) (body : Value) → Preserves HasStore (send service m url body)
  unfolding send
  send-HasStore m url body = record { at = λ w h. h }

  pub batch_upload_documents-HasStore :
      (project_id source_id : String) (documents : List Value)
      (sync_id collector_id : Option String) (caps : Option CoreCapabilities)
      → Preserves HasStore (
          batch_upload_documents service version project_id source_id documents sync_id collector_id
            caps)
  batch_upload_documents-HasStore project_id source_id documents sync_id collector_id caps =
      unfold batch_upload_documents in search (preserves_rules, send-HasStore) depth 9

  pub capabilities-HasStore : Preserves HasStore (capabilities service version)
  capabilities-HasStore = unfold capabilities in search (preserves_rules, send-HasStore) depth 9

  pub register_collector-HasStore :
      (project_id name environment : String) (caps : Option CoreCapabilities)
      → Preserves HasStore (register_collector service version project_id name environment caps)
  register_collector-HasStore project_id name environment caps =
      unfold register_collector in search (preserves_rules, send-HasStore) depth 9

  pub register_source-HasStore :
      (project_id name source_type : String) (caps : Option CoreCapabilities)
      → Preserves HasStore (register_source service version project_id name source_type caps)
  register_source-HasStore project_id name source_type caps =
      unfold register_source in search (preserves_rules, send-HasStore) depth 9

  pub create_sync-HasStore :
      (source_id sync_id : String) (payload : Fields) (caps : Option CoreCapabilities)
      → Preserves HasStore (create_sync service version source_id sync_id payload caps)
  create_sync-HasStore source_id sync_id payload caps =
      unfold create_sync in search (preserves_rules, send-HasStore) depth 9

  pub update_sync-HasStore :
      (source_id sync_id status : String) (payload : Fields) (caps : Option CoreCapabilities)
      → Preserves HasStore (update_sync service version source_id sync_id status payload caps)
  update_sync-HasStore source_id sync_id status payload caps =
      unfold update_sync in search (preserves_rules, send-HasStore) depth 9
