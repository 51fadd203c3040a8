-- ===== src/LanggraphAgent/Nodes/Bridge.antt =====
-- langgraph_agent/nodes/common.py: the nodes that ask Core, and the decision whether a sync is needed.
-- `str` of an exception is its message.
use ops_incident_collector.Prelude.{
  ℕ, String, Bool, true, false, not, ◌&&◌, ◌||◌, Option, none, some, [], ◌∷◌, Dict, ◌<>◌, truthy?,
  Result, ok, raise, key_error, Action, if◌then◌else◌,
}
use ops_incident_collector.Core.Json.{
  Value, Items, Fields, null, boolean, text, number, array, object, nil, cons, end, field,
  get_field, put_field,
}
use ops_incident_collector.Core.Machine.{Machine}
use ops_incident_collector.Core.Targets.{or_empty}
use ops_incident_collector.Config.Settings.{AppSettings, resolve_token}
use ops_incident_collector.Adapters.Http.{Service, World, CoreCapabilities}
use ops_incident_collector.Adapters.Client.{health, capabilities, investigate}
use ops_incident_collector.Exporters.ExportState.{describe}
use ops_incident_collector.LanggraphAgent.State.{
  flag, is_in, get_or_null, get_object, get_items, errors_with, append_item,
}
use ops_incident_collector.LanggraphAgent.Nodes.{
  Agent, Node, pure_node, with_ok, load_settings_for_state,
}
use ops_incident_collector.LanggraphAgent.Nodes.Syncing.{stopped_statuses}

abbrev flags_of : Dict Bool → Fields
flags_of [] = end
flags_of ((k, b) ∷ d) = field k (boolean b) (flags_of d)

abbrev numbers_of : Dict ℕ → Fields
numbers_of [] = end
numbers_of ((k, n) ∷ d) = field k (number n) (numbers_of d)

abbrev texts_in : Dict String → Fields
texts_in [] = end
texts_in ((k, s) ∷ d) = field k (text s) (texts_in d)

-- `capabilities.model_dump(mode="json") if capabilities else None`
abbrev dump_capabilities : Option CoreCapabilities → Value
dump_capabilities none = null
dump_capabilities (some c) = object (
    field "features" (object (flags_of c.features)) (
      field "limits" (object (numbers_of c.limits))
        (field "endpoints" (object (texts_in c.endpoints)) end)))

-- An action on the network as one on the machine.
abbrev pub on_network {ℓ} : {A : Type ℓ} → Action World A → Machine → Result A × Machine
on_network f m = let r = f m.world in (r.0, record m { world = r.1 })

module _ (agent : Agent) where
  abbrev pub client_of : AppSettings → Service
  client_of settings =
      agent.system.connect (or_empty settings.api.base_url)
        (resolve_token agent.system.environment settings.api)

  abbrev healthy : Fields → Result Value × Machine → Result Fields × Machine
  healthy state (ok v, m) = (ok (field "core_health" v (field "status" (text "running") end)), m)
  healthy state (raise e, m) = (
    ok (
        field "core_health" (object (field "error" (text (describe e)) end)) (
          field "status" (text "core_unavailable")
            (field "errors" (errors_with ("Core health check failed: " <> describe e) state) end))),
    m,
  )

  abbrev asked_health : Fields → Result AppSettings → Machine → Result Fields × Machine
  asked_health state (raise e) m = (raise e, m)
  asked_health state (ok settings) m =
      if not (truthy? settings.api.base_url)
      then (
        ok (
            field "core_health" null (
              field "status" (text "core_unavailable")
                (field "errors" (errors_with "IncidentOps Core API is not configured" state) end))),
        m,
      )
      else healthy state (on_network (health (client_of settings) agent.system.collector_version) m)

  unfoldable pub check_core_health_node : Node
  unfolding load_settings_for_state resolve_token health describe get_items append_item
  check_core_health_node state m = asked_health state (load_settings_for_state agent state) m

  abbrev capable : Fields → Result (Option CoreCapabilities) × Machine → Result Fields × Machine
  capable state (ok c, m) = (ok (field "core_capabilities" (dump_capabilities c) end), m)
  capable state (raise e, m) = (
    ok (
        field "warnings"
          (array (
            append_item (get_items "warnings" state)
              (text ("Core capabilities unavailable: " <> describe e))))
          end),
    m,
  )

  abbrev asked_capabilities : Fields → Result AppSettings → Machine → Result Fields × Machine
  asked_capabilities state (raise e) m = (raise e, m)
  asked_capabilities state (ok settings) m =
      if not (truthy? settings.api.base_url)
      then (ok end, m)
      else capable state
          (on_network (capabilities (client_of settings) agent.system.collector_version) m)

  unfoldable pub get_core_capabilities_node : Node
  unfolding is_in load_settings_for_state resolve_token capabilities describe get_items append_item
  get_core_capabilities_node state m =
      if is_in "status" ("core_unavailable" ∷ []) state
      then (ok end, m)
      else asked_capabilities state (load_settings_for_state agent state) m

  abbrev is_some {ℓ} : {A : Type ℓ} → Option A → Bool
  is_some none = false
  is_some (some a) = true

  abbrev non_empty_items : Items → Bool
  non_empty_items nil = false
  non_empty_items (cons v vs) = true

  abbrev pub sync_needed : Fields → Bool
  sync_needed state =
      flag "path" false state
      && (not (flag "ready_for_investigation" false (get_object "rag_readiness" state))
          || non_empty_items
              (get_items "missing_recommended_sources" (get_object "coverage" state)))

  unfoldable pub decide_if_sync_needed_node : Node
  unfolding flag get_object get_items
  decide_if_sync_needed_node = pure_node (λ state. ok (
      field "sync_required" (boolean (sync_needed state)) (
        field "missing_data"
          (array (get_items "missing_recommended_sources" (get_object "coverage" state))) end)))

  -- `state[key]`
  abbrev required : String → Option Value → Result Value
  required key none = raise (key_error key)
  required key (some v) = ok v

  abbrev with_top_k : Value → Fields → Fields
  with_top_k null fs = fs
  with_top_k v fs = put_field "top_k" v fs

  abbrev question : Fields → Result Fields
  question state = with_ok (required "project_id" (get_field "project_id" state)) (λ project_id.
      with_ok (required "query" (get_field "query" state)) (λ query. ok (
        with_top_k (get_or_null "top_k" state) (
          field "project_id" project_id
            (field "query" query (field "debug" (boolean (flag "debug" false state)) end))))))

  abbrev investigated : Fields → Result Value × Machine → Result Fields × Machine
  investigated state (ok v, m) = (
    ok (
        field "core_investigation_result" v
          (field "status" (text "core_investigation_complete") end)),
    m,
  )
  investigated state (raise e, m) = (
    ok (
        field "core_investigation_result" (object (field "error" (text (describe e)) end)) (
          field "status" (text "core_unavailable")
            (field "errors" (errors_with ("Core investigate failed: " <> describe e) state) end))),
    m,
  )

  abbrev asked_core : AppSettings → Fields → Result Fields → Machine → Result Fields × Machine
  asked_core settings state (raise e) m = (raise e, m)
  asked_core settings state (ok payload) m = investigated state (
      on_network (investigate (client_of settings) agent.system.collector_version (object payload))
        m)

  abbrev asked_investigation : Fields → Result AppSettings → Machine → Result Fields × Machine
  asked_investigation state (raise e) m = (raise e, m)
  asked_investigation state (ok settings) m =
      if not (truthy? settings.api.base_url)
      then (ok (field "status" (text "core_unavailable") end), m)
      else asked_core settings state (question state) m

  unfoldable pub call_core_investigate_node : Node
  unfolding is_in load_settings_for_state resolve_token investigate describe get_items append_item
      get_or_null get_field flag put_field
  call_core_investigate_node state m =
      if is_in "status" stopped_statuses state
      then (ok end, m)
      else asked_investigation state (load_settings_for_state agent state) m
