-- ===== src/Adapters/Client.antt =====
-- adapters/core_client.py: `CoreClient`. The client holds no state but its connection.
pub mod Batch
pub mod Store
use ops_incident_collector.Prelude.{
  ℕ, String, Bool, true, false, Option, none, some, List, [], ◌∷◌, ◌++◌, Dict, ◌==◌, ◌===◌, ◌<>◌,
  Action, Result, ok, raise, missing_batch_endpoint, pure, throw, lift, ◌>>=◌, ◌>>◌, truthy,
  ends_with, if◌then◌else◌,
}
use ops_incident_collector.Core.Json.{
  Value, Items, Fields, null, text, array, object, nil, cons, end, field, get_field, put_field,
  text_or_null,
}
use ops_incident_collector.Adapters.Http.{
  Request, Response, Reply, CoreCapabilities, Service, World, get_method, post_method, patch_method,
  Method, json_of, parsed, send, get_text,
}
use ops_incident_collector.Adapters.Endpoints.{resolve_endpoint, format, or_key_error}

abbrev pub schema_version : String
schema_version = "incidentops.normalized_document.v1"

abbrev pub core_api_version : String
core_api_version = "v1"

abbrev items : List Value → Items
items [] = nil
items (v ∷ vs) = cons v (items vs)

-- A key that is added only if its text is not empty.
abbrev add_text : String → Option String → Fields → Fields
add_text key none fs = fs
add_text key (some s) fs = if truthy s then put_field key (text s) fs else fs

-- `versioned_batch_payload`; the version of the collector is an argument.
unfoldable pub versioned_batch_payload :
    String → List Value → (sync_id collector_id : Option String) → Fields
unfolding put_field
versioned_batch_payload version documents sync_id collector_id =
    add_text "collector_id" collector_id (
      add_text "sync_id" sync_id (
        field "collector_version" (text version) (
          field "schema_version" (text schema_version) (
            field "core_api_version" (text core_api_version)
              (field "documents" (array (items documents)) end)))))

abbrev first_of_texts : List (Option String) → String → String
first_of_texts [] d = d
first_of_texts (none ∷ os) d = first_of_texts os d
first_of_texts (some s ∷ os) d = s

module _ (service : Service) (version : String) where
  unfoldable pub health : Action World Value
  unfolding send
  health = do r ← send service get_method "/health" null; lift (json_of r)

  abbrev capabilities_of : Response → Action World (Option CoreCapabilities)
  capabilities_of r = if r.status_code == 404 then pure none else do
    v ← lift (json_of r)
    c ← lift (parsed "not a capabilities document" (service.validate_capabilities v))
    pure (some c)

  unfoldable pub capabilities : Action World (Option CoreCapabilities)
  unfolding send
  capabilities = do r ← send service get_method "/v1/capabilities" null; capabilities_of r

  unfoldable pub register_collector :
      (project_id name environment : String) → Option CoreCapabilities → Action World Value
  unfolding send format resolve_endpoint
  register_collector project_id name environment caps = do
    url ← lift (
        or_key_error
          (format (("project_id", project_id) ∷ []) (resolve_endpoint caps "register_collector")))
    r ← send service post_method url (
        object (
          field "name" (text name) (
            field "environment" (text (if truthy environment then environment else "local"))
              (field "version" (text version) end))))
    lift (json_of r)

  -- Its result is the field `source_id` of the `SourceRegistrationResult`.
  unfoldable pub register_source :
      (project_id name source_type : String) → Option CoreCapabilities → Action World String
  unfolding send format resolve_endpoint get_text
  register_source project_id name source_type caps = do
    url ← lift (
        or_key_error
          (format (("project_id", project_id) ∷ []) (resolve_endpoint caps "register_source")))
    let kind = if truthy source_type then source_type else "filesystem"
    r ← send service post_method url (
        object (
          field "name" (text name) (
            field "source_type" (text kind) (
              field "type" (text kind)
                (field "sync_mode" (text "manual") (field "config" (object end) end))))))
    data_ ← lift (json_of r)
    source_id ← lift (get_text "source_id" data_)
    id ← lift (get_text "id" data_)
    pure (first_of_texts (source_id ∷ id ∷ []) name)

  -- The legacy endpoint is tried on a 404; a second 404 gives the answer that stands in for one.
  abbrev or_legacy : Method → String → Value → Value → Response → Action World Value
  or_legacy method url payload stand_in r =
      if r.status_code == 404
      then (do
        l ← send service method url payload
        if l.status_code == 404 then pure stand_in else lift (json_of l))
      else lift (json_of r)

  unfoldable pub create_sync :
      (source_id sync_id : String) → Fields → Option CoreCapabilities → Action World Value
  unfolding send format resolve_endpoint
  create_sync source_id sync_id payload caps = do
    url ← lift (
        or_key_error (format (("source_id", source_id) ∷ []) (resolve_endpoint caps "create_sync")))
    r ← send service post_method url (object payload)
    or_legacy post_method ("/v1/sources/" <> source_id <> "/syncs") (object payload)
        (object (field "sync_id" (text sync_id) end)) r

  unfoldable pub update_sync :
      (source_id sync_id status : String) → Fields → Option CoreCapabilities → Action World Value
  unfolding send format resolve_endpoint ends_with
  update_sync source_id sync_id status payload caps = do
    url ← lift (
        or_key_error (
          format (("source_id", source_id) ∷ ("sync_id", sync_id) ∷ [])
            (resolve_endpoint caps "update_sync")))
    r ←
        send service (if ends_with url "/finish" then post_method else patch_method) url
          (object payload)
    or_legacy patch_method ("/v1/sources/" <> source_id <> "/syncs/" <> sync_id) (object payload)
        (object (field "sync_id" (text sync_id) (field "status" (text status) end))) r

  -- The third endpoint, whose 404 means that Core takes no batches.
  abbrev ingest_answer : Response → Action World Value
  ingest_answer r = if r.status_code == 404 then throw missing_batch_endpoint else lift (json_of r)

  abbrev fallback_ingest :
      (project_id source_id : String) → Fields → Option CoreCapabilities → Action World Value
  fallback_ingest project_id source_id payload caps = do
    url ← lift (
        or_key_error
          (format (("project_id", project_id) ∷ []) (resolve_endpoint caps "fallback_ingest")))
    r ← send service post_method url (object (put_field "source_id" (text source_id) payload))
    ingest_answer r

  abbrev legacy_batch :
      (project_id source_id : String) → Fields → Option CoreCapabilities → Action World Value
  legacy_batch project_id source_id payload caps = do
    l ←
        send service post_method
          ("/v1/projects/" <> project_id <> "/sources/" <> source_id <> "/documents:batch")
          (object payload)
    if l.status_code == 404
        then fallback_ingest project_id source_id payload caps
        else lift (json_of l)

  unfoldable pub batch_upload_documents :
      (project_id source_id : String)
      → List Value
      → (sync_id collector_id : Option String) → Option CoreCapabilities
      → Action World Value
  unfolding send format resolve_endpoint versioned_batch_payload put_field
  batch_upload_documents project_id source_id documents sync_id collector_id caps = do
    let payload = versioned_batch_payload version documents sync_id collector_id
    url ← lift (
        or_key_error (
          format (("project_id", project_id) ∷ ("source_id", source_id) ∷ [])
            (resolve_endpoint caps "batch_upload")))
    r ← send service post_method url (object payload)
    if r.status_code == 404
        then legacy_batch project_id source_id payload caps
        else lift (json_of r)

  unfoldable pub investigate : Value → Action World Value
  unfolding send
  investigate payload = do r ← send service post_method "/v1/investigate" payload; lift (json_of r)
