-- ===== src/Adapters/Endpoints.antt =====
-- adapters/fallback_modes.py, adapters/core_capabilities.py and `str.format` of the endpoints.
use Prim.Native.Char.{code}
use ops_incident_collector.Prelude.{
  String, Bool, true, false, Option, none, some, [], ◌∷◌, Dict, get, ◌==◌, ◌<>◌, Result, ok, raise,
  key_error,
}
use ops_incident_collector.Adapters.Http.{CoreCapabilities}

-- The defaults of `EndpointMap`.
abbrev pub endpoint_map : Dict String
endpoint_map =
    ("health", "/health")
    ∷ ("capabilities", "/v1/capabilities")
    ∷ ("register_collector", "/v1/projects/{project_id}/collectors/register")
    ∷ ("register_source", "/v1/projects/{project_id}/sources")
    ∷ ("batch_upload", "/v1/sources/{source_id}/documents/batch")
    ∷ ("create_sync", "/v1/sources/{source_id}/syncs/start")
    ∷ ("update_sync", "/v1/sources/{source_id}/syncs/{sync_id}/finish")
    ∷ ("fallback_ingest", "/v1/projects/{project_id}/ingest/documents")
    ∷ ("search", "/v1/search")
    ∷ ("investigate", "/v1/investigate")
    ∷ ("runs", "/v1/runs")
    ∷ ("run_status", "/v1/runs/{run_id}")
    ∷ ("run_events", "/v1/runs/{run_id}/events")
    ∷ []

abbrev or_default : String → Option String → String
or_default d none = d
or_default d (some s) = s

abbrev first : Option String → Option String → String
first (some s) d = s
first none d = or_default "" d

-- `resolve_endpoint`; its names are fields of `EndpointMap`.
unfoldable pub resolve_endpoint : Option CoreCapabilities → String → String
unfolding get
resolve_endpoint none name = or_default "" (get name endpoint_map)
resolve_endpoint (some c) name = first (get name c.endpoints) (get name endpoint_map)

-- `supports_feature`
unfoldable pub supports_feature : Option CoreCapabilities → String → Bool
unfolding get
supports_feature none feature = false
supports_feature (some c) feature = elim (get feature c.features) [ none ↦ false | some b ↦ b ]

abbrev joined : String → Option String → Option String
joined s none = none
joined s (some t) = some (s <> t)

abbrev filled : Option String → Option String → Option String
filled none rest = none
filled (some s) rest = joined s rest

-- `template.format(**values)` for templates with plain `{name}` placeholders; the second argument is
-- the name that is being read. A name with no value has no result.
unfoldable pub format_from : Dict String → Option String → String → Option String
unfolding get
format_from values none String.[] = some ""
format_from values none (String.◌∷◌ c s) = elim (code c == b'{') [
  | true ↦ format_from values (some "") s
  | false ↦ joined (String.◌∷◌ c "") (format_from values none s)
]
format_from values (some name) String.[] = none
format_from values (some name) (String.◌∷◌ c s) = elim (code c == b'}') [
  | true ↦ filled (get name values) (format_from values none s)
  | false ↦ format_from values (some (name <> String.◌∷◌ c "")) s
]

abbrev pub or_key_error : Option String → Result String
or_key_error none = raise (key_error "placeholder")
or_key_error (some s) = ok s

unfoldable pub format : Dict String → String → Option String
unfolding format_from
format values template = format_from values none template
