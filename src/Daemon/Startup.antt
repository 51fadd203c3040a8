-- ===== src/Daemon/Startup.antt =====
-- What `validate_startup` of daemon/service.py demands of the settings.
use ops_incident_collector.Prelude.{
  String, Bool, true, false, not, ◌&&◌, ◌||◌, List, [], ◌∷◌, ◌≡◌, refl, ap, All, Result, ok, raise,
  startup_error, if◌then◌else◌, truthy?, one_of, non_empty, ◌<>◌, ◌===◌, ℕ, permission_error,
}
use ops_incident_collector.Core.Machine.{System}
use ops_incident_collector.Core.Targets.{api_token_required_message}
use ops_incident_collector.Config.Settings.{AppSettings, SourceConfig, resolve_token}
use ops_incident_collector.Processors.PathPolicy.{ensure_path_allowed, is_allowed_path}
use ops_incident_collector.Exporters.ExportState.{describe}
use ops_incident_collector.Daemon.{validate_sources, validate_api, validate_startup}

abbrev accepted : Result (Unit {0}) → Bool
accepted (ok u) = true
accepted (raise e) = false

abbrev permitted : Bool → String → Result (Unit {0})
permitted allowed path =
    if allowed then ok tt else raise (permission_error ("path is not allowlisted: " <> path))

module _ (system : System) (exists : String → Bool) (draw : ℕ → String)
    (settings : AppSettings) where
  abbrev pub IsReadable : SourceConfig → Type 0
  IsReadable source =
      (exists source.path ≡ true)
      × (is_allowed_path system.paths (system.paths.resolve source.path)
            settings.security.allow_paths
          ≡ true)

  -- Uploading is confirmed, and the place, the project and the token are there.
  abbrev pub can_upload : Bool
  can_upload =
      (not settings.security.require_confirmation_for_upload
        || settings.daemon.allow_unattended_upload)
      && truthy? settings.api.base_url
      && truthy? settings.project_id
      && (not settings.api.auth_required || truthy? (resolve_token system.environment settings.api))

  abbrev pub IsStartable : Type 0
  IsStartable =
      (non_empty settings.sources ≡ true)
      × All IsReadable settings.sources
      × ((one_of ("jsonl" ∷ "sqlite" ∷ "console" ∷ []) settings.daemon.export_target
            || (one_of ("api" ∷ []) settings.daemon.export_target && can_upload))
          ≡ true)
      × ((not (one_of ("jsonl" ∷ "sqlite" ∷ []) settings.daemon.export_target)
            || truthy? settings.daemon.output_path)
          ≡ true)

  -- A step of `validate_sources`, with its two tests taken out.
  abbrev checked : SourceConfig → (there allowed : Bool) → Result (Unit {0}) → Result (Unit {0})
  checked source there allowed rest =
      if not there
      then raise (startup_error ("source path does not exist: " <> source.path))
      else elim (permitted allowed (system.paths.resolve source.path)) [
        | raise e ↦ raise (startup_error (describe e))
        | ok u ↦ rest
      ]

  validate_sources-All :
      (sources : List SourceConfig)
      → accepted (validate_sources system exists draw settings sources) ≡ true
      → All IsReadable sources
  unfolding validate_sources ensure_path_allowed
  validate_sources-All [] h = tt
  validate_sources-All (source ∷ sources) h =
      by (exists source.path)
        (is_allowed_path system.paths (system.paths.resolve source.path)
          settings.security.allow_paths)
        refl refl h (validate_sources-All sources)
    where
      by :
          (there allowed : Bool)
          → exists source.path ≡ there
          → is_allowed_path system.paths
              (system.paths.resolve source.path)
              settings.security.allow_paths
            ≡ allowed
          → accepted
              (checked source there allowed (validate_sources system exists draw settings sources))
            ≡ true
          → (accepted (validate_sources system exists draw settings sources) ≡ true
              → All IsReadable sources)
          → All IsReadable (source ∷ sources)
      by true true e f k rest = ((e, f), rest k)
      by true false e f k rest = absurd cc
      by false allowed e f k rest = absurd cc

  validate_api-can_upload :
      accepted (validate_api system exists draw settings) ≡ true → can_upload ≡ true
  unfolding validate_api
  validate_api-can_upload h =
      by settings.security.require_confirmation_for_upload settings.daemon.allow_unattended_upload
        (truthy? settings.api.base_url) (truthy? settings.project_id) settings.api.auth_required
        (truthy? (resolve_token system.environment settings.api)) h
    where
      by :
          (confirm unattended base_url project auth token : Bool)
          → accepted (
              if confirm && not unattended
              then raise (
                  startup_error
                    "daemon API upload requires security.require_confirmation_for_upload=false or daemon.allow_unattended_upload=true")
              else if not base_url
              then raise (startup_error "daemon API upload requires api.base_url")
              else if not project
              then raise (startup_error "daemon API upload requires project.id")
              else if auth && not token
              then raise (startup_error api_token_required_message)
              else ok tt)
            ≡ true
          → (not confirm || unattended) && base_url && project && (not auth || token) ≡ true
      by true false base_url project auth token k = absurd cc
      by true true false project auth token k = absurd cc
      by true true true false auth token k = absurd cc
      by true true true true true false k = absurd cc
      by true true true true true true k = refl
      by true true true true false token k = refl
      by false unattended false project auth token k = absurd cc
      by false unattended true false auth token k = absurd cc
      by false unattended true true true false k = absurd cc
      by false unattended true true true true k = refl
      by false unattended true true false token k = refl

  abbrev joined : Bool → Result (Unit {0}) → Result (Unit {0}) → Result (Unit {0})
  joined api v (raise e) = raise e
  joined api v (ok u) = if api then v else ok tt

  -- When the daemon accepts its settings, there is a source, every source exists and lies in an
  -- allowed path, the target is one of the four, a target that is a file has a path, and the target
  -- "api" has an address, a project, a confirmation and, where Core asks for one, a token.
  pub validate_startup-IsStartable :
      validate_startup system exists draw settings ≡ ok tt → IsStartable
  unfolding validate_startup
  validate_startup-IsStartable h =
      by (non_empty settings.sources) ("api" === settings.daemon.export_target)
        ("jsonl" === settings.daemon.export_target) ("sqlite" === settings.daemon.export_target)
        ("console" === settings.daemon.export_target) (truthy? settings.daemon.output_path)
        (validate_sources system exists draw settings settings.sources)
        (validate_api system exists draw settings) can_upload (ap accepted h)
        (validate_sources-All settings.sources) validate_api-can_upload
    where
      by :
          {P : Type 0} (some_source api jsonl sqlite console output : Bool)
          → (s v : Result (Unit {0})) (upload : Bool)
          → accepted (
              if not some_source
              then raise (startup_error "daemon requires at least one configured source")
              else if not (api || (jsonl || (sqlite || (console || false))))
              then raise (
                  startup_error
                    ("unsupported daemon export target: " <> settings.daemon.export_target))
              else if (jsonl || (sqlite || false)) && not output
              then raise (
                  startup_error (
                    "daemon export target " <> settings.daemon.export_target
                    <> " requires daemon.output_path"))
              else joined (api || false) v s)
            ≡ true
          → (accepted s ≡ true → P)
          → (accepted v ≡ true → upload ≡ true)
          → (some_source ≡ true)
            × P
            × (((jsonl || (sqlite || (console || false))) || ((api || false) && upload)) ≡ true)
            × ((not (jsonl || (sqlite || false)) || output) ≡ true)
      by false api jsonl sqlite console output s v upload k f g = absurd cc
      by true false true sqlite console false s v upload k f g = absurd cc
      by true true true sqlite console false s v upload k f g = absurd cc
      by true false true sqlite console true (raise e) v upload k f g = absurd cc
      by true false true sqlite console true (ok u) v upload k f g = (refl, f refl, refl, refl)
      by true true true sqlite console true (raise e) v upload k f g = absurd cc
      by true true true sqlite console true (ok u) v upload k f g = (refl, f refl, refl, refl)
      by true false false true console false s v upload k f g = absurd cc
      by true false false true console true (raise e) v upload k f g = absurd cc
      by true false false true console true (ok u) v upload k f g = (refl, f refl, refl, refl)
      by true true false true console false s v upload k f g = absurd cc
      by true true false true console true (raise e) v upload k f g = absurd cc
      by true true false true console true (ok u) v upload k f g = (refl, f refl, refl, refl)
      by true false false false true output (raise e) v upload k f g = absurd cc
      by true false false false true output (ok u) v upload k f g = (refl, f refl, refl, refl)
      by true true false false true output (raise e) v upload k f g = absurd cc
      by true true false false true output (ok u) v upload k f g = (refl, f refl, refl, refl)
      by true false false false false output s v upload k f g = absurd cc
      by true true false false false output (raise e) v upload k f g = absurd cc
      by true true false false false output (ok u) (raise e) upload k f g = absurd cc
      by true true false false false output (ok u) (ok w) upload k f g =
          (refl, f refl, g refl, refl)
