-- ===== src/Config/Loader.antt =====
-- config/loader.py: the settings that are read, with the overrides of the environment and the merge of
-- the default denials. The YAML parser and pydantic are the record `Models`.
pub mod Loading
pub mod Merging
use ops_incident_collector.Prelude.{
  String, Bool, ◌&&◌, Option, none, some, List, [], ◌∷◌, ◌++◌, truthy?, one_of, non_empty, Result,
  ok, raise, if◌then◌else◌,
}
use ops_incident_collector.Config.Settings.{
  AppSettings, SourceConfig, Environment, default_deny_patterns,
}

-- What is called of yaml, pydantic and the file system: `read` is the data of a file, with an empty
-- document for a false one, and `dump` the data that `model_dump` gives, with other sources.
pub record Models : Type 1 where
  pub Data : Type 0
  pub exists : String → Bool
  pub read : String → Result Data
  pub validate : Data → Result AppSettings
  pub dump : AppSettings → List SourceConfig → Data
  pub defaults : AppSettings

-- `dict.fromkeys`, as the list of its keys.
unfoldable pub insert_key : String → List String → List String
insert_key key keys = if one_of keys key then keys else keys ++ key ∷ []

unfoldable pub from_keys : List String → List String → List String
unfolding insert_key
from_keys [] keys = keys
from_keys (name ∷ names) keys = from_keys names (insert_key name keys)

-- `_merge_default_denies`
unfoldable pub merge_default_denies : AppSettings → AppSettings
unfolding from_keys
merge_default_denies settings = record settings {
  security = record settings.security {
    deny_patterns = from_keys (settings.security.deny_patterns ++ default_deny_patterns) [];
  };
}

-- `or` of two texts that may be absent.
abbrev pub either : Option String → Option String → Option String
either a b = if truthy? a then a else b

abbrev pub override : Option String → String → String
override value old = if truthy? value then elim value [ none ↦ old | some v ↦ v ] else old

abbrev pub override? : Option String → Option String → Option String
override? value old = if truthy? value then value else old

-- `_apply_env_overrides`
unfoldable pub apply_env_overrides : Environment → AppSettings → AppSettings
apply_env_overrides getenv settings = record settings {
  api = record settings.api {
    base_url = override? (getenv "INCIDENTOPS_API_URL") settings.api.base_url;
  };
  project_id =
      override? (either (getenv "INCIDENTOPS_PROJECT_ID") (getenv "PROJECT_ID"))
        settings.project_id;
  sqlite_path = override (getenv "INCIDENTOPS_EDGE_STATE") settings.sqlite_path;
  daemon = record settings.daemon {
    source_name =
        override? (either (getenv "INCIDENTOPS_SOURCE_NAME") (getenv "SOURCE_NAME"))
          settings.daemon.source_name;
    source_type =
        override (either (getenv "INCIDENTOPS_SOURCE_TYPE") (getenv "SOURCE_TYPE"))
          settings.daemon.source_type;
  };
  collector = record settings.collector {
    environment =
        override
          (either (getenv "INCIDENTOPS_COLLECTOR_ENVIRONMENT") (getenv "COLLECTOR_ENVIRONMENT"))
          settings.collector.environment;
  };
}

abbrev pub default_sources : List SourceConfig
default_sources =
    record { name = "default"; kind = "filesystem"; path = "."; include = []; exclude = [] } ∷ []

module _ (models : Models) (getenv : Environment) where
  unfoldable pub adjust : AppSettings → AppSettings
  unfolding apply_env_overrides merge_default_denies
  adjust settings = merge_default_denies (apply_env_overrides getenv settings)

  abbrev pub map_adjust : Result AppSettings → Result AppSettings
  map_adjust (raise e) = raise e
  map_adjust (ok settings) = ok (adjust settings)

  abbrev pub with_sources : AppSettings → Result AppSettings
  with_sources settings =
      if non_empty settings.sources
      then ok settings
      else map_adjust (models.validate (models.dump settings default_sources))

  abbrev pub loaded : Result AppSettings → Result AppSettings
  loaded (raise e) = raise e
  loaded (ok settings) = with_sources (adjust settings)

  abbrev pub validated : Result models.Data → Result AppSettings
  validated (raise e) = raise e
  validated (ok fields) = models.validate fields

  unfoldable pub load_settings : String → Result AppSettings
  unfolding adjust
  load_settings path = loaded (validated (models.read path))

  unfoldable pub find_config_path : Option String
  find_config_path = first (either (getenv "INCIDENTOPS_EDGE_CONFIG") (getenv "COLLECTOR_CONFIG"))
    where
      local : Option String
      local = if models.exists "collector.yaml" then some "collector.yaml" else none

      first : Option String → Option String
      first none = local
      first (some path) = if truthy? (some path) && models.exists path then some path else local

  abbrev pub optional : Option String → Result AppSettings
  optional none = ok (adjust models.defaults)
  optional (some path) =
      if models.exists path then load_settings path else ok (adjust models.defaults)

  unfoldable pub load_settings_optional : Option String → Result AppSettings
  unfolding load_settings find_config_path adjust
  load_settings_optional none = optional find_config_path
  load_settings_optional (some path) = optional (some path)
