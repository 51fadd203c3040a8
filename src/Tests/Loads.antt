-- ===== src/Tests/Loads.antt =====
-- Loading a file that names a token and no source.
use ops_incident_collector.Prelude.{
  String, true, none, some, ◌≡◌, refl, ok, one_of, ◌||◌, Distinct, ◌===◌,
}
use ops_incident_collector.Config.Settings.{AppSettings, Environment, default_deny_patterns}
use ops_incident_collector.Config.Loader.{Models, load_settings, merge_default_denies}
use ops_incident_collector.Config.Loader.Loading.{redone, Keeps, load_settings-Keeps}
use ops_incident_collector.Config.Loader.Merging.{merge_default_denies_lem}
use ops_incident_collector.Tests.Fixtures.{settings}

-- The data are the settings themselves.
abbrev with_token : AppSettings
with_token = record settings { api = record settings.api { token = some "t" } }

abbrev models : Models
models = record {
  Data = AppSettings;
  exists = λ path. true;
  read = λ path. ok with_token;
  validate = λ fields. ok fields;
  dump = redone;
  defaults = settings;
}

abbrev getenv : Environment
getenv name = none

load_settings-Keeps_example :
    (s : AppSettings) × (load_settings models getenv "collector.yaml" ≡ ok s) × Keeps with_token s
load_settings-Keeps_example =
    load_settings-Keeps models getenv "collector.yaml" with_token with_token (λ u sources. refl)
      refl refl

merge_default_denies_lem_example :
    ((p : String)
      → one_of (merge_default_denies with_token).security.deny_patterns p
        ≡ one_of with_token.security.deny_patterns p || one_of default_deny_patterns p)
    × Distinct (λ a b. a === b) (merge_default_denies with_token).security.deny_patterns
merge_default_denies_lem_example = merge_default_denies_lem with_token
