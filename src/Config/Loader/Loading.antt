-- ===== src/Config/Loader/Loading.antt =====
-- What `load_settings` of config/loader.py makes of the settings that a file holds.
use ops_incident_collector.Prelude.{
  String, Bool, true, false, ◌||◌, none, List, ◌≡◌, refl, ap, ◌∙◌, one_of, non_empty, ok,
  if◌then◌else◌,
}
use ops_incident_collector.Config.Settings.{
  AppSettings, SourceConfig, Environment, default_deny_patterns,
}
use ops_incident_collector.Config.Loader.{
  Models, merge_default_denies, default_sources, adjust, load_settings, loaded, apply_env_overrides,
}
use ops_incident_collector.Config.Loader.Merging.{merge_default_denies_lem}

-- The settings that `model_dump` and `model_validate` give back: the token of the API is a field that
-- `model_dump` excludes.
abbrev pub redone : AppSettings → List SourceConfig → AppSettings
redone s sources = record s { api = record s.api { token = none }; sources = sources }

-- What the settings `s` have of the settings `t` of the file.
abbrev pub Keeps : AppSettings → AppSettings → Type 0
Keeps t s =
    (non_empty s.sources ≡ true)
    × ((p : String)
        → one_of s.security.deny_patterns p
          ≡ one_of t.security.deny_patterns p || one_of default_deny_patterns p)
    × (s.api.token ≡ (if non_empty t.sources then t.api.token else none))

module _ (models : Models) (getenv : Environment) where
  adjust-denies :
      (t : AppSettings) (p : String)
      → one_of (adjust models getenv t).security.deny_patterns p
        ≡ one_of t.security.deny_patterns p || one_of default_deny_patterns p
  unfolding adjust apply_env_overrides
  adjust-denies t p = (merge_default_denies_lem (apply_env_overrides getenv t)).0 p

  adjust-sources : (t : AppSettings) → (adjust models getenv t).sources ≡ t.sources
  unfolding adjust apply_env_overrides merge_default_denies
  adjust-sources t = refl

  adjust-token : (t : AppSettings) → (adjust models getenv t).api.token ≡ t.api.token
  unfolding adjust apply_env_overrides merge_default_denies
  adjust-token t = refl

  loaded-Keeps :
      (t : AppSettings)
      → ((u : AppSettings) (sources : List SourceConfig)
          → models.validate (models.dump u sources) ≡ ok (redone u sources))
      → (s : AppSettings) × (loaded models getenv (ok t) ≡ ok s) × Keeps t s
  loaded-Keeps t revalidates = by (non_empty t.sources) refl
    where
      again : AppSettings
      again = redone (adjust models getenv t) default_sources

      absorbed : (a b : Bool) → (a || b) || b ≡ a || b
      absorbed true b = refl
      absorbed false true = refl
      absorbed false false = refl

      by :
          (b : Bool)
          → non_empty t.sources ≡ b
          → (s : AppSettings) × (loaded models getenv (ok t) ≡ ok s) × Keeps t s
      by true e = (
        adjust models getenv t,
        rw (adjust-sources t, e) refl,
        (ap non_empty (adjust-sources t) ∙ e, adjust-denies t, rw (e) (adjust-token t)),
      )
      by false e = (
        adjust models getenv again,
        rw (revalidates (adjust models getenv t) default_sources, adjust-sources t, e) refl,
        (
          ap non_empty (adjust-sources again),
          (λ p.
              rw (adjust-denies again p, adjust-denies t p)
                (absorbed (one_of t.security.deny_patterns p) (one_of default_deny_patterns p))),
          rw (e) (adjust-token again),
        ),
      )

  -- From a file whose data is settings, `load_settings` returns settings that have a source, that deny
  -- what the file denies and every default, and nothing else, and that have the token of the file when
  -- the file names a source, but no token when it names none. The condition is that `model_validate`
  -- gives back what `model_dump` gives it, which leaves out the token.
  pub load_settings-Keeps :
      (path : String) (fields : models.Data) (t : AppSettings)
      → ((u : AppSettings) (sources : List SourceConfig)
          → models.validate (models.dump u sources) ≡ ok (redone u sources))
      → models.read path ≡ ok fields
      → models.validate fields ≡ ok t
      → (s : AppSettings) × (load_settings models getenv path ≡ ok s) × Keeps t s
  unfolding load_settings
  load_settings-Keeps path fields t revalidates reads validates =
      rw (load_settings, reads, validates) (loaded-Keeps t revalidates)
