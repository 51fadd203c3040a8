-- ===== src/Processors/PathPolicy.antt =====
-- processors/path_policy.py, for patterns that are relative, as those of the settings are.
pub mod Denials
use ops_incident_collector.Prelude.{
  String, Bool, true, false, ◌||◌, List, [], ◌∷◌, any, one_of, path_match, ◌===◌, ◌<>◌, Result, ok,
  raise, permission_error, if◌then◌else◌,
}

unfoldable pub is_denied_path : String → List String → Bool
unfolding path_match
is_denied_path relative_path deny_patterns =
    any (λ pattern. path_match relative_path pattern) deny_patterns

-- The file system: `Path(p).expanduser().resolve()` and the parents of a resolved path.
pub record Paths : Type 0 where
  pub resolve : String → String
  pub parents : String → List String

module _ (paths : Paths) where
  unfoldable pub is_allowed_path : String → List String → Bool
  is_allowed_path path [] = false
  is_allowed_path path (allowed ∷ rest) =
      let resolved = paths.resolve path in
      let allowed_path = paths.resolve allowed in
      ((resolved === allowed_path) || one_of (paths.parents resolved) allowed_path)
      || is_allowed_path path rest

  unfoldable pub ensure_path_allowed : String → List String → Result (Unit {0})
  unfolding is_allowed_path
  ensure_path_allowed path allow_paths =
      if is_allowed_path path allow_paths
      then ok tt
      else raise (permission_error ("path is not allowlisted: " <> path))
