-- ===== src/Receivers/Filesystem.antt =====
-- receivers/filesystem.py. The tree of files is an argument: what `sorted(root.rglob("*"))` lists,
-- with each entry's `stat`, and the contents of the files.
use Prim.Native.Char.{code}
use ops_incident_collector.Prelude.{
  ℕ, String, Bool, true, false, not, ◌&&◌, ◌||◌, Option, none, some, List, [], ◌∷◌, ◌-◌, length,
  any, ltb, ◌==◌, ◌===◌, ◌<>◌, starts_with, ends_with, strip, path_parts, path_match, non_empty,
  lower, Result, if◌then◌else◌, ◌≡◌, refl,
}
use ops_incident_collector.Core.Models.{SourceItem}
use ops_incident_collector.Processors.Classifier.{path_name}

-- A path below the root, with its path relative to the root.
pub record Entry : Type 0 where
  pub path : String
  pub relative_path : String
  pub is_file : Bool
  pub st_size : ℕ
  pub st_mtime : ℕ

pub record Files : Type 0 where
  -- `sorted(root.resolve().rglob("*"))`
  pub sorted_rglob : String → List Entry
  pub read_bytes : String → Result (List ℕ)
  -- `read_text(encoding="utf-8", errors="ignore")`
  pub read_text : String → Result String
  -- `sha256_file`
  pub sha256 : String → Result String

-- The text without the slashes in front of it.
unfoldable lstrip_slash : String → String
lstrip_slash String.[] = ""
lstrip_slash (String.◌∷◌ c s) =
    let rest = lstrip_slash s in if code c == b'/' then rest else String.◌∷◌ c s

unfoldable rstrip_slash : String → String
rstrip_slash String.[] = ""
rstrip_slash (String.◌∷◌ c s) =
    let rest = rstrip_slash s in if (code c == b'/') && (rest === "") then "" else String.◌∷◌ c rest

-- `s.strip("/")`
unfoldable pub strip_slash : String → String
unfolding lstrip_slash rstrip_slash
strip_slash s = rstrip_slash (lstrip_slash s)

-- `s[:-3]` of a text that ends with `/**`.
unfoldable pub drop_stars : String → String
drop_stars String.[] = ""
drop_stars (String.◌∷◌ c s) =
    let rest = drop_stars s in if String.◌∷◌ c s === "/**" then "" else String.◌∷◌ c rest

-- The tests of one round of the loop of `_matches_any`, on the cleaned pattern.
unfoldable pub matches_pattern : (normalized cleaned : String) → Bool
unfolding ends_with starts_with drop_stars path_match
matches_pattern normalized cleaned =
    (ends_with cleaned "/**"
      && ((normalized === drop_stars cleaned)
          || starts_with normalized (drop_stars cleaned <> "/")))
    || (ends_with cleaned "/" && starts_with normalized cleaned)
    || ((normalized === cleaned) || starts_with normalized (cleaned <> "/"))
    || path_match normalized cleaned

unfoldable pub matches_any : String → List String → Bool
unfolding strip strip_slash matches_pattern
matches_any path patterns =
    any
      (λ pattern.
        not (strip pattern === "")
        && matches_pattern (strip_slash path) (strip_slash (strip pattern)))
      patterns

-- From the last dot on.
unfoldable from_last_dot : String → Option String
from_last_dot String.[] = none
from_last_dot (String.◌∷◌ c s) = elim (from_last_dot s) [
  | some t ↦ some t
  | none ↦ if code c == b'.' then some (String.◌∷◌ c s) else none
]

-- `Path.suffix` of the last component of a path.
unfoldable pub suffix : String → String
unfolding from_last_dot path_name
suffix path = elim (from_last_dot (path_name path)) [
  | none ↦ ""
  | some t ↦ if (t === path_name path) || (t === ".") then "" else t
]

unfoldable pub item_of : Entry → SourceItem
unfolding suffix lower
item_of e = record {
  path = e.path;
  relative_path = e.relative_path;
  size_bytes = e.st_size;
  modified_at = some e.st_mtime;
  extension = lower (suffix e.path);
  detected_type = none;
}

-- The four guards of the loop.
unfoldable pub is_discovered : (max_depth : ℕ) → (include exclude : List String) → Entry → Bool
unfolding path_parts matches_any
is_discovered max_depth include exclude e =
    e.is_file
    && not (ltb max_depth (length (path_parts e.relative_path) - 1))
    && not (non_empty include && not (matches_any e.relative_path include))
    && not (non_empty exclude && matches_any e.relative_path exclude)

unfoldable pub discover :
    (max_depth : ℕ) → (include exclude : List String) → List Entry → List SourceItem
unfolding is_discovered item_of
discover max_depth include exclude [] = []
discover max_depth include exclude (e ∷ es) =
    let rest = discover max_depth include exclude es in
    if is_discovered max_depth include exclude e then item_of e ∷ rest else rest

unfoldable pub discover_files :
    Files → (root : String) → (max_depth : ℕ) → (include exclude : List String) → List SourceItem
unfolding discover
discover_files files root max_depth include exclude =
    discover max_depth include exclude (files.sorted_rglob root)

matches_any_runs :
    (matches_any "logs/a/b.log" ("logs/**" ∷ []) ≡ true)
    × (matches_any "src/a.py" ("docs" ∷ " " ∷ "*.py" ∷ []) ≡ true)
    × (matches_any "src/a.py" ("sr" ∷ []) ≡ false)
unfolding matches_any
matches_any_runs = (refl, refl, refl)

suffix_runs : (suffix "a/b.tar.gz" ≡ ".gz") × (suffix ".env" ≡ "") × (suffix "a.b/c" ≡ "")
unfolding suffix
suffix_runs = (refl, refl, refl)
