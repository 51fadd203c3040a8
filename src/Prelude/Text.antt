-- ===== src/Prelude/Text.antt =====
-- The operations of `str` and of `pathlib.PurePosixPath` that the collector uses. Case is folded
-- on ASCII letters only.
use Prim.Native.Nat.{ℕ, zero, suc, ◌-◌, ◌+◌, ◌/◌, ◌%◌}
use Prim.Native.Char.{Char, code}
use Prim.Native.String.{◌++◌ as str_append}
use Prim.Native.String.{String, char_at, slice}
use mathlib.Core.Path.{◌≡◌, refl}
use mathlib.Core.Bool.{Bool, true, false, not, ◌&&◌, ◌||◌}
use mathlib.Core.Option.{Option, none, some}
use mathlib.Core.List.{List, [], ◌∷◌, reverse}
use text.Mathlib.Text.{◌==◌ as string_eq}
use ops_incident_collector.Prelude.Tests.{leb, ◌==◌, if◌then◌else◌}
use ops_incident_collector.Prelude.Lists.{any}

-- `s == t` on texts.
infix 50 ◌===◌
abbrev pub ◌===◌ : String → String → Bool
s === t = string_eq s t

-- The truth value of a text.
abbrev pub truthy : String → Bool
truthy s = not (s === "")

-- The truth value of a text that may be `None`.
abbrev pub truthy? : Option String → Bool
truthy? none = false
truthy? (some s) = truthy s

infixl 65 ◌<>◌
abbrev pub ◌<>◌ : String → String → String
s <> t = str_append s t

-- `s in names`
abbrev pub one_of : List String → String → Bool
one_of names s = any (λ n. n === s) names

abbrev lower_char : Char → Char
lower_char c =
    if leb b'A' (code c) && leb (code c) b'Z'
    then char_at "abcdefghijklmnopqrstuvwxyz" (code c - b'A')
    else c

-- `s.lower()`
unfoldable pub lower : String → String
lower String.[] = ""
lower (String.◌∷◌ c s) = String.◌∷◌ (lower_char c) (lower s)

-- `str(n)`, with one round for each digit and fuel for more.
unfoldable pub decimal_from : ℕ → ℕ → String
decimal_from zero n = ""
decimal_from (suc fuel) n =
    let rest = decimal_from fuel (n / 10) in
    let digit = slice "0123456789" (n % 10) (n % 10 + 1) in
    if leb 10 n then rest <> digit else digit

unfoldable pub decimal : ℕ → String
unfolding decimal_from
decimal n = decimal_from (n + 1) n

-- `s.startswith(prefix)`
unfoldable pub starts_with : String → String → Bool
starts_with s String.[] = true
starts_with String.[] (String.◌∷◌ p prefix) = false
starts_with (String.◌∷◌ c s) (String.◌∷◌ p prefix) = (code c == code p) && starts_with s prefix

-- `needle in s`
unfoldable pub contains : String → String → Bool
unfolding starts_with
contains String.[] needle = starts_with "" needle
contains (String.◌∷◌ c s) needle = starts_with (String.◌∷◌ c s) needle || contains s needle

-- `s.endswith(suffix)`
unfoldable pub ends_with : String → String → Bool
ends_with String.[] suffix = "" === suffix
ends_with (String.◌∷◌ c s) suffix = (String.◌∷◌ c s === suffix) || ends_with s suffix

abbrev is_space : Char → Bool
is_space c = (code c == 32) || (leb 9 (code c) && leb (code c) 13)

unfoldable pub lstrip : String → String
lstrip String.[] = ""
lstrip (String.◌∷◌ c s) = let rest = lstrip s in if is_space c then rest else String.◌∷◌ c s

unfoldable pub rstrip : String → String
rstrip String.[] = ""
rstrip (String.◌∷◌ c s) =
    let rest = rstrip s in if is_space c && (rest === "") then "" else String.◌∷◌ c rest

-- `s.strip()`
unfoldable pub strip : String → String
unfolding lstrip rstrip
strip s = rstrip (lstrip s)

-- The parts of a path as `s.split("/")` gives them.
unfoldable pub split_slash : String → String → List String
split_slash word String.[] = word ∷ []
split_slash word (String.◌∷◌ c s) = elim (code c == b'/') [
  | true ↦ word ∷ split_slash "" s
  | false ↦ split_slash (word <> String.◌∷◌ c "") s
]

-- `Path` drops empty components and `.`.
abbrev drop_dots : List String → List String
drop_dots [] = []
drop_dots (p ∷ ps) = if (p === "") || (p === ".") then drop_dots ps else p ∷ drop_dots ps

-- `Path(s).parts` of a relative path.
unfoldable pub path_parts : String → List String
unfolding split_slash
path_parts s = drop_dots (split_slash "" s)

-- One component against one component of a pattern, as `fnmatch` without character classes: `*`
-- stands for any characters, `?` for one.
unfoldable pub glob : String → String → Bool
glob String.[] String.[] = true
glob String.[] (String.◌∷◌ c s) = false
glob (String.◌∷◌ p ps) String.[] = elim (code p == b'*') [ true ↦ glob ps "" | false ↦ false ]
glob (String.◌∷◌ p ps) (String.◌∷◌ c s) = elim (code p == b'*') [
  | true ↦ glob ps (String.◌∷◌ c s) || glob (String.◌∷◌ p ps) s
  | false ↦ ((code p == b'?') || (code p == code c)) && glob ps s
]

-- The components of the pattern against the last components of the path.
unfoldable pub match_parts : (reversed_pattern reversed_path : List String) → Bool
unfolding glob
match_parts [] path = true
match_parts (p ∷ ps) [] = false
match_parts (p ∷ ps) (c ∷ path) = glob p c && match_parts ps path

-- `Path(path).match(pattern)` of relative paths: it is from the right, and `**` means `*`.
unfoldable pub path_match : (path pattern : String) → Bool
unfolding path_parts match_parts
path_match path pattern = match_parts (reverse (path_parts pattern)) (reverse (path_parts path))

path_match_runs :
    (path_match "src/server.key" "*.key" ≡ true) × (path_match "src/a.py" "*.key" ≡ false)
unfolding path_match
path_match_runs = (refl, refl)

decimal_runs : (decimal 0 ≡ "0") × (decimal 1203 ≡ "1203")
unfolding decimal
decimal_runs = (refl, refl)
