-- ===== src/Processors/PathPolicy/Denials.antt =====
-- What the deny patterns of processors/path_policy.py stop.
use mathlib.Core.List.{reverse}
use ops_incident_collector.Prelude.{
  ℕ, zero, suc, String, Bool, true, false, ◌&&◌, ◌||◌, List, [], ◌∷◌, ◌≤◌, ◌≡◌, refl, take, length,
  leb, path_match, path_parts, match_parts, glob, arith, ap, ap₂,
}
use ops_incident_collector.Config.Settings.{default_deny_patterns}
use ops_incident_collector.Processors.PathPolicy.{is_denied_path}

match_parts-take :
    (n : ℕ) (pattern path : List String)
    → length pattern ≤ n
    → match_parts pattern (take n path) ≡ match_parts pattern path
unfolding match_parts
match_parts-take n [] path h = refl
match_parts-take zero (p ∷ ps) path h = absurd (omega arith)
match_parts-take (suc n) (p ∷ ps) [] h = refl
match_parts-take (suc n) (p ∷ ps) (c ∷ path) h =
    ap (λ b. glob p c && b) (match_parts-take n ps path (omega arith))

abbrev is_short : String → Bool
is_short pattern = leb (length (reverse (path_parts pattern))) 2

abbrev all_short : List String → Bool
all_short [] = true
all_short (p ∷ ps) = is_short p && all_short ps

defaults_short : all_short default_deny_patterns ≡ true
unfolding path_parts
defaults_short = refl

-- The last two components of a path, the last first.
abbrev pub tail_of : String → List String
tail_of path = take 2 (reverse (path_parts path))

path_match-tail_of :
    (p q pattern : String)
    → is_short pattern ≡ true
    → tail_of p ≡ tail_of q
    → path_match p pattern ≡ path_match q pattern
unfolding path_match
path_match-tail_of p q pattern h e =
    let short : length (reverse (path_parts pattern)) ≤ 2 = ground arith in
    cc (
      match_parts-take 2 (reverse (path_parts pattern)) (reverse (path_parts p)) short,
      match_parts-take 2 (reverse (path_parts pattern)) (reverse (path_parts q)) short,
    )

denied-tail_of :
    (p q : String) (patterns : List String)
    → all_short patterns ≡ true
    → tail_of p ≡ tail_of q
    → is_denied_path p patterns ≡ is_denied_path q patterns
unfolding is_denied_path
denied-tail_of p q [] h e = refl
denied-tail_of p q (pattern ∷ rest) h e =
    ap₂ (λ a b. a || b) (path_match-tail_of p q pattern (ground arith) e)
      (denied-tail_of p q rest (ground arith) e)

-- Whether the default patterns deny a file depends on the last two components of its path alone, so
-- a pattern like `node_modules/**` does not reach below the directory's own files.
pub is_denied_path-tail_of :
    (p q : String)
    → tail_of p ≡ tail_of q
    → is_denied_path p default_deny_patterns ≡ is_denied_path q default_deny_patterns
is_denied_path-tail_of p q e = denied-tail_of p q default_deny_patterns defaults_short e

shallow : is_denied_path "node_modules/index.js" default_deny_patterns ≡ true
unfolding is_denied_path
shallow = refl

deep : is_denied_path "node_modules/left-pad/index.js" default_deny_patterns ≡ false
unfolding is_denied_path
deep = refl
