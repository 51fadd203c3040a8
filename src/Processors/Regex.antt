-- ===== src/Processors/Regex.antt =====
-- The module `re` as its callers use it: an expression and its flags are texts. The engine is a
-- parameter of what uses it.
use ops_incident_collector.Prelude.{ℕ, String, Bool, Option, ◌≡◌}

pub record Regex : Type 0 where
  pub source : String
  pub flags : String

pub record Engine : Type 0 where
  -- The number of the matches of `findall`.
  pub count : Regex → String → ℕ
  -- `subn`: the new text and the number of replacements.
  pub subn : Regex → (replacement text : String) → String × ℕ
  pub search : Regex → String → Bool
  -- A group of the first match of `search`, and of `match`.
  pub search_group : Regex → ℕ → String → Option String
  pub match_group : Regex → ℕ → String → Option String

-- `subn` replaces what `findall` finds, and leaves a text in which there is nothing to find.
pub record Replaces (engine : Engine) : Type 0 where
  pub counted :
      (r : Regex) (replacement text : String)
      → (engine.subn r replacement text).1 ≡ engine.count r text
  pub untouched :
      (r : Regex) (replacement text : String)
      → engine.count r text ≡ 0
      → (engine.subn r replacement text).0 ≡ text
