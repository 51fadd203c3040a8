-- ===== src/Processors/Hints/Ranges.antt =====
-- The lines that the hints of processors/hints.py name.
use ops_incident_collector.Prelude.{
  ℕ, String, Option, none, some, List, [], ◌∷◌, ◌+◌, ◌≤◌, ◌≡◌, All,
}
use ops_incident_collector.Processors.Hints.{Definition, Hint}

-- Both records name the lines from `start` to `end`, which are lines of a text of `count` lines.
abbrev pub InRange : ℕ → Hint → Type 0
InRange count (c, k) =
    (start : ℕ) × (stop : ℕ) × (c.start_line ≡ some start)
    × (c.end_line ≡ some stop)
    × (k.start_line ≡ some start)
    × (k.end_line ≡ some stop)
    × (1 ≤ start)
    × (start ≤ stop)
    × (stop ≤ count)

abbrev pub IsDefinedIn : ℕ → Definition → Type 0
IsDefinedIn count d = (1 ≤ d.lineno) × (d.lineno ≤ d.end_lineno) × (d.end_lineno ≤ count)

abbrev pub found_definitions : Option (List Definition) → List Definition
found_definitions none = []
found_definitions (some ds) = ds

-- The hints of a text of `count` lines, as a rule for `search`.
record AllInRange (count : ℕ) (hints : List Hint) : Type 0 where
  pub at : All (InRange count) hints

-- Numbers that rise, from `low` to at most `count`.
Rises : ℕ → ℕ → List (ℕ × String) → Type 0
Rises low count [] = Unit
Rises low count ((i, s) ∷ found) = (low ≤ i) × (i ≤ count) × Rises (i + 1) count found
