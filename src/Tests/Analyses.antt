-- ===== src/Tests/Analyses.antt =====
-- Reports, seed cases and hints of small data.
use ops_incident_collector.Prelude.{
  true, some, [], ◌∷◌, ◌===◌, ◌≡◌, ◌||◌, ◌+◌, ◌≤◌, one_of, length, non_empty, All,
}
use ops_incident_collector.Core.Models.{SourceInspection}
use ops_incident_collector.Core.Inspection.{new_inspection}
use ops_incident_collector.Core.Analysis.{readiness_of, coverage_of}
use ops_incident_collector.Core.Analysis.Scores.{readiness_of-coverage_of}
use ops_incident_collector.Core.Analysis.Seeds.{seed_cases}
use ops_incident_collector.Core.Analysis.Seeds.Cases.{IsCaseOf, seed_cases-IsCaseOf}
use ops_incident_collector.Processors.Hints.{Parser}
use ops_incident_collector.Tests.Fixtures.{document}

-- A tree with logs and code.
abbrev inspection : SourceInspection
inspection = record (new_inspection "/data") {
  total_files = 2;
  supported_files = 2;
  likely_source_types = ("code", 1) ∷ ("logs", 1) ∷ [];
  warnings = "one warning" ∷ [];
}

readiness_of-coverage_of_example :
    let r = readiness_of (coverage_of inspection) (document "app.log" ∷ []) in
    (r.score ≤ 100)
    × (r.ready_for_investigation ≡ one_of ("strong" ∷ "usable" ∷ []) r.grade)
    × (((r.grade === "strong") || non_empty r.recommended_next_sources) ≡ true)
    × (length r.weaknesses ≡ 1 + length r.recommended_next_sources)
readiness_of-coverage_of_example = readiness_of-coverage_of inspection (document "app.log" ∷ [])

seed_cases-IsCaseOf_example :
    (length (seed_cases (λ v. "") (document "a.log" ∷ document "b.log" ∷ [])) ≤ 5)
    × All
        (IsCaseOf (document "a.log" ∷ document "b.log" ∷ []))
        (seed_cases (λ v. "") (document "a.log" ∷ document "b.log" ∷ []))
seed_cases-IsCaseOf_example =
    seed_cases-IsCaseOf (document "a.log" ∷ document "b.log" ∷ []) (λ v. "")

-- A parser that finds one function, on the first line.
abbrev parser : Parser
parser content = some (record { name = "f"; is_class = true; lineno = 1; end_lineno = 1 } ∷ [])
