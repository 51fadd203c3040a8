-- ===== src/Core/Analysis/Scores.antt =====
-- How the reports of core/analysis.py hang together: the score, the grade, and what is recommended.
use ops_incident_collector.Prelude.{
  and_parts, ℕ, Bool, true, false, ◌&&◌, ◌||◌, List, [], ◌∷◌, ◌+◌, ◌≤◌, min, length, length-append,
  any, non_empty, one_of, leb, ◌==◌, ◌===◌, ◌≡◌, refl, ap, ◌∙◌, arith,
}
use ops_incident_collector.Core.Models.{NormalizedDocument, SourceInspection}
use ops_incident_collector.Core.Analysis.{
  missing_warnings, missing_names, recommended, has, coverage_of, points, score_of, grade_of,
  has_hints, readiness_of,
}

-- The tests of a report, on what is there of the six kinds of sources and on the hints.
same : Bool → Bool → Bool
same true b = b
same false true = false
same false false = true

abbrev sum_points : (logs code deploys incidents runbooks api_docs hints : Bool) → ℕ
sum_points l c d n r a h =
    points l 20 + points c 20 + points d 15 + points n 15 + points r 10 + points a 5 + points h 15

tests : (logs code deploys incidents runbooks api_docs hints : Bool) → Bool
unfolding same grade_of
tests l c d n r a h =
    leb (sum_points l c d n r a h) 100
    && (same (leb 60 (min (sum_points l c d n r a h) 100))
          (one_of ("strong" ∷ "usable" ∷ []) (grade_of (min (sum_points l c d n r a h) 100)))
        && (((grade_of (min (sum_points l c d n r a h) 100) === "strong")
              || non_empty (missing_names (recommended l c d n r a)))
            && (length (missing_warnings (recommended l c d n r a))
                == length (missing_names (recommended l c d n r a)))))

both : (Bool → Bool) → Bool
both p = p true && p false

both_sound : (p : Bool → Bool) → both p ≡ true → (b : Bool) → p b ≡ true
unfolding both
both_sound p h true = (and_parts (p true) (p false) h).0
both_sound p h false = (and_parts (p true) (p false) h).1

tests_table :
    both (λ l. both (λ c. both (λ d. both (λ n. both (λ r. both (λ a. both (tests l c d n r a)))))))
    ≡ true
unfolding both tests
tests_table = refl

tests_hold : (l c d n r a h : Bool) → tests l c d n r a h ≡ true
tests_hold l c d n r a h =
    both_sound (tests l c d n r a)
      (both_sound (λ a. both (tests l c d n r a))
        (both_sound (λ r. both (λ a. both (tests l c d n r a)))
          (both_sound (λ n. both (λ r. both (λ a. both (tests l c d n r a))))
            (both_sound (λ d. both (λ n. both (λ r. both (λ a. both (tests l c d n r a)))))
              (both_sound
                (λ c. both (λ d. both (λ n. both (λ r. both (λ a. both (tests l c d n r a))))))
                (both_sound
                  (λ l.
                    both (λ c.
                      both (λ d. both (λ n. both (λ r. both (λ a. both (tests l c d n r a)))))))
                  tests_table l)
                c)
              d)
            n)
          r)
        a)
      h

same_eq : (a b : Bool) → same a b ≡ true → a ≡ b
unfolding same
same_eq true true h = refl
same_eq true false h = absurd cc
same_eq false true h = absurd cc
same_eq false false h = refl

eq_of_test : (a b : ℕ) → a == b ≡ true → a ≡ b
eq_of_test a b h = ground arith

agree :
    (l c d n r a h : Bool)
    → (leb 60 (min (sum_points l c d n r a h) 100)
        ≡ one_of ("strong" ∷ "usable" ∷ []) (grade_of (min (sum_points l c d n r a h) 100)))
      × (((grade_of (min (sum_points l c d n r a h) 100) === "strong")
            || non_empty (missing_names (recommended l c d n r a)))
          ≡ true)
      × (length (missing_warnings (recommended l c d n r a))
          ≡ length (missing_names (recommended l c d n r a)))
unfolding tests
agree l c d n r a h =
    let (bounded, rest) = and_parts _ _ (tests_hold l c d n r a h) in
    let (graded, rest') = and_parts _ _ rest in
    let (advised, counted) = and_parts _ _ rest' in
    (same_eq _ _ graded, advised, eq_of_test _ _ counted)

-- The reports on a tree agree with each other: the score is at most 1 (100 hundredths), the tree is
-- ready for an investigation exactly when its grade is "strong" or "usable", a grade that is not
-- "strong" comes with a source to add, and beyond the warnings of the inspection there is one weakness
-- for each source to add.
pub readiness_of-coverage_of :
    (i : SourceInspection) (documents : List NormalizedDocument)
    → let r = readiness_of (coverage_of i) documents in
      (r.score ≤ 100)
      × (r.ready_for_investigation ≡ one_of ("strong" ∷ "usable" ∷ []) r.grade)
      × (((r.grade === "strong") || non_empty r.recommended_next_sources) ≡ true)
      × (length r.weaknesses ≡ length i.warnings + length r.recommended_next_sources)
unfolding readiness_of coverage_of
readiness_of-coverage_of i documents =
    let (graded, advised, counted) =
      agree (has i "logs") (has i "code") (has i "deploy_history" || has i "deploy")
        (has i "incident_report" || has i "incident") (has i "runbook") (has i "api_doc")
        (any has_hints documents) in
    (
      omega arith,
      unfold score_of in graded,
      unfold score_of in advised,
      length-append i.warnings _ ∙ ap (λ k. length i.warnings + k) counted,
    )
