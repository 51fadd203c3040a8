-- ===== src/Core/Analysis/Seeds/Cases.antt =====
-- The cases that `generate_eval_seed_cases` of core/analysis.py makes of the documents.
use ops_incident_collector.Prelude.{
  ℕ, zero, suc, String, Bool, true, false, some, List, [], ◌∷◌, ◌++◌, ◌+◌, ◌≤◌, ◌<◌, map, keep,
  length, length-append, take, Dict, get, put, get-put, All, All-append, ◌===◌, ◌≡◌, refl, sym, ap,
  ◌∙◌, arith, eq_iff, append-nil, append_assoc, if◌then◌else◌,
}
use Prim.Native.Nat.{Ordering}
use ops_incident_collector.Core.Json.{Value}
use ops_incident_collector.Core.Models.{NormalizedDocument, EvalSeedCase}
use ops_incident_collector.Core.Analysis.Seeds.{
  or_none_yet, group_by_type, insert_before, sort_texts, shown_path, add_case, with_case, new_case,
  seed_cases,
}

abbrev pub of_type : String → List NormalizedDocument → List NormalizedDocument
of_type kind documents = keep (λ d. d.content_type === kind) documents

-- The groups are the documents of each type, in their order.
group_by_type-get :
    (kind : String) (groups : Dict (List NormalizedDocument)) (ds : List NormalizedDocument)
    → or_none_yet (get kind (group_by_type groups ds))
      ≡ or_none_yet (get kind groups) ++ of_type kind ds
unfolding group_by_type
group_by_type-get kind groups [] = sym (append-nil (or_none_yet (get kind groups)))
group_by_type-get kind groups (d ∷ ds) =
    group_by_type-get kind
      (put d.content_type (or_none_yet (get d.content_type groups) ++ d ∷ []) groups) ds
    ∙ rw (get-put d.content_type kind (or_none_yet (get d.content_type groups) ++ d ∷ []) groups)
        (by (d.content_type === kind) refl)
  where
    by :
        (b : Bool)
        → (d.content_type === kind) ≡ b
        → or_none_yet (
              if b
              then some (or_none_yet (get d.content_type groups) ++ d ∷ [])
              else get kind groups)
            ++ of_type kind ds
          ≡ or_none_yet (get kind groups) ++ (if b then d ∷ of_type kind ds else of_type kind ds)
    by true e =
        append_assoc (or_none_yet (get d.content_type groups)) (d ∷ []) (of_type kind ds)
        ∙ ap (λ k. or_none_yet (get k groups) ++ d ∷ of_type kind ds)
            ((eq_iff d.content_type kind).0 e)
    by false e = refl

length-insert_before : (s : String) (ts : List String) → length (insert_before s ts) ≡ length ts + 1
unfolding insert_before
length-insert_before s [] = omega arith
length-insert_before s (t ∷ ts) = by (Prim.Native.String.compare s t) (length-insert_before s ts)
  where
    by :
        (o : Ordering)
        → length (insert_before s ts) ≡ length ts + 1
        → length
            (elim o as (λ x. List String) [ Ordering.gt ↦ t ∷ insert_before s ts | _ ↦ s ∷ t ∷ ts ])
          ≡ length (t ∷ ts) + 1
    by Ordering.gt h = omega (arith, h)
    by Ordering.lt h = omega arith
    by Ordering.eq h = omega arith

length-sort_texts : (ts : List String) → length (sort_texts ts) ≡ length ts
unfolding sort_texts
length-sort_texts [] = refl
length-sort_texts (t ∷ ts) =
    omega (arith, length-insert_before t (sort_texts ts), length-sort_texts ts)

length-take-le {ℓ} : {A : Type ℓ} (n : ℕ) (xs : List A) → length (take n xs) ≤ n
length-take-le zero xs = omega arith
length-take-le (suc n) [] = omega arith
length-take-le (suc n) (x ∷ xs) = omega (arith, length-take-le n xs)

length-map {ℓ κ} :
    {A : Type ℓ} {B : Type κ} (f : A → B) (xs : List A) → length (map f xs) ≡ length xs
length-map f [] = refl
length-map f (x ∷ xs) = omega (arith, length-map f xs)

-- A case has at most 20 terms, and names the documents of its type, of which there is one at least.
abbrev pub IsCaseOf : List NormalizedDocument → EvalSeedCase → Type 0
IsCaseOf documents c =
    (length c.expected_terms ≤ 20)
    × (0 < length c.expected_documents)
    × (length c.expected_documents ≡ length (of_type c.source_type documents))

module _ (documents : List NormalizedDocument) where
  with_case-IsCaseOf :
      (kind question : String) (terms : List String) (n : ℕ) (ds : List NormalizedDocument)
      (cases : List EvalSeedCase)
      → ds ≡ of_type kind documents
      → All (IsCaseOf documents) cases
      → All (IsCaseOf documents) (with_case (new_case kind question terms n ds) ds cases)
  with_case-IsCaseOf kind question terms n [] cases e h = h
  with_case-IsCaseOf kind question terms n (d ∷ ds) cases e h =
      All-append (IsCaseOf documents) cases _ h
        ((length-take-le 20 terms, omega (arith, sizes), sizes ∙ ap length e), tt)
    where
      sizes : length (sort_texts (map shown_path (d ∷ ds))) ≡ length (d ∷ ds)
      sizes = length-sort_texts (map shown_path (d ∷ ds)) ∙ length-map shown_path (d ∷ ds)

  length-with_case :
      (c : EvalSeedCase) (ds : List NormalizedDocument) (cases : List EvalSeedCase)
      → length (with_case c ds cases) ≤ length cases + 1
  length-with_case c [] cases = omega arith
  length-with_case c (d ∷ ds) cases = omega (arith, length-append cases (c ∷ []))

  -- A bound on the cases, as a rule.
  record AtMost (n : ℕ) (cases : List EvalSeedCase) : Type 0 where
    pub cases_of : All (IsCaseOf documents) cases
    pub size : length cases ≤ n

  add_case-AtMost :
      (kind question : String) (terms : List String) (n : ℕ) (cases : List EvalSeedCase)
      → AtMost n cases
      → AtMost (n + 1) (add_case (group_by_type [] documents) kind question terms cases)
  unfolding add_case
  add_case-AtMost kind question terms n cases h = record {
    cases_of =
        with_case-IsCaseOf kind question terms (length cases) _ cases
          (group_by_type-get kind [] documents) h.cases_of;
    size = omega (
      arith,
      length-with_case
          (new_case kind question terms (length cases)
            (or_none_yet (get kind (group_by_type [] documents))))
          (or_none_yet (get kind (group_by_type [] documents))) cases,
      h.size,
    );
  }

  -- The seed cases of any documents are at most five; each has at most 20 terms and names as many
  -- documents as there are of its type, at least one.
  pub seed_cases-IsCaseOf :
      (show : Value → String)
      → (length (seed_cases show documents) ≤ 5)
        × All (IsCaseOf documents) (seed_cases show documents)
  unfolding seed_cases
  seed_cases-IsCaseOf show = (all.size, all.cases_of)
    where
      all : AtMost 5 (seed_cases show documents)
      all = add_case-AtMost _ _ _ 4 _ (
          add_case-AtMost _ _ _ 3 _ (
            add_case-AtMost _ _ _ 2 _ (
              add_case-AtMost _ _ _ 1 _
                (add_case-AtMost _ _ _ 0 [] (record { cases_of = tt; size = omega arith })))))
