-- ===== src/Processors/Redactor/Reference.antt =====
-- `redact_text` against its plain description: each pattern in turn is replaced everywhere.
use ops_incident_collector.Prelude.{
  ℕ, String, true, List, [], ◌∷◌, ◌++◌, ◌+◌, ◌≡◌, refl, ltb, non_empty, arith, ap, ◌∙◌,
}
use ops_incident_collector.Processors.Regex.{Regex, Engine, Replaces}
use ops_incident_collector.Processors.Redactor.{
  redaction_token, redaction_patterns, Redaction, redact_one, redact_all, redact_text,
}

non_empty-append : (xs : List String) (x : String) → non_empty (xs ++ x ∷ []) ≡ true
non_empty-append [] x = refl
non_empty-append (y ∷ xs) x = refl

module _ (engine : Engine) (laws : Replaces engine) where
  -- `re.sub` of every pattern, in order, with the number of all replacements.
  abbrev pub replace_all : List (String × Regex) → String × ℕ → String × ℕ
  replace_all [] s = s
  replace_all ((name, pattern) ∷ ps) (text, n) = replace_all ps (
    (engine.subn pattern redaction_token text).0,
    n + (engine.subn pattern redaction_token text).1,
  )

  redact_one_text :
      (p : String × Regex) (s : Redaction)
      → (redact_one engine p s).redacted_text ≡ (engine.subn p.1 redaction_token s.redacted_text).0
  unfolding redact_one
  redact_one_text (name, pattern) s =
      ground (arith, laws.untouched pattern redaction_token s.redacted_text)

  redact_one_count :
      (p : String × Regex) (s : Redaction)
      → (redact_one engine p s).redacted_count
        ≡ s.redacted_count + (engine.subn p.1 redaction_token s.redacted_text).1
  unfolding redact_one
  redact_one_count (name, pattern) s =
      ground (arith, laws.counted pattern redaction_token s.redacted_text)

  redact_all-replace_all :
      (ps : List (String × Regex)) (s : Redaction)
      → ((redact_all engine ps s).redacted_text
          ≡ (replace_all ps (s.redacted_text, s.redacted_count)).0)
        × ((redact_all engine ps s).redacted_count
            ≡ (replace_all ps (s.redacted_text, s.redacted_count)).1)
  unfolding redact_all
  redact_all-replace_all [] s = (refl, refl)
  redact_all-replace_all ((name, pattern) ∷ ps) s =
      let p : String × Regex = (name, pattern) in
      let next = redact_one engine p s in
      let same : ◌≡◌ {A = String × ℕ} (next.redacted_text, next.redacted_count)
          (
            (engine.subn pattern redaction_token s.redacted_text).0,
            s.redacted_count + (engine.subn pattern redaction_token s.redacted_text).1,
          ) =
        λ i. (redact_one_text p s i, redact_one_count p s i) in
      let (a, b) = redact_all-replace_all ps next in
      (a ∙ ap (λ q. (replace_all ps q).0) same, b ∙ ap (λ q. (replace_all ps q).1) same)

  -- A name is noted exactly if something was counted.
  abbrev Noted : Redaction → Type 0
  Noted s = (ltb 0 s.redacted_count) ≡ non_empty s.matched_names

  redact_one-Noted : (p : String × Regex) (s : Redaction) → Noted s → Noted (redact_one engine p s)
  unfolding redact_one
  redact_one-Noted (name, pattern) s h = ground (
    arith,
    laws.counted pattern redaction_token s.redacted_text,
    non_empty-append s.matched_names name,
  )

  redact_all-Noted :
      (ps : List (String × Regex)) (s : Redaction) → Noted s → Noted (redact_all engine ps s)
  unfolding redact_all
  redact_all-Noted [] s h = h
  redact_all-Noted (p ∷ ps) s h =
      redact_all-Noted ps (redact_one engine p s) (redact_one-Noted p s h)

  -- With redaction on, the text is the text in which every pattern was replaced in turn, the count is
  -- that of all replacements, and a secret is reported exactly if some pattern is named as matched.
  pub redact_text-replace_all :
      (text : String)
      → ((redact_text engine text true).0 ≡ (replace_all redaction_patterns (text, 0)).0)
        × ((redact_text engine text true).1.redacted_count
            ≡ (replace_all redaction_patterns (text, 0)).1)
        × ((redact_text engine text true).1.had_possible_secret
            ≡ non_empty (redact_text engine text true).1.patterns_matched)
  unfolding redact_text
  redact_text-replace_all text =
      let start : Redaction = record {
        redacted_text = text;
        redacted_count = 0;
        matched_names = [];
      } in
      let (a, b) = redact_all-replace_all redaction_patterns start in
      (a, b, redact_all-Noted redaction_patterns start refl)
