-- ===== src/Processors/Redactor.antt =====
-- processors/secret_redactor.py and security/redaction_patterns.py
pub mod Reference
use ops_incident_collector.Prelude.{
  ℕ, String, Bool, true, false, List, [], ◌∷◌, ◌++◌, ◌+◌, ltb, ◌==◌, map, if◌then◌else◌,
}
use ops_incident_collector.Core.Models.{RedactionSummary}
use ops_incident_collector.Processors.Regex.{Regex, Engine}

abbrev pub redaction_token : String
redaction_token = "[REDACTED_SECRET]"

abbrev regex : String → String → Regex
regex flags source = record { source = source; flags = flags }

abbrev pub redaction_patterns : List (String × Regex)
redaction_patterns =
    ("bearer_token", regex "" "Bearer\\s+[A-Za-z0-9\\-_\\.=]+")
    ∷ ("jwt", regex "" "\\beyJ[A-Za-z0-9_-]{8,}\\.[A-Za-z0-9._-]+\\.[A-Za-z0-9._-]+\\b")
    ∷ ("aws_access_key", regex "" "\\bAKIA[0-9A-Z]{16}\\b")
    ∷ ("github_token", regex "" "\\bgh[pousr]_[A-Za-z0-9]{20,}\\b")
    ∷ ("openai_key", regex "" "\\bsk-[A-Za-z0-9]{10,}\\b")
    ∷ ("generic_api_key", regex "" "(?i)(api[_-]?key)\\s*[:=]\\s*['\"]?[^\\s'\",]+")
    ∷ ("generic_secret", regex "" "(?i)(secret)\\s*[:=]\\s*['\"]?[^\\s'\",]+")
    ∷ ("password", regex "" "(?i)(password)\\s*[:=]\\s*['\"]?[^\\s'\",]+")
    ∷ ("database_url", regex "IGNORECASE" "\\b[a-z]+:\\/\\/[^:\\s\\/]+:[^@\\s\\/]+@[^ \\n]+")
    ∷ (
      "private_key_block",
      regex "DOTALL" "-----BEGIN [A-Z ]*PRIVATE KEY-----.*?-----END [A-Z ]*PRIVATE KEY-----",
    )
    ∷ []

-- The three variables of the loop.
pub record Redaction : Type 0 where
  pub redacted_text : String
  pub redacted_count : ℕ
  pub matched_names : List String

module _ (engine : Engine) where
  unfoldable pub redact_one : String × Regex → Redaction → Redaction
  redact_one (name, pattern) s =
      if engine.count pattern s.redacted_text == 0
      then s
      else (let (text, count) = engine.subn pattern redaction_token s.redacted_text in
          record {
            redacted_text = text;
            redacted_count = s.redacted_count + count;
            matched_names = s.matched_names ++ name ∷ [];
          })

  unfoldable pub redact_all : List (String × Regex) → Redaction → Redaction
  unfolding redact_one
  redact_all [] s = s
  redact_all (p ∷ ps) s = redact_all ps (redact_one p s)

  abbrev summary_of : Redaction → String × RedactionSummary
  summary_of s = (
    s.redacted_text,
    record {
      enabled = true;
      redacted_count = s.redacted_count;
      patterns_matched = s.matched_names;
      had_possible_secret = ltb 0 s.redacted_count;
    },
  )

  unfoldable pub redact_text : String → Bool → String × RedactionSummary
  unfolding redact_all
  redact_text text false = (
    text,
    record {
      enabled = false;
      redacted_count = 0;
      patterns_matched = [];
      had_possible_secret = false;
    },
  )
  redact_text text true = summary_of (
      redact_all redaction_patterns
        (record { redacted_text = text; redacted_count = 0; matched_names = [] }))
