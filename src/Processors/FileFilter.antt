-- ===== src/Processors/FileFilter.antt =====
-- processors/file_filter.py
use ops_incident_collector.Prelude.{
  ℕ, zero, suc, String, Bool, true, false, ◌||◌, ◌&&◌, List, [], ◌∷◌, ◌*◌, any, keep, length,
  sum_of, take, ltb, leb, ◌==◌, one_of, non_empty, lower, Result, ok, raise, if◌then◌else◌, not,
}
use ops_incident_collector.Config.Settings.{default_supported_extensions}
use ops_incident_collector.Processors.Regex.{Regex, Engine}

unfoldable pub is_supported_extension : String → Bool
unfolding lower
is_supported_extension extension = one_of default_supported_extensions (lower extension)

-- A byte of `b"\t\n\r\f\b"`, or a printable one.
abbrev pub is_text_byte : ℕ → Bool
is_text_byte byte =
    any (λ b. b == byte) (9 ∷ 10 ∷ 13 ∷ 12 ∷ 8 ∷ []) || (leb 32 byte && leb byte 126)

-- The share of text bytes is below 0.8: the comparison of the quotient, multiplied out.
unfoldable pub is_binary_sample : List ℕ → Bool
is_binary_sample sample =
    if any (λ b. b == 0) sample
    then true
    else if not (non_empty sample)
    then false
    else ltb (5 * length (keep is_text_byte sample)) (4 * length sample)

-- `is_binary_file` on the bytes of the file.
unfoldable pub is_binary_file : List ℕ → Bool
unfolding is_binary_sample
is_binary_file bytes = is_binary_sample (take 1024 bytes)

-- `text[:n]`
unfoldable pub take_text : ℕ → String → String
take_text zero s = ""
take_text (suc n) String.[] = ""
take_text (suc n) (String.◌∷◌ c s) = String.◌∷◌ c (take_text n s)

abbrev count_secrets : Engine → List Regex → String → ℕ
count_secrets engine patterns text = sum_of (λ p. engine.count p text) patterns

-- The text, or the `OSError` of reading it, which counts no secret.
unfoldable pub detect_possible_secret_count : Engine → List Regex → Result String → ℕ
unfolding take_text
detect_possible_secret_count engine patterns (ok text) =
    count_secrets engine patterns (take_text 200_000 text)
detect_possible_secret_count engine patterns (raise e) = 0
