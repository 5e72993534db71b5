-- ===== src/Ats.antt =====
-- core/ats under backend/app: how a resume is scored against a job. Floating point is the record
-- `Floats`; the texts' functions that are a library's are the record `TextTools`.
pub mod Matching
pub mod Scoring
pub mod Bounds
pub mod Optimizing
use auto_jobs_apply.Prelude.{ℕ, ◌≤◌, String, Bool, true, false, ◌≡◌, Option, List, if◌then◌else◌}

-- The numbers that the scorer computes with. `ratio a b` is `a / b`; `hundredths n` is the literal
-- n / 100. The laws hold for IEEE numbers, rounding included.
pub record Floats : Type 1 where
  pub Number : Type 0
  pub hundredths : ℕ → Number
  pub ratio : ℕ → ℕ → Number
  pub add : Number → Number → Number
  pub mul : Number → Number → Number
  pub lt : Number → Number → Bool
  pub round_4 : Number → Number
  pub literal_order : (a b : ℕ) → a ≤ b → lt (hundredths b) (hundredths a) ≡ false
  pub ratio_not_negative : (a b : ℕ) → lt (ratio a b) (hundredths 0) ≡ false
  pub ratio_at_most_one : (a b : ℕ) → a ≤ b → lt (hundredths 100) (ratio a b) ≡ false
  pub add_not_negative :
      (x y : Number)
      → lt x (hundredths 0) ≡ false
      → lt y (hundredths 0) ≡ false
      → lt (add x y) (hundredths 0) ≡ false
  pub halves_at_most_one :
      (x y : Number)
      → lt (hundredths 100) x ≡ false
      → lt (hundredths 100) y ≡ false
      → lt (hundredths 100) (add (mul (hundredths 50) x) (mul (hundredths 50) y)) ≡ false
  pub mul_not_negative :
      (x y : Number)
      → lt x (hundredths 0) ≡ false
      → lt y (hundredths 0) ≡ false
      → lt (mul x y) (hundredths 0) ≡ false
  pub round_keeps_floor :
      (x : Number) → lt x (hundredths 0) ≡ false → lt (round_4 x) (hundredths 0) ≡ false
  pub round_keeps_ceiling :
      (x : Number) → lt (hundredths 100) x ≡ false → lt (hundredths 100) (round_4 x) ≡ false

-- `str.lower`, `str.strip`, the characters that `_normalize_skill` keeps, SequenceMatcher's ratio
-- against the thresholds 0.85 and 0.8, `_word_present`, a regular expression, and the matches of the patterns of an education, in their order.
pub record TextTools : Type 0 where
  pub lower : String → String
  pub strip : String → String
  pub keep_skill_characters : String → String
  pub is_fuzzy_match : String → String → Bool
  pub is_similar : String → String → Bool
  pub word_present : String → String → Bool
  pub education_patterns : List (String → Option String)
