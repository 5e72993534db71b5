-- ===== src/Tests/Ats.antt =====
-- A resume is scored in hundredths.
use auto_jobs_apply.Prelude.{
  ℕ, ◌+◌, ◌*◌, ◌/◌, ◌≤◌, min, String, true, false, ◌≡◌, refl, Option, none, some, [], ◌∷◌, ltb,
  contains, if◌then◌else◌, arith, str_eq,
}
use auto_jobs_apply.Ats.{Floats, TextTools}
use auto_jobs_apply.Ats.Matching.{has_skill, normalize_skill, variation_index}
use auto_jobs_apply.Ats.Scoring.{
  Weights, CandidateProfile, JobMetadata, score_resume, score_education, education_rank,
  extract_education_requirement,
}
use auto_jobs_apply.Ats.Bounds.{IsUnit, score_resume-IsUnit}
use auto_jobs_apply.Ats.Optimizing.{detect_industry}

not_below_zero : (x : ℕ) → ltb x 0 ≡ false
not_below_zero x = ground arith

not_above : (a b : ℕ) → a ≤ b → ltb b a ≡ false
not_above a b h = ground (arith, h)

at_most_100 : (x : ℕ) → ltb 100 (min x 100) ≡ false
at_most_100 x = ground arith

halves :
    (x y : ℕ)
    → ltb 100 x ≡ false
    → ltb 100 y ≡ false
    → ltb 100 (50 * x / 100 + 50 * y / 100) ≡ false
halves x y h k = not_above (50 * x / 100 + 50 * y / 100) 100 (ground arith)

pub hundredths : Floats
hundredths = record {
  Number = ℕ;
  hundredths = λ n. n;
  ratio = λ a b. min (a * 100 / b) 100;
  add = λ x y. x + y;
  mul = λ x y. x * y / 100;
  lt = ltb;
  round_4 = λ x. x;
  literal_order = not_above;
  ratio_not_negative = λ a b. not_below_zero (min (a * 100 / b) 100);
  ratio_at_most_one = λ a b h. at_most_100 (a * 100 / b);
  add_not_negative = λ x y h k. not_below_zero (x + y);
  halves_at_most_one = halves;
  mul_not_negative = λ x y h k. not_below_zero (x * y / 100);
  round_keeps_floor = λ x h. h;
  round_keeps_ceiling = λ x h. h;
}

abbrev bachelor_pattern : String → Option String
bachelor_pattern text = if contains text "ba" then some "ba" else none

abbrev pub tools : TextTools
tools = record {
  lower = λ text. text;
  strip = λ text. text;
  keep_skill_characters = λ text. text;
  is_fuzzy_match = str_eq;
  is_similar = str_eq;
  word_present = λ term text. contains text term;
  education_patterns = bachelor_pattern ∷ [];
}

aliases_match : has_skill tools ("k8s" ∷ "python" ∷ []) "kubernetes" ≡ true
unfolding has_skill normalize_skill variation_index
aliases_match = refl

-- "database" reads as a requirement of rank 0, which no education at all meets.
database_needs_no_education :
    (F : Floats) → (score_education F tools [] "database" "").0 ≡ F.hundredths 100
unfolding score_education education_rank extract_education_requirement
database_needs_no_education F = refl

abbrev profile : CandidateProfile
profile = record { skills = "python" ∷ "k8s" ∷ []; education = [] }

abbrev wanted : JobMetadata
wanted = record {
  required_skills = "python" ∷ "rust" ∷ [];
  preferred_skills = "kubernetes" ∷ [];
  education_requirement = "";
}

pub weights : Weights hundredths
unfolding hundredths
weights = record { skills = 40; experience = 30; education = 20; keywords = 10 }

number : ℕ → hundredths.Number
number n = hundredths.hundredths n

number-IsUnit : IsUnit hundredths (number 50)
unfolding number hundredths
number-IsUnit = (refl, refl)

score_resume-IsUnit_example :
    let details =
      score_resume hundredths tools weights (number 50) (number 50) "a database" profile wanted in
    IsUnit hundredths details.overall_score
    × IsUnit hundredths details.skill_score
    × IsUnit hundredths details.experience_score
    × IsUnit hundredths details.education_score
    × IsUnit hundredths details.keyword_score
score_resume-IsUnit_example =
    score_resume-IsUnit hundredths tools weights (number 50) (number 50) "a database" profile wanted
      number-IsUnit number-IsUnit

abbrev posting : String
posting = "docker and kubernetes on aws"

devops_found : detect_industry (λ s. s) posting ≡ "devops"
unfolding detect_industry
devops_found = refl
