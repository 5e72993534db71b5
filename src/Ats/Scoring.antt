-- ===== src/Ats/Scoring.antt =====
-- backend/app/core/ats/scorer.py: the factors of a score and their weighted sum. The keyword and the
-- experience analyzers, which parse with spaCy, are arguments.
use auto_jobs_apply.Prelude.{
  ℕ, ◌-◌, max, String, Bool, not, Option, none, some, List, [], ◌∷◌, if◌then◌else◌, ltb, leb,
  select, length, truthy, contains,
}
use auto_jobs_apply.Ats.{Floats, TextTools}
use auto_jobs_apply.Ats.Matching.{has_skill}

pub record CandidateEducation : Type 0 where
  pub degree : String
  pub institution : String

pub record EducationMatch : Type 0 where
  pub degree : String
  pub institution : String
  pub rank : ℕ
  pub meets_requirement : Bool

abbrev pub education_levels : List (String × ℕ)
education_levels =
    ("high school", 1)
    ∷ ("associate", 2)
    ∷ ("bachelor", 3)
    ∷ ("master", 4)
    ∷ ("phd", 5)
    ∷ ("doctorate", 5)
    ∷ []

abbrev pub rank_in : String → List (String × ℕ) → ℕ
rank_in text [] = 0
rank_in text ((level, rank) ∷ levels) =
    let rest = rank_in text levels in if contains text level then rank else rest

-- `_education_rank`
unfoldable pub education_rank : TextTools → String → ℕ
education_rank t education_text = rank_in (t.lower education_text) education_levels

abbrev pub or_next : (String → String) → Option String → String → String
or_next strip none rest = rest
or_next strip (some found) rest = strip found

abbrev pub first_match : (String → String) → List (String → Option String) → String → String
first_match strip [] text = ""
first_match strip (pattern ∷ patterns) text =
    or_next strip (pattern text) (first_match strip patterns text)

-- `_extract_education_requirement`
unfoldable pub extract_education_requirement : TextTools → String → String
extract_education_requirement t job_description =
    first_match t.strip t.education_patterns (t.lower job_description)

abbrev pub education_matches : TextTools → ℕ → List CandidateEducation → List EducationMatch
education_matches t required_rank [] = []
education_matches t required_rank (edu ∷ rest) =
    let rank = education_rank t edu.degree in
    record {
      degree = edu.degree;
      institution = edu.institution;
      rank = rank;
      meets_requirement = leb required_rank rank;
    }
    ∷ education_matches t required_rank rest

abbrev pub best_rank : TextTools → List CandidateEducation → ℕ
best_rank t [] = 0
best_rank t (edu ∷ rest) = max (education_rank t edu.degree) (best_rank t rest)

pub record Weights (F : Floats) : Type 0 where
  pub skills : F.Number
  pub experience : F.Number
  pub education : F.Number
  pub keywords : F.Number

pub record ScoreDetails (F : Floats) : Type 0 where
  pub overall_score : F.Number
  pub skill_score : F.Number
  pub experience_score : F.Number
  pub education_score : F.Number
  pub keyword_score : F.Number
  pub missing_required_skills : List String
  pub missing_preferred_skills : List String
  pub matches : List EducationMatch

pub record JobMetadata : Type 0 where
  pub required_skills : List String
  pub preferred_skills : List String
  pub education_requirement : String

pub record CandidateProfile : Type 0 where
  pub skills : List String
  pub education : List CandidateEducation

module _ (F : Floats) where
  -- Python's `min(x, y)` and `max(x, y)`
  abbrev pub at_most : F.Number → F.Number → F.Number
  at_most x y = if F.lt y x then y else x

  abbrev pub at_least : F.Number → F.Number → F.Number
  at_least x y = if F.lt x y then y else x

  abbrev pub weighted : F.Number → F.Number → F.Number
  weighted required preferred =
      F.add (F.mul (F.hundredths 70) required) (F.mul (F.hundredths 30) preferred)

  -- `matched / (len(skills) or 1)`
  abbrev pub matched_ratio : List String → List String → F.Number
  matched_ratio [] missing = F.ratio 0 1
  matched_ratio (skill ∷ skills) missing =
      F.ratio (length (skill ∷ skills) - length missing) (length (skill ∷ skills))

  abbrev pub skill_score_of : List String → List String → F.Number → F.Number → F.Number
  skill_score_of [] [] req_ratio pref_ratio = F.hundredths 50
  skill_score_of (r ∷ required) (p ∷ preferred) req_ratio pref_ratio =
      at_most (weighted req_ratio pref_ratio) (F.hundredths 100)
  skill_score_of (r ∷ required) [] req_ratio pref_ratio = at_most req_ratio (F.hundredths 100)
  skill_score_of [] (p ∷ preferred) req_ratio pref_ratio = at_most pref_ratio (F.hundredths 100)

  abbrev pub missing_skills : TextTools → List String → List String → List String
  missing_skills t candidate wanted = select (λ s. not (has_skill t candidate s)) wanted

  -- `_score_skills`
  unfoldable pub score_skills : TextTools → List String → List String → List String → F.Number
  score_skills t candidate required preferred =
      skill_score_of required preferred
        (matched_ratio required (missing_skills t candidate required))
        (matched_ratio preferred (missing_skills t candidate preferred))

  abbrev pub education_score_of : ℕ → ℕ → F.Number
  education_score_of best required =
      if leb required best
      then F.hundredths 100
      else if ltb 0 best
      then F.ratio best required
      else F.hundredths 20

  -- `_score_education`
  abbrev pub required_level : TextTools → String → String → String
  required_level t requirement job_description =
      if truthy requirement then requirement else extract_education_requirement t job_description

  unfoldable pub score_education :
      TextTools → List CandidateEducation → String → String → F.Number × List EducationMatch
  score_education t education job_description requirement =
      let level = required_level t requirement job_description in
      let required = education_rank t level in
      if truthy level
      then (
        education_score_of (best_rank t education) required,
        education_matches t required education,
      )
      else (F.hundredths 50, [])

  -- `exp_score` and `keyword_score` are what the analyzers answer.
  unfoldable pub score_resume :
      TextTools
      → Weights F
      → F.Number
      → F.Number
      → String
      → CandidateProfile
      → JobMetadata
      → ScoreDetails F
  score_resume t w exp_score keyword_score job_description profile job =
      let skill_score = score_skills t profile.skills job.required_skills job.preferred_skills in
      let (edu_score, edu_matches) =
        score_education t profile.education job_description job.education_requirement in
      let overall =
        F.add
          (F.add (F.add (F.mul w.skills skill_score) (F.mul w.experience exp_score))
            (F.mul w.education edu_score))
          (F.mul w.keywords keyword_score) in
      record {
        overall_score = F.round_4 (at_most (at_least overall (F.hundredths 0)) (F.hundredths 100));
        skill_score = F.round_4 skill_score;
        experience_score = F.round_4 exp_score;
        education_score = F.round_4 edu_score;
        keyword_score = F.round_4 keyword_score;
        missing_required_skills = missing_skills t profile.skills job.required_skills;
        missing_preferred_skills = missing_skills t profile.skills job.preferred_skills;
        matches = edu_matches;
      }
