-- ===== src/Ats/Bounds.antt =====
-- Every score is between 0 and 1.
use auto_jobs_apply.Prelude.{
  ℕ, ◌-◌, ◌≤◌, String, false, ◌≡◌, List, [], ◌∷◌, Bool-cases, inl, inr, arith, leb, ltb, length,
  truthy,
}
use auto_jobs_apply.Ats.{Floats, TextTools}
use auto_jobs_apply.Ats.Scoring.{
  CandidateEducation, Weights, JobMetadata, CandidateProfile, at_most, at_least, weighted,
  matched_ratio, skill_score_of, missing_skills, score_skills, education_score_of, best_rank,
  education_rank, required_level, score_education, score_resume,
}

module _ (F : Floats) where
  -- Neither below 0 nor above 1.
  abbrev pub IsUnit : F.Number → Type 0
  IsUnit x = (F.lt x (F.hundredths 0) ≡ false) × (F.lt (F.hundredths 100) x ≡ false)

  pub literal-IsUnit : (n : ℕ) → n ≤ 100 → IsUnit (F.hundredths n)
  literal-IsUnit n h = (F.literal_order 0 n (omega arith), F.literal_order n 100 h)

  pub at_most-IsUnit :
      (x : F.Number) → F.lt x (F.hundredths 0) ≡ false → IsUnit (at_most F x (F.hundredths 100))
  at_most-IsUnit x h = elim (Bool-cases (F.lt (F.hundredths 100) x)) [
    | inl e ↦ rw e (literal-IsUnit 100 (omega arith))
    | inr e ↦ rw e (h, e)
  ]

  at_least-floor : (x : F.Number) → F.lt (at_least F x (F.hundredths 0)) (F.hundredths 0) ≡ false
  at_least-floor x = elim (Bool-cases (F.lt x (F.hundredths 0))) [
    | inl e ↦ rw e (F.literal_order 0 0 (omega arith))
    | inr e ↦ rw (e, e)
  ]

  pub round-IsUnit : (x : F.Number) → IsUnit x → IsUnit (F.round_4 x)
  round-IsUnit x (low, high) = (F.round_keeps_floor x low, F.round_keeps_ceiling x high)

  matched_ratio-floor :
      (wanted missing : List String)
      → F.lt (matched_ratio F wanted missing) (F.hundredths 0) ≡ false
  matched_ratio-floor [] missing = F.ratio_not_negative 0 1
  matched_ratio-floor (s ∷ wanted) missing =
      F.ratio_not_negative (length (s ∷ wanted) - length missing) (length (s ∷ wanted))

  weighted-floor :
      (x y : F.Number)
      → F.lt x (F.hundredths 0) ≡ false
      → F.lt y (F.hundredths 0) ≡ false
      → F.lt (weighted F x y) (F.hundredths 0) ≡ false
  weighted-floor x y h k =
      F.add_not_negative (F.mul (F.hundredths 70) x) (F.mul (F.hundredths 30) y)
        (F.mul_not_negative (F.hundredths 70) x (literal-IsUnit 70 (omega arith)).0 h)
        (F.mul_not_negative (F.hundredths 30) y (literal-IsUnit 30 (omega arith)).0 k)

  skill_score_of-IsUnit :
      (required preferred : List String) (x y : F.Number)
      → F.lt x (F.hundredths 0) ≡ false
      → F.lt y (F.hundredths 0) ≡ false
      → IsUnit (skill_score_of F required preferred x y)
  skill_score_of-IsUnit [] [] x y h k = literal-IsUnit 50 (omega arith)
  skill_score_of-IsUnit (r ∷ required) (p ∷ preferred) x y h k =
      at_most-IsUnit (weighted F x y) (weighted-floor x y h k)
  skill_score_of-IsUnit (r ∷ required) [] x y h k = at_most-IsUnit x h
  skill_score_of-IsUnit [] (p ∷ preferred) x y h k = at_most-IsUnit y k

  score_skills-IsUnit :
      (t : TextTools) (candidate required preferred : List String)
      → IsUnit (score_skills F t candidate required preferred)
  unfolding score_skills
  score_skills-IsUnit t candidate required preferred =
      skill_score_of-IsUnit required preferred
        (matched_ratio F required (missing_skills F t candidate required))
        (matched_ratio F preferred (missing_skills F t candidate preferred))
        (matched_ratio-floor required (missing_skills F t candidate required))
        (matched_ratio-floor preferred (missing_skills F t candidate preferred))

  education_score_of-IsUnit : (best required : ℕ) → IsUnit (education_score_of F best required)
  education_score_of-IsUnit best required = elim (Bool-cases (leb required best)) [
    | inl e ↦ rw e (literal-IsUnit 100 (omega arith))
    | inr e ↦ elim (Bool-cases (ltb 0 best)) [
      | inl g ↦
          rw (e, g)
            (F.ratio_not_negative best required, F.ratio_at_most_one best required (ground arith))
      | inr g ↦ rw (e, g) (literal-IsUnit 20 (omega arith))
    ]
  ]

  score_education-IsUnit :
      (t : TextTools) (education : List CandidateEducation) (job_description requirement : String)
      → IsUnit (score_education F t education job_description requirement).0
  unfolding score_education
  score_education-IsUnit t education job_description requirement =
      let level = required_level F t requirement job_description in
      elim (Bool-cases (truthy level)) [
        | inl e ↦ rw e (education_score_of-IsUnit (best_rank t education) (education_rank t level))
        | inr e ↦ rw e (literal-IsUnit 50 (omega arith))
      ]

-- If the analyzers of keywords and experience answer numbers between 0 and 1, so are all the five
-- scores of a resume, whatever the weights, the profile and the job.
pub score_resume-IsUnit :
    (F : Floats) (t : TextTools) (w : Weights F) (exp_score keyword_score : F.Number)
    (job_description : String) (profile : CandidateProfile) (job : JobMetadata)
    → IsUnit F exp_score
    → IsUnit F keyword_score
    → let details = score_resume F t w exp_score keyword_score job_description profile job in
      IsUnit F details.overall_score
      × IsUnit F details.skill_score
      × IsUnit F details.experience_score
      × IsUnit F details.education_score
      × IsUnit F details.keyword_score
unfolding score_resume
score_resume-IsUnit F t w exp_score keyword_score job_description profile job h k =
    let skill = score_skills F t profile.skills job.required_skills job.preferred_skills in
    let edu = (score_education F t profile.education job_description job.education_requirement).0 in
    let overall =
      F.add
        (F.add (F.add (F.mul w.skills skill) (F.mul w.experience exp_score))
          (F.mul w.education edu))
        (F.mul w.keywords keyword_score) in
    let floor = at_least F overall (F.hundredths 0) in
    (
      round-IsUnit F (at_most F floor (F.hundredths 100))
          (at_most-IsUnit F floor (at_least-floor F overall)),
      round-IsUnit F skill
          (score_skills-IsUnit F t profile.skills job.required_skills job.preferred_skills),
      round-IsUnit F exp_score h,
      round-IsUnit F edu
          (score_education-IsUnit F t profile.education job_description job.education_requirement),
      round-IsUnit F keyword_score k,
    )
