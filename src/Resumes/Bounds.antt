-- ===== src/Resumes/Bounds.antt =====
-- The scores of a stored resume.
use auto_jobs_apply.Prelude.{
  ◌≤◌, String, Bool, ◌≡◌, refl, inl, inr, Option, none, some, List, [], ◌∷◌, select, length,
  or_empty, is_some, truthy, Bool-cases, arith,
}
use auto_jobs_apply.Tx.{Result, ok, err}
use auto_jobs_apply.Models.{Resume, Job, Store}
use auto_jobs_apply.JobSearch.Analysis.{metadata_of}
use auto_jobs_apply.Ats.{Floats}
use auto_jobs_apply.Ats.Matching.{extract_skills}
use auto_jobs_apply.Ats.Scoring.{CandidateProfile, at_most}
use auto_jobs_apply.Ats.Bounds.{
  IsUnit, literal-IsUnit, at_most-IsUnit, round-IsUnit, score_resume-IsUnit,
}
use auto_jobs_apply.Resumes.{resume_of}
use auto_jobs_apply.Resumes.Skills.{sorted, extract_resume_skills}
use auto_jobs_apply.Resumes.Scoring.{
  Scorer, ResumeScoreResponse, tools, distinct, common, without, fallback_stop_words, share,
  engine_or_fallback, engine_response, score_with_text_fallback, score_text, score_resume,
  is_member, job_of, score_result, score_resume-eq,
}

length-select_le : {A : Type 0} (p : A → Bool) (xs : List A) → length (select p xs) ≤ length xs
length-select_le p [] = omega arith
length-select_le p (x ∷ xs) = ground (arith, length-select_le p xs)

module _ (F : Floats) (a : Scorer F) where
  abbrev pub HasUnitScores : ResumeScoreResponse F → Type 0
  HasUnitScores r =
      IsUnit F r.overall_score
      × IsUnit F r.skill_score
      × IsUnit F r.experience_score
      × IsUnit F r.education_score
      × IsUnit F r.keyword_score

  share-IsUnit :
      (default : F.Number) (p : String → Bool) (whole : List String)
      → IsUnit F default
      → IsUnit F (share F a default (select p whole) whole)
  share-IsUnit default p [] h = h
  share-IsUnit default p (x ∷ whole) h =
      let part = length (select p (x ∷ whole)) in
      (
        F.ratio_not_negative part (length (x ∷ whole)),
        F.ratio_at_most_one part (length (x ∷ whole)) (length-select_le p (x ∷ whole)),
      )

  halves-IsUnit :
      (x y : F.Number)
      → IsUnit F x
      → IsUnit F y
      → IsUnit F (F.add (F.mul (F.hundredths 50) x) (F.mul (F.hundredths 50) y))
  halves-IsUnit x y (x_low, x_high) (y_low, y_high) =
      let half_low = (literal-IsUnit F 50 (omega arith)).0 in
      (
        F.add_not_negative (F.mul (F.hundredths 50) x) (F.mul (F.hundredths 50) y)
            (F.mul_not_negative (F.hundredths 50) x half_low x_low)
            (F.mul_not_negative (F.hundredths 50) y half_low y_low),
        F.halves_at_most_one x y x_high y_high,
      )

  abbrev pub IsUnitOrRaises : Result F.Number → Type 0
  IsUnitOrRaises (ok x) = IsUnit F x
  IsUnitOrRaises (err e) = Unit

  -- The keyword analyzer answers numbers between 0 and 1, where it can be loaded and does not raise.
  abbrev pub AnswersUnits : Option (String → String → Result F.Number) → Type 0
  AnswersUnits none = Unit
  AnswersUnits (some keywords) = (x y : String) → IsUnitOrRaises (keywords x y)

  fallback-HasUnitScores :
      (resume_id job_id resume_text job_description : String)
      → HasUnitScores (score_with_text_fallback F a resume_id job_id resume_text job_description)
  unfolding score_with_text_fallback
  fallback-HasUnitScores resume_id job_id resume_text job_description =
      let t = tools F a in
      let resume_skills = extract_resume_skills t (is_some a.keywords) resume_text in
      let job_skills = extract_resume_skills t (is_some a.keywords) job_description in
      let resume_words = distinct (a.reader.words (t.lower resume_text)) in
      let job_words =
        without fallback_stop_words (distinct (a.reader.words (t.lower job_description))) in
      let skill = share F a (F.hundredths 50) (common resume_skills job_skills) job_skills in
      let keyword = share F a (F.hundredths 0) (common resume_words job_words) job_words in
      let capped = at_most F keyword (F.hundredths 100) in
      let zero_unit = literal-IsUnit F 0 (omega arith) in
      let skill_unit =
        share-IsUnit (F.hundredths 50) (is_member resume_skills) job_skills
          (literal-IsUnit F 50 (omega arith)) in
      let keyword_unit =
        share-IsUnit (F.hundredths 0) (is_member resume_words) job_words zero_unit in
      let capped_unit = at_most-IsUnit F keyword keyword_unit.0 in
      (
        round-IsUnit F (F.add (F.mul (F.hundredths 50) skill) (F.mul (F.hundredths 50) capped))
            (halves-IsUnit skill capped skill_unit capped_unit),
        round-IsUnit F skill skill_unit,
        zero_unit,
        zero_unit,
        round-IsUnit F capped capped_unit,
      )

  engine-HasUnitScores :
      (resume_id job_id resume_text job_description : String) (job : Job)
      (keyword_score : Result F.Number)
      → IsUnitOrRaises keyword_score
      → HasUnitScores
          (engine_or_fallback F a resume_id job_id resume_text job_description job keyword_score)
  engine-HasUnitScores resume_id job_id resume_text job_description job (err e) h =
      fallback-HasUnitScores resume_id job_id resume_text job_description
  engine-HasUnitScores resume_id job_id resume_text job_description job (ok k) h =
      let profile : CandidateProfile = record {
        skills = sorted (extract_skills (tools F a) resume_text);
        education = [];
      } in
      score_resume-IsUnit F (tools F a) a.weights (F.hundredths 0) k job_description profile
        (metadata_of job.skills_required) (literal-IsUnit F 0 (omega arith)) h

  response-HasUnitScores :
      (keywords : Option (String → String → Result F.Number))
      (resume_id job_id resume_text job_description : String) (job : Job)
      → AnswersUnits keywords
      → HasUnitScores
          (engine_response F a keywords resume_id job_id resume_text job_description job)
  response-HasUnitScores none resume_id job_id resume_text job_description job h =
      fallback-HasUnitScores resume_id job_id resume_text job_description
  response-HasUnitScores (some keywords) resume_id job_id resume_text job_description job h =
      engine-HasUnitScores resume_id job_id resume_text job_description job
        (keywords resume_text job_description) (h resume_text job_description)

  score_text-HasUnitScores :
      (resume_id job_id resume_text : String) (job : Job)
      → AnswersUnits a.keywords
      → HasUnitScores (score_text F a resume_id job_id resume_text job)
  unfolding score_text
  score_text-HasUnitScores resume_id job_id resume_text job h =
      elim (Bool-cases (truthy ((tools F a).strip resume_text))) [
        | inl e ↦
            rw e
              (response-HasUnitScores a.keywords resume_id job_id resume_text job.description job h)
        | inr e ↦
            let zero_unit = literal-IsUnit F 0 (omega arith) in
            rw e (zero_unit, zero_unit, zero_unit, zero_unit, zero_unit)
      ]

  -- Both rows are found and the scores are units, or what a missing row raises.
  abbrev pub ScoredOrMissing : Result Resume → Result Job → Result (ResumeScoreResponse F) → Type 0
  ScoredOrMissing (ok resume) (ok job) (ok r) = HasUnitScores r
  ScoredOrMissing (ok resume) (ok job) (err e) = ⊥
  ScoredOrMissing (ok resume) (err g) r = r ≡ err g
  ScoredOrMissing (err g) job r = r ≡ err g

  -- A resume and a job that the tenant sees are always scored, with five numbers between 0 and 1,
  -- whether the resume is empty, spaCy can be loaded, or scoring with it raises, if the keyword
  -- analyzer answers such numbers; where a row is not found its exception is raised. The database
  -- is left as it is.
  pub score_resume-Scored :
      (tenant : Option String) (resume_id job_id : String) (s : Store)
      → AnswersUnits a.keywords
      → let (r, after) = score_resume F a tenant resume_id job_id s in
        ScoredOrMissing (resume_of tenant resume_id s) (job_of tenant job_id s) r × (after ≡ s)
  score_resume-Scored tenant resume_id job_id s h =
      rw (score_resume-eq F a tenant resume_id job_id s)
        (by_rows (resume_of tenant resume_id s) (job_of tenant job_id s), refl)
    where
      by_rows :
          (resume : Result Resume) (job : Result Job)
          → ScoredOrMissing resume job (score_result F a resume_id job_id resume job)
      by_rows (err e) job = refl
      by_rows (ok resume) (err e) = refl
      by_rows (ok resume) (ok job) =
          score_text-HasUnitScores resume_id job_id (or_empty resume.content_text) job h
