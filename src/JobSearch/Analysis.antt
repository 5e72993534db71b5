-- ===== src/JobSearch/Analysis.antt =====
-- `analyze_job` of backend/app/services/job_search.py: a stored job against a stored resume. What
-- loading spaCy and its two analyzers answer is the argument `nlp`, none where they cannot be
-- loaded; the wording of the suggestions is `suggest`.
use auto_jobs_apply.Prelude.{
  String, Bool, ◌&&◌, ◌≡◌, refl, Option, none, some, List, [], ◌∷◌, str_eq, if◌then◌else◌, select,
  is_set, or_empty, inl, inr, Bool-cases, arith,
}
use auto_jobs_apply.Tx.{
  Result, Tx, ok, err, record_not_found, pure, lift, ◌>>=◌, or_raise, scalar_one_or_none,
  resume_with,
}
use auto_jobs_apply.Models.{Job, Resume, Skills, Store, visible}
use auto_jobs_apply.JobSearch.Stored.{get_job, is_job, job_result, get_job_result}
use auto_jobs_apply.Ats.{Floats, TextTools}
use auto_jobs_apply.Ats.Matching.{extract_skills}
use auto_jobs_apply.Ats.Scoring.{Weights, ScoreDetails, CandidateProfile, JobMetadata, score_resume}
use auto_jobs_apply.Ats.Bounds.{IsUnit, literal-IsUnit, score_resume-IsUnit}

-- What the scoring of a request uses.
pub record Analyzers (F : Floats) : Type 0 where
  pub tools : TextTools
  pub weights : Weights F
  pub nlp : Option (F.Number × F.Number)
  pub suggest : ScoreDetails F → List String

pub record JobAnalysisResponse (F : Floats) : Type 0 where
  pub job_id : String
  pub match_score : F.Number
  pub skill_match : F.Number
  pub keyword_match : F.Number
  pub missing_skills : List String
  pub suggestions : List String

abbrev pub is_resume : Option String → String → Resume → Bool
is_resume tenant resume_id r = visible tenant r.user_id && str_eq r.id resume_id

abbrev pub metadata_of : Option Skills → JobMetadata
metadata_of none = record {
  required_skills = [];
  preferred_skills = [];
  education_requirement = "";
}
metadata_of (some skills) = record {
  required_skills = skills.required;
  preferred_skills = skills.preferred;
  education_requirement = "";
}

module _ (F : Floats) (a : Analyzers F) where
  -- The answer without a score.
  abbrev pub placeholder : String → String → JobAnalysisResponse F
  placeholder job_id suggestion = record {
    job_id = job_id;
    match_score = F.hundredths 0;
    skill_match = F.hundredths 0;
    keyword_match = F.hundredths 0;
    missing_skills = [];
    suggestions = suggestion ∷ [];
  }

  abbrev pub analysis : Job → ScoreDetails F → JobAnalysisResponse F
  analysis job details = record {
    job_id = job.id;
    match_score = details.overall_score;
    skill_match = details.skill_score;
    keyword_match = details.keyword_score;
    missing_skills = details.missing_required_skills;
    suggestions = a.suggest details;
  }

  abbrev pub scored_text : Option (F.Number × F.Number) → Job → String → JobAnalysisResponse F
  scored_text none job resume_text =
      placeholder job.id
        "spaCy NLP model not available. Install with: python -m spacy download en_core_web_sm"
  scored_text (some (exp_score, keyword_score)) job resume_text =
      let profile : CandidateProfile = record {
        skills = extract_skills a.tools resume_text;
        education = [];
      } in
      analysis job (
        score_resume F a.tools a.weights exp_score keyword_score job.description profile
          (metadata_of job.skills_required))

  abbrev pub scored_resume : Job → Resume → JobAnalysisResponse F
  scored_resume job resume =
      if is_set resume.content_text
      then scored_text a.nlp job (or_empty resume.content_text)
      else placeholder job.id "Resume has no extracted text. Re-upload for analysis."

  abbrev pub with_resume : Option String → Job → String → Tx Store (JobAnalysisResponse F)
  with_resume tenant job resume_id s =
      (do
        found ← lift (scalar_one_or_none (select (is_resume tenant resume_id) s.resumes))
        resume ← or_raise record_not_found found
        pure (scored_resume job resume))
        s

  abbrev pub for_job : Option String → Option String → Job → Tx Store (JobAnalysisResponse F)
  for_job tenant resume_id job =
      if is_set resume_id
      then with_resume tenant job (or_empty resume_id)
      else pure (placeholder job.id "Provide a resume_id to get accurate ATS scoring.")

  unfoldable pub analyze_job :
      Option String → String → Option String → Tx Store (JobAnalysisResponse F)
  analyze_job tenant job_id resume_id = get_job tenant job_id >>= for_job tenant resume_id

  -- The analyzers, if they can be loaded, answer numbers between 0 and 1.
  abbrev pub AnswersUnits : Option (F.Number × F.Number) → Type 0
  AnswersUnits none = Unit
  AnswersUnits (some (exp_score, keyword_score)) = IsUnit F exp_score × IsUnit F keyword_score

  abbrev pub HasUnits : JobAnalysisResponse F → Type 0
  HasUnits r = IsUnit F r.match_score × IsUnit F r.skill_match × IsUnit F r.keyword_match

  -- An answer with units, or an exception.
  abbrev pub ResultHasUnits : Result (JobAnalysisResponse F) → Type 0
  ResultHasUnits (ok r) = HasUnits r
  ResultHasUnits (err e) = Unit

  placeholder-HasUnits : (job_id suggestion : String) → HasUnits (placeholder job_id suggestion)
  placeholder-HasUnits job_id suggestion =
      let zero_unit = literal-IsUnit F 0 (omega arith) in (zero_unit, zero_unit, zero_unit)

  scored_text-HasUnits :
      (nlp : Option (F.Number × F.Number)) (job : Job) (resume_text : String)
      → AnswersUnits nlp
      → HasUnits (scored_text nlp job resume_text)
  scored_text-HasUnits none job resume_text h =
      placeholder-HasUnits job.id
        "spaCy NLP model not available. Install with: python -m spacy download en_core_web_sm"
  scored_text-HasUnits (some (e, k)) job resume_text (h, g) =
      let profile : CandidateProfile = record {
        skills = extract_skills a.tools resume_text;
        education = [];
      } in
      let (overall, skill, experience, education, keyword) =
        score_resume-IsUnit F a.tools a.weights e k job.description profile
          (metadata_of job.skills_required) h g in
      (overall, skill, keyword)

  scored_resume-HasUnits :
      (job : Job) (resume : Resume) → AnswersUnits a.nlp → HasUnits (scored_resume job resume)
  scored_resume-HasUnits job resume h = elim (Bool-cases (is_set resume.content_text)) [
    | inl e ↦ rw e (scored_text-HasUnits a.nlp job (or_empty resume.content_text) h)
    | inr e ↦
        rw e (placeholder-HasUnits job.id "Resume has no extracted text. Re-upload for analysis.")
  ]

  with_found :
      (job : Job) (s : Store) (found : Result (Option Resume))
      → AnswersUnits a.nlp
      → let (r, after) =
          resume_with
            (found)
            (λ x. or_raise record_not_found x >>= λ resume. pure (scored_resume job resume))
            s in
        ResultHasUnits r × (after ≡ s)
  with_found job s (err e) h = (tt, refl)
  with_found job s (ok none) h = (tt, refl)
  with_found job s (ok (some resume)) h = (scored_resume-HasUnits job resume h, refl)

  for_job-HasUnits :
      (tenant resume_id : Option String) (job : Job) (s : Store)
      → AnswersUnits a.nlp
      → let (r, after) = for_job tenant resume_id job s in ResultHasUnits r × (after ≡ s)
  for_job-HasUnits tenant resume_id job s h = elim (Bool-cases (is_set resume_id)) [
    | inl e ↦ rw e (
        with_found job s
          (scalar_one_or_none (select (is_resume tenant (or_empty resume_id)) s.resumes)) h)
    | inr e ↦
        rw e (placeholder-HasUnits job.id "Provide a resume_id to get accurate ATS scoring.", refl)
  ]

-- An analysis changes nothing, and the scores that it answers are between 0 and 1, if those that
-- the analyzers answer are; where it answers none it raises.
pub analyze_job-HasUnits :
    (F : Floats) (a : Analyzers F) (tenant : Option String) (job_id : String)
    (resume_id : Option String) (s : Store)
    → AnswersUnits F a a.nlp
    → let (r, after) = analyze_job F a tenant job_id resume_id s in
      ResultHasUnits F a r × (after ≡ s)
unfolding analyze_job
analyze_job-HasUnits F a tenant job_id resume_id s h =
    rw (get_job_result tenant job_id s)
      (by_result (job_result (scalar_one_or_none (select (is_job tenant job_id) s.jobs))))
  where
    by_result :
        (found : Result Job)
        → let (r, after) = resume_with found (for_job F a tenant resume_id) s in
          ResultHasUnits F a r × (after ≡ s)
    by_result (err e) = (tt, refl)
    by_result (ok job) = for_job-HasUnits F a tenant resume_id job s h
