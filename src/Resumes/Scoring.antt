-- ===== src/Resumes/Scoring.antt =====
-- The scoring of backend/app/services/resume.py.
use auto_jobs_apply.Prelude.{
  String, Bool, not, Option, none, some, List, [], ◌∷◌, ◌++◌, any, select, length, take, str_eq,
  is_some, or_empty, truthy, if◌then◌else◌, ◌≡◌, refl,
}
use Prim.Native.String.{◌++◌ as ◌+++◌}
use auto_jobs_apply.Tx.{Result, Tx, ok, err, pure, resume_with, scalar_one_or_none, ◌>>=◌}
use auto_jobs_apply.Models.{Resume, Job, Store}
use auto_jobs_apply.JobSearch.Stored.{get_job, is_job, job_result, get_job_result}
use auto_jobs_apply.JobSearch.Analysis.{metadata_of}
use auto_jobs_apply.Ats.{Floats, TextTools}
use auto_jobs_apply.Ats.Matching.{extract_skills}
use auto_jobs_apply.Ats.Scoring.{
  Weights, ScoreDetails, CandidateProfile, at_most, score_resume as score_details,
}
use auto_jobs_apply.Documents.{Reader}
use auto_jobs_apply.Documents.Texts.{join}
use auto_jobs_apply.Resumes.{get_resume, resume_of, get_resume_result}
use auto_jobs_apply.Resumes.Skills.{sorted, extract_resume_skills}

-- `keywords` is the score of the keyword analyzer, none where spaCy or its model cannot be loaded;
-- scoring may raise. `suggest` words the suggestions of the scorer.
pub record Scorer (F : Floats) : Type 0 where
  pub reader : Reader
  pub weights : Weights F
  pub keywords : Option (String → String → Result F.Number)
  pub suggest : ScoreDetails F → List String

pub record ResumeScoreResponse (F : Floats) : Type 0 where
  pub resume_id : String
  pub job_id : String
  pub overall_score : F.Number
  pub skill_score : F.Number
  pub experience_score : F.Number
  pub education_score : F.Number
  pub keyword_score : F.Number
  pub missing_skills : List String
  pub suggestions : List String

-- A set, in the order in which its elements were met.
abbrev pub is_member : List String → String → Bool
is_member xs x = any (λ y. str_eq y x) xs

unfoldable pub distinct : List String → List String
distinct [] = []
distinct (x ∷ xs) = let rest = distinct xs in if is_member rest x then rest else x ∷ rest

abbrev pub common : List String → List String → List String
common xs ys = select (is_member xs) ys

abbrev pub without : List String → List String → List String
without xs ys = select (λ y. not (is_member xs y)) ys

abbrev pub fallback_stop_words : List String
fallback_stop_words =
    "the" ∷ "a" ∷ "an" ∷ "is" ∷ "are" ∷ "and" ∷ "or" ∷ "to" ∷ "in" ∷ "of" ∷ "for" ∷ "with" ∷ "on"
    ∷ "at" ∷ "by" ∷ "from" ∷ "as" ∷ "we" ∷ "you" ∷ "your" ∷ "our" ∷ []

-- What `get_job` answers.
abbrev pub job_of : Option String → String → Store → Result Job
job_of tenant job_id s = job_result (scalar_one_or_none (select (is_job tenant job_id) s.jobs))

module _ (F : Floats) (a : Scorer F) where
  abbrev pub tools : TextTools
  tools = a.reader.tools

  abbrev pub empty_response : String → String → ResumeScoreResponse F
  empty_response resume_id job_id = record {
    resume_id = resume_id;
    job_id = job_id;
    overall_score = F.hundredths 0;
    skill_score = F.hundredths 0;
    experience_score = F.hundredths 0;
    education_score = F.hundredths 0;
    keyword_score = F.hundredths 0;
    missing_skills = "Resume has no parsed text content" ∷ [];
    suggestions = "Re-upload your resume to enable parsing" ∷ [];
  }

  abbrev pub response_of : String → String → ScoreDetails F → ResumeScoreResponse F
  response_of resume_id job_id details = record {
    resume_id = resume_id;
    job_id = job_id;
    overall_score = details.overall_score;
    skill_score = details.skill_score;
    experience_score = details.experience_score;
    education_score = details.education_score;
    keyword_score = details.keyword_score;
    missing_skills = details.missing_required_skills;
    suggestions = a.suggest details;
  }

  -- The experience analyzer answers 0.0 for the empty experience of the profile.
  abbrev pub engine_details : String → String → Job → F.Number → ScoreDetails F
  engine_details resume_text job_description job keyword_score =
      let profile : CandidateProfile = record {
        skills = sorted (extract_skills tools resume_text);
        education = [];
      } in
      score_details F tools a.weights (F.hundredths 0) keyword_score job_description profile
        (metadata_of job.skills_required)

  -- The ratio of a part to its set, or a default where the set is empty.
  abbrev pub share : F.Number → List String → List String → F.Number
  share default part [] = default
  share default part (x ∷ whole) = F.ratio (length part) (length (x ∷ whole))

  abbrev pub missing_suggestion : List String → List String
  missing_suggestion [] = []
  missing_suggestion (m ∷ missing) =
      ("Add these skills to your resume: " +++ join ", " (take 5 (m ∷ missing))) ∷ []

  -- `_score_with_text_fallback`
  unfoldable pub score_with_text_fallback :
      String → String → String → String → ResumeScoreResponse F
  score_with_text_fallback resume_id job_id resume_text job_description =
      let resume_skills = extract_resume_skills tools (is_some a.keywords) resume_text in
      let job_skills = extract_resume_skills tools (is_some a.keywords) job_description in
      let skill_score = share (F.hundredths 50) (common resume_skills job_skills) job_skills in
      let missing = sorted (without resume_skills job_skills) in
      let resume_words = distinct (a.reader.words (tools.lower resume_text)) in
      let job_words =
        without fallback_stop_words (distinct (a.reader.words (tools.lower job_description))) in
      let keyword_score = share (F.hundredths 0) (common resume_words job_words) job_words in
      let capped = at_most F keyword_score (F.hundredths 100) in
      record {
        resume_id = resume_id;
        job_id = job_id;
        overall_score =
            F.round_4
              (F.add (F.mul (F.hundredths 50) skill_score) (F.mul (F.hundredths 50) capped));
        skill_score = F.round_4 skill_score;
        experience_score = F.hundredths 0;
        education_score = F.hundredths 0;
        keyword_score = F.round_4 capped;
        missing_skills = missing;
        suggestions =
            missing_suggestion missing
            ++ (if F.lt keyword_score (F.hundredths 40)
                then "Mirror more terminology from the job description in your resume." ∷ []
                else []);
      }

  abbrev pub engine_or_fallback :
      String → String → String → String → Job → Result F.Number → ResumeScoreResponse F
  engine_or_fallback resume_id job_id resume_text job_description job (ok keyword_score) =
      response_of resume_id job_id (engine_details resume_text job_description job keyword_score)
  engine_or_fallback resume_id job_id resume_text job_description job (err e) =
      score_with_text_fallback resume_id job_id resume_text job_description

  -- The engine where spaCy can be loaded and nothing raises, else the fallback.
  abbrev pub engine_response :
      Option (String → String → Result F.Number)
      → String
      → String
      → String
      → String
      → Job
      → ResumeScoreResponse F
  engine_response none resume_id job_id resume_text job_description job =
      score_with_text_fallback resume_id job_id resume_text job_description
  engine_response (some keywords) resume_id job_id resume_text job_description job =
      engine_or_fallback resume_id job_id resume_text job_description job
        (keywords resume_text job_description)

  -- The score of a text: the rows are found.
  unfoldable pub score_text : String → String → String → Job → ResumeScoreResponse F
  score_text resume_id job_id resume_text job =
      if truthy (tools.strip resume_text)
      then engine_response a.keywords resume_id job_id resume_text job.description job
      else empty_response resume_id job_id

  unfoldable pub score_resume : Option String → String → String → Tx Store (ResumeScoreResponse F)
  score_resume tenant resume_id job_id = do
    resume ← get_resume tenant resume_id
    job ← get_job tenant job_id
    pure (score_text resume_id job_id (or_empty resume.content_text) job)

  abbrev pub score_result :
      String → String → Result Resume → Result Job → Result (ResumeScoreResponse F)
  score_result resume_id job_id (err e) job = err e
  score_result resume_id job_id (ok resume) (err e) = err e
  score_result resume_id job_id (ok resume) (ok job) =
      ok (score_text resume_id job_id (or_empty resume.content_text) job)

  -- Scoring is a read.
  pub score_resume-eq :
      (tenant : Option String) (resume_id job_id : String) (s : Store)
      → score_resume tenant resume_id job_id s
        ≡ (score_result resume_id job_id (resume_of tenant resume_id s) (job_of tenant job_id s), s)
  unfolding score_resume
  score_resume-eq tenant resume_id job_id s =
      rw (get_resume_result tenant resume_id s) (by_resume (resume_of tenant resume_id s))
    where
      by_job :
          (resume : Resume) (job : Result Job)
          → resume_with job
              (λ j. pure (score_text resume_id job_id (or_empty resume.content_text) j))
              s
            ≡ (score_result resume_id job_id (ok resume) job, s)
      by_job resume (err e) = refl
      by_job resume (ok job) = refl

      by_resume :
          (resume : Result Resume)
          → resume_with resume
              (λ x. get_job tenant job_id >>= λ j.
                pure (score_text resume_id job_id (or_empty x.content_text) j))
              s
            ≡ (score_result resume_id job_id resume (job_of tenant job_id s), s)
      by_resume (err e) = refl
      by_resume (ok resume) =
          rw (get_job_result tenant job_id s) (by_job resume (job_of tenant job_id s))
