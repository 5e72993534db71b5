-- ===== src/Harness/Review.antt =====
-- core/harness/{record,review}.py, `review_application_run` of workers/tasks.py and the run's rows of
-- models/harness.py under backend/app: a finished run is judged, diagnosed and distilled. What the
-- language model answers is an argument; `reason` is the text of the feedback. Columns of JSON and of
-- floating point are left out.
pub mod Verdicts
use auto_jobs_apply.Prelude.{
  ℕ, String, Bool, true, false, not, ◌&&◌, ◌≡◌, Option, none, some, List, [], ◌∷◌, ◌++◌, ◌+◌, refl,
  ap, ◌∙◌, sym, str_eq, if◌then◌else◌, count, select, first, truthy, arith, count-append,
  str_eq_self, inl, inr, Bool-cases,
}
use auto_jobs_apply.Tx.{Result, ok, err}
use auto_jobs_apply.Harness.Diagnose.{FailureClass, Diagnosis, Signals, diagnose}
use auto_jobs_apply.Harness.Skills.{DomainSkill, Detectors, SkillRequest, record_skill}
use auto_jobs_apply.Harness.Skills.Feedback.{SkillStore, score_skills}

pub data RunVerdictResult : Type 0 where
  success partial failure : RunVerdictResult

abbrev pub is_success : RunVerdictResult → Bool
is_success success = true
is_success _ = false

pub record RunTrajectory : Type 0 where
  pub id : String
  pub user_id : String
  pub application_id : String
  pub platform : String
  pub agent_self_report : Option String
  pub tokens : ℕ
  pub duration_ms : ℕ
  pub status : String
  pub skills_used : List String

pub record RunVerdict : Type 0 where
  pub user_id : String
  pub run_id : String
  pub verdict : RunVerdictResult
  pub reason : String

pub record RunDiagnosis : Type 0 where
  pub user_id : String
  pub run_id : String
  pub failure_class : FailureClass
  pub root_cause : String
  pub suggested_action : String

pub record HarnessStore : Type 0 where
  pub trajectories : List RunTrajectory
  pub verdicts : List RunVerdict
  pub diagnoses : List RunDiagnosis
  pub skill_store : SkillStore

pub record JudgeOutput : Type 0 where
  pub verdict : RunVerdictResult
  pub reason : String

pub record DistilledSkill : Type 0 where
  pub worth_saving : Bool
  pub content : String

-- What a call that may raise answers: `transient` for LLMRateLimitError and LLMTimeoutError, `broken`
-- for any other exception.
pub data Answer (A : Type 0) : Type 0 where
  answer : A → Answer A
  transient broken : Answer A

unfoldable pub record_trajectory : RunTrajectory → HarnessStore → HarnessStore
record_trajectory traj s = record s { trajectories = s.trajectories ++ traj ∷ [] }

unfoldable pub record_verdict : RunTrajectory → JudgeOutput → HarnessStore → HarnessStore
record_verdict traj judge s =
    let row : RunVerdict = record {
      user_id = traj.user_id;
      run_id = traj.id;
      verdict = judge.verdict;
      reason = judge.reason;
    } in
    record s { verdicts = s.verdicts ++ row ∷ [] }

unfoldable pub record_diagnosis : RunTrajectory → Diagnosis → HarnessStore → HarnessStore
record_diagnosis traj d s =
    let row : RunDiagnosis = record {
      user_id = traj.user_id;
      run_id = traj.id;
      failure_class = d.failure_class;
      root_cause = d.root_cause;
      suggested_action = d.suggested_action;
    } in
    record s { diagnoses = s.diagnoses ++ row ∷ [] }

-- What a review draws and is told: the detectors, `str.strip`, the id of a new skill, the rows of
-- concurrent writers, and the signals of the run.
pub record Review : Type 0 where
  pub detectors : Detectors
  pub strip : String → String
  pub skill_id : String
  pub others : ℕ → List DomainSkill
  pub signals : Signals

abbrev pub with_skills : HarnessStore → List DomainSkill → HarnessStore
with_skills s skills = record s {
  skill_store = record { skills = skills; feedback = s.skill_store.feedback };
}

abbrev pub saved :
    RunVerdictResult
    → HarnessStore
    → Result (Option DomainSkill) × List DomainSkill
    → Answer RunVerdictResult × HarnessStore
saved verdict s (ok skill, skills) = (answer verdict, with_skills s skills)
saved verdict s (err e, skills) = (broken, with_skills s skills)

abbrev pub distilled :
    Review
    → RunTrajectory
    → RunVerdictResult
    → Answer DistilledSkill
    → HarnessStore
    → Answer RunVerdictResult × HarnessStore
distilled r traj verdict transient s = (transient, s)
distilled r traj verdict broken s = (broken, s)
distilled r traj verdict (answer d) s =
    let request : SkillRequest = record {
      domain = traj.platform;
      content = d.content;
      created_by = "distiller";
    } in
    if d.worth_saving && truthy (r.strip d.content)
    then saved verdict s (record_skill r.detectors request r.skill_id r.others s.skill_store.skills)
    else (answer verdict, s)

abbrev pub judged : Review → RunTrajectory → JudgeOutput → HarnessStore → HarnessStore
judged r traj j s =
    let s' = record_verdict traj j s in
    if is_success j.verdict then s' else record_diagnosis traj (diagnose r.signals) s'

abbrev pub review_judged :
    Review
    → RunTrajectory
    → Answer DistilledSkill
    → Answer JudgeOutput
    → HarnessStore
    → Answer RunVerdictResult × HarnessStore
review_judged r traj distil transient s = (transient, s)
review_judged r traj distil broken s = (broken, s)
review_judged r traj distil (answer j) s = distilled r traj j.verdict distil (judged r traj j s)

unfoldable pub review_run :
    Review
    → RunTrajectory
    → Answer JudgeOutput
    → Answer DistilledSkill
    → HarnessStore
    → Answer RunVerdictResult × HarnessStore
review_run r traj judge distil s = review_judged r traj distil judge s

-- How the task ends: it returns, or it raises the exception of the language model.
pub data ReviewEnd : Type 0 where
  done raised : ReviewEnd

abbrev pub after_review :
    String → RunTrajectory → Answer RunVerdictResult × HarnessStore → ReviewEnd × HarnessStore
after_review reason traj (transient, s) = (raised, s)
after_review reason traj (broken, s) = (done, s)
after_review reason traj (answer verdict, s) = (
  done,
  record s {
    skill_store = score_skills (is_success verdict) reason traj.id traj.skills_used s.skill_store;
  },
)

abbrev pub review_found :
    Review
    → String
    → Answer JudgeOutput
    → Answer DistilledSkill
    → Option RunTrajectory
    → HarnessStore
    → ReviewEnd × HarnessStore
review_found r reason judge distil none s = (done, s)
review_found r reason judge distil (some traj) s =
    after_review reason traj (review_run r traj judge distil s)

abbrev pub has_run_id : String → RunTrajectory → Bool
has_run_id i t = str_eq t.id i

unfoldable pub review_application_run :
    Review
    → String
    → Answer JudgeOutput
    → Answer DistilledSkill
    → String
    → HarnessStore
    → ReviewEnd × HarnessStore
review_application_run r reason judge distil run_id s =
    review_found r reason judge distil (first (select (has_run_id run_id) s.trajectories)) s
