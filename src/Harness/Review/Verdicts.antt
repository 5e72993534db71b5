-- ===== src/Harness/Review/Verdicts.antt =====
-- What a review stores and how its task ends, when a call of the language model fails.
use auto_jobs_apply.Prelude.{
  String, Bool, ◌&&◌, ◌≡◌, refl, ap, sym, ◌∙◌, Option, some, List, [], ◌∷◌, ◌++◌, ◌+◌, inl, inr,
  str_eq, str_eq_self, Bool-cases, count, select, first, truthy, count-append, first-select-holds,
  str_eq→eq,
}
use auto_jobs_apply.Tx.{Result, ok, err}
use auto_jobs_apply.Harness.Skills.{DomainSkill, SkillRequest, record_skill}
use auto_jobs_apply.Harness.Review.{
  RunTrajectory, RunVerdict, RunVerdictResult, HarnessStore, JudgeOutput, DistilledSkill, Answer,
  answer, transient, broken, Review, ReviewEnd, done, raised, is_success, record_verdict,
  record_diagnosis, saved, distilled, judged, after_review, review_run, has_run_id,
  review_application_run,
}

abbrev pub is_verdict_on : String → RunVerdict → Bool
is_verdict_on i v = str_eq v.run_id i

-- One more verdict on the run, and the same runs.
abbrev pub JudgedOnce : String → HarnessStore → HarnessStore → Type 0
JudgedOnce i s after =
    (count (is_verdict_on i) after.verdicts ≡ count (is_verdict_on i) s.verdicts + 1)
    × (after.trajectories ≡ s.trajectories)

judged-JudgedOnce :
    (r : Review) (traj : RunTrajectory) (j : JudgeOutput) (s : HarnessStore)
    → JudgedOnce traj.id s (judged r traj j s)
unfolding record_verdict record_diagnosis
judged-JudgedOnce r traj j s = elim (Bool-cases (is_success j.verdict)) [
  | inl e ↦ rw e (once, refl)
  | inr e ↦ rw e (once, refl)
]
  where
    row : RunVerdict
    row = record {
      user_id = traj.user_id;
      run_id = traj.id;
      verdict = j.verdict;
      reason = j.reason;
    }

    once :
        count (is_verdict_on traj.id) (s.verdicts ++ row ∷ [])
        ≡ count (is_verdict_on traj.id) s.verdicts + 1
    once = rw (count-append (is_verdict_on traj.id) s.verdicts (row ∷ []), str_eq_self traj.id)

-- What follows the verdict keeps the verdicts and the runs.
abbrev SameRuns : HarnessStore → HarnessStore → Type 0
SameRuns s after = (after.verdicts ≡ s.verdicts) × (after.trajectories ≡ s.trajectories)

saved-SameRuns :
    (reason : String) (traj : RunTrajectory) (v : RunVerdictResult) (s : HarnessStore)
    (out : Result (Option DomainSkill) × List DomainSkill)
    → SameRuns s (after_review reason traj (saved v s out)).1
saved-SameRuns reason traj v s (ok skill, skills) = (refl, refl)
saved-SameRuns reason traj v s (err e, skills) = (refl, refl)

distilled-SameRuns :
    (r : Review) (reason : String) (traj : RunTrajectory) (v : RunVerdictResult)
    (distil : Answer DistilledSkill) (s : HarnessStore)
    → SameRuns s (after_review reason traj (distilled r traj v distil s)).1
distilled-SameRuns r reason traj v transient s = (refl, refl)
distilled-SameRuns r reason traj v broken s = (refl, refl)
distilled-SameRuns r reason traj v (answer d) s =
    elim (Bool-cases (d.worth_saving && truthy (r.strip d.content))) [
      | inl e ↦
          let request : SkillRequest = record {
            domain = traj.platform;
            content = d.content;
            created_by = "distiller";
          } in
          rw e (
            saved-SameRuns reason traj v s
              (record_skill r.detectors request r.skill_id r.others s.skill_store.skills))
      | inr e ↦ rw e (refl, refl)
    ]

review-JudgedOnce :
    (r : Review) (reason i : String) (j : JudgeOutput) (distil : Answer DistilledSkill)
    (s : HarnessStore) (traj : RunTrajectory)
    → first (select (has_run_id i) s.trajectories) ≡ some traj
    → JudgedOnce i s (review_application_run r reason (answer j) distil i s).1
unfolding review_application_run review_run
review-JudgedOnce r reason i j distil s traj found =
    let same : traj.id ≡ i =
      str_eq→eq traj.id i (first-select-holds (has_run_id i) s.trajectories found) in
    let (once, runs) = judged-JudgedOnce r traj j s in
    let (kept, runs_kept) = distilled-SameRuns r reason traj j.verdict distil (judged r traj j s) in
    rw found
      (rw (sym same) (ap (λ v. count (is_verdict_on traj.id) v) kept ∙ once), runs_kept ∙ runs)

-- How the task ends by what the distillation answers, and when it scores no skill.
abbrev pub EndsAs : Answer DistilledSkill → HarnessStore → ReviewEnd × HarnessStore → Type 0
EndsAs (answer d) s (end, after) = end ≡ done
EndsAs transient s (end, after) =
    (end ≡ raised) × (after.skill_store.feedback ≡ s.skill_store.feedback)
EndsAs broken s (end, after) = (end ≡ done) × (after.skill_store.feedback ≡ s.skill_store.feedback)

judged-feedback :
    (r : Review) (traj : RunTrajectory) (j : JudgeOutput) (s : HarnessStore)
    → (judged r traj j s).skill_store.feedback ≡ s.skill_store.feedback
unfolding record_verdict record_diagnosis
judged-feedback r traj j s = elim (Bool-cases (is_success j.verdict)) [
  | inl e ↦ rw e refl
  | inr e ↦ rw e refl
]

saved-done :
    (reason : String) (traj : RunTrajectory) (v : RunVerdictResult) (s : HarnessStore)
    (out : Result (Option DomainSkill) × List DomainSkill)
    → (after_review reason traj (saved v s out)).0 ≡ done
saved-done reason traj v s (ok skill, skills) = refl
saved-done reason traj v s (err e, skills) = refl

distilled-EndsAs :
    (r : Review) (reason : String) (traj : RunTrajectory) (v : RunVerdictResult)
    (distil : Answer DistilledSkill) (s : HarnessStore)
    → EndsAs distil s (after_review reason traj (distilled r traj v distil s))
distilled-EndsAs r reason traj v transient s = (refl, refl)
distilled-EndsAs r reason traj v broken s = (refl, refl)
distilled-EndsAs r reason traj v (answer d) s =
    elim (Bool-cases (d.worth_saving && truthy (r.strip d.content))) [
      | inl e ↦
          let request : SkillRequest = record {
            domain = traj.platform;
            content = d.content;
            created_by = "distiller";
          } in
          rw e (
            saved-done reason traj v s
              (record_skill r.detectors request r.skill_id r.others s.skill_store.skills))
      | inr e ↦ rw e refl
    ]

EndsAs-judged :
    (r : Review) (traj : RunTrajectory) (j : JudgeOutput) (distil : Answer DistilledSkill)
    (s : HarnessStore) (out : ReviewEnd × HarnessStore)
    → EndsAs distil (judged r traj j s) out
    → EndsAs distil s out
EndsAs-judged r traj j (answer d) s (end, after) h = h
EndsAs-judged r traj j transient s (end, after) (h, k) = (h, k ∙ judged-feedback r traj j s)
EndsAs-judged r traj j broken s (end, after) (h, k) = (h, k ∙ judged-feedback r traj j s)

review-EndsAs :
    (r : Review) (reason i : String) (j : JudgeOutput) (distil : Answer DistilledSkill)
    (s : HarnessStore) (traj : RunTrajectory)
    → first (select (has_run_id i) s.trajectories) ≡ some traj
    → EndsAs distil s (review_application_run r reason (answer j) distil i s)
unfolding review_application_run review_run
review-EndsAs r reason i j distil s traj found = rw found (
    EndsAs-judged r traj j distil s
      (after_review reason traj (distilled r traj j.verdict distil (judged r traj j s)))
      (distilled-EndsAs r reason traj j.verdict distil (judged r traj j s)))

-- A review of a stored run whose judge answers stores exactly one verdict on the run, whatever the
-- distillation of a skill then answers. Where the distillation meets a rate limit or a timeout of
-- the language model, the task raises that exception, after the verdict was stored and with no skill
-- scored; where it meets another exception, the task returns, with no skill scored.
pub review_application_run-judged :
    (r : Review) (reason i : String) (j : JudgeOutput) (distil : Answer DistilledSkill)
    (s : HarnessStore) (traj : RunTrajectory)
    → first (select (has_run_id i) s.trajectories) ≡ some traj
    → let out = review_application_run r reason (answer j) distil i s in
      JudgedOnce i s out.1 × EndsAs distil s out
review_application_run-judged r reason i j distil s traj found = (
  review-JudgedOnce r reason i j distil s traj found,
  review-EndsAs r reason i j distil s traj found,
)
