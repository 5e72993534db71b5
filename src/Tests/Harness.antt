-- ===== src/Tests/Harness.antt =====
-- A run is diagnosed, and anomalies are recorded.
use auto_jobs_apply.Prelude.{
  refl, ◌∷◌, false, true, ap, ℕ, String, ◌≡◌, arith, some, none, pos, negsuc, count, List, [],
  first, select,
}
use auto_jobs_apply.Tx.{ok}
use auto_jobs_apply.Harness.Diagnose.{Signals, diagnose, shows, by_priority, diagnose-by_priority}
use auto_jobs_apply.Harness.Skills.{
  DomainSkill, active, Detectors, SkillRequest, pii_clean, new_skill, record_skill,
}
use auto_jobs_apply.Harness.Skills.Feedback.{SkillFeedback, SkillStore, has_skill_id, load_skills}
use auto_jobs_apply.Harness.Skills.Retirement.{feed, fail_times, failing_skill_retires}
use auto_jobs_apply.Harness.Review.{
  RunTrajectory, HarnessStore, Review, JudgeOutput, failure, answer, transient,
  review_application_run,
}
use auto_jobs_apply.Harness.Review.Verdicts.{JudgedOnce, EndsAs, review_application_run-judged}
use auto_jobs_apply.Harness.Skills.Recording.{record_skill-fresh}
use auto_jobs_apply.Harness.Anomaly.{SystemIssue, detect_anomalies}
use auto_jobs_apply.Harness.Anomaly.Deduplication.{IsDeduplicated, detect_anomalies-IsDeduplicated}

abbrev clean : Detectors
clean = record { patterns = []; person_name = λ content. false }

abbrev hint : SkillRequest
hint = record { domain = "linkedin"; content = "Use Easy Apply"; created_by = "distiller" }

is_clean : pii_clean clean "Use Easy Apply" ≡ true
unfolding pii_clean
is_clean = refl

recorded_once : (record_skill clean hint "s-1" (λ k. []) []).0 ≡ ok (some (new_skill hint "s-1" 1))
recorded_once = ap (λ x. x.0) (record_skill-fresh clean hint "s-1" [] is_clean refl).0

abbrev blocked : Signals
blocked = record {
  haystack = "access denied";
  url = "https://x.org";
  timed_out = false;
  loop_detected = false;
  llm_failed = false;
  consecutive_failures = 3;
}

diagnose-by_priority_example :
    some (diagnose blocked).failure_class ≡ first (select (shows blocked) by_priority)
diagnose-by_priority_example = diagnose-by_priority blocked

abbrev digits : ℕ → String
digits n = "150"

no_issues : IsDeduplicated []
no_issues c = ground arith

detect_anomalies-IsDeduplicated_example :
    let (r, after) = detect_anomalies digits (λ n. "i-1") 10 [] (some 150) [] in
    ((found : List SystemIssue) × (r ≡ ok found)) × IsDeduplicated after
detect_anomalies-IsDeduplicated_example =
    detect_anomalies-IsDeduplicated digits (λ n. "i-1") 10 [] (some 150) [] no_issues

abbrev tip : DomainSkill
tip = record {
  id = "s-1";
  domain = "linkedin";
  version = 1;
  content = "Use Easy Apply";
  score = pos 0;
  status = active;
  pii_checked = true;
  created_by = "distiller";
}

abbrev tips : SkillStore
tips = record { skills = tip ∷ []; feedback = [] }

abbrev minus : SkillFeedback
minus = record { skill_id = "s-1"; delta = negsuc 0; reason = none; run_id = none }

abbrev plus : SkillFeedback
plus = record minus { delta = pos 5 }

failing_skill_retires_example :
    count
      (has_skill_id "s-1")
      (load_skills (λ rows. rows) "linkedin" 5 (feed (plus ∷ []) (fail_times 3 minus tips)).skills)
    ≡ 0
failing_skill_retires_example =
    failing_skill_retires (λ rows. rows) "linkedin" 5 2 minus (plus ∷ []) tips tip (λ p rows. refl)
      (omega arith) refl refl (omega arith)

abbrev run : RunTrajectory
run = record {
  id = "run-1";
  user_id = "alice";
  application_id = "app-1";
  platform = "linkedin";
  agent_self_report = none;
  tokens = 10;
  duration_ms = 20;
  status = "completed";
  skills_used = "s-1" ∷ [];
}

abbrev runs : HarnessStore
runs = record { trajectories = run ∷ []; verdicts = []; diagnoses = []; skill_store = tips }

abbrev reviewer : Review
reviewer = record {
  detectors = clean;
  strip = λ text. text;
  skill_id = "s-2";
  others = λ k. [];
  signals = blocked;
}

abbrev lost : JudgeOutput
lost = record { verdict = failure; reason = "" }

review_application_run-judged_example :
    let out = review_application_run reviewer "r" (answer lost) transient "run-1" runs in
    JudgedOnce "run-1" runs out.1 × EndsAs transient runs out
review_application_run-judged_example =
    review_application_run-judged reviewer "r" "run-1" lost transient runs run refl
