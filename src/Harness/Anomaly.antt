-- ===== src/Harness/Anomaly.antt =====
-- core/harness/anomaly.py and SystemIssue of models/harness.py under backend/app. Times are numbers
-- of hours; `failed / total >= 0.5` is read as `total <= 2 * failed`. `str` is Python's text of an
-- integer, and `depth` is none where there is no Redis, and 0 where reading it raises.
pub mod Deduplication
use Prim.Native.String.{◌++◌ as append}
use auto_jobs_apply.Prelude.{
  ℕ, ◌+◌, ◌*◌, ◌-◌, ◌≤◌, String, Bool, true, false, not, ◌&&◌, ◌≡◌, refl, sym, ap, ◌∙◌, inl, inr,
  Option, none, some, List, [], ◌∷◌, ◌++◌, arith, str_eq, str_eq_self, str_eq→eq, leb, ltb,
  if◌then◌else◌, Bool-cases, any, count, select, update, first, length, length-append,
  count-update_same, count-append, any-eq-false, count-eq-zero, first-select-none,
  first-select-some, first-select-holds,
}
use auto_jobs_apply.Tx.{Result, Tx, ok, err, pure, lift, ◌>>=◌, scalar_one_or_none, scalar-first}
use auto_jobs_apply.Models.{Application, ApplicationStatus, failed}

pub data IssueSignals : Type 0 where
  failure_rate : (total failures window_hours : ℕ) → IssueSignals
  backlog : (depth : ℕ) → IssueSignals

pub record SystemIssue : Type 0 where
  pub id : String
  pub category : String
  pub severity : String
  pub signals : IssueSignals
  pub diagnosis : String
  pub status : String
  pub detected_at : ℕ

-- The keyword arguments of `_upsert_issue`.
pub record Anomaly : Type 0 where
  pub category : String
  pub severity : String
  pub signals : IssueSignals
  pub diagnosis : String

abbrev pub is_open_of : String → SystemIssue → Bool
is_open_of category r = str_eq r.category category && str_eq r.status "open"

abbrev pub new_issue : String → ℕ → Anomaly → SystemIssue
new_issue id now a = record {
  id = id;
  category = a.category;
  severity = a.severity;
  signals = a.signals;
  diagnosis = a.diagnosis;
  status = "open";
  detected_at = now;
}

abbrev pub refreshed : ℕ → Anomaly → SystemIssue → SystemIssue
refreshed now a r = record r {
  severity = a.severity;
  signals = a.signals;
  diagnosis = a.diagnosis;
  detected_at = now;
}

abbrev has_issue_id : String → SystemIssue → Bool
has_issue_id i r = str_eq r.id i

abbrev pub refreshed_or_new :
    String → ℕ → Anomaly → Option SystemIssue → Tx (List SystemIssue) SystemIssue
refreshed_or_new id now a (some existing) issues =
    (ok (refreshed now a existing), update (has_issue_id existing.id) (refreshed now a) issues)
refreshed_or_new id now a none issues = (ok (new_issue id now a), issues ++ new_issue id now a ∷ [])

unfoldable pub upsert_issue : String → ℕ → Anomaly → Tx (List SystemIssue) SystemIssue
upsert_issue id now a issues =
    (do
      existing ← lift (scalar_one_or_none (select (is_open_of a.category) issues))
      refreshed_or_new id now a existing)
      issues

abbrev is_failed : ApplicationStatus → Bool
is_failed failed = true
is_failed _ = false

abbrev pub recent : ℕ → Application → Bool
recent now r = leb (now - 6) r.created_at

abbrev pub failure_anomaly : (ℕ → String) → ℕ → ℕ → Anomaly
failure_anomaly str total failures = record {
  category = "apply_failure_rate";
  severity = "critical";
  signals = failure_rate total failures 6;
  diagnosis = append (str failures) (append "/" (append (str total) " apps FAILED in the last 6h"));
}

abbrev pub backlog_anomaly : (ℕ → String) → ℕ → Anomaly
backlog_anomaly str depth = record {
  category = "queue_depth";
  severity = "warning";
  signals = backlog depth;
  diagnosis = append "Queue backlog: " (str depth);
}

-- The anomalies that hold, in the order of the checks.
unfoldable pub anomalies : (ℕ → String) → ℕ → List Application → Option ℕ → List Anomaly
anomalies str now apps depth =
    let total = count (recent now) apps in
    let failures = count (λ r. is_failed r.status && recent now r) apps in
    let rest : List Anomaly = elim depth [
      | none ↦ []
      | some d ↦ if ltb 100 d then backlog_anomaly str d ∷ [] else []
    ] in
    if leb 5 total && leb total (2 * failures)
    then failure_anomaly str total failures ∷ rest
    else rest

unfoldable pub upsert_all :
    (ℕ → String) → ℕ → List Anomaly → Tx (List SystemIssue) (List SystemIssue)
upsert_all uuid now [] issues = (ok [], issues)
upsert_all uuid now (a ∷ rest) issues =
    (do
      issue ← upsert_issue (uuid (length rest)) now a
      more ← upsert_all uuid now rest
      pure (issue ∷ more))
      issues

-- The commit comes last: where an exception leaves the function, nothing is stored.
abbrev committed :
    List SystemIssue
    → Result (List SystemIssue) × List SystemIssue
    → Result (List SystemIssue) × List SystemIssue
committed before (ok found, after) = (ok found, after)
committed before (err e, after) = (err e, before)

unfoldable pub detect_anomalies :
    (ℕ → String)
    → (ℕ → String)
    → ℕ
    → List Application
    → Option ℕ
    → Tx (List SystemIssue) (List SystemIssue)
detect_anomalies str uuid now apps depth issues =
    committed issues (upsert_all uuid now (anomalies str now apps depth) issues)
