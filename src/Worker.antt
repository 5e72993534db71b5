-- ===== src/Worker.antt =====
-- workers/tasks.py under backend/app: the apply task that consumes the queue. What a live browser run
-- ends in, what the ATS scorer answers and what every other await meets are inputs (`RunOutcome`,
-- `scored`, `Awaits`). Metrics and logs are
-- left out, and so is the job that is only loaded for their labels. Scores are in ten-thousandths,
-- to which the scorer rounds.
pub mod Rows
pub mod Lifecycle
pub mod Retries
pub mod Submissions
pub mod Reposts
use Prim.Native.String.{◌++◌}
use auto_jobs_apply.Prelude.{
  ℕ, ◌+◌, ◌*◌, String, Bool, true, false, not, ◌&&◌, Option, none, some, List, [], ◌∷◌, ltb, leb,
  if◌then◌else◌, contains, any, select, first, is_set, truthy, or_empty, or_default,
}
use auto_jobs_apply.Tx.{Result, Tx, ok, err, pure, ◌>>=◌, ◌>>◌}
use auto_jobs_apply.Models.{ApplicationStatus, applying, applied, failed, Application, Store}
use auto_jobs_apply.Applications.Index.{has_id}
use auto_jobs_apply.Applications.Review.{save}

-- An event that `publish_progress` sends to the channel of a user.
pub record Progress : Type 0 where
  pub user_id : String
  pub application_id : String
  pub status : ApplicationStatus
  pub detail : String

-- The database, and newest first, the events published so far and the ids of the applications
-- handed to `_submit_application` so far.
pub record Env : Type 0 where
  pub store : Store
  pub published : List Progress
  pub submitted : List String

-- Python's text functions: `str.lower`, `str` of an integer, the format `.2f` of a score, and `str`
-- of a score.
pub record Texts : Type 0 where
  pub lower : String → String
  pub str : ℕ → String
  pub two_digits : ℕ → String
  pub shown : ℕ → String

pub record Settings : Type 0 where
  pub live_apply : Bool
  pub min_ats_score : ℕ
  -- whether `ctx` holds a Redis client
  pub has_redis : Bool

-- How `run_apply` ends: with an `ApplicationResult`, with `ApplyPrerequisiteError`, with any
-- other exception, or with the cancellation of the task.
pub data RunOutcome : Type 0 where
  completed : Bool → Option String → Option String → RunOutcome
  prerequisite_error : String → RunOutcome
  run_error : String → RunOutcome
  run_cancelled : RunOutcome

-- How `_submit_application` ends: with a confirmation, with `TransientApplyError`, with any other
-- exception, or with the cancellation.
pub data Submission : Type 0 where
  confirmed : String → Submission
  transient : String → Submission
  refused : String → Submission
  cancelled : Submission

abbrev pub max_tries : ℕ
max_tries = 3

abbrev pub transient_hints : List String
transient_hints =
    "rate limit" ∷ "timeout" ∷ "timed out" ∷ "429" ∷ "503" ∷ "502" ∷ "connection" ∷ "temporarily"
    ∷ "unavailable" ∷ "network" ∷ []

unfoldable pub is_transient : Texts → String → Bool
is_transient texts error = any (λ hint. contains (texts.lower error) hint) transient_hints

unfoldable pub run_submission : Texts → RunOutcome → Submission
run_submission texts (completed true confirmation notes) =
    confirmed (or_default confirmation "submitted")
run_submission texts (completed false confirmation notes) =
    refused (or_default notes "Submission not confirmed by the agent")
run_submission texts (prerequisite_error e) = refused e
run_submission texts (run_error e) = if is_transient texts e then transient e else refused e
run_submission texts run_cancelled = cancelled

unfoldable pub submit_application : Texts → Settings → RunOutcome → Submission
submit_application texts settings outcome =
    if settings.live_apply
    then run_submission texts outcome
    else confirmed "placeholder-confirmation"

-- `_ats_gate_ok`; `scored` is `none` where scoring raises.
unfoldable pub ats_gate_ok : Settings → Option String → Option ℕ → Bool × ℕ
ats_gate_ok settings resume_id none = (true, 0)
ats_gate_ok settings resume_id (some score) =
    if is_set resume_id
    then (not (ltb 0 score && ltb score settings.min_ats_score), score)
    else (true, 0)

abbrev pub saved : Application → Tx Env Application
saved app env = let (r, s) = save app env.store in (r, record env { store = s })

-- What an await meets: nothing, an exception, or the cancellation of the task, by the timeout of the
-- job or the shutdown of the worker.
pub data Signal : Type 0 where
  goes_on fails cut : Signal

-- The awaits of a run, but `_submit_application`: the load of the row; the load of the job or the
-- gate; the commit of the in-flight marker; the commit of the last status; and the publication of a
-- status. A commit that meets something is rolled back, and an event that meets something is lost.
pub record Awaits : Type 0 where
  pub load : Signal
  pub gate : Signal
  pub marking : Signal
  pub ending : Signal
  pub bus : ApplicationStatus → Signal

-- How a run of the task ends: it returns, it raises `Retry(defer=…)`, it is cancelled, or it raises
-- any other exception. One of the unique index is an `err`.
pub data Exit : Type 0 where
  returned : Exit
  retry : ℕ → Exit
  was_cancelled : Exit
  raised : Exit

abbrev pub await_point : Signal → Tx Env Exit → Tx Env Exit
await_point goes_on next = next
await_point fails next = pure raised
await_point cut next = pure was_cancelled

abbrev pub event_of : Application → ApplicationStatus → String → Progress
event_of app status detail = record {
  user_id = app.user_id;
  application_id = app.id;
  status = status;
  detail = detail;
}

-- `await _publish(…)`, and what follows it.
abbrev pub publish :
    Settings → Awaits → Application → ApplicationStatus → String → Tx Env Exit → Tx Env Exit
publish settings awaits app status detail next =
    if settings.has_redis
    then await_point (awaits.bus status)
        (λ env. next (record env { published = event_of app status detail ∷ env.published }))
    else next

-- `await _mark_failed(…)`, after which every caller but the handler of the cancellation returns.
unfoldable pub mark_failed : Settings → Awaits → Application → String → Tx Env Exit
mark_failed settings awaits app note = await_point awaits.ending (do
  app' ← saved (record app { status = failed; notes = some note })
  publish settings awaits app' failed note (pure returned))

-- What follows the call of `_submit_application`.
-- `suppress(Exception)` stands around the marking of a cancelled row.
unfoldable pub after_submission :
    Texts → Settings → Awaits → ℕ → ℕ → Application → Submission → Tx Env Exit
after_submission texts settings awaits job_try now app (confirmed confirmation) =
    await_point awaits.ending (do
      app' ← saved (record app { status = applied; applied_at = some now })
      publish settings awaits app' applied "" (pure returned))
after_submission texts settings awaits job_try now app (transient e) =
    if leb max_tries job_try
    then mark_failed settings awaits app
        ("Apply failed after " ++ (texts.str job_try ++ (" attempts: " ++ e)))
    else pure (retry (job_try * 30))
after_submission texts settings awaits job_try now app (refused e) =
    mark_failed settings awaits app ("Apply failed: " ++ e)
after_submission texts settings awaits job_try now app cancelled =
    λ env. (ok was_cancelled, (mark_failed settings awaits app "Apply cancelled (timeout)" env).1)

abbrev pub is_applied : ApplicationStatus → Bool
is_applied applied = true
is_applied _ = false

abbrev pub record_submission : String → Env → Env
record_submission i env = record env { submitted = i ∷ env.submitted }

-- From the in-flight marker on.
unfoldable pub drive : Texts → Settings → Awaits → ℕ → ℕ → RunOutcome → Application → Tx Env Exit
drive texts settings awaits job_try now outcome app = await_point awaits.marking (do
  app' ← saved (record app { status = applying })
  publish settings awaits app' applying "" (λ env.
      after_submission texts settings awaits job_try now app'
        (submit_application texts settings outcome) (record_submission app'.id env)))

unfoldable pub apply_loaded :
    Texts → Settings → Awaits → ℕ → ℕ → Option ℕ → RunOutcome → Option Application → Tx Env Exit
apply_loaded texts settings awaits job_try now scored outcome none = pure returned
apply_loaded texts settings awaits job_try now scored outcome (some app) =
    let (gate_ok, score) = ats_gate_ok settings app.resume_id scored in
    if is_applied app.status
    then pure returned
    else await_point awaits.gate (
        if gate_ok
        then drive texts settings awaits job_try now outcome app
        else mark_failed settings awaits app (
            "ATS score "
            ++ (texts.two_digits score
                ++ (" below threshold " ++ texts.shown settings.min_ats_score))))

-- `_apply`: one run of the task, the `job_try`-th, on a row that is loaded without a tenant.
unfoldable pub apply :
    Texts → Settings → Awaits → ℕ → ℕ → Option ℕ → RunOutcome → String → Tx Env Exit
apply texts settings awaits job_try now scored outcome application_id =
    await_point awaits.load (λ env.
      apply_loaded texts settings awaits job_try now scored outcome
        (first (select (has_id application_id) env.store.applications)) env)
