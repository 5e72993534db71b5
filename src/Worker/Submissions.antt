-- ===== src/Worker/Submissions.antt =====
-- Which applications the apply task hands to `_submit_application`.
use Prim.Native.String.{◌++◌}
use auto_jobs_apply.Prelude.{
  ℕ, String, Bool, true, false, not, ◌&&◌, ◌||◌, ◌⊎◌, ◌≡◌, refl, ◌∙◌, inl, inr, Option, some, List,
  [], ◌∷◌, arith, leb, if◌then◌else◌, Bool-cases, any, count,
}
use auto_jobs_apply.Tx.{Result, Tx, ok, err, resume_with, ◌>>=◌}
use auto_jobs_apply.Models.{
  ApplicationStatus, applying, applied, failed, withdrawn, Application, Store, is_active, holds,
}
use auto_jobs_apply.Applications.Index.{is_other, write}
use auto_jobs_apply.Applications.Review.{save}
use auto_jobs_apply.Applications.Review.Outcome.{replaced}
use auto_jobs_apply.Worker.{
  Env, Texts, Settings, Awaits, Signal, goes_on, fails, cut, await_point, RunOutcome, Submission,
  confirmed, transient, refused, cancelled, max_tries, submit_application, ats_gate_ok, saved,
  event_of, publish, mark_failed, Exit, after_submission, is_applied, drive, apply_loaded, returned,
  record_submission, apply,
}
use auto_jobs_apply.Worker.Rows.{row, Row, saved_lem}
use auto_jobs_apply.Worker.Lifecycle.{as_applying}

-- Whether an await meets nothing.
abbrev pub is_on : Signal → Bool
is_on goes_on = true
is_on _ = false

await_point-submitted :
    (signal : Signal) (next : Tx Env Exit) (env : Env)
    → (next env).1.submitted ≡ env.submitted
    → (await_point signal next env).1.submitted ≡ env.submitted
await_point-submitted goes_on next env h = h
await_point-submitted fails next env h = refl
await_point-submitted cut next env h = refl

publish-submitted :
    (settings : Settings) (awaits : Awaits) (app : Application) (st : ApplicationStatus)
    (d : String) (env : Env)
    → (publish settings awaits app st d (λ x. (ok returned, x)) env).1.submitted ≡ env.submitted
publish-submitted settings awaits app st d env = elim (Bool-cases settings.has_redis) [
  | inl e ↦ rw e (await_point-submitted (awaits.bus st) _ env refl)
  | inr e ↦ rw e refl
]

saved-submitted :
    (settings : Settings) (awaits : Awaits) (a : Application) (st : ApplicationStatus) (d : String)
    (env : Env)
    → ((do app' ← saved a; publish settings awaits app' st d (λ x. (ok returned, x)))
        env).1.submitted
      ≡ env.submitted
saved-submitted settings awaits a st d env = by_result (save a env.store)
  where
    by_result :
        (out : Result Application × Store)
        → (resume_with out.0
            (λ app'. publish settings awaits app' st d (λ x. (ok returned, x)))
            (record env { store = out.1 })).1.submitted
          ≡ env.submitted
    by_result (ok app', s) = publish-submitted settings awaits app' st d (record env { store = s })
    by_result (err e, s) = refl

mark_failed-submitted :
    (settings : Settings) (awaits : Awaits) (r : Application) (note : String) (env : Env)
    → (mark_failed settings awaits r note env).1.submitted ≡ env.submitted
unfolding mark_failed
mark_failed-submitted settings awaits r note env =
    await_point-submitted awaits.ending _ env (saved-submitted settings awaits _ failed note env)

after_submission-submitted :
    (texts : Texts) (settings : Settings) (awaits : Awaits) (job_try now : ℕ) (app : Application)
    (s : Submission) (env : Env)
    → (after_submission texts settings awaits job_try now app s env).1.submitted ≡ env.submitted
unfolding after_submission
after_submission-submitted texts settings awaits job_try now app (confirmed c) env =
    await_point-submitted awaits.ending _ env (saved-submitted settings awaits _ applied "" env)
after_submission-submitted texts settings awaits job_try now app (transient e) env =
    elim (Bool-cases (leb max_tries job_try)) [
      | inl last ↦ rw last (mark_failed-submitted settings awaits app _ env)
      | inr more ↦ rw more
    ]
after_submission-submitted texts settings awaits job_try now app (refused e) env =
    mark_failed-submitted settings awaits app _ env
after_submission-submitted texts settings awaits job_try now app cancelled env =
    mark_failed-submitted settings awaits app "Apply cancelled (timeout)" env

-- Whether the commit of the in-flight marker and its publication meet nothing.
abbrev pub is_marked : Settings → Awaits → Bool
is_marked settings awaits =
    is_on awaits.marking && (not settings.has_redis || is_on (awaits.bus applying))

drive-submitted :
    (texts : Texts) (settings : Settings) (awaits : Awaits) (job_try now : ℕ) (outcome : RunOutcome)
    (r : Application) (env : Env) (s : Store)
    → save (as_applying r) env.store ≡ (ok (as_applying r), s)
    → (drive texts settings awaits job_try now outcome r env).1.submitted
      ≡ (if is_marked settings awaits then r.id ∷ env.submitted else env.submitted)
unfolding drive
drive-submitted texts settings awaits job_try now outcome r env s h =
    by_marking awaits.marking settings.has_redis (awaits.bus applying)
  where
    by_marking :
        (marking : Signal) (redis : Bool) (bus : Signal)
        → (await_point marking
            (do
              app' ← saved (as_applying r)
              λ x.
                  (if redis
                      then await_point bus (λ y.
                        after_submission texts settings awaits job_try now app'
                          (submit_application texts settings outcome)
                          (record_submission app'.id
                            (record y { published = event_of app' applying "" ∷ y.published })))
                      else (λ y.
                          after_submission texts settings awaits job_try now app'
                            (submit_application texts settings outcome)
                            (record_submission app'.id y)))
                    x)
            env).1.submitted
          ≡ (if is_on marking && (not redis || is_on bus)
              then r.id ∷ env.submitted
              else env.submitted)
    by_marking fails redis bus = refl
    by_marking cut redis bus = refl
    by_marking goes_on false bus = rw h (
        after_submission-submitted texts settings awaits job_try now (as_applying r)
          (submit_application texts settings outcome) _)
    by_marking goes_on true fails = rw h refl
    by_marking goes_on true cut = rw h refl
    by_marking goes_on true goes_on = rw h (
        after_submission-submitted texts settings awaits job_try now (as_applying r)
          (submit_application texts settings outcome) _)

-- Whether the loads and the gate meet nothing, apart from the gate's verdict.
abbrev pub is_started : Awaits → Bool
is_started awaits = is_on awaits.load && is_on awaits.gate

module _ (texts : Texts) (settings : Settings) (awaits : Awaits) (job_try now : ℕ)
    (scored : Option ℕ) (outcome : RunOutcome) (i : String) (env : Env) (r : Application) where
  abbrev passes : Bool
  passes = (ats_gate_ok settings r.resume_id scored).0

  apply_loaded-submitted :
      (s : Store)
      → is_applied r.status ≡ false
      → save (as_applying r) env.store ≡ (ok (as_applying r), s)
      → (apply_loaded texts settings awaits job_try now scored outcome (some r) env).1.submitted ≡ (
          if is_on awaits.gate && (passes && is_marked settings awaits)
          then r.id ∷ env.submitted
          else env.submitted)
  unfolding apply_loaded
  apply_loaded-submitted s fresh h = rw fresh (by_gate awaits.gate (Bool-cases passes))
    where
      rest : Tx Env Exit
      rest =
          if passes
          then drive texts settings awaits job_try now outcome r
          else mark_failed settings awaits r (
              "ATS score "
              ++ (texts.two_digits (ats_gate_ok settings r.resume_id scored).1
                  ++ (" below threshold " ++ texts.shown settings.min_ats_score)))

      by_gate :
          (gate : Signal)
          → (passes ≡ true) ⊎ (passes ≡ false)
          → (await_point gate rest env).1.submitted ≡ (
              if is_on gate && (passes && is_marked settings awaits)
              then r.id ∷ env.submitted
              else env.submitted)
      by_gate fails c = refl
      by_gate cut c = refl
      by_gate goes_on (inl pass) =
          rw pass (drive-submitted texts settings awaits job_try now outcome r env s h)
      by_gate goes_on (inr stop) = rw stop (mark_failed-submitted settings awaits r _ env)

  apply_saved :
      (s : Store)
      → row i env ≡ some r
      → is_applied r.status ≡ false
      → save (as_applying r) env.store ≡ (ok (as_applying r), s)
      → (apply texts settings awaits job_try now scored outcome i env).1.submitted ≡ (
          if is_started awaits && (passes && is_marked settings awaits)
          then r.id ∷ env.submitted
          else env.submitted)
  unfolding apply
  apply_saved s found fresh h = by_load awaits.load
    where
      by_load :
          (load : Signal)
          → (await_point load
              (λ x. apply_loaded texts settings awaits job_try now scored outcome (row i x) x)
              env).1.submitted
            ≡ (if (is_on load && is_on awaits.gate) && (passes && is_marked settings awaits)
                then r.id ∷ env.submitted
                else env.submitted)
      by_load fails = refl
      by_load cut = refl
      by_load goes_on = rw found (apply_loaded-submitted s fresh h)

-- The apply task hands an active row that is not applied to `_submit_application` exactly once in
-- each run that the ATS gate lets pass and in which no await before the submission raises or is
-- cancelled, and not at all in any other run.
pub apply-submitted :
    (texts : Texts) (settings : Settings) (awaits : Awaits) (job_try now : ℕ) (scored : Option ℕ)
    (outcome : RunOutcome) (i : String) (env : Env) (r : Application)
    → Row i env r
    → is_active r ≡ true
    → is_applied r.status ≡ false
    → (apply texts settings awaits job_try now scored outcome i env).1.submitted ≡ (
        if is_started awaits
          && ((ats_gate_ok settings r.resume_id scored).0 && is_marked settings awaits)
        then r.id ∷ env.submitted
        else env.submitted)
apply-submitted texts settings awaits job_try now scored outcome i env r h act fresh =
    apply_saved texts settings awaits job_try now scored outcome i env r _ h.found fresh
      (saved_lem i env (as_applying r) r h act (refl, refl, refl))

no_other :
    (a : Application) (rows : List Application)
    → count (holds a.user_id a.job_id) rows ≡ 0
    → any (is_other a) rows ≡ false
no_other a [] h = refl
no_other a (r ∷ rows) h = ground (arith, no_other a rows)

-- The task checks for the status applied alone: an application that its user has withdrawn is
-- submitted all the same, if the gate lets it pass, no other application for the job is active, and
-- no await before the submission raises or is cancelled.
pub withdrawn_submitted :
    (texts : Texts) (settings : Settings) (awaits : Awaits) (job_try now : ℕ) (scored : Option ℕ)
    (outcome : RunOutcome) (i : String) (env : Env) (r : Application)
    → row i env ≡ some r
    → r.status ≡ withdrawn
    → count (holds r.user_id r.job_id) env.store.applications ≡ 0
    → (ats_gate_ok settings r.resume_id scored).0 ≡ true
    → is_started awaits ≡ true
    → is_marked settings awaits ≡ true
    → (apply texts settings awaits job_try now scored outcome i env).1.submitted
      ≡ r.id ∷ env.submitted
unfolding write save
withdrawn_submitted texts settings awaits job_try now scored outcome i env r h st free pass on
      marked =
    let w : save (as_applying r) env.store
        ≡ (ok (as_applying r), replaced (as_applying r) env.store) =
      rw (no_other (as_applying r) env.store.applications free) in
    let not_applied : is_applied r.status ≡ false = ground arith in
    apply_saved texts settings awaits job_try now scored outcome i env r _ h not_applied w
    ∙ rw (on, pass, marked) refl
