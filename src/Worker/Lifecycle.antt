-- ===== src/Worker/Lifecycle.antt =====
-- What one run of the apply task leaves of the row that it works on.
use auto_jobs_apply.Prelude.{
  ℕ, ◌*◌, ◌<◌, String, true, false, ◌≡◌, refl, sym, subst, ◌⊎◌, inl, inr, Option, some, ◌∷◌, arith,
  leb, if◌then◌else◌, Bool-cases,
}
use auto_jobs_apply.Tx.{Result, Tx, ok, err}
use auto_jobs_apply.Models.{ApplicationStatus, applying, applied, failed, Application, is_active}
use auto_jobs_apply.Worker.{
  Env, Texts, Settings, Awaits, goes_on, fails, RunOutcome, Submission, confirmed, transient,
  refused, cancelled, max_tries, submit_application, ats_gate_ok, event_of, publish, mark_failed,
  Exit, returned, retry, was_cancelled, raised, after_submission, is_applied, record_submission,
  drive, apply_loaded, apply,
}
use auto_jobs_apply.Worker.Rows.{Row, SameKey, with_row, saved_lem, with_row-Row}

-- No await but the submission meets anything.
pub record IsQuiet (awaits : Awaits) : Type 0 where
  pub on_load : awaits.load ≡ goes_on
  pub on_gate : awaits.gate ≡ goes_on
  pub on_marking : awaits.marking ≡ goes_on
  pub on_ending : awaits.ending ≡ goes_on
  pub on_bus : (st : ApplicationStatus) → awaits.bus st ≡ goes_on

abbrev announced : Settings → Application → ApplicationStatus → String → Env → Env
announced settings app st d env =
    if settings.has_redis then record env { published = event_of app st d ∷ env.published } else env

-- An event that is published leaves the database alone.
announced-Row :
    (i : String) (settings : Settings) (app : Application) (st : ApplicationStatus) (d : String)
    (env : Env) (a : Application)
    → Row i env a
    → Row i (announced settings app st d env) a
announced-Row i settings app st d env a h = elim (Bool-cases settings.has_redis) [
  | inl e ↦ rw e (record { table = h.table; found = h.found })
  | inr e ↦ rw e h
]

publish_lem :
    (settings : Settings) (awaits : Awaits) (app : Application) (st : ApplicationStatus)
    (d : String) (next : Tx Env Exit) (env : Env)
    → awaits.bus st ≡ goes_on
    → publish settings awaits app st d next env ≡ next (announced settings app st d env)
publish_lem settings awaits app st d next env h = elim (Bool-cases settings.has_redis) [
  | inl e ↦ rw (e, h) refl
  | inr e ↦ rw e refl
]

abbrev as_failed : Application → String → Application
as_failed r note = record r { status = failed; notes = some note }

mark_failed_lem :
    (i : String) (settings : Settings) (awaits : Awaits) (r : Application) (note : String)
    (env : Env)
    → IsQuiet awaits
    → Row i env r
    → is_active r ≡ true
    → ((mark_failed settings awaits r note env).0 ≡ ok returned)
      × Row i (mark_failed settings awaits r note env).1 (as_failed r note)
unfolding mark_failed
mark_failed_lem i settings awaits r note env quiet h act =
    let a = as_failed r note in
    let s = saved_lem i env a r h act (refl, refl, refl) in
    rw
      (
        quiet.on_ending,
        s,
        publish_lem settings awaits a failed note (λ x. (ok returned, x)) (with_row a env)
            (quiet.on_bus failed),
      )
      (
        refl,
        announced-Row i settings a failed note (with_row a env) a
            (with_row-Row i env a r h act (refl, refl, refl)),
      )

-- How the exit of the `job_try`-th run goes with the status of the row afterwards.
abbrev pub StatusAfter : ℕ → Result Exit → ApplicationStatus → Type 0
StatusAfter job_try (ok returned) st = (st ≡ applied) ⊎ (st ≡ failed)
StatusAfter job_try (ok (retry delay)) st =
    (st ≡ applying) × (job_try < max_tries) × (delay ≡ job_try * 30)
StatusAfter job_try (ok was_cancelled) st = st ≡ failed
StatusAfter job_try (ok raised) st = ⊥
StatusAfter job_try (err e) st = ⊥

pub record Ended (i : String) (job_try : ℕ) (r : Application) (answer : Result Exit × Env)
    : Type 0 where
  pub final : Application
  pub at_end : Row i answer.1 final
  pub key : SameKey final r
  pub status : StatusAfter job_try answer.0 final.status

marked-Ended :
    (i : String) (settings : Settings) (awaits : Awaits) (job_try : ℕ) (r : Application)
    (note : String) (env : Env)
    → IsQuiet awaits
    → Row i env r
    → is_active r ≡ true
    → Ended i job_try r (mark_failed settings awaits r note env)
marked-Ended i settings awaits job_try r note env quiet h act =
    let (answer, after) = mark_failed_lem i settings awaits r note env quiet h act in
    record {
      final = as_failed r note;
      at_end = after;
      key = (refl, refl, refl);
      status = subst (λ x. StatusAfter job_try x failed) (sym answer) (inr refl);
    }

applying-active : (app : Application) → app.status ≡ applying → is_active app ≡ true
applying-active app st = ground arith

after_submission-Ended :
    (i : String) (texts : Texts) (settings : Settings) (awaits : Awaits) (job_try now : ℕ)
    (app : Application) (s : Submission) (env : Env)
    → IsQuiet awaits
    → Row i env app
    → app.status ≡ applying
    → Ended i job_try app (after_submission texts settings awaits job_try now app s env)
unfolding after_submission
after_submission-Ended i texts settings awaits job_try now app (confirmed c) env quiet h st =
    let a = record app { status = applied; applied_at = some now } in
    let act = applying-active app st in
    let s = saved_lem i env a app h act (refl, refl, refl) in
    rw
      (
        quiet.on_ending,
        s,
        publish_lem settings awaits a applied "" (λ x. (ok returned, x)) (with_row a env)
            (quiet.on_bus applied),
      )
      (record {
        final = a;
        at_end =
            announced-Row i settings a applied "" (with_row a env) a
              (with_row-Row i env a app h act (refl, refl, refl));
        key = (refl, refl, refl);
        status = inl refl;
      })
after_submission-Ended i texts settings awaits job_try now app (transient e) env quiet h st =
    elim (Bool-cases (leb max_tries job_try)) [
      | inl last ↦
          rw last
            (marked-Ended i settings awaits job_try app _ env quiet h (applying-active app st))
      | inr more ↦ rw more (record {
        final = app;
        at_end = h;
        key = (refl, refl, refl);
        status = (st, ground arith, refl);
      })
    ]
after_submission-Ended i texts settings awaits job_try now app (refused e) env quiet h st =
    marked-Ended i settings awaits job_try app _ env quiet h (applying-active app st)
after_submission-Ended i texts settings awaits job_try now app cancelled env quiet h st =
    let note : String = "Apply cancelled (timeout)" in
    let (_, after) =
      mark_failed_lem i settings awaits app note env quiet h (applying-active app st) in
    record { final = as_failed app note; at_end = after; key = (refl, refl, refl); status = refl }

abbrev pub as_applying : Application → Application
as_applying r = record r { status = applying }

record_submission-Row :
    (i j : String) (env : Env) (a : Application) → Row i env a → Row i (record_submission j env) a
record_submission-Row i j env a h = record { table = h.table; found = h.found }

drive-Ended :
    (i : String) (texts : Texts) (settings : Settings) (awaits : Awaits) (job_try now : ℕ)
    (outcome : RunOutcome) (r : Application) (env : Env)
    → IsQuiet awaits
    → Row i env r
    → is_active r ≡ true
    → Ended i job_try r (drive texts settings awaits job_try now outcome r env)
unfolding drive after_submission mark_failed
drive-Ended i texts settings awaits job_try now outcome r env quiet h act =
    let a = as_applying r in
    let begun =
      announced-Row i settings a applying "" (with_row a env) a
        (with_row-Row i env a r h act (refl, refl, refl)) in
    let ended =
      after_submission-Ended i texts settings awaits job_try now a
        (submit_application texts settings outcome)
        (record_submission r.id (announced settings a applying "" (with_row a env))) quiet
        (record_submission-Row i r.id _ a begun) refl in
    rw
      (
        quiet.on_marking,
        saved_lem i env a r h act (refl, refl, refl),
        publish_lem settings awaits a applying "" _ (with_row a env) (quiet.on_bus applying),
      )
      (record {
        final = ended.final;
        at_end = ended.at_end;
        key = ended.key;
        status = ended.status;
      })

-- One run of the task on an active row that is not applied, in which no await but that of
-- `_submit_application` raises or is cancelled, raises neither an error of the database nor any other
-- exception but Retry. If it returns, the row is applied or failed; if it raises Retry, this was not
-- the last of the three tries, the row is marked applying and the delay is 30 seconds for each try so
-- far; if `_submit_application` is cancelled, the row is failed. The id, owner and job of the row
-- stay, and so do the primary key and the unique index.
pub apply-Ended :
    (texts : Texts) (settings : Settings) (awaits : Awaits) (job_try now : ℕ) (scored : Option ℕ)
    (outcome : RunOutcome) (i : String) (env : Env) (r : Application)
    → IsQuiet awaits
    → Row i env r
    → is_active r ≡ true
    → is_applied r.status ≡ false
    → Ended i job_try r (apply texts settings awaits job_try now scored outcome i env)
unfolding apply apply_loaded drive after_submission mark_failed
apply-Ended texts settings awaits job_try now scored outcome i env r quiet h act fresh =
    rw (quiet.on_load, h.found, fresh, quiet.on_gate)
      (elim (Bool-cases (ats_gate_ok settings r.resume_id scored).0) [
        | inl pass ↦
            rw pass (drive-Ended i texts settings awaits job_try now outcome r env quiet h act)
        | inr stop ↦ rw stop (marked-Ended i settings awaits job_try r _ env quiet h act)
      ])

-- A run that gets to the in-flight marker, and whose publication of it raises, ends in that
-- exception: the row is left applying, and nothing is submitted.
pub apply-stuck :
    (texts : Texts) (settings : Settings) (awaits : Awaits) (job_try now : ℕ) (scored : Option ℕ)
    (outcome : RunOutcome) (i : String) (env : Env) (r : Application)
    → awaits.load ≡ goes_on
    → awaits.gate ≡ goes_on
    → awaits.marking ≡ goes_on
    → awaits.bus applying ≡ fails
    → settings.has_redis ≡ true
    → Row i env r
    → is_active r ≡ true
    → is_applied r.status ≡ false
    → (ats_gate_ok settings r.resume_id scored).0 ≡ true
    → apply texts settings awaits job_try now scored outcome i env
      ≡ (ok raised, with_row (as_applying r) env)
unfolding apply apply_loaded drive
apply-stuck texts settings awaits job_try now scored outcome i env r load gate marking lost redis h
      act fresh pass =
    rw
      (
        load,
        h.found,
        fresh,
        gate,
        pass,
        marking,
        saved_lem i env (as_applying r) r h act (refl, refl, refl),
        redis,
        lost,
      )
      refl
