-- ===== src/Worker/Retries.antt =====
-- The retries of the apply task. Arq runs a job again after `Retry`, and after a cancellation by the
-- shutdown of the worker, with the next `job_try`, up to `WorkerSettings.max_tries` times; any other
-- end is the end of the job. `run_tries` is that loop, with the tries that are left.
use auto_jobs_apply.Prelude.{
  ℕ, zero, suc, ◌+◌, ◌≤◌, ◌<◌, String, Bool, true, false, ◌≡◌, refl, sym, subst, ◌∙◌, ◌⊎◌, inr,
  Option, arith,
}
use auto_jobs_apply.Tx.{Result, ok, err}
use auto_jobs_apply.Models.{applying, applied, failed, Application, is_active}
use auto_jobs_apply.Worker.{
  Env, Texts, Settings, Awaits, goes_on, fails, RunOutcome, max_tries, ats_gate_ok, Exit, returned,
  retry, was_cancelled, raised, is_applied, apply,
}
use auto_jobs_apply.Worker.Rows.{Row, with_row-Row}
use auto_jobs_apply.Worker.Lifecycle.{IsQuiet, Ended, apply-Ended, as_applying, apply-stuck}

-- What the tries meet: the scorer's answers, the outcomes of the browser runs, the other awaits, the
-- times, and whether a cancellation comes from the shutdown of the worker.
pub record Tries : Type 0 where
  pub scored : ℕ → Option ℕ
  pub outcome : ℕ → RunOutcome
  pub awaits : ℕ → Awaits
  pub now : ℕ → ℕ
  pub shut_down : ℕ → Bool

abbrev again : Bool → Result Exit × Env → (Env → Result Exit × Env) → Result Exit × Env
again shut_down (ok (retry delay), env) next = next env
again shut_down (ok returned, env) next = (ok returned, env)
again true (ok was_cancelled, env) next = next env
again false (ok was_cancelled, env) next = (ok was_cancelled, env)
again shut_down (ok raised, env) next = (ok raised, env)
again shut_down (err e, env) next = (err e, env)

unfoldable pub run_tries :
    Texts → Settings → Tries → String → (left job_try : ℕ) → Env → Result Exit × Env
run_tries texts settings tries i zero job_try env = (ok (retry 0), env)
run_tries texts settings tries i (suc left) job_try env =
    let run =
      apply texts settings (tries.awaits job_try) job_try (tries.now job_try) (tries.scored job_try)
        (tries.outcome job_try) i env in
    again (tries.shut_down job_try) run (run_tries texts settings tries i left (job_try + 1))

unfoldable pub apply_to_job : Texts → Settings → Tries → String → Env → Result Exit × Env
unfolding run_tries
apply_to_job texts settings tries i = run_tries texts settings tries i max_tries 1

-- The run did not end in an error or a retry, and the row is applied or failed.
abbrev IsDone : Result Exit → Type 0
IsDone (ok returned) = Unit
IsDone (ok was_cancelled) = Unit
IsDone _ = ⊥

pub record Settled (i : String) (r : Application) (answer : Result Exit × Env) : Type 0 where
  pub final : Application
  pub at_end : Row i answer.1 final
  pub key : (final.id ≡ r.id) × (final.user_id ≡ r.user_id) × (final.job_id ≡ r.job_id)
  pub status : (final.status ≡ applied) ⊎ (final.status ≡ failed)
  pub done : IsDone answer.0

applying-again :
    (a : Application) → a.status ≡ applying → (is_active a ≡ true) × (is_applied a.status ≡ false)
applying-again a h = ground arith

again-Settled :
    (i : String) (r : Application) (job_try : ℕ) (answer : Result Exit × Env)
    (next : Env → Result Exit × Env)
    → Ended i job_try r answer
    → ((env : Env) (a : Application)
        → job_try < max_tries
        → Row i env a
        → a.status ≡ applying
        → Settled i a (next env))
    → Settled i r (again false answer next)
again-Settled i r job_try (ok returned, env) next e more = record {
  final = e.final;
  at_end = e.at_end;
  key = e.key;
  status = e.status;
  done = tt;
}
again-Settled i r job_try (ok (retry d), env) next e more =
    let s = more env e.final e.status.1 e.at_end e.status.0 in
    record {
      final = s.final;
      at_end = s.at_end;
      key = (s.key.0 ∙ e.key.0, s.key.1 ∙ e.key.1, s.key.2 ∙ e.key.2);
      status = s.status;
      done = s.done;
    }
again-Settled i r job_try (ok was_cancelled, env) next e more = record {
  final = e.final;
  at_end = e.at_end;
  key = e.key;
  status = inr e.status;
  done = tt;
}
again-Settled i r job_try (ok raised, env) next e more = absurd e.status
again-Settled i r job_try (err x, env) next e more = absurd e.status

-- Nothing is met but in `_submit_application`, and the worker is not shut down.
pub record IsUndisturbed (tries : Tries) : Type 0 where
  pub quiet : (n : ℕ) → IsQuiet (tries.awaits n)
  pub running : (n : ℕ) → tries.shut_down n ≡ false

run_tries-Settled :
    (texts : Texts) (settings : Settings) (tries : Tries) (i : String) (left job_try : ℕ)
    (env : Env) (r : Application)
    → left + job_try ≡ max_tries + 1
    → job_try ≤ max_tries
    → IsUndisturbed tries
    → Row i env r
    → is_active r ≡ true
    → is_applied r.status ≡ false
    → Settled i r (run_tries texts settings tries i left job_try env)
unfolding run_tries
run_tries-Settled texts settings tries i zero job_try env r n le calm h act fresh =
    absurd (omega arith)
run_tries-Settled texts settings tries i (suc left) job_try env r n le calm h act fresh =
    let run =
      apply texts settings (tries.awaits job_try) job_try (tries.now job_try) (tries.scored job_try)
        (tries.outcome job_try) i env in
    let next = run_tries texts settings tries i left (job_try + 1) in
    subst (λ b. Settled i r (again b run next)) (sym (calm.running job_try))
      (again-Settled i r job_try run next
        (apply-Ended texts settings (tries.awaits job_try) job_try (tries.now job_try)
          (tries.scored job_try) (tries.outcome job_try) i env r (calm.quiet job_try) h act fresh)
        (λ env' a lt h' st.
          let (act', fresh') = applying-again a st in
          run_tries-Settled texts settings tries i left (job_try + 1) env' a (omega arith)
            (omega arith) calm h' act' fresh'))

-- Whatever the scorer and the browser runs answer, a timeout of the job in `_submit_application`
-- included, an apply job on an active row that is not applied is over after at most three tries,
-- without an error of the database, and leaves the row applied or failed, never applying, if no
-- other await raises or is cancelled and the worker is not shut down.
pub apply_to_job-Settled :
    (texts : Texts) (settings : Settings) (tries : Tries) (i : String) (env : Env) (r : Application)
    → IsUndisturbed tries
    → Row i env r
    → is_active r ≡ true
    → is_applied r.status ≡ false
    → Settled i r (apply_to_job texts settings tries i env)
unfolding apply_to_job
apply_to_job-Settled texts settings tries i env r calm h act fresh =
    run_tries-Settled texts settings tries i max_tries 1 env r refl (omega arith) calm h act fresh

-- Where Redis raises as the first try publishes the in-flight marker, the apply job is over with that
-- exception: it is not tried again, nothing was submitted, and the row is left applying.
pub apply_to_job-stuck :
    (texts : Texts) (settings : Settings) (tries : Tries) (i : String) (env : Env) (r : Application)
    → (tries.awaits 1).load ≡ goes_on
    → (tries.awaits 1).gate ≡ goes_on
    → (tries.awaits 1).marking ≡ goes_on
    → (tries.awaits 1).bus applying ≡ fails
    → settings.has_redis ≡ true
    → Row i env r
    → is_active r ≡ true
    → is_applied r.status ≡ false
    → (ats_gate_ok settings r.resume_id (tries.scored 1)).0 ≡ true
    → let (exit, after) = apply_to_job texts settings tries i env in
      (exit ≡ ok raised) × Row i after (as_applying r) × (after.submitted ≡ env.submitted)
unfolding apply_to_job run_tries
apply_to_job-stuck texts settings tries i env r load gate marking lost redis h act fresh pass =
    let run =
      apply-stuck texts settings (tries.awaits 1) 1 (tries.now 1) (tries.scored 1) (tries.outcome 1)
        i env r load gate marking lost redis h act fresh pass in
    let next = run_tries texts settings tries i 2 2 in
    subst
      (λ x.
        let (exit, after) = again (tries.shut_down 1) x next in
        (exit ≡ ok raised) × Row i after (as_applying r) × (after.submitted ≡ env.submitted))
      (sym run) (refl, with_row-Row i env (as_applying r) r h act (refl, refl, refl), refl)
