-- ===== src/Worker/Reposts.antt =====
-- A repeated POST /applications for a job that was applied to, followed by the apply task.
use Prim.Native.String.{◌++◌}
use auto_jobs_apply.Prelude.{
  ℕ, String, Bool, true, false, ◌&&◌, ◌≡◌, refl, sym, ◌∙◌, subst, Option, some, ◌∷◌, first, select,
  str_eq_self, first-select-holds,
}
use auto_jobs_apply.Models.{queued, applied, autonomous, Application, Store, is_active, holds}
use auto_jobs_apply.Applications.Index.{IsConsistent, has_id, holds-active, first-select-only}
use auto_jobs_apply.Applications.Create.{ApplicationCreate}
use auto_jobs_apply.Applications.Create.Outcome.{StoreIsConsistent, sees_job, sees_resume}
use auto_jobs_apply.Applications.Create.Idempotence.{found_in}
use auto_jobs_apply.Dispatch.{Arq, World, create_route}
use auto_jobs_apply.Dispatch.Reposts.{is_queued, repost_requeues}
use auto_jobs_apply.Worker.{Env, Texts, Settings, Awaits, RunOutcome, ats_gate_ok, apply}
use auto_jobs_apply.Worker.Rows.{Row, with_row, with_row-Row}
use auto_jobs_apply.Worker.Submissions.{is_started, is_marked, apply-submitted}

abbrev as_queued : Application → Application
as_queued r = record r { status = queued }

requeued-Row :
    (p : Application → Bool) (env : Env) (s : Store) (r : Application)
    → IsConsistent s.applications
    → first (select p s.applications) ≡ some r
    → is_active r ≡ true
    → Row r.id (with_row (as_queued r) (record env { store = s })) (as_queued r)
requeued-Row p env s r c found act =
    with_row-Row r.id (record env { store = s }) (as_queued r) r
      (record {
        table = c;
        found =
            first-select-only p (has_id r.id) s.applications found (str_eq_self r.id)
              (c.one_row r.id);
      })
      act (refl, refl, refl)

-- An application that was applied autonomously is submitted again after a second POST for its job,
-- if the queue has forgotten the id of its first job, as it does some time after that job has ended:
-- the POST queues a second job `apply_to_job` with the id of the application as its argument, and
-- that job hands the application to `_submit_application` again, if the ATS gate lets it pass and no
-- await before the submission raises or is cancelled.
pub repost_submits_again :
    (arq : Arq) (u : String) (request : ApplicationCreate) (id : String) (now : ℕ) (w : World arq)
    (r : Application) (q : arq.Queue) (texts : Texts) (settings : Settings) (awaits : Awaits)
    (job_try : ℕ) (scored : Option ℕ) (outcome : RunOutcome) (env : Env)
    → StoreIsConsistent w.store
    → (sees_job u request.job_id w.store && sees_resume u request.resume_id w.store) ≡ true
    → found_in u request w.store ≡ some r
    → r.status ≡ applied
    → r.apply_mode ≡ autonomous
    → w.pool ≡ some q
    → arq.known q ("apply:" ++ r.id) ≡ false
    → env.store ≡ (create_route arq (some u) request u id now w).1.store
    → (ats_gate_ok settings r.resume_id scored).0 ≡ true
    → is_started awaits ≡ true
    → is_marked settings awaits ≡ true
    → (is_queued arq r.id (create_route arq (some u) request u id now w).1.pool ≡ true)
      × ((apply texts settings awaits job_try now scored outcome r.id env).1.submitted
          ≡ r.id ∷ env.submitted)
repost_submits_again arq u request id now w r q texts settings awaits job_try scored outcome env c
      owned found st mode pool unknown same pass on marked =
    let (_, stored, waits) =
      repost_requeues arq u request id now w r q c owned found mode pool unknown in
    let p = holds u request.job_id in
    let act = holds-active u request.job_id r (first-select-holds p w.store.applications found) in
    let start = with_row (as_queued r) (record env { store = w.store }) in
    let again =
      apply-submitted texts settings awaits job_try now scored outcome r.id start (as_queued r)
        (requeued-Row p env w.store r c.applications_ok found act) refl refl in
    (
      waits,
      subst
          (λ s.
            (apply texts settings awaits job_try now scored outcome r.id
              (record env { store = s })).1.submitted
            ≡ r.id ∷ env.submitted)
          (sym (same ∙ stored)) (again ∙ rw (on, pass, marked) refl),
    )
