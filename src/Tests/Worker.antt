-- ===== src/Tests/Worker.antt =====
-- The apply task runs on an application.
use auto_jobs_apply.Prelude.{true, false, ◌≡◌, refl, none, some, [], ◌∷◌}
use auto_jobs_apply.Tx.{ok}
use auto_jobs_apply.Models.{Application, autonomous, review, queued, applied, withdrawn}
use auto_jobs_apply.Dispatch.{World, create_route}
use auto_jobs_apply.Dispatch.Reposts.{is_queued}
use auto_jobs_apply.Worker.{
  Env, Texts, Settings, Awaits, goes_on, fails, raised, completed, run_error, run_cancelled,
  ats_gate_ok, apply,
}
use auto_jobs_apply.Worker.Rows.{Row}
use auto_jobs_apply.Worker.Lifecycle.{IsQuiet, as_applying}
use auto_jobs_apply.Worker.Retries.{
  Tries, Settled, apply_to_job, apply_to_job-Settled, apply_to_job-stuck,
}
use auto_jobs_apply.Worker.Submissions.{apply-submitted, withdrawn_submitted}
use auto_jobs_apply.Worker.Reposts.{repost_submits_again}
use auto_jobs_apply.Tests.Samples.{
  application, with_applications, request, one_row-IsConsistent, list_queue,
}

abbrev plain : Texts
plain = record { lower = λ s. s; str = λ n. "1"; two_digits = λ n. "0.10"; shown = λ n. "0.5" }

abbrev live : Settings
live = record { live_apply = true; min_ats_score = 5000; has_redis = true }

abbrev env : Application → Env
env r = record { store = with_applications (r ∷ []); published = []; submitted = [] }

abbrev fresh : Application
fresh = application queued autonomous

env-Row : Row "app-1" (env fresh) fresh
env-Row = record { table = (one_row-IsConsistent fresh).applications_ok; found = refl }

abbrev quiet : Awaits
quiet = record {
  load = goes_on;
  gate = goes_on;
  marking = goes_on;
  ending = goes_on;
  bus = λ st. goes_on;
}

quiet-IsQuiet : IsQuiet quiet
quiet-IsQuiet = record {
  on_load = refl;
  on_gate = refl;
  on_marking = refl;
  on_ending = refl;
  on_bus = λ st. refl;
}

abbrev tries : Awaits → Tries
tries awaits = record {
  scored = λ n. some 8000;
  outcome = λ n. run_error "connection reset";
  awaits = λ n. awaits;
  now = λ n. 200;
  shut_down = λ n. false;
}

apply_to_job-Settled_example :
    Settled "app-1" fresh (apply_to_job plain live (tries quiet) "app-1" (env fresh))
apply_to_job-Settled_example =
    apply_to_job-Settled plain live (tries quiet) "app-1" (env fresh) fresh
      (record { quiet = λ n. quiet-IsQuiet; running = λ n. refl }) env-Row refl refl

-- Redis is down.
abbrev lost : Awaits
lost = record quiet { bus = λ st. fails }

apply_to_job-stuck_example :
    let (exit, after) = apply_to_job plain live (tries lost) "app-1" (env fresh) in
    (exit ≡ ok raised) × Row "app-1" after (as_applying fresh) × (after.submitted ≡ [])
apply_to_job-stuck_example =
    apply_to_job-stuck plain live (tries lost) "app-1" (env fresh) fresh refl refl refl refl refl
      env-Row refl refl (unfold ats_gate_ok in refl)

apply-submitted_example :
    (apply plain live quiet 1 200 (some 8000) run_cancelled "app-1" (env fresh)).1.submitted
    ≡ "app-1" ∷ []
unfolding ats_gate_ok
apply-submitted_example =
    apply-submitted plain live quiet 1 200 (some 8000) run_cancelled "app-1" (env fresh) fresh
      env-Row refl refl

withdrawn_submitted_example :
    (apply plain live quiet 1 200 none
      (completed true none none)
      "app-1"
      (env (application withdrawn review))).1.submitted
    ≡ "app-1" ∷ []
unfolding ats_gate_ok
withdrawn_submitted_example =
    withdrawn_submitted plain live quiet 1 200 none (completed true none none) "app-1"
      (env (application withdrawn review)) (application withdrawn review) refl refl refl refl refl
      refl

abbrev done : Application
done = application applied autonomous

abbrev posted : World list_queue
posted =
    (create_route list_queue (some "alice") request "alice" "app-2" 300
      (record { store = with_applications (done ∷ []); pool = some [] })).1

repost_submits_again_example :
    (is_queued list_queue "app-1" posted.pool ≡ true)
    × ((apply plain live quiet 1 300 none
          (completed true none none)
          "app-1"
          (record (env done) { store = posted.store })).1.submitted
        ≡ "app-1" ∷ [])
unfolding ats_gate_ok
repost_submits_again_example =
    repost_submits_again list_queue "alice" request "app-2" 300
      (record { store = with_applications (done ∷ []); pool = some [] }) done [] plain live quiet 1
      none (completed true none none) (record (env done) { store = posted.store })
      (one_row-IsConsistent done) refl refl refl refl refl refl refl refl refl refl
