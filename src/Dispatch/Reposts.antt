-- ===== src/Dispatch/Reposts.antt =====
-- POST /applications: what is staged or queued, for a new application and for one that exists.
use Prim.Native.String.{◌++◌}
use auto_jobs_apply.Prelude.{
  ℕ, String, Bool, true, false, ◌&&◌, ◌||◌, str_eq, Bool-cases, inl, inr, ◌≡◌, refl, ap, ◌∙◌, subst,
  Option, none, some, arith, if◌then◌else◌, count, select, first, first-select-holds, str_eq_self,
}
use auto_jobs_apply.Tx.{Result, ok}
use auto_jobs_apply.Models.{
  ApplicationStatus, ApplyMode, queued, pending_review, autonomous, review, batch, Application,
  is_active, holds,
}
use auto_jobs_apply.Applications.Index.{IsConsistent, has_id, holds-active}
use auto_jobs_apply.Applications.Create.{ApplicationCreate, create_application}
use auto_jobs_apply.Applications.Create.Outcome.{
  StoreIsConsistent, sees_job, sees_resume, create_application_lem,
}
use auto_jobs_apply.Applications.Create.Idempotence.{
  found_in, create_application-IsConsistent, created_found,
}
use auto_jobs_apply.Applications.Review.Outcome.{replaced, save_lem}
use auto_jobs_apply.Dispatch.{
  Arq, World, apply_job_id, enqueue_apply, dispatch_as, dispatch_for_mode, create_route,
}

module _ (arq : Arq) where
  pub enqueue_apply-store : (i : String) (w : World arq) → (enqueue_apply arq i w).1.store ≡ w.store
  unfolding enqueue_apply
  enqueue_apply-store i w = ground arith

  abbrev enqueued_id : String → World arq → Option String
  enqueued_id i w = elim w.pool [
    | none ↦ none
    | some q ↦
        if (arq.enqueue_job q "apply_to_job" i (apply_job_id i)).0
        then some (apply_job_id i)
        else none
  ]

  enqueue_apply-ok : (i : String) (w : World arq) → (enqueue_apply arq i w).0 ≡ ok (enqueued_id i w)
  unfolding enqueue_apply
  enqueue_apply-ok i w = ground arith

  -- Whether a job of the task `apply_to_job` with this argument waits under its id.
  abbrev pub is_pending : arq.Queue → String → Bool
  is_pending q i = arq.pending q "apply_to_job" i ("apply:" ++ i)

  abbrev pub is_queued : String → Option arq.Queue → Bool
  is_queued i none = false
  is_queued i (some q) = is_pending q i

  -- The queue `after` that an attempt to queue the apply job of `i` makes of `q`, by whether the id
  -- of the job is known: it is the same, or it has the job besides those that waited.
  abbrev pub EnqueuedAs : Bool → String → arq.Queue → arq.Queue → Type 0
  EnqueuedAs true i q after = Path arq.Queue after q
  EnqueuedAs false i q after =
      (is_pending after i ≡ true)
      × ((task argument job_id : String)
          → arq.pending after task argument job_id ≡ (
              (str_eq "apply_to_job" task && (str_eq i argument && str_eq ("apply:" ++ i) job_id))
              || arq.pending q task argument job_id))

  abbrev pub queue_after : String → arq.Queue → arq.Queue
  queue_after i q = (arq.enqueue_job q "apply_to_job" i (apply_job_id i)).1

  pub queue_after-EnqueuedAs :
      (i : String) (q : arq.Queue) → EnqueuedAs (arq.known q ("apply:" ++ i)) i q (queue_after i q)
  queue_after-EnqueuedAs i q = elim (Bool-cases (arq.known q (apply_job_id i))) [
    | inl e ↦ rw e (ap (λ x. x.1) (arq.refuses q "apply_to_job" i (apply_job_id i) e))
    | inr e ↦ rw e (
      rw (arq.queues q "apply_to_job" i (apply_job_id i) "apply_to_job" i (apply_job_id i) e)
          (ground (arith, str_eq_self i, str_eq_self (apply_job_id i))),
      λ task argument job_id. arq.queues q "apply_to_job" i (apply_job_id i) task argument job_id e,
    )
  ]

  pub enqueue_apply-pool :
      (i : String) (w : World arq) (q : arq.Queue)
      → w.pool ≡ some q
      → (enqueue_apply arq i w).1.pool ≡ some (queue_after i q)
  unfolding enqueue_apply
  enqueue_apply-pool i w q h = rw h refl

  abbrev pub staged_status : ApplyMode → ApplicationStatus
  staged_status autonomous = queued
  staged_status _ = pending_review

  -- What happens to the pool: for an autonomous application its apply job is queued if there is a
  -- queue that does not know the id, and any other leaves the pool alone.
  abbrev pub PoolAfter : ApplyMode → String → Option arq.Queue → Option arq.Queue → Type 0
  PoolAfter autonomous i none after = Unit
  PoolAfter autonomous i (some q) after =
      (q' : arq.Queue) × (after ≡ some q') × EnqueuedAs (arq.known q ("apply:" ++ i)) i q q'
  PoolAfter _ i before after = Path (Option arq.Queue) after before

  enqueue_apply-PoolAfter :
      (i : String) (w : World arq) (pool : Option arq.Queue)
      → w.pool ≡ pool
      → PoolAfter autonomous i pool (enqueue_apply arq i w).1.pool
  enqueue_apply-PoolAfter i w none h = tt
  enqueue_apply-PoolAfter i w (some q) h =
      (queue_after i q, enqueue_apply-pool i w q h, queue_after-EnqueuedAs i q)

  pub record Dispatched (mode : ApplyMode) (app : Application) (w : World arq)
      (answer : Result Application × World arq) : Type 0 where
    pub result : answer.0 ≡ ok (record app { status = staged_status mode })
    pub row : answer.1.store ≡ replaced (record app { status = staged_status mode }) w.store
    pub queue : PoolAfter mode app.id w.pool answer.1.pool

  dispatch_as-Dispatched :
      (p : Application → Bool) (mode : ApplyMode) (app : Application) (w : World arq)
      → IsConsistent w.store.applications
      → first (select p w.store.applications) ≡ some app
      → is_active app ≡ true
      → Dispatched mode app w (dispatch_as arq mode app w)
  dispatch_as-Dispatched p autonomous app w c found act =
      let a = record app { status = queued } in
      let saved = save_lem p a app w.store c found act (refl, refl, refl) in
      let w' = record w { store = replaced a w.store } in
      record {
        result = rw saved (rw (enqueue_apply-ok app.id w'));
        row = rw saved (rw (enqueue_apply-ok app.id w') (enqueue_apply-store app.id w'));
        queue =
            rw saved
              (rw (enqueue_apply-ok app.id w') (enqueue_apply-PoolAfter app.id w' w.pool refl));
      }
  dispatch_as-Dispatched p review app w c found act =
      let a = record app { status = pending_review } in
      let saved = save_lem p a app w.store c found act (refl, refl, refl) in
      record { result = rw saved; row = rw saved; queue = refl }
  dispatch_as-Dispatched p batch app w c found act =
      let a = record app { status = pending_review } in
      let saved = save_lem p a app w.store c found act (refl, refl, refl) in
      record { result = rw saved; row = rw saved; queue = refl }

  -- POST /applications, where `create_application` returns a row: the row, whether it is new or
  -- was found, is set to queued if its mode is autonomous and to pending review otherwise. For an
  -- autonomous one and a queue that does not know the id `apply:<id>`, a job `apply_to_job` with the
  -- id of the application as its argument waits there afterwards, and besides it the jobs that did; a
  -- queue that knows the id, and the queue for any other mode, is as it was.
  pub create_route-Dispatched :
      (u : String) (request : ApplicationCreate) (id : String) (now : ℕ) (w : World arq)
      (a : Application)
      → count (has_id id) w.store.applications ≡ 0
      → StoreIsConsistent w.store
      → (create_application (some u) request u id now w.store).0 ≡ ok a
      → Dispatched a.apply_mode a
          (record w { store = (create_application (some u) request u id now w.store).1 })
          (create_route arq (some u) request u id now w)
  unfolding create_route dispatch_for_mode
  create_route-Dispatched u request id now w a fresh c e =
      let s = (create_application (some u) request u id now w.store).1 in
      let c' = create_application-IsConsistent u request id now w.store fresh c in
      let found = created_found u request id now w.store c e in
      rw e (
        dispatch_as-Dispatched (holds u request.job_id) a.apply_mode a (record w { store = s })
          c'.applications_ok found
          (holds-active u request.job_id a
            (first-select-holds (holds u request.job_id) s.applications found)))

  abbrev pub Requeued : Application → World arq → Result Application × World arq → Type 0
  Requeued r w (answer, w') =
      (answer ≡ ok (record r { status = queued }))
      × (w'.store ≡ replaced (record r { status = queued }) w.store)
      × (is_queued r.id w'.pool ≡ true)

  PoolAfter-queued :
      (i : String) (q : arq.Queue) (after : Option arq.Queue)
      → arq.known q ("apply:" ++ i) ≡ false
      → PoolAfter autonomous i (some q) after
      → is_queued i after ≡ true
  PoolAfter-queued i q after unknown (q', same, h) =
      rw same (subst (λ b. EnqueuedAs b i q q') unknown h).0

  requeued :
      (r : Application) (w : World arq) (q : arq.Queue) (mode : ApplyMode)
      → mode ≡ autonomous
      → w.pool ≡ some q
      → arq.known q ("apply:" ++ r.id) ≡ false
      → Dispatched mode r w (dispatch_as arq mode r w)
      → Requeued r w (dispatch_as arq mode r w)
  requeued r w q autonomous e pool unknown d = (
    d.result,
    d.row,
    PoolAfter-queued r.id q (dispatch_as arq autonomous r w).1.pool unknown (
        subst (λ b. PoolAfter autonomous r.id b (dispatch_as arq autonomous r w).1.pool) pool
          d.queue),
  )
  requeued r w q review e pool unknown d = cc
  requeued r w q batch e pool unknown d = cc

  -- A repeated POST for a job whose application is autonomous sets that application back to queued,
  -- in whatever active status it is, applied included, and queues its apply job again, if the queue
  -- has forgotten the id of the first job.
  pub repost_requeues :
      (u : String) (request : ApplicationCreate) (id : String) (now : ℕ) (w : World arq)
      (r : Application) (q : arq.Queue)
      → StoreIsConsistent w.store
      → (sees_job u request.job_id w.store && sees_resume u request.resume_id w.store) ≡ true
      → found_in u request w.store ≡ some r
      → r.apply_mode ≡ autonomous
      → w.pool ≡ some q
      → arq.known q ("apply:" ++ r.id) ≡ false
      → Requeued r w (create_route arq (some u) request u id now w)
  unfolding create_route dispatch_for_mode
  repost_requeues u request id now w r q c owned found mode pool unknown =
      let create : create_application (some u) request u id now w.store ≡ (ok r, w.store) =
        create_application_lem u request id now w.store c ∙ rw (owned, found) in
      let act =
        holds-active u request.job_id r
          (first-select-holds (holds u request.job_id) w.store.applications found) in
      rw create (
        requeued r w q r.apply_mode mode pool unknown (
          dispatch_as-Dispatched (holds u request.job_id) r.apply_mode r w c.applications_ok found
            act))
