-- ===== src/Dispatch.antt =====
-- services/dispatch.py and the routes of api/v1/applications.py under backend/app: the producer of
-- the apply queue. The queue is Arq's, a library that is not part of the repository: the record `Arq`
-- states what its `enqueue_job` documents, and every definition takes it as a parameter.
pub mod Reposts
pub mod Bulk
use Prim.Native.String.{◌++◌}
use auto_jobs_apply.Prelude.{
  ℕ, String, Bool, true, false, ◌&&◌, ◌||◌, ◌≡◌, Option, none, some, List, [], ◌∷◌, str_eq,
  if◌then◌else◌, select, update, length, any,
}
use auto_jobs_apply.Tx.{Result, Tx, ok, err, pure, ◌>>=◌}
use auto_jobs_apply.Models.{
  ApplicationStatus, ApplyMode, queued, pending_review, approved, autonomous, Application, Store,
  visible,
}
use auto_jobs_apply.Applications.Create.{ApplicationCreate, create_application}
use auto_jobs_apply.Applications.Review.{save, is_stageable, approve_application}

-- `pool.enqueue_job(task, argument, _job_id=job_id)`: a job whose id is known, of a job that waits,
-- runs or has a result that is kept, is refused, and nothing is queued; any other is accepted. Then
-- its id is known, and the jobs that wait are those that did and the new one, with its task and its
-- argument.
pub record Arq : Type 1 where
  pub Queue : Type 0
  pub enqueue_job : Queue → String → String → String → Bool × Queue
  pub known : Queue → String → Bool
  -- whether a job with this task, argument and id waits
  pub pending : Queue → String → String → String → Bool
  pub refuses :
      (q : Queue) (task argument job_id : String)
      → known q job_id ≡ true
      → enqueue_job q task argument job_id ≡ (false, q)
  pub accepts :
      (q : Queue) (task argument job_id : String)
      → known q job_id ≡ false
      → (enqueue_job q task argument job_id).0 ≡ true
  pub knows :
      (q : Queue) (task argument job_id other : String)
      → known (enqueue_job q task argument job_id).1 other ≡ (str_eq job_id other || known q other)
  pub queues :
      (q : Queue) (task argument job_id t a i : String)
      → known q job_id ≡ false
      → pending (enqueue_job q task argument job_id).1 t a i
        ≡ ((str_eq task t && (str_eq argument a && str_eq job_id i)) || pending q t a i)

-- f"apply:{application_id}"
abbrev pub apply_job_id : String → String
apply_job_id i = "apply:" ++ i

-- The rows that the SELECT of `bulk_approve` returns.
abbrev pub is_selected : Option String → List String → Application → Bool
is_selected tenant ids r =
    visible tenant r.user_id && (any (λ i. str_eq i r.id) ids && is_stageable r.status)

module _ (arq : Arq) where
  -- The database and the pool; the pool is `None` where the queue is unavailable.
  pub record World : Type 0 where
    pub store : Store
    pub pool : Option arq.Queue

  abbrev pub on_store : {A : Type 0} → Tx Store A → Tx World A
  on_store m w = let (r, s) = m w.store in (r, record w { store = s })

  abbrev enqueued : String → Bool × arq.Queue → World → Result (Option String) × World
  enqueued job_id (accepted, q) w =
      (ok (if accepted then some job_id else none), record w { pool = some q })

  -- `None` stands for a job that was refused, and for a queue that is not available.
  unfoldable pub enqueue_apply : String → Tx World (Option String)
  enqueue_apply application_id w = elim w.pool [
    | none ↦ (ok none, w)
    | some q ↦
        let job_id = apply_job_id application_id in
        enqueued job_id (arq.enqueue_job q "apply_to_job" application_id job_id) w
  ]

  abbrev pub dispatch_as : ApplyMode → Application → Tx World Application
  dispatch_as autonomous app = do
    app' ← on_store (save (record app { status = queued }))
    job ← enqueue_apply app'.id
    pure app'
  dispatch_as _ app = on_store (save (record app { status = pending_review }))

  -- The code assigns to `app`; here the row that it leaves is returned.
  unfoldable pub dispatch_for_mode : Application → Tx World Application
  dispatch_for_mode app = dispatch_as app.apply_mode app

  -- `for app in apps: await enqueue_apply(pool, app.id)`
  unfoldable pub enqueue_all : List Application → World → World
  enqueue_all [] w = w
  enqueue_all (app ∷ apps) w = enqueue_all apps (enqueue_apply app.id w).1

  -- A row that the loop assigns to was and stays active, so that the index refuses none of them.
  unfoldable pub bulk_approve : Option String → List String → Tx World ℕ
  bulk_approve tenant ids w =
      let apps = select (is_selected tenant ids) w.store.applications in
      let approve = λ (r : Application). record r { status = approved } in
      let rows = update (is_selected tenant ids) approve w.store.applications in
      (
        ok (length apps),
        enqueue_all apps (record w { store = record w.store { applications = rows } }),
      )

  -- POST /applications
  unfoldable pub create_route :
      Option String → ApplicationCreate → String → String → ℕ → Tx World Application
  create_route tenant request user_id id now = do
    app ← on_store (create_application tenant request user_id id now)
    dispatch_for_mode app

  -- PUT /applications/{app_id}/approve
  unfoldable pub approve_route : Option String → String → Tx World Application
  approve_route tenant app_id = do
    app ← on_store (approve_application tenant app_id)
    job ← enqueue_apply app.id
    pure app
