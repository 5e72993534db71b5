-- ===== src/Dispatch/Bulk.antt =====
-- `bulk_approve`: which rows it approves, what it queues, and that the index cannot refuse it.
use Prim.Native.String.{◌++◌}
use text.Mathlib.TextLemmas.{append_cancel_left}
use auto_jobs_apply.Prelude.{
  ℕ, String, Bool, true, ◌&&◌, ◌||◌, ◌≡◌, ◌⊎◌, refl, sym, ap, ◌∙◌, subst, inl, inr, fun_ext, Option,
  some, List, [], ◌∷◌, arith, any, str_eq, str_eq_self, str_eq→eq, Bool-cases, count, select,
  update, All, count-select, count-update_same,
}
use auto_jobs_apply.Tx.{Result, ok}
use auto_jobs_apply.Models.{
  ApplicationStatus, queued, pending_review, approved, applying, applied, interview, rejected,
  offer, withdrawn, failed, status_value, Application, holds, visible,
}
use auto_jobs_apply.Applications.Index.{IsConsistent, has_id}
use auto_jobs_apply.Applications.Review.{is_stageable}
use auto_jobs_apply.Dispatch.{
  Arq, World, apply_job_id, enqueue_apply, enqueue_all, is_selected, bulk_approve,
}
use auto_jobs_apply.Dispatch.Reposts.{
  is_queued, is_pending, queue_after, enqueue_apply-pool, enqueue_apply-store,
}

abbrev approve : Application → Application
approve r = record r { status = approved }

approve-holds :
    (tenant : Option String) (ids : List String) (u j : String) (r : Application)
    → is_selected tenant ids r ≡ true
    → holds u j (approve r) ≡ holds u j r
approve-holds tenant ids u j r h = ground arith

-- The rows that a bulk approval may approve.
abbrev pub is_chosen : Option String → List String → Application → Bool
is_chosen tenant ids r =
    visible tenant r.user_id
    && (any (λ i. str_eq i r.id) ids
        && (str_eq (status_value r.status) "queued"
            || str_eq (status_value r.status) "pending_review"))

stageable_lem :
    (st : ApplicationStatus)
    → is_stageable st
      ≡ (str_eq (status_value st) "queued" || str_eq (status_value st) "pending_review")
stageable_lem queued = refl
stageable_lem pending_review = refl
stageable_lem approved = refl
stageable_lem applying = refl
stageable_lem applied = refl
stageable_lem interview = refl
stageable_lem rejected = refl
stageable_lem offer = refl
stageable_lem withdrawn = refl
stageable_lem failed = refl

is_selected_lem :
    (tenant : Option String) (ids : List String) (r : Application)
    → is_selected tenant ids r ≡ is_chosen tenant ids r
is_selected_lem tenant ids r =
    ap (λ b. visible tenant r.user_id && (any (λ i. str_eq i r.id) ids && b))
      (stageable_lem r.status)

abbrev pub approved_rows : (Application → Bool) → List Application → List Application
approved_rows chosen rows = update chosen approve rows

pub approved_rows-IsConsistent :
    (tenant : Option String) (ids : List String) (rows : List Application)
    → IsConsistent rows
    → IsConsistent (approved_rows (is_selected tenant ids) rows)
approved_rows-IsConsistent tenant ids rows c = record {
  one_row = λ i.
      rw (count-update_same (is_selected tenant ids) (has_id i) approve rows (λ r h. refl))
        (c.one_row i);
  one_active = λ u j.
      rw
        (count-update_same (is_selected tenant ids) (holds u j) approve rows
          (λ r h. approve-holds tenant ids u j r h))
        (c.one_active u j);
}

module _ (arq : Arq) where
  enqueue_all-store :
      (apps : List Application) (w : World arq) → (enqueue_all arq apps w).store ≡ w.store
  unfolding enqueue_all
  enqueue_all-store [] w = refl
  enqueue_all-store (a ∷ apps) w =
      enqueue_all-store apps (enqueue_apply arq a.id w).1 ∙ enqueue_apply-store arq a.id w

  -- Each id that is known to `after` waits there or was known to `q`.
  abbrev IsGrown : arq.Queue → arq.Queue → Type 0
  IsGrown q after =
      (j : String)
      → arq.known after (apply_job_id j) ≡ true
      → (is_pending arq after j ≡ true) ⊎ (arq.known q (apply_job_id j) ≡ true)

  same_job : (i j : String) → str_eq (apply_job_id i) (apply_job_id j) ≡ str_eq i j
  same_job i j = elim (Bool-cases (str_eq (apply_job_id i) (apply_job_id j))) [
    | inl e ↦
        let same = append_cancel_left "apply:" i j (str_eq→eq _ _ e) in
        rw (e, same, str_eq_self j) refl
    | inr e ↦ elim (Bool-cases (str_eq i j)) [
      | inl g ↦ absurd (cc (rw (str_eq→eq i j g, str_eq_self (apply_job_id j)) at e))
      | inr g ↦ rw (e, g) refl
    ]
  ]

  queue_after-IsGrown :
      (i : String) (q now : arq.Queue) → IsGrown q now → IsGrown q (queue_after arq i now)
  queue_after-IsGrown i q now g j k = elim (Bool-cases (arq.known now (apply_job_id i))) [
    | inl e ↦
        let same = ap (λ x. x.1) (arq.refuses now "apply_to_job" i (apply_job_id i) e) in
        subst (λ x. IsGrown q x) (sym same) g j k
    | inr e ↦
        let jobs =
          arq.queues now "apply_to_job" i (apply_job_id i) "apply_to_job" j (apply_job_id j) e in
        let known_now = arq.knows now "apply_to_job" i (apply_job_id i) (apply_job_id j) in
        elim (Bool-cases (str_eq i j)) [
          | inl this ↦ inl (jobs ∙ ground (arith, this, same_job i j))
          | inr other ↦
              let before : arq.known now (apply_job_id j) ≡ true =
                ground (arith, known_now, k, other, same_job i j) in
              still (is_pending arq now j) (arq.known q (apply_job_id j)) _ (g j before) jobs
        ]
  ]
    where
      still :
          (waited known c : Bool) {b : Bool}
          → (waited ≡ true) ⊎ (known ≡ true)
          → b ≡ (c || waited)
          → (b ≡ true) ⊎ (known ≡ true)
      still waited known c (inl h) e = inl (ground (arith, e, h))
      still waited known c (inr h) e = inr h

  -- The queue that the loop leaves.
  enqueue_all-pool :
      (apps : List Application) (w : World arq) (q now : arq.Queue)
      → IsGrown q now
      → w.pool ≡ some now
      → (after : arq.Queue) × ((enqueue_all arq apps w).pool ≡ some after)
        × IsGrown q after
        × ((j : String) → arq.known now j ≡ true → arq.known after j ≡ true)
        × All (λ r. arq.known after (apply_job_id r.id) ≡ true) apps
  unfolding enqueue_all
  enqueue_all-pool [] w q now g h = (now, h, g, λ j k. k, tt)
  enqueue_all-pool (a ∷ apps) w q now g h =
      let next = queue_after arq a.id now in
      let job = apply_job_id a.id in
      let (after, pool, grown, kept, all_known) =
        enqueue_all-pool apps (enqueue_apply arq a.id w).1 q next (queue_after-IsGrown a.id q now g)
          (enqueue_apply-pool arq a.id w now h) in
      (
        after,
        pool,
        grown,
        λ j k. kept j (ground (arith, arq.knows now "apply_to_job" a.id job j, k)),
        (
          kept job (ground (arith, arq.knows now "apply_to_job" a.id job job, str_eq_self job)),
          all_known,
        ),
      )

  -- The apply job of the row waits in the queue, or the queue `q` knew its id before.
  abbrev pub IsQueued : arq.Queue → Option arq.Queue → Application → Type 0
  IsQueued q after r = (is_queued arq r.id after ≡ true) ⊎ (arq.known q ("apply:" ++ r.id) ≡ true)

  All-IsQueued :
      (apps : List Application) (q after : arq.Queue)
      → IsGrown q after
      → All (λ r. arq.known after (apply_job_id r.id) ≡ true) apps
      → All (IsQueued q (some after)) apps
  All-IsQueued [] q after g h = tt
  All-IsQueued (a ∷ apps) q after g (k, h) = (g a.id k, All-IsQueued apps q after g h)

  enqueue_all-IsQueued :
      (apps : List Application) (w : World arq) (q : arq.Queue)
      → w.pool ≡ some q
      → All (IsQueued q (enqueue_all arq apps w).pool) apps
  enqueue_all-IsQueued apps w q h =
      let (after, pool, grown, _, all_known) = enqueue_all-pool apps w q q (λ j k. inr k) h in
      rw pool (All-IsQueued apps q after grown all_known)

  -- What `bulk_approve` does to the rows that `chosen` tells.
  abbrev pub Approved : (Application → Bool) → World arq → arq.Queue → Result ℕ × World arq → Type 0
  Approved chosen w q (answer, w') =
      (answer ≡ ok (count chosen w.store.applications))
      × (w'.store.applications ≡ approved_rows chosen w.store.applications)
      × IsConsistent w'.store.applications
      × All (IsQueued q w'.pool) (select chosen w.store.applications)

  -- `bulk_approve` answers how many rows are visible to the tenant, among the given ids, and queued
  -- or pending review; it sets exactly those to approved and keeps the primary key and the index.
  -- Where there is a queue, a job `apply_to_job` with the id of the row as its argument waits there
  -- for each of those rows afterwards, unless the queue already knew the id of that job.
  pub bulk_approve_lem :
      (tenant : Option String) (ids : List String) (w : World arq) (q : arq.Queue)
      → IsConsistent w.store.applications
      → w.pool ≡ some q
      → Approved (is_chosen tenant ids) w q (bulk_approve arq tenant ids w)
  unfolding bulk_approve
  bulk_approve_lem tenant ids w q c pool =
      let selected = is_selected tenant ids in
      let apps = select selected w.store.applications in
      let rows = approved_rows selected w.store.applications in
      let w' = record w { store = record w.store { applications = rows } } in
      let same = enqueue_all-store apps w' in
      let result : Approved selected w q (bulk_approve arq tenant ids w) = (
        ap ok (count-select selected w.store.applications),
        ap (λ s. s.applications) same,
        rw same (approved_rows-IsConsistent tenant ids w.store.applications c),
        enqueue_all-IsQueued apps w' q pool,
      ) in
      subst (λ p. Approved p w q (bulk_approve arq tenant ids w))
        (fun_ext (is_selected_lem tenant ids)) result
