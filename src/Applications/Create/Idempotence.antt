-- ===== src/Applications/Create/Idempotence.antt =====
-- A double submit of `create_application`, and the database that it leaves.
use auto_jobs_apply.Prelude.{
  ℕ, String, Bool, true, ◌&&◌, ◌≡◌, refl, ◌∙◌, inl, inr, Option, none, some, List, [], ◌∷◌, ◌++◌,
  arith, Bool-cases, count, select, first, count-eq-zero,
}
use auto_jobs_apply.Tx.{ok}
use auto_jobs_apply.Models.{Application, Store, holds}
use auto_jobs_apply.Applications.Index.{has_id, insert, insert-IsConsistent, holds_self}
use auto_jobs_apply.Applications.Create.{ApplicationCreate, create_application, new_application}
use auto_jobs_apply.Applications.Create.Outcome.{
  StoreIsConsistent, sees_job, sees_resume, existing_or_new, spec_with, create_application_lem,
}

first-select-append :
    (p : Application → Bool) (rows : List Application) (a : Application)
    → first (select p rows) ≡ none
    → p a ≡ true
    → first (select p (rows ++ a ∷ [])) ≡ some a
first-select-append p [] a h e = rw e
first-select-append p (r ∷ rows) a h e = elim (Bool-cases (p r)) [
  | inl f ↦ cc (rw f at h)
  | inr f ↦ rw f (first-select-append p rows a (rw f at h) e)
]

count-first-none :
    (p : Application → Bool) (rows : List Application)
    → first (select p rows) ≡ none
    → count p rows ≡ 0
count-first-none p [] h = refl
count-first-none p (x ∷ rows) h = ground (arith, count-first-none p rows)

abbrev pub found_in : String → ApplicationCreate → Store → Option Application
found_in u request s = first (select (holds u request.job_id) s.applications)

-- What `spec_with` leaves finds the returned row.
found_after :
    (u : String) (request : ApplicationCreate) (id : String) (now : ℕ) (s : Store)
    (old : Option Application)
    → found_in u request s ≡ old
    → let (r, t) = existing_or_new old (new_application u request id now) s in
      (a : Application) × (r ≡ ok a) × (found_in u request t ≡ some a)
found_after u request id now s (some r) h = (r, refl, h)
found_after u request id now s none h =
    let a = new_application u request id now in
    (
      a,
      refl,
      first-select-append (holds u request.job_id) s.applications a h
          (unfold new_application in holds_self a refl),
    )

existing_or_new-IsConsistent :
    (u : String) (request : ApplicationCreate) (id : String) (now : ℕ) (s : Store)
    (old : Option Application)
    → found_in u request s ≡ old
    → count (has_id id) s.applications ≡ 0
    → StoreIsConsistent s
    → StoreIsConsistent (existing_or_new old (new_application u request id now) s).1
existing_or_new-IsConsistent u request id now s (some r) h fresh c = c
existing_or_new-IsConsistent u request id now s none h fresh c =
    let a = new_application u request id now in
    record {
      applications_ok =
          insert-IsConsistent a s.applications (unfold new_application in fresh) c.applications_ok (
            unfold insert new_application in
            rw (
              count-eq-zero (holds u request.job_id) s.applications
                (count-first-none (holds u request.job_id) s.applications h)));
      one_job = c.one_job;
      one_resume = c.one_resume;
    }

-- `create_application` with a fresh id keeps the primary keys and the unique index, whether it
-- returns or raises.
pub create_application-IsConsistent :
    (u : String) (request : ApplicationCreate) (id : String) (now : ℕ) (s : Store)
    → count (has_id id) s.applications ≡ 0
    → StoreIsConsistent s
    → StoreIsConsistent (create_application (some u) request u id now s).1
create_application-IsConsistent u request id now s fresh c =
    rw (create_application_lem u request id now s c)
      (elim (Bool-cases (sees_job u request.job_id s && sees_resume u request.resume_id s)) [
        | inl e ↦
            rw e
              (existing_or_new-IsConsistent u request id now s (found_in u request s) refl fresh c)
        | inr e ↦ rw e c
      ])

spec_again :
    (u : String) (request : ApplicationCreate) (id id' : String) (now now' : ℕ) (s : Store)
    (old : Option Application) {a : Application}
    → found_in u request s ≡ old
    → (sees_job u request.job_id s && sees_resume u request.resume_id s) ≡ true
    → (existing_or_new old (new_application u request id now) s).0 ≡ ok a
    → spec_with u request
        (new_application u request id' now')
        (existing_or_new old (new_application u request id now) s).1
      ≡ (ok a, (existing_or_new old (new_application u request id now) s).1)
spec_again u request id id' now now' s (some r) h g e = rw (g, h) (cc)
spec_again u request id id' now now' s none h g e =
    rw
      (
        g,
        first-select-append (holds u request.job_id) s.applications
            (new_application u request id now) h
            (unfold new_application in holds_self (new_application u request id now) refl),
      )
      (cc)

spec_twice :
    (u : String) (request : ApplicationCreate) (id id' : String) (now now' : ℕ) (s : Store)
    {a : Application}
    → (spec_with u request (new_application u request id now) s).0 ≡ ok a
    → spec_with u request
        (new_application u request id' now')
        (spec_with u request (new_application u request id now) s).1
      ≡ (ok a, (spec_with u request (new_application u request id now) s).1)
spec_twice u request id id' now now' s {a} e =
    elim (Bool-cases (sees_job u request.job_id s && sees_resume u request.resume_id s)) [
      | inl g ↦
          rw g (spec_again u request id id' now now' s (found_in u request s) refl g (rw g at e))
      | inr g ↦ cc (rw g at e)
    ]

-- A second `create_application` for the same request, after one that returned a row, returns the
-- same row and changes nothing.
pub create_application_twice :
    (u : String) (request : ApplicationCreate) (id id' : String) (now now' : ℕ) (s : Store)
    {a : Application}
    → count (has_id id) s.applications ≡ 0
    → StoreIsConsistent s
    → (create_application (some u) request u id now s).0 ≡ ok a
    → create_application
        (some u)
        request
        u
        id'
        now'
        (create_application (some u) request u id now s).1
      ≡ (ok a, (create_application (some u) request u id now s).1)
create_application_twice u request id id' now now' s fresh c e =
    let c' = create_application-IsConsistent u request id now s fresh c in
    let spec = create_application_lem u request id now s c in
    rw (create_application_lem u request id' now' _ c')
      (rw spec (spec_twice u request id id' now now' s (rw spec at e)))

-- The row that `create_application` returns is the tenant's active application for the job.
pub created_found :
    (u : String) (request : ApplicationCreate) (id : String) (now : ℕ) (s : Store) {a : Application}
    → StoreIsConsistent s
    → (create_application (some u) request u id now s).0 ≡ ok a
    → found_in u request (create_application (some u) request u id now s).1 ≡ some a
created_found u request id now s {a} c e =
    let spec = create_application_lem u request id now s c in
    rw spec (elim (Bool-cases (sees_job u request.job_id s && sees_resume u request.resume_id s)) [
      | inl g ↦
          let (b, answer, found) = found_after u request id now s (found_in u request s) refl in
          rw g (found ∙ cc (answer, rw g at (rw spec at e)))
      | inr g ↦ cc (rw g at (rw spec at e))
    ])
