-- ===== src/Applications/Create/Outcome.antt =====
-- What `create_application` answers: a description without exceptions and without the index, and
-- the proof that the code follows it on a consistent database.
use native.Mathlib.Nat.{le_trans}
use auto_jobs_apply.Prelude.{
  ℕ, ◌≤◌, String, Bool, true, ◌&&◌, ◌≡◌, refl, ◌∙◌, inl, inr, Option, none, some, List, [], ◌∷◌,
  ◌++◌, arith, str_eq, if◌then◌else◌, Bool-cases, any, count, select, first, is_set, or_empty,
  count-and_le, select-congr, first-select-none, first-select-some,
}
use auto_jobs_apply.Tx.{Result, ok, err, record_not_found, scalar-first}
use auto_jobs_apply.Models.{Application, Job, Resume, Store, queued, is_active, holds}
use auto_jobs_apply.Applications.Index.{IsConsistent, insert}
use auto_jobs_apply.Applications.Create.{
  ApplicationCreate, create_application, new_application, assert_owned, assert_resume_owned,
  jobs_by_id, active_for, store_or_existing,
}

-- The primary keys and the unique index hold in the whole store.
pub record StoreIsConsistent (s : Store) : Type 0 where
  pub applications_ok : IsConsistent s.applications
  pub one_job : (i : String) → count (λ (r : Job). str_eq r.id i) s.jobs ≤ 1
  pub one_resume : (i : String) → count (λ (r : Resume). str_eq r.id i) s.resumes ≤ 1

abbrev pub sees_job : String → String → Store → Bool
sees_job u i s = any (λ r. str_eq r.user_id u && str_eq r.id i) s.jobs

abbrev pub sees_resume : String → Option String → Store → Bool
sees_resume u i s =
    if is_set i then any (λ r. str_eq r.user_id u && str_eq r.id (or_empty i)) s.resumes else true

-- The active application for the job, or a new one.
abbrev pub existing_or_new : Option Application → Application → Store → Result Application × Store
existing_or_new (some r) a s = (ok r, s)
existing_or_new none a s = (ok a, record s { applications = s.applications ++ a ∷ [] })

-- The row of a new application.
abbrev pub queued_application : String → ApplicationCreate → String → ℕ → Application
queued_application u request id now = record {
  id = id;
  user_id = u;
  job_id = request.job_id;
  resume_id = request.resume_id;
  status = queued;
  apply_mode = request.apply_mode;
  cover_letter_path = none;
  applied_at = none;
  notes = none;
  created_at = now;
}

abbrev pub spec_with : String → ApplicationCreate → Application → Store → Result Application × Store
spec_with u request a s =
    if sees_job u request.job_id s && sees_resume u request.resume_id s
    then existing_or_new (first (select (holds u request.job_id) s.applications)) a s
    else (err record_not_found, s)

abbrev pub create_spec :
    String → ApplicationCreate → String → ℕ → Store → Result Application × Store
create_spec u request id now s = spec_with u request (queued_application u request id now) s

assert_owned_lem :
    {A : Type 0} (p : A → Bool) (rows : Store → List A) (s : Store)
    → count p (rows s) ≤ 1
    → assert_owned (λ t. select p (rows t)) s
      ≡ (if any p (rows s) then (ok tt, s) else (err record_not_found, s))
unfolding assert_owned
assert_owned_lem p rows s one =
    rw (scalar-first p (rows s) one) (elim (Bool-cases (any p (rows s))) [
      | inl e ↦ let (r, found) = first-select-some p (rows s) e in rw (found, e)
      | inr e ↦ rw (first-select-none p (rows s) e, e)
    ])

-- The query of the `except` branch asks for the row that the index has found.
active_for-holds :
    (u j : String) (rows : List Application)
    → select (active_for (some u) j) rows ≡ select (holds u j) rows
active_for-holds u j rows = select-congr _ _ rows (λ r. ground arith)

store_or_existing_lem :
    (a : Application) (s : Store)
    → is_active a ≡ true
    → IsConsistent s.applications
    → store_or_existing (some a.user_id) a (insert a s.applications) s
      ≡ existing_or_new (first (select (holds a.user_id a.job_id) s.applications)) a s
unfolding store_or_existing insert
store_or_existing_lem a s act c =
    let p = holds a.user_id a.job_id in
    elim (Bool-cases (any p s.applications)) [
      | inl e ↦
          let (r, found) = first-select-some p s.applications e in
          rw (
            act,
            e,
            active_for-holds a.user_id a.job_id s.applications,
            scalar-first p s.applications (c.one_active a.user_id a.job_id),
            found,
          )
      | inr e ↦ rw (act, e, first-select-none p s.applications e)
    ]

pub assert_job_lem :
    (u i : String) (s : Store)
    → StoreIsConsistent s
    → assert_owned (jobs_by_id (some u) i) s
      ≡ (if sees_job u i s then (ok tt, s) else (err record_not_found, s))
assert_job_lem u i s c =
    assert_owned_lem (λ r. str_eq r.user_id u && str_eq r.id i) (λ t. t.jobs) s
      (le_trans (count-and_le (λ (r : Job). str_eq r.user_id u) (λ r. str_eq r.id i) s.jobs)
        (c.one_job i))

pub assert_resume_lem :
    (u : String) (i : Option String) (s : Store)
    → StoreIsConsistent s
    → assert_resume_owned (some u) i s
      ≡ (if sees_resume u i s then (ok tt, s) else (err record_not_found, s))
unfolding assert_resume_owned
assert_resume_lem u i s c = elim (Bool-cases (is_set i)) [
  | inl e ↦ rw e (
      assert_owned_lem (λ r. str_eq r.user_id u && str_eq r.id (or_empty i)) (λ t. t.resumes) s
        (le_trans
          (count-and_le (λ (r : Resume). str_eq r.user_id u) (λ r. str_eq r.id (or_empty i))
            s.resumes)
          (c.one_resume (or_empty i))))
  | inr e ↦ rw e
]

pub create_application_lem :
    (u : String) (request : ApplicationCreate) (id : String) (now : ℕ) (s : Store)
    → StoreIsConsistent s
    → create_application (some u) request u id now s
      ≡ spec_with u request (new_application u request id now) s
unfolding create_application
create_application_lem u request id now s c = elim (Bool-cases (sees_job u request.job_id s)) [
  | inr e ↦ rw (assert_job_lem u request.job_id s c, e)
  | inl e ↦ elim (Bool-cases (sees_resume u request.resume_id s)) [
    | inr f ↦
        rw (assert_job_lem u request.job_id s c, e, assert_resume_lem u request.resume_id s c, f)
    | inl f ↦
        rw (assert_job_lem u request.job_id s c, e, assert_resume_lem u request.resume_id s c, f)
          (unfold new_application in
            store_or_existing_lem (new_application u request id now) s refl c.applications_ok)
  ]
]

-- On a consistent database `create_application` refuses a job or a resume that the tenant does not
-- own, returns the tenant's active application for the job if there is one and then changes
-- nothing, and else appends one queued row. The exception of the index never leaves it.
pub create_application-eq-spec :
    (u : String) (request : ApplicationCreate) (id : String) (now : ℕ) (s : Store)
    → StoreIsConsistent s
    → create_application (some u) request u id now s ≡ create_spec u request id now s
create_application-eq-spec u request id now s c =
    create_application_lem u request id now s c ∙ (unfold new_application in refl)
