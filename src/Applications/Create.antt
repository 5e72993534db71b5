-- ===== src/Applications/Create.antt =====
-- `_assert_owned` and `create_application` of backend/app/services/application.py. `tenant` is
-- `current_user_id`, which scopes every SELECT; the id of a new row and the time are arguments.
pub mod Outcome
pub mod Idempotence
use auto_jobs_apply.Prelude.{
  ℕ, String, Bool, not, ◌&&◌, Option, none, some, List, str_eq, if◌then◌else◌, select, is_set,
  or_empty,
}
use auto_jobs_apply.Tx.{
  Error, Result, Tx, ok, err, record_not_found, pure, lift, gets, ◌>>=◌, ◌>>◌, or_raise,
  scalar_one_or_none,
}
use auto_jobs_apply.Models.{Application, Job, Resume, Store, ApplyMode, queued, is_active, visible}
use auto_jobs_apply.Applications.Index.{insert}

pub record ApplicationCreate : Type 0 where
  pub job_id : String
  pub resume_id : Option String
  pub apply_mode : ApplyMode

-- SELECT id WHERE id = record_id, within the tenant.
abbrev pub jobs_by_id : Option String → String → Store → List Job
jobs_by_id tenant i s = select (λ r. visible tenant r.user_id && str_eq r.id i) s.jobs

abbrev pub resumes_by_id : Option String → String → Store → List Resume
resumes_by_id tenant i s = select (λ r. visible tenant r.user_id && str_eq r.id i) s.resumes

unfoldable pub assert_owned : {A : Type 0} → (Store → List A) → Tx Store (Unit {0})
assert_owned query s =
    (do found ← lift (scalar_one_or_none (query s)); row ← or_raise record_not_found found; pure tt)
      s

-- `if data.resume_id:` then `_assert_owned` of the resume
unfoldable pub assert_resume_owned : Option String → Option String → Tx Store (Unit {0})
assert_resume_owned tenant resume_id =
    if is_set resume_id then assert_owned (resumes_by_id tenant (or_empty resume_id)) else pure tt

unfoldable pub new_application : String → ApplicationCreate → String → ℕ → Application
new_application user_id request id now = record {
  id = id;
  user_id = user_id;
  job_id = request.job_id;
  resume_id = request.resume_id;
  status = queued;
  apply_mode = request.apply_mode;
  cover_letter_path = none;
  applied_at = none;
  notes = none;
  created_at = now;
}

-- The active application for the job that the tenant sees.
abbrev pub active_for : Option String → String → Application → Bool
active_for tenant job_id r = visible tenant r.user_id && (str_eq r.job_id job_id && is_active r)

-- `except DBIntegrityError`: the existing row is returned, or the exception goes on.
unfoldable pub or_existing : Error → Option Application → Tx Store Application
or_existing e (some existing) s = (ok existing, s)
or_existing e none s = (err e, s)

unfoldable pub store_or_existing :
    Option String → Application → Result (List Application) → Tx Store Application
unfolding or_existing
store_or_existing tenant a (ok rows) s = (ok a, record s { applications = rows })
store_or_existing tenant a (err e) s =
    (do
      existing ← lift (scalar_one_or_none (select (active_for tenant a.job_id) s.applications))
      or_existing e existing)
      s

unfoldable pub create_application :
    Option String → ApplicationCreate → String → String → ℕ → Tx Store Application
create_application tenant request user_id id now = do
  assert_owned (jobs_by_id tenant request.job_id)
  assert_resume_owned tenant request.resume_id
  let application = new_application user_id request id now
  s ← gets (λ s. s.applications)
  store_or_existing tenant application (insert application s)
