-- ===== src/Applications/Review.antt =====
-- `get_application`, `approve_application` and `update_status` of
-- backend/app/services/application.py.
pub mod Outcome
use auto_jobs_apply.Prelude.{
  ℕ, String, Bool, true, false, ◌&&◌, Option, none, some, List, str_eq, select, is_some,
}
use auto_jobs_apply.Tx.{
  Error, Result, Tx, ok, err, record_not_found, value_error, pure, lift, ◌>>=◌, ◌>>◌, guard,
  or_raise, scalar_one_or_none,
}
use auto_jobs_apply.Models.{
  ApplicationStatus, queued, pending_review, approved, applied, Application, Store, visible,
}
use auto_jobs_apply.Applications.Index.{write}

abbrev pub by_id : Option String → String → Application → Bool
by_id tenant i r = visible tenant r.user_id && str_eq r.id i

unfoldable pub get_application : Option String → String → Tx Store Application
get_application tenant app_id s =
    (do
      app ← lift (scalar_one_or_none (select (by_id tenant app_id) s.applications))
      or_raise record_not_found app)
      s

abbrev stored : Application → Store → Result (List Application) → Result Application × Store
stored a s (ok rows) = (ok a, record s { applications = rows })
stored a s (err e) = (err e, s)

-- Assignments to a loaded row, then `commit` and `refresh`.
unfoldable pub save : Application → Tx Store Application
save a s = stored a s (write a s.applications)

abbrev pub is_stageable : ApplicationStatus → Bool
is_stageable pending_review = true
is_stageable queued = true
is_stageable _ = false

unfoldable pub approve_application : Option String → String → Tx Store Application
approve_application tenant app_id = do
  app ← get_application tenant app_id
  guard (is_stageable app.status) value_error
  save (record app { status = approved })

pub record ApplicationStatusUpdate : Type 0 where
  pub status : ApplicationStatus
  pub notes : Option String

-- `update.notes` replaces the notes only if it is given.
abbrev pub given_or : Option String → Option String → Option String
given_or none old = old
given_or (some n) old = some n

abbrev pub applied_time : ApplicationStatus → ℕ → Option ℕ → Option ℕ
applied_time applied now old = some now
applied_time _ now old = old

abbrev pub with_update : ApplicationStatusUpdate → ℕ → Application → Application
with_update u now app = record app {
  status = u.status;
  notes = given_or u.notes app.notes;
  applied_at = applied_time u.status now app.applied_at;
}

unfoldable pub update_status :
    Option String → String → ApplicationStatusUpdate → ℕ → Tx Store Application
update_status tenant app_id u now = do
  app ← get_application tenant app_id
  save (with_update u now app)
