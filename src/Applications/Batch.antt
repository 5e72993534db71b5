-- ===== src/Applications/Batch.antt =====
-- `create_batch` of backend/app/services/application.py. The i-th generated id is `uuid i`.
pub mod Insertion
pub mod Outcome
use auto_jobs_apply.Prelude.{
  ℕ, ◌+◌, String, Bool, not, ◌&&◌, Option, none, some, List, [], ◌∷◌, map, str_eq, if◌then◌else◌,
  any, select,
}
use auto_jobs_apply.Tx.{Error, Result, Tx, ok, err, record_not_found, gets, guard, ◌>>=◌, ◌>>◌}
use auto_jobs_apply.Models.{Application, ApplyMode, Job, Store, is_active, visible}
use auto_jobs_apply.Applications.Index.{insert}
use auto_jobs_apply.Applications.Create.{ApplicationCreate, assert_resume_owned, new_application}

pub record ApplicationBatchCreate : Type 0 where
  pub job_ids : List String
  pub resume_id : Option String
  pub apply_mode : ApplyMode

abbrev pub member : String → List String → Bool
member j js = any (λ k. str_eq k j) js

-- The ids among the requested that the tenant owns a job for.
abbrev pub owned_ids : Option String → List String → Store → List String
owned_ids tenant requested s =
    map (λ (r : Job). r.id) (select (λ r. visible tenant r.user_id && member r.id requested) s.jobs)

-- `if missing: raise …`, where `missing` is `requested - owned`.
abbrev pub none_missing : List String → List String → Bool
none_missing owned requested = not (any (λ j. not (member j owned)) requested)

-- The requested jobs that already have an active application of the tenant.
abbrev pub existing_active : Option String → List String → Store → List String
existing_active tenant requested s =
    map (λ (r : Application). r.job_id)
      (select (λ r. visible tenant r.user_id && (member r.job_id requested && is_active r))
        s.applications)

abbrev single : ApplicationBatchCreate → String → ApplicationCreate
single request job_id = record {
  job_id = job_id;
  resume_id = request.resume_id;
  apply_mode = request.apply_mode;
}

-- The loop over `data.job_ids`, from the `n`-th id on.
unfoldable pub new_applications :
    String
    → ApplicationBatchCreate
    → (ℕ → String)
    → ℕ
    → List String
    → ℕ
    → List String
    → List Application
new_applications user_id request uuid now existing n [] = []
new_applications user_id request uuid now existing n (j ∷ js) =
    let old = member j existing in
    let rest = new_applications user_id request uuid now existing (if old then n else n + 1) js in
    if old then rest else new_application user_id (single request j) (uuid n) now ∷ rest

-- The flush of the commit: one INSERT after the other.
unfoldable pub insert_all : List Application → List Application → Result (List Application)
insert_all [] rows = ok rows
insert_all (a ∷ apps) rows = elim (insert a rows) [
  | ok after ↦ insert_all apps after
  | err e ↦ err e
]

abbrev committed :
    List Application → Store → Result (List Application) → Result (List Application) × Store
committed apps s (ok rows) = (ok apps, record s { applications = rows })
committed apps s (err e) = (err e, s)

unfoldable pub create_batch :
    Option String → ApplicationBatchCreate → String → (ℕ → String) → ℕ → Tx Store (List Application)
create_batch tenant request user_id uuid now = do
  assert_resume_owned tenant request.resume_id
  owned ← gets (owned_ids tenant request.job_ids)
  guard (none_missing owned request.job_ids) record_not_found
  existing ← gets (existing_active tenant request.job_ids)
  let apps = new_applications user_id request uuid now existing 0 request.job_ids
  λ s. committed apps s (insert_all apps s.applications)
