-- ===== src/Applications/Review/Outcome.antt =====
-- What approval and a status update answer on a consistent database.
use native.Mathlib.Nat.{le_trans}
use auto_jobs_apply.Prelude.{
  ℕ, String, Bool, true, false, not, ◌&&◌, any, str_eq, ◌≡◌, refl, inl, inr, Option, none, some,
  List, arith, if◌then◌else◌, Bool-cases, select, update, first, count-and_le, str_eq_self,
}
use auto_jobs_apply.Tx.{
  Result, ok, err, record_not_found, value_error, db_integrity, scalar-first, or_raise, resume_with,
}
use auto_jobs_apply.Models.{
  ApplicationStatus, queued, pending_review, applying, applied, interview, rejected, offer,
  withdrawn, failed, status_value, Application, Store, approved, is_active, holds, visible,
}
use auto_jobs_apply.Applications.Index.{
  IsConsistent, has_id, write, write-active, write-IsConsistent, holds_self,
}
use auto_jobs_apply.Applications.Review.{
  by_id, get_application, save, is_stageable, approve_application, ApplicationStatusUpdate,
  with_update, update_status, stored, given_or, applied_time,
}

-- The row with this id that the tenant sees.
abbrev pub find_application : Option String → String → Store → Option Application
find_application tenant i s = first (select (by_id tenant i) s.applications)

pub get_application_lem :
    (tenant : Option String) (i : String) (s : Store)
    → IsConsistent s.applications
    → get_application tenant i s ≡ or_raise record_not_found (find_application tenant i s) s
unfolding get_application
get_application_lem tenant i s c =
    let one =
      le_trans
        (count-and_le (λ (r : Application). visible tenant r.user_id) (has_id i) s.applications)
        (c.one_row i) in
    rw (scalar-first (by_id tenant i) s.applications one)

abbrev pub replaced : Application → Store → Store
replaced a s = record s { applications = update (has_id a.id) (λ _. a) s.applications }

-- Saving an active row, found by any query, with a new status never raises.
pub save_lem :
    (p : Application → Bool) (a r : Application) (s : Store)
    → IsConsistent s.applications
    → first (select p s.applications) ≡ some r
    → is_active r ≡ true
    → (a.id ≡ r.id) × (a.user_id ≡ r.user_id) × (a.job_id ≡ r.job_id)
    → save a s ≡ (ok a, replaced a s)
unfolding save
save_lem p a r s c found act (same_id, same_user, same_job) =
    let self : holds a.user_id a.job_id r ≡ true = rw (same_user, same_job) (holds_self r act) in
    let this : has_id a.id r ≡ true = rw same_id (str_eq_self r.id) in
    rw (write-active a r p s.applications c found this self)

-- What approval answers for the row `r`, by its status.
abbrev pub approve_from : ApplicationStatus → Application → Store → Result Application × Store
approve_from queued r s =
    (ok (record r { status = approved }), replaced (record r { status = approved }) s)
approve_from pending_review r s =
    (ok (record r { status = approved }), replaced (record r { status = approved }) s)
approve_from approved r s = (err value_error, s)
approve_from applying r s = (err value_error, s)
approve_from applied r s = (err value_error, s)
approve_from interview r s = (err value_error, s)
approve_from rejected r s = (err value_error, s)
approve_from offer r s = (err value_error, s)
approve_from withdrawn r s = (err value_error, s)
approve_from failed r s = (err value_error, s)

abbrev pub approve_found : Option Application → Store → Result Application × Store
approve_found none s = (err record_not_found, s)
approve_found (some r) s = approve_from r.status r s

by_stage : Bool → Application → Store → Result Application × Store
by_stage true r s =
    (ok (record r { status = approved }), replaced (record r { status = approved }) s)
by_stage false r s = (err value_error, s)

approve_from_lem :
    (status : ApplicationStatus) (r : Application) (s : Store)
    → approve_from status r s ≡ by_stage (is_stageable status) r s
unfolding by_stage
approve_from_lem queued r s = refl
approve_from_lem pending_review r s = refl
approve_from_lem approved r s = refl
approve_from_lem applying r s = refl
approve_from_lem applied r s = refl
approve_from_lem interview r s = refl
approve_from_lem rejected r s = refl
approve_from_lem offer r s = refl
approve_from_lem withdrawn r s = refl
approve_from_lem failed r s = refl

stageable-active : (r : Application) → is_stageable r.status ≡ true → is_active r ≡ true
stageable-active r h = ground arith

approve_found_lem :
    (tenant : Option String) (i : String) (s : Store) (found : Option Application)
    → IsConsistent s.applications
    → find_application tenant i s ≡ found
    → approve_application tenant i s ≡ approve_found found s
unfolding approve_application by_stage
approve_found_lem tenant i s none c h = rw (get_application_lem tenant i s c, h)
approve_found_lem tenant i s (some r) c h = elim (Bool-cases (is_stageable r.status)) [
  | inl e ↦
      rw (get_application_lem tenant i s c, h, approve_from_lem r.status r s, e)
        (save_lem (by_id tenant i) (record r { status = approved }) r s c h (stageable-active r e)
          (refl, refl, refl))
  | inr e ↦ rw (get_application_lem tenant i s c, h, approve_from_lem r.status r s, e)
]

-- On a consistent table `approve_application` raises RecordNotFoundError for a row that the tenant
-- does not see, ValueError for one that is neither queued nor pending review, both with the
-- database unchanged; else it sets that one row to approved, and the index never refuses it.
pub approve_application-eq :
    (tenant : Option String) (i : String) (s : Store)
    → IsConsistent s.applications
    → approve_application tenant i s ≡ approve_found (find_application tenant i s) s
approve_application-eq tenant i s c =
    approve_found_lem tenant i s (find_application tenant i s) c refl

pub save-IsConsistent :
    (a : Application) (s : Store)
    → IsConsistent s.applications
    → IsConsistent (save a s).1.applications
unfolding save
save-IsConsistent a s c = kept (write a s.applications) refl
  where
    kept :
        (w : Result (List Application))
        → write a s.applications ≡ w
        → IsConsistent (stored a s w).1.applications
    kept (ok rows) e = write-IsConsistent a s.applications c e
    kept (err x) e = c

-- The row `r` after a status update at the time `now`.
abbrev pub updated : ApplicationStatusUpdate → ℕ → Application → Application
updated u now r = record r {
  status = u.status;
  notes = elim u.notes [ none ↦ r.notes | some n ↦ some n ];
  applied_at = if str_eq (status_value u.status) "applied" then some now else r.applied_at;
}

-- Whether another row than `r` is an active application of its user for its job.
abbrev pub has_rival : Application → Store → Bool
has_rival r s = any (λ x. not (str_eq x.id r.id) && holds r.user_id r.job_id x) s.applications

abbrev pub update_found :
    ApplicationStatusUpdate → ℕ → Option Application → Store → Result Application × Store
update_found u now none s = (err record_not_found, s)
update_found u now (some r) s =
    if is_active (updated u now r) && has_rival r s
    then (err db_integrity, s)
    else (ok (updated u now r), replaced (updated u now r) s)

notes_lem :
    (given old : Option String) → given_or given old ≡ elim given [ none ↦ old | some n ↦ some n ]
notes_lem none old = refl
notes_lem (some n) old = refl

applied_time_lem :
    (st : ApplicationStatus) (now : ℕ) (old : Option ℕ)
    → applied_time st now old ≡ (if str_eq (status_value st) "applied" then some now else old)
applied_time_lem queued now old = refl
applied_time_lem pending_review now old = refl
applied_time_lem approved now old = refl
applied_time_lem applying now old = refl
applied_time_lem applied now old = refl
applied_time_lem interview now old = refl
applied_time_lem rejected now old = refl
applied_time_lem offer now old = refl
applied_time_lem withdrawn now old = refl
applied_time_lem failed now old = refl

with_update_lem :
    (u : ApplicationStatusUpdate) (now : ℕ) (r : Application)
    → with_update u now r ≡ updated u now r
with_update_lem u now r =
    rw (notes_lem u.notes r.notes, applied_time_lem u.status now r.applied_at) refl

save_updated :
    (u : ApplicationStatusUpdate) (now : ℕ) (r : Application) (s : Store)
    → save (with_update u now r) s ≡ update_found u now (some r) s
unfolding save write
save_updated u now r s =
    rw (with_update_lem u now r) (elim (Bool-cases (is_active (updated u now r) && has_rival r s)) [
      | inl e ↦ rw e
      | inr e ↦ rw e
    ])

-- On a consistent table a status update raises RecordNotFoundError for a row that the tenant does
-- not see, and the exception of the unique index where the new status is active and another row is
-- an active application of the user for the job, both with the database unchanged. Else it changes
-- that one row alone: it stores the new status, the notes if any are given, and the time exactly
-- when the new status is applied. The table stays consistent on every branch.
pub update_status-eq :
    (tenant : Option String) (i : String) (u : ApplicationStatusUpdate) (now : ℕ) (s : Store)
    → IsConsistent s.applications
    → (update_status tenant i u now s ≡ update_found u now (find_application tenant i s) s)
      × IsConsistent (update_status tenant i u now s).1.applications
unfolding update_status
update_status-eq tenant i u now s c =
    rw (get_application_lem tenant i s c) (by_row (find_application tenant i s))
  where
    by_row :
        (found : Option Application)
        → let out =
            resume_with
              (or_raise record_not_found found s).0
              (λ app. save (with_update u now app))
              (or_raise record_not_found found s).1 in
          (out ≡ update_found u now found s) × IsConsistent out.1.applications
    by_row none = (refl, c)
    by_row (some r) = (save_updated u now r s, save-IsConsistent (with_update u now r) s c)
