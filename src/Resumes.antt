-- ===== src/Resumes.antt =====
-- backend/app/services/resume.py and backend/app/api/v1/resumes.py: resumes uploaded, generated,
-- scored and optimized.
pub mod Skills
pub mod Scoring
pub mod Bounds
pub mod Texts
pub mod TextLaws
pub mod Uploading
pub mod Uploaded
pub mod Tailoring
pub mod Optimizing
pub mod Rescoring
pub mod Routes
use auto_jobs_apply.Prelude.{
  ℕ, String, Bool, true, false, Option, none, some, List, select, length, ◌≡◌, refl,
}
use auto_jobs_apply.Tx.{
  Result, Tx, ok, err, record_not_found, resume_with, lift, ◌>>=◌, or_raise, scalar_one_or_none,
}
use auto_jobs_apply.Models.{Resume, Job, Store, visible}
use auto_jobs_apply.JobSearch.Stored.{get_job}
use auto_jobs_apply.JobSearch.Analysis.{is_resume}
use auto_jobs_apply.Documents.Storing.{Disk}

-- The database, with the column `ats_score` by the id of its resume, the local files and the storage.
pub record Library (Number Files : Type 0) : Type 0 where
  pub store : Store
  pub ats_score : String → Option Number
  pub disk : Disk Files

module _ {Number Files : Type 0} where
  abbrev pub on_store : {A : Type 0} → Tx Store A → Tx (Library Number Files) A
  on_store m s = let (r, store) = m s.store in (r, record s { store = store })

  abbrev pub on_disk : {A : Type 0} → Tx (Disk Files) A → Tx (Library Number Files) A
  on_disk m s = let (r, disk) = m s.disk in (r, record s { disk = disk })

unfoldable pub get_resume : Option String → String → Tx Store Resume
get_resume tenant resume_id s =
    (lift (scalar_one_or_none (select (is_resume tenant resume_id) s.resumes))
        >>= or_raise record_not_found)
      s

pub record ResumeListResponse : Type 0 where
  pub items : List Resume
  pub total : ℕ

-- `order` is the ORDER BY of the query.
unfoldable pub list_resumes :
    (List Resume → List Resume) → Option String → Store → ResumeListResponse
list_resumes order tenant s =
    let resumes = order (select (λ r. visible tenant r.user_id) s.resumes) in
    record { items = resumes; total = length resumes }

-- The row that was found, or the exception.
abbrev pub resume_result : Result (Option Resume) → Result Resume
resume_result (ok none) = err record_not_found
resume_result (ok (some resume)) = ok resume
resume_result (err e) = err e

abbrev pub resume_of : Option String → String → Store → Result Resume
resume_of tenant resume_id s =
    resume_result (scalar_one_or_none (select (is_resume tenant resume_id) s.resumes))

-- A read leaves the database as it is.
pub get_resume_result :
    (tenant : Option String) (resume_id : String) (s : Store)
    → get_resume tenant resume_id s ≡ (resume_of tenant resume_id s, s)
unfolding get_resume
get_resume_result tenant resume_id s =
    resumed (scalar_one_or_none (select (is_resume tenant resume_id) s.resumes))
  where
    resumed :
        (r : Result (Option Resume))
        → resume_with r (or_raise record_not_found) s ≡ (resume_result r, s)
    resumed (ok none) = refl
    resumed (ok (some resume)) = refl
    resumed (err e) = refl
