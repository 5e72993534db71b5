-- ===== src/CoverLetters.antt =====
-- backend/app/services/cover_letter.py: a letter is generated, stored and attached to an application.
pub mod Attached
use auto_jobs_apply.Prelude.{
  ℕ, String, Bool, Option, none, some, List, [], select, first, str_eq, is_set, or_empty,
  if◌then◌else◌,
}
use auto_jobs_apply.Tx.{Result, Tx, ok, err, generation, pure, raise, resume_with, or_raise, ◌>>=◌}
use auto_jobs_apply.Models.{Application, Job, Resume, Store, visible}
use auto_jobs_apply.Applications.Review.{get_application, save}
use auto_jobs_apply.JobSearch.Stored.{is_job}
use auto_jobs_apply.JobSearch.Analysis.{is_resume}
use auto_jobs_apply.Storage.{FileStorage}
use auto_jobs_apply.Ats.{TextTools}
use auto_jobs_apply.Documents.Letters.{Llm}
use auto_jobs_apply.Documents.Generating.{Renderers, GeneratedDocument, Temp, generate_cover_letter}
use auto_jobs_apply.Documents.Storing.{Disk, persist_generated_document}
use auto_jobs_apply.Resumes.{Library, on_store, on_disk}
use auto_jobs_apply.Resumes.Tailoring.{on_temp}

-- The loaded relationships of an application, under the tenant filter.
abbrev pub job_of_application : Option String → Application → Store → Option Job
job_of_application tenant app s = first (select (is_job tenant app.job_id) s.jobs)

abbrev pub found_resume : Option String → Option String → Store → Option Resume
found_resume tenant none s = none
found_resume tenant (some id) s = first (select (is_resume tenant id) s.resumes)

-- `pdf_key or docx_key`
abbrev pub letter_path : Option String × Option String → Option String
letter_path (pdf_key, docx_key) = if is_set pdf_key then pdf_key else docx_key

abbrev pub with_letter : Application → Option String × Option String → Application
with_letter app keys = record app { cover_letter_path = letter_path keys }

module _ {ResumeData Files : Type 0} (t : TextTools) (r : Renderers ResumeData)
    (llm : Option (Llm ResumeData)) (storage : FileStorage Files) (user_id doc_id : String) where
  abbrev pub lettered : Job → Resume → Tx (Disk Files) (Option String × Option String)
  lettered job resume = do
    doc ← on_temp (
        generate_cover_letter r llm t doc_id (or_empty resume.content_text) job.description
          job.company none [])
    persist_generated_document storage user_id doc

  unfoldable pub generate_application_letter :
      {Number : Type 0} → Option String → String → Tx (Library Number Files) Application
  generate_application_letter tenant application_id = do
    app ← on_store (get_application tenant application_id)
    job ← on_store (λ s. or_raise generation (job_of_application tenant app s) s)
    resume ← on_store (λ s. or_raise generation (found_resume tenant app.resume_id s) s)
    keys ← on_disk (lettered job resume)
    on_store (save (with_letter app keys))
