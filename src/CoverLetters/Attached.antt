-- ===== src/CoverLetters/Attached.antt =====
-- A letter that is attached to an application can be read.
use auto_jobs_apply.Prelude.{String, true, ◌≡◌, Option, none, some, [], or_empty}
use auto_jobs_apply.Tx.{Result, ok, err, generation, resume_with}
use auto_jobs_apply.Models.{Application, Job, Resume, is_active}
use auto_jobs_apply.Applications.Index.{IsConsistent}
use auto_jobs_apply.Applications.Review.{save}
use auto_jobs_apply.Applications.Review.Outcome.{find_application, replaced}
use auto_jobs_apply.Storage.{FileStorage}
use auto_jobs_apply.Storage.Service.{get}
use auto_jobs_apply.Ats.{TextTools}
use auto_jobs_apply.Documents.Letters.{
  CoverLetterTemplate, template_value, Llm, generate_letter_content,
}
use auto_jobs_apply.Documents.Generating.{Renderers, chosen, render_cover_letter_pdf}
use auto_jobs_apply.Documents.Rendered.{attempt, made}
use auto_jobs_apply.Documents.Storing.{Disk}
use auto_jobs_apply.Documents.Persisted.{persisted}
use auto_jobs_apply.Resumes.{Library, on_store}
use auto_jobs_apply.CoverLetters.{with_letter}

module _ {ResumeData Number Files : Type 0} (t : TextTools) (r : Renderers ResumeData)
    (llm : Option (Llm ResumeData)) (storage : FileStorage Files) (user_id doc_id : String)
    (tenant : Option String) (app : Application) (job : Job) (resume : Resume)
    (s : Library Number Files) where
  abbrev pub style : CoverLetterTemplate
  style = chosen r llm t none job.description

  -- The text of the letter.
  abbrev pub letter_text : Result String
  letter_text =
      generate_letter_content llm style job.description (or_empty resume.content_text) job.company

  abbrev pub or_second : Option String → Option String → Option String
  or_second none docx = docx
  or_second (some pdf) docx = some pdf

  -- The application has the path of the PDF, or of the DOCX where there is no PDF, and its tenant
  -- reads the content there.
  abbrev pub HasLetter :
      Option String → Option String → Result Application × Library Number Files → Type 0
  HasLetter pdf docx (err e, after) =
      (e ≡ generation) × (pdf ≡ none) × (docx ≡ none) × (after.store ≡ s.store)
  HasLetter pdf docx (ok row, after) =
      (k : String) × (content : String) × (or_second pdf docx ≡ some content)
      × (row ≡ record app { cover_letter_path = some k })
      × (after.store ≡ replaced row s.store)
      × ((get storage user_id k after.disk.files).0 ≡ ok content)

  abbrev pub IsAttached : Result String → Result Application × Library Number Files → Type 0
  IsAttached (err e) (result, after) = (result ≡ err e) × (after.store ≡ s.store)
  IsAttached (ok content) outcome =
      HasLetter (attempt "pdf" [] (render_cover_letter_pdf r llm t content style))
        (attempt "docx" [] (r.letter_docx content)) outcome

  abbrev attach :
      Result (Option String × Option String) × Disk Files
      → Result Application × Library Number Files
  attach (keys, disk) =
      resume_with keys (λ k. on_store (save (with_letter app k))) (record s { disk = disk })

  module _ (consistent : IsConsistent s.store.applications) (active : is_active app ≡ true)
      (application_id : String)
      (found : find_application tenant application_id s.store ≡ some app) where
    abbrev letter_outcome :
        Result String → Disk Files → Result (Option String × Option String) × Disk Files
    letter_outcome (err e) disk = (err e, disk)
    letter_outcome (ok content) disk =
        persisted storage user_id
          (made "cover_letters/" "cover_letter" (template_value style) doc_id
            (attempt "pdf" [] (render_cover_letter_pdf r llm t content style))
            (attempt "docx" [] (r.letter_docx content)) disk.temp)
          disk.files
