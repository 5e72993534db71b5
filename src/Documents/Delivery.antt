-- ===== src/Documents/Delivery.antt =====
-- A resume that was generated and stored, as the services do both.
use auto_jobs_apply.Prelude.{String, true, ◌≡◌, Option, List}
use auto_jobs_apply.Storage.{FileStorage, resume_key}
use auto_jobs_apply.Documents.Letters.{Llm}
use auto_jobs_apply.Documents.Generating.{Renderers, Temp, context_of, generate_resume}
use auto_jobs_apply.Documents.Rendered.{attempt, render_formats-made}
use auto_jobs_apply.Documents.Persisted.{Accepts, IsPersisted, persisted, made-IsPersisted}

module _ {ResumeData Files : Type 0} (r : Renderers ResumeData) (llm : Option (Llm ResumeData))
    (storage : FileStorage Files) (user_id : String) where
  -- On a storage that takes a file under any plain key, and with two plain keys, a generation
  -- of a resume whose document is then stored fails only where no requested format can be rendered,
  -- and stores nothing then; else the bytes of each format that was rendered are read back by the
  -- tenant under the key that is returned for it, and there is no key for any other format.
  pub generate_resume-IsPersisted :
      (doc_id : String) (resume_data : ResumeData) (job_description template_name : String)
      (formats : List String) (temp : Temp) (files : Files)
      → Accepts storage user_id
      → storage.is_plain (resume_key user_id doc_id "pdf") ≡ true
      → storage.is_plain (resume_key user_id doc_id "docx") ≡ true
      → let context = context_of llm resume_data job_description in
        IsPersisted storage user_id
          (attempt "pdf" formats (r.resume_pdf template_name context))
          (attempt "docx" formats (r.resume_docx template_name context))
          files
          (persisted storage user_id
            (generate_resume r llm doc_id resume_data job_description template_name formats temp)
            files)
  unfolding generate_resume
  generate_resume-IsPersisted doc_id resume_data job_description template_name formats temp files
        accepts plain plain' =
      let context = context_of llm resume_data job_description in
      let pdf = r.resume_pdf template_name context in
      let docx = r.resume_docx template_name context in
      rw (render_formats-made "resumes/" "resume" template_name doc_id formats pdf docx temp) (
        made-IsPersisted storage user_id accepts "resumes/" "resume" template_name doc_id
          (attempt "pdf" formats pdf) (attempt "docx" formats docx) temp files plain plain')
