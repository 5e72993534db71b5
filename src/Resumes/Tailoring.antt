-- ===== src/Resumes/Tailoring.antt =====
-- `generate_tailored_resume` of backend/app/services/resume.py.
use auto_jobs_apply.Prelude.{ℕ, String, Option, some, List, or_empty}
use Prim.Native.String.{◌++◌ as ◌+++◌}
use auto_jobs_apply.Tx.{Tx, pure, ◌>>=◌, ◌>>◌}
use auto_jobs_apply.Models.{Resume, tailored}
use auto_jobs_apply.JobSearch.Stored.{get_job}
use auto_jobs_apply.Storage.{FileStorage}
use auto_jobs_apply.Documents.{Reader}
use auto_jobs_apply.Documents.Letters.{Llm}
use auto_jobs_apply.Documents.Generating.{Renderers, Temp, generate_resume}
use auto_jobs_apply.Documents.Storing.{Disk, persist_generated_document}
use auto_jobs_apply.Resumes.{Library, on_store, on_disk, get_resume}
use auto_jobs_apply.Resumes.Texts.{ResumeData, build_resume_data_from_text}
use auto_jobs_apply.Resumes.Uploading.{add_resume}

pub record ResumeGenerateRequest : Type 0 where
  pub base_resume_id : String
  pub job_id : String
  pub template_id : String
  pub output_formats : List String

abbrev pub on_temp : {Files A : Type 0} → Tx Temp A → Tx (Disk Files) A
on_temp m disk = let (r, temp) = m disk.temp in (r, record disk { temp = temp })

-- What a request draws: the id of the new row, of the document, and the time.
pub record Draws : Type 0 where
  pub id : String
  pub document_id : String
  pub now : ℕ

module _ {Files : Type 0} (r : Renderers ResumeData) (storage : FileStorage Files) where
  -- A document generated from data, stored for the user: the two keys.
  abbrev pub delivered :
      Option (Llm ResumeData)
      → String
      → String
      → ResumeData
      → String
      → String
      → List String
      → Tx (Disk Files) (Option String × Option String)
  delivered llm user_id document_id resume_data job_description template_name formats = do
    doc ←
        on_temp
          (generate_resume r llm document_id resume_data job_description template_name formats)
    persist_generated_document storage user_id doc

  abbrev pub tailored_row :
      String → Draws → ResumeGenerateRequest → Resume → Option String × Option String → Resume
  tailored_row user_id d request base (pdf_key, docx_key) = record {
    id = d.id;
    user_id = user_id;
    name = "Tailored - " +++ base.name;
    type_name = tailored;
    base_resume_id = some request.base_resume_id;
    job_id = some request.job_id;
    template_id = request.template_id;
    file_path_pdf = pdf_key;
    file_path_docx = docx_key;
    content_text = base.content_text;
    created_at = d.now;
  }

  unfoldable pub generate_tailored_resume :
      {Number : Type 0}
      → Reader
      → Option (Llm ResumeData)
      → Option String
      → String
      → Draws
      → ResumeGenerateRequest
      → Tx (Library Number Files) Resume
  generate_tailored_resume reader llm tenant user_id d request = do
    base ← on_store (get_resume tenant request.base_resume_id)
    job ← on_store (get_job tenant request.job_id)
    keys ← on_disk (
        delivered llm user_id d.document_id
          (build_resume_data_from_text reader (or_empty base.content_text)) job.description
          request.template_id request.output_formats)
    add_resume (tailored_row user_id d request base keys)
    pure (tailored_row user_id d request base keys)
