-- ===== src/Documents/Storing.antt =====
-- `persist_generated_document` of backend/app/core/storage/documents.py: rendered files moved into the
-- tree of their tenant.
use auto_jobs_apply.Prelude.{
  String, Option, none, some, str_eq, delete, if◌then◌else◌, is_set, or_empty,
}
use auto_jobs_apply.Tx.{Result, Tx, ok, err, os_error, pure, ◌>>=◌, ◌>>◌}
use auto_jobs_apply.Storage.{FileStorage, resume_key, cover_letter_key}
use auto_jobs_apply.Storage.Service.{put}
use auto_jobs_apply.Documents.Sections.{key_is}
use auto_jobs_apply.Documents.SkillList.{get_key}
use auto_jobs_apply.Documents.Generating.{GeneratedDocument, Temp}

-- The local files and the storage.
pub record Disk (Files : Type 0) : Type 0 where
  pub temp : Temp
  pub files : Files

abbrev pub pdf_content_type : String
pdf_content_type = "application/pdf"

abbrev pub docx_content_type : String
docx_content_type = "application/vnd.openxmlformats-officedocument.wordprocessingml.document"

abbrev pub content_or_raise : Option String → Result String
content_or_raise none = err os_error
content_or_raise (some content) = ok content

module _ {Files : Type 0} where
  abbrev pub on_files : {A : Type 0} → Tx Files A → Tx (Disk Files) A
  on_files m disk = let (r, files) = m disk.files in (r, record disk { files = files })

  -- `Path(path).read_bytes()`
  abbrev pub read_bytes : String → Tx (Disk Files) String
  read_bytes path disk = (content_or_raise (get_key path disk.temp), disk)

  -- `Path(path).unlink()`, whose OSError is suppressed.
  abbrev pub unlink : String → Tx (Disk Files) (Unit {0})
  unlink path disk = (ok tt, record disk { temp = delete (key_is path) disk.temp })

  module _ (storage : FileStorage Files) (user_id : String) where
    -- One of the two branches: `if doc.pdf_path:` and `if doc.docx_path:`.
    abbrev pub moved : String → String → Option String → Tx (Disk Files) (Option String)
    moved key content_type path =
        if is_set path
        then (do
          content ← read_bytes (or_empty path)
          stored ← on_files (put storage user_id key content content_type)
          unlink (or_empty path)
          pure (some key))
        else pure none

    abbrev pub key_fn : String → String → String → String → String
    key_fn type_name = if str_eq type_name "cover_letter" then cover_letter_key else resume_key

    unfoldable pub persist_generated_document :
        GeneratedDocument → Tx (Disk Files) (Option String × Option String)
    persist_generated_document doc = do
      pdf_key ←
          moved (key_fn doc.type_name user_id doc.document_id "pdf") pdf_content_type doc.pdf_path
      docx_key ←
          moved (key_fn doc.type_name user_id doc.document_id "docx") docx_content_type
            doc.docx_path
      pure (pdf_key, docx_key)
