-- ===== src/Resumes/Uploaded.antt =====
-- An upload is stored and can be read back.
use auto_jobs_apply.Prelude.{
  ℕ, ◌≤◌, zero, suc, String, Bool, not, ◌≡◌, ◌⊎◌, Option, none, some, [], ◌∷◌, ◌++◌, ◌&&◌, ◌||◌,
  if◌then◌else◌, delete, str_eq, or_empty, ltb, arith,
}
use Prim.Native.String.{count as text_length}
use text.Mathlib.TextLemmas.{length-cons}
use auto_jobs_apply.Tx.{Result, ok, err, http}
use auto_jobs_apply.Models.{Resume}
use auto_jobs_apply.Storage.{FileStorage}
use auto_jobs_apply.Storage.Service.{put, get}
use auto_jobs_apply.Documents.{Reader}
use auto_jobs_apply.Documents.Sections.{key_is, set_key}
use auto_jobs_apply.Documents.Parsing.{parse}
use auto_jobs_apply.Documents.Storing.{Disk}
use auto_jobs_apply.Resumes.{Library}
use auto_jobs_apply.Resumes.Uploading.{
  UploadFile, ResumeUploadResponse, file_ext_of, temp_path, temp_file, text_of, uploaded, key_of,
  type_of, text_take,
}

pub text_take-length : (n : ℕ) (text : String) → text_length (text_take n text) ≤ n
unfolding text_take
text_take-length zero text = omega arith
text_take-length (suc n) String.[] = omega arith
text_take-length (suc n) (String.◌∷◌ c text) =
    rw (length-cons c (text_take n text)) (omega (arith, text_take-length n text))

module _ (r : Reader) (has_nlp : Bool) (suffix_of : String → String) where
  module _ {Files : Type 0} (storage : FileStorage Files) (user_id : String) where
    abbrev key : String → UploadFile → String
    key = key_of r has_nlp suffix_of user_id

    abbrev disk_after : String → UploadFile → Disk Files → Disk Files
    disk_after file_id file disk =
        let path = temp_path r has_nlp suffix_of file_id (file_ext_of r has_nlp suffix_of file) in
        record {
          temp = delete (key_is path) (set_key path file.content disk.temp);
          files =
              (storage.put (key file_id file) file.content (type_of r has_nlp suffix_of file)
                disk.files).1;
        }

    module _ (id file_id : String) (now : ℕ) (file : UploadFile) where
      abbrev parsed : String × ℕ
      parsed =
          text_of r has_nlp suffix_of file (parse r (temp_file r has_nlp suffix_of file_id file))

      abbrev row : Resume
      row = uploaded r has_nlp suffix_of user_id id now file (key file_id file) parsed.0

      abbrev after_upload : {Number : Type 0} → Library Number Files → Library Number Files
      after_upload s = record s {
        store = record s.store { resumes = s.store.resumes ++ row ∷ [] };
        disk = disk_after file_id file s.disk;
      }

    -- The file is under the key of its format alone, and its tenant reads it back.
    abbrev pub HasFile : String → Resume → Files → Type 0
    HasFile content resume files =
        (k : String) × (((resume.file_path_pdf ≡ some k) × (resume.file_path_docx ≡ none))
          ⊎ ((resume.file_path_pdf ≡ none) × (resume.file_path_docx ≡ some k)))
        × ((get storage user_id k files).0 ≡ ok content)

    -- Whether the name of the file ends in .pdf or .docx, and its content type, if it is given and
    -- not empty, is one of the two.
    abbrev pub has_format : UploadFile → Bool
    has_format file =
        let suffix = suffix_of (or_empty file.filename) in
        let mime = or_empty file.content_type in
        (str_eq ".pdf" suffix || str_eq ".docx" suffix)
        && (str_eq mime ""
            || (str_eq "application/pdf" mime
                || str_eq "application/vnd.openxmlformats-officedocument.wordprocessingml.document"
                    mime))

    -- The status with which a file is refused, if it is.
    abbrev pub refusal : UploadFile → Option ℕ
    refusal file =
        if not (has_format file)
        then some 422
        else if ltb 10485760 file.size
        then some 413
        else none

    abbrev pub IsUploaded :
        {Number : Type 0}
        → UploadFile
        → Library Number Files
        → Option ℕ
        → Result ResumeUploadResponse × Library Number Files
        → Type 0
    IsUploaded file s (some code) (answer, after) = (answer ≡ err (http code)) × (after ≡ s)
    IsUploaded file s none (err e, after) = ⊥
    IsUploaded file s none (ok response, after) =
        (resume : Resume) × (resume.id ≡ response.id)
        × (resume.user_id ≡ user_id)
        × (text_length (or_empty resume.content_text) ≤ 5000)
        × (after.store.resumes ≡ s.store.resumes ++ resume ∷ [])
        × HasFile file.content resume after.disk.files
