-- ===== src/Resumes/Uploading.antt =====
-- `upload_resume` of backend/app/services/resume.py and its route in backend/app/api/v1/resumes.py.
use auto_jobs_apply.Prelude.{
  ℕ, zero, suc, ◌*◌, String, Bool, true, not, Option, none, some, List, [], ◌∷◌, ◌++◌, any, delete,
  length, str_eq, is_set, or_empty, or_default, if◌then◌else◌, ltb,
}
use Prim.Native.String.{◌++◌ as ◌+++◌}
use auto_jobs_apply.Tx.{Result, Tx, ok, err, http, pure, guard, modify, ◌>>=◌, ◌>>◌}
use auto_jobs_apply.Models.{Resume, base}
use auto_jobs_apply.Storage.{FileStorage, upload_key}
use auto_jobs_apply.Storage.Service.{put}
use auto_jobs_apply.Documents.{Reader}
use auto_jobs_apply.Documents.Texts.{lstrip}
use auto_jobs_apply.Documents.Sections.{key_is, set_key}
use auto_jobs_apply.Documents.Parsing.{File, ParsedResume, parse}
use auto_jobs_apply.Documents.Storing.{Disk, pdf_content_type, docx_content_type, on_files}
use auto_jobs_apply.Resumes.{Library, on_disk}
use auto_jobs_apply.Resumes.Skills.{extract_resume_skills}

-- A file of a request. `suffix_of` is `Path(name).suffix.lower()`; `decoded` is its content read as
-- UTF-8 without what is not; the other two are what PyPDF2 and python-docx read in it.
pub record UploadFile : Type 0 where
  pub filename : Option String
  pub content_type : Option String
  pub content : String
  pub size : ℕ
  pub decoded : String
  pub pages : Result (List String)
  pub paragraphs : Result (List String)

pub record ResumeUploadResponse : Type 0 where
  pub id : String
  pub name : String
  pub file_format : String
  pub word_count : ℕ
  pub skills_detected : List String

-- `text[:n]`
unfoldable pub text_take : ℕ → String → String
text_take zero text = ""
text_take (suc n) String.[] = ""
text_take (suc n) (String.◌∷◌ c text) = String.◌∷◌ c (text_take n text)

abbrev pub content_limit : ℕ
content_limit = 5000

-- `MAX_UPLOAD_SIZE`, `ALLOWED_EXTENSIONS` and `ALLOWED_MIME_TYPES`
abbrev pub max_upload_size : ℕ
max_upload_size = 10 * 1024 * 1024

abbrev pub allowed_extensions : List String
allowed_extensions = ".pdf" ∷ ".docx" ∷ []

abbrev pub allowed_mime_types : List String
allowed_mime_types = pdf_content_type ∷ docx_content_type ∷ []

abbrev pub has_mime : Option String → Bool
has_mime content_type =
    if is_set content_type
    then any (λ m. str_eq m (or_empty content_type)) allowed_mime_types
    else true

-- `db.add(resume)` and `db.commit()`
abbrev pub add_resume : {Number Files : Type 0} → Resume → Tx (Library Number Files) (Unit {0})
add_resume resume =
    modify (λ s. record s { store = record s.store { resumes = s.store.resumes ++ resume ∷ [] } })

module _ (r : Reader) (has_nlp : Bool) (suffix_of : String → String) where
  abbrev pub file_ext_of : UploadFile → String
  file_ext_of file = suffix_of (or_default file.filename "resume.pdf")

  abbrev pub temp_path : String → String → String
  temp_path file_id file_ext = "data/uploads/" +++ (file_id +++ file_ext)

  -- The temporary file, which was just written; what `parse` raises is caught.
  abbrev pub temp_file : String → UploadFile → File
  temp_file file_id file = record {
    path = temp_path file_id (file_ext_of file);
    exists_now = ok true;
    suffix = file_ext_of file;
    pages = file.pages;
    paragraphs = file.paragraphs;
  }

  -- The text and its number of words, parsed or decoded.
  abbrev pub text_of : UploadFile → Result ParsedResume → String × ℕ
  text_of file (ok parsed) = (parsed.raw_text, parsed.word_count)
  text_of file (err e) = (file.decoded, length (r.words file.decoded))

  abbrev pub key_if : Bool → String → Option String
  key_if chosen key = if chosen then some key else none

  abbrev pub uploaded : String → String → ℕ → UploadFile → String → String → Resume
  uploaded user_id id now file key parsed_text = record {
    id = id;
    user_id = user_id;
    name = or_default file.filename "Untitled Resume";
    type_name = base;
    base_resume_id = none;
    job_id = none;
    template_id = "modern";
    file_path_pdf = key_if (str_eq (file_ext_of file) ".pdf") key;
    file_path_docx = key_if (str_eq (file_ext_of file) ".docx") key;
    content_text = some (text_take content_limit parsed_text);
    created_at = now;
  }

  abbrev pub upload_response : String → UploadFile → String → ℕ → ResumeUploadResponse
  upload_response id file parsed_text word_count = record {
    id = id;
    name = or_default file.filename "Untitled Resume";
    file_format = lstrip (b'.' ∷ []) (file_ext_of file);
    word_count = word_count;
    skills_detected = extract_resume_skills r.tools has_nlp parsed_text;
  }

  abbrev pub key_of : String → String → UploadFile → String
  key_of user_id file_id file = upload_key user_id file_id (lstrip (b'.' ∷ []) (file_ext_of file))

  abbrev pub type_of : UploadFile → String
  type_of file = if str_eq (file_ext_of file) ".pdf" then pdf_content_type else docx_content_type

  module _ {Files : Type 0} where
    abbrev pub write_temp : String → String → Tx (Disk Files) (Unit {0})
    write_temp path content disk = (ok tt, record disk { temp = set_key path content disk.temp })

    abbrev pub unlink_temp : String → Tx (Disk Files) (Unit {0})
    unlink_temp path disk = (ok tt, record disk { temp = delete (key_is path) disk.temp })

    unfoldable pub store_upload :
        FileStorage Files → String → String → UploadFile → Tx (Disk Files) (Unit {0})
    store_upload storage user_id file_id file = do
      write_temp (temp_path file_id (file_ext_of file)) file.content
      stored ←
          on_files (put storage user_id (key_of user_id file_id file) file.content (type_of file))
      unlink_temp (temp_path file_id (file_ext_of file))

  module _ {Number Files : Type 0} (storage : FileStorage Files) (user_id : String) where
    -- `id`, `file_id` and `now` are what is generated.
    unfoldable pub upload_resume :
        String → String → ℕ → UploadFile → Tx (Library Number Files) ResumeUploadResponse
    upload_resume id file_id now file =
        let (parsed_text, word_count) = text_of file (parse r (temp_file file_id file)) in
        on_disk (store_upload storage user_id file_id file)
        >> (add_resume (uploaded user_id id now file (key_of user_id file_id file) parsed_text)
            >> pure (upload_response id file parsed_text word_count))

    -- POST /upload
    unfoldable pub upload_route :
        String → String → ℕ → UploadFile → Tx (Library Number Files) ResumeUploadResponse
    upload_route id file_id now file = do
      guard (any (λ x. str_eq x (suffix_of (or_empty file.filename))) allowed_extensions) (http 422)
      guard (has_mime file.content_type) (http 422)
      guard (not (ltb max_upload_size file.size)) (http 413)
      upload_resume id file_id now file
