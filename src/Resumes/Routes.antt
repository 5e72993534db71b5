-- ===== src/Resumes/Routes.antt =====
-- GET /{resume_id}/download and GET /{resume_id}/profile-data of backend/app/api/v1/resumes.py.
use auto_jobs_apply.Prelude.{
  String, Bool, not, ◌&&◌, Option, List, [], ◌∷◌, map, any, select, contains, str_eq, is_set,
  or_empty, truthy, if◌then◌else◌,
}
use Prim.Native.String.{◌++◌ as ◌+++◌}
use auto_jobs_apply.Tx.{
  Error, Result, Tx, ok, err, record_not_found, permission, os_error, pure, raise, ◌>>=◌,
}
use auto_jobs_apply.Models.{Resume}
use auto_jobs_apply.Storage.{FileStorage}
use auto_jobs_apply.Storage.Service.{materialize_to_temp}
use auto_jobs_apply.Documents.{Reader}
use auto_jobs_apply.Documents.Texts.{newline, split, lstrip}
use auto_jobs_apply.Documents.Sections.{Dict, normalized, extract_sections, key_is}
use auto_jobs_apply.Documents.SkillList.{get_key, first_section, extract_skills_from_text}
use auto_jobs_apply.Documents.Parsing.{extract_contact_info}
use auto_jobs_apply.Documents.Storing.{Disk, pdf_content_type, docx_content_type, on_files}
use auto_jobs_apply.Resumes.{Library, on_store, on_disk, get_resume}

pub record FileResponse : Type 0 where
  pub path : String
  pub media_type : String
  pub filename : String

-- What the `except` of the download catches; an OSError stands for FileNotFoundError.
abbrev pub as_not_found : Error → Error
as_not_found permission = record_not_found
as_not_found os_error = record_not_found
as_not_found e = e

abbrev pub file_or_not_found : Result String → Result String
file_or_not_found (ok path) = ok path
file_or_not_found (err e) = err (as_not_found e)

abbrev pub key_for : String → Resume → Option String
key_for format resume = if str_eq format "pdf" then resume.file_path_pdf else resume.file_path_docx

abbrev pub materialized :
    {Files : Type 0} → FileStorage Files → String → String → Tx (Disk Files) String
materialized storage user_id key disk =
    let (r, after) = on_files (materialize_to_temp storage user_id key) disk in
    (file_or_not_found r, after)

-- `format` is "pdf" or "docx".
unfoldable pub download_resume :
    {Number Files : Type 0}
    → FileStorage Files
    → Option String
    → String
    → String
    → String
    → Tx (Library Number Files) FileResponse
download_resume storage tenant user_id resume_id format = do
  resume ← on_store (get_resume tenant resume_id)
  path ←
      if is_set (key_for format resume)
      then on_disk (materialized storage user_id (or_empty (key_for format resume)))
      else raise record_not_found
  pure (record {
    path = path;
    media_type = if str_eq format "pdf" then pdf_content_type else docx_content_type;
    filename = resume.name +++ ("." +++ format);
  })

pub record CandidateProfileSchema : Type 0 where
  pub full_name : String
  pub email : String
  pub phone : String
  pub linkedin_url : String
  pub github_url : String
  pub summary : String
  pub skills : List String
  pub certifications : List String

abbrev pub empty_profile : CandidateProfileSchema
empty_profile = record {
  full_name = "";
  email = "";
  phone = "";
  linkedin_url = "";
  github_url = "";
  summary = "";
  skills = [];
  certifications = [];
}

module _ (r : Reader) where
  abbrev pub is_name_line : Dict → String → Bool
  is_name_line sections line =
      truthy (r.tools.strip line)
      && not (any (key_is (normalized r.tools line)) sections)
      && not (contains (r.tools.strip line) "@")
      && not (contains (r.tools.lower (r.tools.strip line)) "http")

  abbrev pub name_in : Dict → List String → String
  name_in sections [] = ""
  name_in sections (line ∷ lines) =
      let later = name_in sections lines in
      if is_name_line sections line then r.tools.strip line else later

  abbrev pub certification_of : String → String
  certification_of line = r.tools.strip (lstrip (b'-' ∷ b'*' ∷ 8226 ∷ 8227 ∷ b' ' ∷ []) line)

  -- The profile of a text that is not blank.
  unfoldable pub profile_of : String → CandidateProfileSchema
  profile_of content =
      let contact = extract_contact_info r content in
      let sections = extract_sections r.tools content in
      let cert_text =
        first_section ("certifications" ∷ "certificates" ∷ "licenses" ∷ []) sections in
      record {
        full_name = name_in sections (split newline content);
        email = or_empty (get_key "email" contact);
        phone = or_empty (get_key "phone" contact);
        linkedin_url = or_empty (get_key "linkedin" contact);
        github_url = or_empty (get_key "github" contact);
        summary =
            first_section ("summary" ∷ "objective" ∷ "professional summary" ∷ "profile" ∷ [])
              sections;
        skills = extract_skills_from_text r.tools content sections;
        certifications =
            map certification_of
              (select (λ line. truthy (r.tools.strip line)) (split newline cert_text));
      }

  unfoldable pub extract_profile_from_resume :
      {Number Files : Type 0}
      → Option String
      → String
      → Tx (Library Number Files) CandidateProfileSchema
  extract_profile_from_resume tenant resume_id = do
    resume ← on_store (get_resume tenant resume_id)
    let content = or_empty resume.content_text
    pure (if truthy (r.tools.strip content) then profile_of content else empty_profile)
