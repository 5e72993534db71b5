-- ===== src/Resumes/Texts.antt =====
-- `_build_resume_data_from_text` of backend/app/services/resume.py: the data of a resume from its text.
use auto_jobs_apply.Prelude.{
  ℕ, String, Bool, not, ◌&&◌, Option, none, some, List, [], ◌∷◌, ◌++◌, map, any, select, or_empty,
  truthy, str_eq, if◌then◌else◌, ltb,
}
use Prim.Native.String.{◌++◌ as ◌+++◌, count as text_length}
use auto_jobs_apply.Ats.{TextTools}
use auto_jobs_apply.Documents.{Reader}
use auto_jobs_apply.Documents.Texts.{newline, split, join, lstrip, starts_with_one_of}
use auto_jobs_apply.Documents.Sections.{Dict, set_key, section_headers, normalized}
use auto_jobs_apply.Documents.SkillList.{get_key, stripped_pieces}

pub record Experience : Type 0 where
  pub title : String
  pub company : String
  pub duration : String
  pub description : String

pub record Education : Type 0 where
  pub degree : String
  pub institution : String
  pub year : String

pub record Project : Type 0 where
  pub name : String
  pub description : String

-- The data of a template, which is also what a language model answers.
pub record ResumeData : Type 0 where
  pub name : String
  pub email : String
  pub phone : String
  pub location : String
  pub linkedin : String
  pub github : String
  pub title : String
  pub summary : String
  pub skills : List String
  pub experience : List Experience
  pub education : List Education
  pub certifications : List String
  pub projects : List Project

-- The local variables of the loop over the lines: no section is the empty text.
pub record TextScan : Type 0 where
  pub sections : Dict
  pub current_section : String
  pub current_content : List String

abbrev pub rest_of : List String → List String
rest_of [] = []
rest_of (line ∷ lines) = lines

abbrev pub first_of : List String → String
first_of [] = ""
first_of (line ∷ lines) = line

-- `sections.get(k, "")` of the first key for which it is not empty.
abbrev pub first_filled : List String → Dict → String
first_filled [] dict = ""
first_filled (key ∷ keys) dict =
    let later = first_filled keys dict in
    if truthy (or_empty (get_key key dict)) then or_empty (get_key key dict) else later

-- The bullets are U+2022, -, * and U+00B7.
abbrev pub bullets : List ℕ
bullets = 8226 ∷ b'-' ∷ b'*' ∷ 183 ∷ []

module _ (t : TextTools) where
  abbrev pub lower_headers : List String
  lower_headers = map t.lower section_headers

  abbrev pub is_lower_header : String → Bool
  is_lower_header text = any (λ h. str_eq h text) lower_headers

  abbrev pub saved_text : TextScan → Dict
  saved_text scan =
      if truthy scan.current_section
      then set_key scan.current_section (t.strip (join "\n" scan.current_content)) scan.sections
      else scan.sections

  abbrev pub scan_text_line : String → TextScan → TextScan
  scan_text_line line scan =
      if is_lower_header (normalized t line)
      then record {
        sections = saved_text scan;
        current_section = normalized t line;
        current_content = [];
      }
      else if truthy scan.current_section
      then record scan { current_content = scan.current_content ++ t.strip line ∷ [] }
      else scan

  unfoldable pub scan_text : List String → TextScan → TextScan
  scan_text [] scan = scan
  scan_text (line ∷ lines) scan = scan_text lines (scan_text_line line scan)

  abbrev pub start_text : TextScan
  start_text = record { sections = []; current_section = ""; current_content = [] }

  unfoldable pub text_sections : String → Dict
  text_sections content_text =
      saved_text (scan_text (rest_of (split newline content_text)) start_text)

  -- `_parse_experience_section`
  abbrev pub is_title : String → Bool
  is_title stripped = not (starts_with_one_of bullets stripped) && ltb (text_length stripped) 80

  abbrev pub appended : List Experience → Option Experience → List Experience
  appended entries none = entries
  appended entries (some current) = entries ++ current ∷ []

  abbrev pub described : String → Option Experience → Option Experience
  described stripped none = none
  described stripped (some current) = some (record current {
    description =
        current.description +++ (lstrip (8226 ∷ b'-' ∷ b'*' ∷ 183 ∷ b' ' ∷ []) stripped +++ "\n");
  })

  abbrev pub titled : String → Experience
  titled stripped = record { title = stripped; company = ""; duration = ""; description = "" }

  unfoldable pub parse_experience :
      List String → List Experience → Option Experience → List Experience
  parse_experience [] entries current = appended entries current
  parse_experience (line ∷ lines) entries current =
      let stripped = t.strip line in
      let skipped = parse_experience lines entries current in
      let opened = parse_experience lines (appended entries current) (some (titled stripped)) in
      let continued = parse_experience lines entries (described stripped current) in
      if truthy stripped then (if is_title stripped then opened else continued) else skipped

  unfoldable pub parse_experience_section : String → List Experience
  parse_experience_section text = parse_experience (split newline text) [] none

  abbrev pub is_degree : String → Bool
  is_degree stripped = not (starts_with_one_of (8226 ∷ b'-' ∷ b'*' ∷ []) stripped)

  abbrev pub degree_entry : String → Education
  degree_entry stripped = record { degree = stripped; institution = ""; year = "" }

  unfoldable pub parse_education_section : String → List Education
  parse_education_section text =
      map degree_entry (select is_degree (stripped_pieces t (split newline text)))

unfoldable pub build_resume_data_from_text : Reader → String → ResumeData
build_resume_data_from_text r content_text =
    let t = r.tools in
    let sections = text_sections t content_text in
    let exp_text =
      first_filled ("experience" ∷ "work experience" ∷ "professional experience" ∷ []) sections in
    let edu_text = first_filled ("education" ∷ "academic background" ∷ []) sections in
    let cert_text = first_filled ("certifications" ∷ "certificates" ∷ []) sections in
    record {
      name = t.strip (first_of (split newline content_text));
      email = or_empty (r.email_re content_text);
      phone = or_empty (r.phone_re content_text);
      location = "";
      linkedin = or_empty (r.linkedin_re content_text);
      github = or_empty (r.github_re content_text);
      title = "";
      summary =
          first_filled ("summary" ∷ "professional summary" ∷ "objective" ∷ "profile" ∷ []) sections;
      skills = stripped_pieces t (
          split (b',' ∷ b'\n' ∷ 8226 ∷ 183 ∷ b'|' ∷ [])
            (first_filled ("skills" ∷ "technical skills" ∷ []) sections));
      experience = if truthy exp_text then parse_experience_section t exp_text else [];
      education = if truthy edu_text then parse_education_section t edu_text else [];
      certifications = if truthy cert_text then stripped_pieces t (split newline cert_text) else [];
      projects = [];
    }
