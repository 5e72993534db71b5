-- ===== src/Tests/Documents.antt =====
-- A short resume that is parsed, rendered and stored.
use auto_jobs_apply.Prelude.{
  String, true, false, ◌≡◌, refl, none, some, [], ◌∷◌, contains, if◌then◌else◌,
}
use Prim.Native.String.{count as text_length}
use auto_jobs_apply.Tx.{ok, err, parse_failed, llm_failed, os_error}
use auto_jobs_apply.Documents.{Reader}
use auto_jobs_apply.Documents.Texts.{newline, split, join, rstrip, split_at_pair, has_character}
use auto_jobs_apply.Documents.Sections.{
  extract_sections, blocks, as_dict, set_key, is_header, scan_lines, extract_sections-blocks,
}
use auto_jobs_apply.Documents.SkillList.{extract_skills_from_text, deduplicated, get_key}
use auto_jobs_apply.Documents.Parsing.{File, parse_pdf_sync, parse, IsParsed, parse-IsParsed}
use auto_jobs_apply.Documents.Letters.{Llm, creative, select_best_template, text_to_html}
use auto_jobs_apply.Documents.Generating.{Renderers, generate_resume}
use auto_jobs_apply.Documents.Persisted.{Accepts, IsPersisted, persisted}
use auto_jobs_apply.Documents.Delivery.{generate_resume-IsPersisted}
use auto_jobs_apply.Tests.Ats.{tools}
use auto_jobs_apply.Tests.Memory.{memory}

abbrev pub reader : Reader
reader = record {
  tools = tools;
  words = λ text. split (b' ' ∷ b'\n' ∷ []) text;
  email_re = λ text. if contains text "@" then some "ann@example.org" else none;
  phone_re = λ text. none;
  linkedin_re = λ text. none;
  github_re = λ text. none;
}

abbrev pub cv_text : String
cv_text = "Ann\nann@example.org\nskills:\nRust, go\nrust | Go\neducation\nBSc\nskills\nRust, SQL, C"

extract_sections-blocks_example :
    extract_sections tools cv_text ≡ as_dict tools (blocks tools (split newline cv_text)).1 []
extract_sections-blocks_example = extract_sections-blocks tools cv_text

-- The second list of skills replaces the first.
sections_found :
    extract_sections tools cv_text ≡ ("skills", "Rust, SQL, C") ∷ ("education", "BSc") ∷ []
unfolding extract_sections scan_lines set_key is_header split join rstrip
sections_found = refl

-- A skill of one letter, such as C, is not listed.
skills_found :
    extract_skills_from_text tools cv_text (("skills", "go,rust,go,C") ∷ []) ≡ "go" ∷ "rust" ∷ []
unfolding extract_skills_from_text deduplicated get_key split has_character
skills_found = refl

abbrev cv_file : File
cv_file = record {
  path = "data/uploads/f1.pdf";
  exists_now = ok true;
  suffix = ".pdf";
  pages = ok ("" ∷ cv_text ∷ []);
  paragraphs = err os_error;
}

parse-IsParsed_example : IsParsed reader cv_file (parse reader cv_file)
parse-IsParsed_example = parse-IsParsed reader cv_file

empty_refused : parse reader (record cv_file { pages = ok ("" ∷ []) }) ≡ err parse_failed
unfolding parse parse_pdf_sync
empty_refused = refl

abbrev pub renderers : {Data : Type 0} → Renderers Data
renderers = record {
  resume_pdf = λ template context. ok "%PDF";
  resume_docx = λ template context. err os_error;
  letter_docx = λ content. ok content;
  html_pdf = λ html css. ok html;
  letter_template = λ template. none;
  escape = λ text. text;
}

-- A model that answers letters and cannot tailor.
abbrev pub model : {Data : Type 0} → Llm Data
model = record {
  tailor = λ resume_data job_description. err llm_failed;
  letter = λ template job_description resume_text company_info. ok "Dear Acme,\n\nhire me";
}

-- "requirements" contains "ui", a keyword of the creative letters.
requirements_are_creative :
    select_best_template tools "" "requirements: java" false false ≡ creative
unfolding select_best_template
requirements_are_creative = refl

paragraphs_tagged : text_to_html tools "Dear Acme,\n\nhire me" ≡ "<p>Dear Acme,</p><p>hire me</p>"
unfolding text_to_html split_at_pair
paragraphs_tagged = refl

memory-Accepts : (user_id : String) → Accepts memory user_id
memory-Accepts user_id key content content_type files plain =
    (record { key = key; size = text_length content; content_type = content_type }, refl)

pub accepts : Accepts memory "alice"
accepts = memory-Accepts "alice"

-- The PDF is stored; the other renderer fails, and so does the tailoring.
generate_resume-IsPersisted_example : IsPersisted memory "alice" (some "%PDF") none [] (
    persisted memory "alice"
      (generate_resume {ResumeData = String} renderers
        (some model)
        "d1"
        cv_text
        "a job"
        "modern"
        []
        [])
      [])
generate_resume-IsPersisted_example =
    generate_resume-IsPersisted {ResumeData = String} renderers (some model) memory "alice" "d1"
      cv_text "a job" "modern" [] [] [] accepts refl refl
