-- ===== src/Documents/Parsing.antt =====
-- `DocumentParser` of backend/app/core/documents/parser.py. What PyPDF2 and python-docx read is part
-- of the file.
use auto_jobs_apply.Prelude.{
  ℕ, String, Bool, true, false, ◌≡◌, ◌⊎◌, refl, inl, inr, Option, none, some, List, [], ◌∷◌, any,
  select, length, str_eq, if◌then◌else◌, truthy, Bool-cases,
}
use auto_jobs_apply.Tx.{Result, ok, err, parse_failed}
use auto_jobs_apply.Documents.{Reader}
use auto_jobs_apply.Documents.Texts.{join, lstrip}
use auto_jobs_apply.Documents.Sections.{Dict, set_key, extract_sections}
use auto_jobs_apply.Documents.SectionKeys.{IsSections, extract_sections-IsSections}
use auto_jobs_apply.Documents.SkillList.{
  stripped_pieces, extract_skills_from_text, IsSkillList, extract_skills_from_text-IsSkillList,
}

-- A path, what `path.exists()` answers or raises, its suffix in lower case, and the texts of the
-- pages or the paragraphs that the library reads there, or what it raises: a library that is not
-- installed raises too.
pub record File : Type 0 where
  pub path : String
  pub exists_now : Result Bool
  pub suffix : String
  pub pages : Result (List String)
  pub paragraphs : Result (List String)

pub record ParsedResume : Type 0 where
  pub raw_text : String
  pub file_path : String
  pub file_format : String
  pub sections : Dict
  pub contact_info : Dict
  pub skills : List String
  pub word_count : ℕ

abbrev pub supported_formats : List String
supported_formats = ".pdf" ∷ ".docx" ∷ []

-- `if not pieces: raise ParseError`
abbrev pub lines_or_raise : List String → Result String
lines_or_raise [] = err parse_failed
lines_or_raise (piece ∷ pieces) = ok (join "\n" (piece ∷ pieces))

unfoldable pub parse_pdf_sync : Result (List String) → Result String
parse_pdf_sync (err e) = err e
parse_pdf_sync (ok pages) = lines_or_raise (select truthy pages)

abbrev pub set_contact : String → Option String → Dict → Dict
set_contact key none info = info
set_contact key (some found) info = set_key key found info

module _ (r : Reader) where
  unfoldable pub parse_docx_sync : Result (List String) → Result String
  parse_docx_sync (err e) = err e
  parse_docx_sync (ok paragraphs) = lines_or_raise (stripped_pieces r.tools paragraphs)

  unfoldable pub extract_contact_info : String → Dict
  extract_contact_info text = set_contact "github" (r.github_re text) (
      set_contact "linkedin" (r.linkedin_re text)
        (set_contact "phone" (r.phone_re text) (set_contact "email" (r.email_re text) [])))

  abbrev pub raw_text_of : File → Result String
  raw_text_of file =
      if str_eq file.suffix ".pdf"
      then parse_pdf_sync file.pages
      else parse_docx_sync file.paragraphs

  -- Whatever was raised becomes a ParseError.
  abbrev pub parsed : File → Result String → Result ParsedResume
  parsed file (err e) = err parse_failed
  parsed file (ok raw_text) = ok (record {
    raw_text = raw_text;
    file_path = file.path;
    file_format = lstrip (b'.' ∷ []) file.suffix;
    sections = extract_sections r.tools raw_text;
    contact_info = extract_contact_info raw_text;
    skills = extract_skills_from_text r.tools raw_text (extract_sections r.tools raw_text);
    word_count = length (r.words raw_text);
  })

  abbrev if_exists : Result Bool → Result ParsedResume → Result ParsedResume
  if_exists (err e) answer = err e
  if_exists (ok false) answer = err parse_failed
  if_exists (ok true) answer = answer

  -- The `try` begins after the test of existence.
  unfoldable pub parse : File → Result ParsedResume
  parse file = if_exists file.exists_now (
      if any (λ f. str_eq f file.suffix) supported_formats
      then parsed file (raw_text_of file)
      else err parse_failed)

  -- What a parsed resume promises, and the exceptions.
  abbrev pub IsParsed : File → Result ParsedResume → Type 0
  IsParsed file (err e) = (e ≡ parse_failed) ⊎ (file.exists_now ≡ err e)
  IsParsed file (ok p) =
      (file.exists_now ≡ ok true)
      × (raw_text_of file ≡ ok p.raw_text)
      × IsSections p.sections
      × IsSkillList r.tools p.skills
      × (p.word_count ≡ length (r.words p.raw_text))

  parsed-IsParsed :
      (file : File) (raw : Result String)
      → file.exists_now ≡ ok true
      → raw_text_of file ≡ raw
      → IsParsed file (parsed file raw)
  parsed-IsParsed file (err e) there read = inl refl
  parsed-IsParsed file (ok raw_text) there read =
      let sections = extract_sections r.tools raw_text in
      (
        there,
        read,
        extract_sections-IsSections r.tools raw_text,
        (extract_skills_from_text-IsSkillList r.tools raw_text sections).0,
        refl,
      )

  if_exists-IsParsed :
      (file : File) (there : Result Bool) (answer : Result ParsedResume)
      → file.exists_now ≡ there
      → (file.exists_now ≡ ok true → IsParsed file answer)
      → IsParsed file (if_exists there answer)
  if_exists-IsParsed file (err e) answer h more = inr h
  if_exists-IsParsed file (ok false) answer h more = inl refl
  if_exists-IsParsed file (ok true) answer h more = more h

  -- Whatever the libraries raise, `parse` raises nothing but ParseError, and what the test of the
  -- path's existence raises, which stands before its `try`. What it answers is parsed from the text
  -- of a file that exists: it has sections with known headers, each once, and skills of more than
  -- one character, no two the same in lower case, and counts the words of its text.
  pub parse-IsParsed : (file : File) → IsParsed file (parse file)
  unfolding parse
  parse-IsParsed file = if_exists-IsParsed file file.exists_now _ refl (λ there.
      elim (Bool-cases (any (λ f. str_eq f file.suffix) supported_formats)) [
        | inl g ↦ rw g (parsed-IsParsed file (raw_text_of file) there refl)
        | inr g ↦ rw g (inl refl)
      ])
