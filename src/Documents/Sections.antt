-- ===== src/Documents/Sections.antt =====
-- `_extract_sections` of backend/app/core/documents/parser.py: the lines under each known header.
use auto_jobs_apply.Prelude.{
  String, Bool, true, false, ◌≡◌, refl, ap, ◌∙◌, inl, inr, Option, none, some, List, [], ◌∷◌, ◌++◌,
  any, str_eq, if◌then◌else◌, Bool-cases,
}
use auto_jobs_apply.Ats.{TextTools}
use auto_jobs_apply.Documents.Texts.{newline, split, join, rstrip}
use mathlib.Core.List.{append_assoc, append-nil}

abbrev pub section_headers : List String
section_headers =
    "summary" ∷ "objective" ∷ "professional summary" ∷ "profile" ∷ "experience" ∷ "work experience"
    ∷ "professional experience" ∷ "employment" ∷ "education" ∷ "academic background" ∷ "skills"
    ∷ "technical skills" ∷ "core competencies" ∷ "competencies" ∷ "certifications" ∷ "certificates"
    ∷ "licenses" ∷ "projects" ∷ "personal projects" ∷ "key projects" ∷ "publications" ∷ "awards"
    ∷ "honors" ∷ "volunteer" ∷ "volunteering" ∷ "community involvement" ∷ "languages" ∷ "interests"
    ∷ "references" ∷ []

-- A dictionary, in the order of its keys.
abbrev pub Dict : Type 0
Dict = List (String × String)

abbrev pub key_is : String → String × String → Bool
key_is key (k, value) = str_eq k key

-- `sections[key] = value`
unfoldable pub set_key : String → String → Dict → Dict
set_key key value [] = (key, value) ∷ []
set_key key value ((k, old) ∷ dict) =
    let rest = set_key key value dict in if str_eq k key then (k, value) ∷ dict else (k, old) ∷ rest

unfoldable pub is_header : String → Bool
is_header text = any (λ h. str_eq h text) section_headers

abbrev pub normalized : TextTools → String → String
normalized t line = rstrip (b':' ∷ []) (t.lower (t.strip line))

-- The local variables of the loop.
pub record Scan : Type 0 where
  pub sections : Dict
  pub current_section : Option String
  pub current_lines : List String

abbrev pub saved : TextTools → Option String → List String → Dict → Dict
saved t none lines sections = sections
saved t (some section) lines sections = set_key section (t.strip (join "\n" lines)) sections

abbrev pub lines_with : Option String → String → List String → List String
lines_with none stripped lines = lines
lines_with (some section) stripped lines = lines ++ stripped ∷ []

abbrev pub scan_line : TextTools → String → Scan → Scan
scan_line t line scan =
    if is_header (normalized t line)
    then record {
      sections = saved t scan.current_section scan.current_lines scan.sections;
      current_section = some (normalized t line);
      current_lines = [];
    }
    else record scan {
      current_lines = lines_with scan.current_section (t.strip line) scan.current_lines;
    }

unfoldable pub scan_lines : TextTools → List String → Scan → Scan
scan_lines t [] scan = scan
scan_lines t (line ∷ lines) scan = scan_lines t lines (scan_line t line scan)

abbrev pub start : Scan
start = record { sections = []; current_section = none; current_lines = [] }

abbrev pub finished : TextTools → Scan → Dict
finished t scan = saved t scan.current_section scan.current_lines scan.sections

unfoldable pub extract_sections : TextTools → String → Dict
extract_sections t text = finished t (scan_lines t (split newline text) start)

-- The reference: the lines cut at the headers, as the lines before the first header and the body of
-- each section.
pub blocks : TextTools → List String → List String × List (String × List String)
blocks t [] = ([], [])
blocks t (line ∷ lines) =
    let (before, sections) = blocks t lines in
    if is_header (normalized t line)
    then ([], (normalized t line, before) ∷ sections)
    else (t.strip line ∷ before, sections)

-- A header that stands twice keeps its first place and its last body.
pub as_dict : TextTools → List (String × List String) → Dict → Dict
as_dict t [] dict = dict
as_dict t ((section, body) ∷ sections) dict =
    as_dict t sections (set_key section (t.strip (join "\n" body)) dict)

module _ (t : TextTools) (line : String) where
  abbrev opened : Scan → Scan
  opened scan = record {
    sections = saved t scan.current_section scan.current_lines scan.sections;
    current_section = some (normalized t line);
    current_lines = [];
  }

  pub scan_header :
      (lines : List String) (scan : Scan)
      → is_header (normalized t line) ≡ true
      → scan_lines t (line ∷ lines) scan ≡ scan_lines t lines (opened scan)
  unfolding scan_lines
  scan_header lines scan e = ap (scan_lines t lines) (one_line scan e)
    where
      one_line :
          (scan : Scan) → is_header (normalized t line) ≡ true → scan_line t line scan ≡ opened scan
      one_line scan e = rw e

  pub scan_body :
      (lines : List String) (scan : Scan)
      → is_header (normalized t line) ≡ false
      → scan_lines t (line ∷ lines) scan
        ≡ scan_lines t lines (record scan {
          current_lines = lines_with scan.current_section (t.strip line) scan.current_lines;
        })
  unfolding scan_lines
  scan_body lines scan e = ap (scan_lines t lines) (one_line scan e)
    where
      one_line :
          (scan : Scan)
          → is_header (normalized t line) ≡ false
          → scan_line t line scan ≡ record scan {
            current_lines = lines_with scan.current_section (t.strip line) scan.current_lines;
          }
      one_line scan e = rw e

  blocks-header :
      (lines : List String)
      → is_header (normalized t line) ≡ true
      → blocks t (line ∷ lines) ≡ ([], (normalized t line, (blocks t lines).0) ∷ (blocks t lines).1)
  unfolding blocks
  blocks-header lines e = rw e

  blocks_body :
      (lines : List String)
      → is_header (normalized t line) ≡ false
      → blocks t (line ∷ lines) ≡ (t.strip line ∷ (blocks t lines).0, (blocks t lines).1)
  unfolding blocks
  blocks_body lines e = rw e

within :
    (t : TextTools) (section : String) (lines done : List String) (dict : Dict)
    → finished t (
        scan_lines t lines
          (record { sections = dict; current_section = some section; current_lines = done }))
      ≡ as_dict t
          (blocks t lines).1
          (set_key section (t.strip (join "\n" (done ++ (blocks t lines).0))) dict)
unfolding as_dict
within t section [] done dict = unfold scan_lines blocks in rw (append-nil done)
within t section (line ∷ lines) done dict =
    let scan : Scan = record {
      sections = dict;
      current_section = some section;
      current_lines = done;
    } in
    elim (Bool-cases (is_header (normalized t line))) [
      | inl e ↦
          rw (scan_header t line lines scan e, blocks-header t line lines e, append-nil done)
            (within t (normalized t line) lines []
              (set_key section (t.strip (join "\n" done)) dict))
      | inr e ↦
          rw (scan_body t line lines scan e, blocks_body t line lines e)
            (within t section lines (done ++ t.strip line ∷ []) dict
              ∙ rw (append_assoc done (t.strip line ∷ []) (blocks t lines).0))
    ]

outside :
    (t : TextTools) (lines : List String)
    → finished t (scan_lines t lines start) ≡ as_dict t (blocks t lines).1 []
unfolding as_dict
outside t [] = unfold scan_lines blocks in refl
outside t (line ∷ lines) = elim (Bool-cases (is_header (normalized t line))) [
  | inl e ↦
      rw (scan_header t line lines start e, blocks-header t line lines e)
        (within t (normalized t line) lines [] [])
  | inr e ↦ rw (scan_body t line lines start e, blocks_body t line lines e) (outside t lines)
]

-- The loop of `_extract_sections` gives what cutting the lines at the headers gives: each header's
-- section is the stripped text of the stripped lines up to the next header, the lines before the
-- first header are dropped, and of a header that stands twice the last section is kept.
pub extract_sections-blocks :
    (t : TextTools) (text : String)
    → extract_sections t text ≡ as_dict t (blocks t (split newline text)).1 []
unfolding extract_sections
extract_sections-blocks t text = outside t (split newline text)
