-- ===== src/Resumes/TextLaws.antt =====
-- The service's copy of the section loop against the parser's, and the entries of the experience.
use auto_jobs_apply.Prelude.{
  String, true, false, ◌≡◌, refl, ap, ◌∙◌, inl, inr, Option, none, some, List, [], ◌∷◌, ◌++◌, map,
  any, select, truthy, str_eq, str_eq→eq, Bool-cases,
}
use Prim.Native.String.{◌++◌ as ◌+++◌}
use mathlib.Core.List.{append_assoc, append-nil}
use auto_jobs_apply.Ats.{TextTools}
use auto_jobs_apply.Documents.Texts.{newline, split, lstrip}
use auto_jobs_apply.Documents.Sections.{
  Dict, Scan, section_headers, is_header, normalized, scan_lines, scan_header, scan_body, finished,
  saved, start, lines_with,
}
use auto_jobs_apply.Documents.SkillList.{stripped_pieces}
use auto_jobs_apply.Resumes.Texts.{
  Experience, TextScan, rest_of, is_lower_header, saved_text, scan_text_line, scan_text,
  text_sections, is_title, appended, described, titled, parse_experience, parse_experience_section,
}

is_header-truthy : (h : String) → is_header h ≡ true → truthy h ≡ true
unfolding is_header
is_header-truthy h k = elim (Bool-cases (str_eq h "")) [
  | inl e ↦ absurd (no_header (rw (str_eq→eq h "" e) at k))
  | inr e ↦ rw e
]
  where
    no_header : false ≡ true → ⊥
    no_header e = cc e

abbrev section_text : Option String → String
section_text none = ""
section_text (some section) = section

abbrev as_text : Scan → TextScan
as_text scan = record {
  sections = scan.sections;
  current_section = section_text scan.current_section;
  current_content = scan.current_lines;
}

abbrev IsOpen : Option String → Type 0
IsOpen none = Unit
IsOpen (some section) = truthy section ≡ true

module _ (t : TextTools) (lowered : map t.lower section_headers ≡ section_headers) where
  same_header : (text : String) → is_lower_header t text ≡ is_header text
  unfolding is_header
  same_header text = ap (λ headers. any (λ h. str_eq h text) headers) lowered

  saved-same :
      (section : Option String) (lines : List String) (dict : Dict)
      → IsOpen section
      → saved_text t (record {
        sections = dict;
        current_section = section_text section;
        current_content = lines;
      })
        ≡ saved t section lines dict
  saved-same none lines dict h = refl
  saved-same (some section) lines dict h = rw h

  text_body :
      (section : Option String) (lines done : List String) (line : String) (dict : Dict)
      → IsOpen section
      → is_header (normalized t line) ≡ false
      → scan_text_line t line (record {
        sections = dict;
        current_section = section_text section;
        current_content = done;
      })
        ≡ as_text (record {
          sections = dict;
          current_section = section;
          current_lines = lines_with section (t.strip line) done;
        })
  text_body none lines done line dict h k = rw (same_header (normalized t line), k)
  text_body (some section) lines done line dict h k = rw (same_header (normalized t line), k, h)

  text_header :
      (line : String) (scan : Scan)
      → IsOpen scan.current_section
      → is_header (normalized t line) ≡ true
      → scan_text_line t line (as_text scan)
        ≡ as_text (record {
          sections = saved t scan.current_section scan.current_lines scan.sections;
          current_section = some (normalized t line);
          current_lines = [];
        })
  text_header line scan h k =
      rw (same_header (normalized t line), k)
        (ap
          (λ dict. record {
            sections = dict;
            current_section = normalized t line;
            current_content = [];
          })
          (saved-same scan.current_section scan.current_lines scan.sections h))

  scan_text-same :
      (lines : List String) (scan : Scan)
      → IsOpen scan.current_section
      → saved_text t (scan_text t lines (as_text scan)) ≡ finished t (scan_lines t lines scan)
  unfolding scan_text
  scan_text-same [] scan h =
      unfold scan_lines in saved-same scan.current_section scan.current_lines scan.sections h
  scan_text-same (line ∷ lines) scan h = elim (Bool-cases (is_header (normalized t line))) [
    | inl e ↦ rw (scan_header t line lines scan e) (
        ap (λ x. saved_text t (scan_text t lines x)) (text_header line scan h e)
        ∙ scan_text-same lines _ (is_header-truthy (normalized t line) e))
    | inr e ↦ rw (scan_body t line lines scan e) (
        ap (λ x. saved_text t (scan_text t lines x))
          (text_body scan.current_section lines scan.current_lines line scan.sections h e)
        ∙ scan_text-same lines _ h)
  ]

  -- The section loop of the resume service, which marks no section by the empty text and compares
  -- with lower-cased headers, gives what the loop of the document parser gives on the lines after
  -- the first, where the lower case of each known header is itself.
  pub text_sections-same :
      (content_text : String)
      → text_sections t content_text
        ≡ finished t (scan_lines t (rest_of (split newline content_text)) start)
  unfolding text_sections
  text_sections-same content_text = scan_text-same (rest_of (split newline content_text)) start tt

abbrev titles : List Experience → List String
titles entries = map (λ e. e.title) entries

titles-append : (xs ys : List Experience) → titles (xs ++ ys) ≡ titles xs ++ titles ys
titles-append [] ys = refl
titles-append (x ∷ xs) ys = ap (λ rest. x.title ∷ rest) (titles-append xs ys)

titles-described :
    (t : TextTools) (stripped : String) (entries : List Experience) (current : Option Experience)
    → titles (appended t entries (described t stripped current))
      ≡ titles (appended t entries current)
titles-described t stripped entries none = refl
titles-described t stripped entries (some current) = rw (
  titles-append entries (
      record current {
        description =
            current.description
            +++ (lstrip (8226 ∷ b'-' ∷ b'*' ∷ 183 ∷ b' ' ∷ []) stripped +++ "\n");
      }
      ∷ []),
  titles-append entries (current ∷ []),
)

module _ (t : TextTools) where
  titles-parse_experience :
      (lines : List String) (entries : List Experience) (current : Option Experience)
      → titles (parse_experience t lines entries current)
        ≡ titles (appended t entries current) ++ select (is_title t) (stripped_pieces t lines)
  unfolding parse_experience
  titles-parse_experience [] entries current = rw (append-nil (titles (appended t entries current)))
  titles-parse_experience (line ∷ lines) entries current =
      elim (Bool-cases (truthy (t.strip line))) [
        | inl e ↦ elim (Bool-cases (is_title t (t.strip line))) [
          | inl g ↦ rw (
            e,
            g,
            titles-parse_experience lines (appended t entries current)
                (some (titled t (t.strip line))),
            titles-append (appended t entries current) (titled t (t.strip line) ∷ []),
            append_assoc,
          )
          | inr g ↦ rw (
            e,
            g,
            titles-parse_experience lines entries (described t (t.strip line) current),
            titles-described t (t.strip line) entries current,
          )
        ]
        | inr e ↦ rw (e, titles-parse_experience lines entries current)
      ]

  -- The experience of a resume has one entry for each line of its section that reads as a title, in
  -- their order and under these titles: not empty, no bullet in front, and under 80 characters.
  pub parse_experience_section-titles :
      (text : String)
      → map (λ e. e.title) (parse_experience_section t text)
        ≡ select (is_title t) (stripped_pieces t (split newline text))
  unfolding parse_experience_section
  parse_experience_section-titles text = titles-parse_experience (split newline text) [] none
