-- ===== src/Documents/SectionKeys.antt =====
-- What the dictionary of `_extract_sections` looks like.
use auto_jobs_apply.Prelude.{
  ◌≤◌, String, true, false, ◌≡◌, subst, inl, inr, Option, none, some, List, [], ◌∷◌, All, count,
  str_eq, str_eq→eq, str_eq_self, Bool-cases, arith,
}
use auto_jobs_apply.Ats.{TextTools}
use auto_jobs_apply.Documents.Texts.{newline, split, join}
use auto_jobs_apply.Documents.Sections.{
  Dict, Scan, key_is, set_key, is_header, normalized, saved, scan_lines, scan_header, scan_body,
  start, extract_sections,
}

abbrev IsHeaderKey : String × String → Type 0
IsHeaderKey (key, value) = is_header key ≡ true

-- Each key is a known header, and stands once.
abbrev pub IsSections : Dict → Type 0
IsSections dict = All IsHeaderKey dict × ((key : String) → count (key_is key) dict ≤ 1)

abbrev IsOpen : Option String → Type 0
IsOpen none = Unit
IsOpen (some section) = is_header section ≡ true

set_key-All :
    (key value : String) (dict : Dict)
    → is_header key ≡ true
    → All IsHeaderKey dict
    → All IsHeaderKey (set_key key value dict)
unfolding set_key
set_key-All key value [] h all = (h, tt)
set_key-All key value ((k, old) ∷ dict) h (one, all) = elim (Bool-cases (str_eq k key)) [
  | inl e ↦ rw e (one, all)
  | inr e ↦ rw e (one, set_key-All key value dict h all)
]

count-set_key_other :
    (key value other : String) (dict : Dict)
    → str_eq key other ≡ false
    → count (key_is other) (set_key key value dict) ≡ count (key_is other) dict
unfolding set_key
count-set_key_other key value other [] h = rw h
count-set_key_other key value other ((k, old) ∷ dict) h = elim (Bool-cases (str_eq k key)) [
  | inl e ↦ rw e
  | inr e ↦ rw (e, count-set_key_other key value other dict h)
]

count-set_key_le :
    (key value : String) (dict : Dict)
    → count (key_is key) dict ≤ 1
    → count (key_is key) (set_key key value dict) ≤ 1
unfolding set_key
count-set_key_le key value [] h = rw (str_eq_self key) (omega arith)
count-set_key_le key value ((k, old) ∷ dict) h = elim (Bool-cases (str_eq k key)) [
  | inl e ↦ rw (e, e) (rw e at h)
  | inr e ↦ rw (e, e) (count-set_key_le key value dict (rw e at h))
]

set_key-IsSections :
    (key value : String) (dict : Dict)
    → is_header key ≡ true
    → IsSections dict
    → IsSections (set_key key value dict)
set_key-IsSections key value dict h (all, once) =
    (set_key-All key value dict h all, λ other. one other)
  where
    one : (other : String) → count (key_is other) (set_key key value dict) ≤ 1
    one other = elim (Bool-cases (str_eq key other)) [
      | inl e ↦
          subst (λ k. count (key_is k) (set_key key value dict) ≤ 1) (str_eq→eq key other e)
            (count-set_key_le key value dict (once key))
      | inr e ↦ rw (count-set_key_other key value other dict e) (once other)
    ]

saved-IsSections :
    (t : TextTools) (section : Option String) (lines : List String) (dict : Dict)
    → IsOpen section
    → IsSections dict
    → IsSections (saved t section lines dict)
saved-IsSections t none lines dict h k = k
saved-IsSections t (some section) lines dict h k =
    set_key-IsSections section (t.strip (join "\n" lines)) dict h k

scan-IsSections :
    (t : TextTools) (lines : List String) (scan : Scan)
    → IsOpen scan.current_section
    → IsSections scan.sections
    → let done = scan_lines t lines scan in
      IsSections (saved t done.current_section done.current_lines done.sections)
scan-IsSections t [] scan h k =
    unfold scan_lines in
    saved-IsSections t scan.current_section scan.current_lines scan.sections h k
scan-IsSections t (line ∷ lines) scan h k = elim (Bool-cases (is_header (normalized t line))) [
  | inl e ↦ rw (scan_header t line lines scan e) (
      scan-IsSections t lines
        (record {
          sections = saved t scan.current_section scan.current_lines scan.sections;
          current_section = some (normalized t line);
          current_lines = [];
        })
        e (saved-IsSections t scan.current_section scan.current_lines scan.sections h k))
  | inr e ↦ rw (scan_body t line lines scan e) (scan-IsSections t lines _ h k)
]

-- Whatever the text, every key of its sections is one of the known headers, and no key stands
-- twice.
pub extract_sections-IsSections :
    (t : TextTools) (text : String) → IsSections (extract_sections t text)
unfolding extract_sections
extract_sections-IsSections t text =
    scan-IsSections t (split newline text) start tt (tt, λ key. omega arith)
