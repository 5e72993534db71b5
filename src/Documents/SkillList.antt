-- ===== src/Documents/SkillList.antt =====
-- `_extract_skills_from_text` of backend/app/core/documents/parser.py.
use auto_jobs_apply.Prelude.{
  ℕ, ◌≤◌, String, Bool, true, not, ◌&&◌, ◌||◌, ◌≡◌, refl, inl, inr, Option, none, some, List, [],
  ◌∷◌, ◌++◌, map, any, All, count, select, first, str_eq, str_eq→eq, if◌then◌else◌, ltb, truthy,
  Bool-cases, arith,
}
use Prim.Native.String.{count as text_length}
use auto_jobs_apply.Ats.{TextTools}
use auto_jobs_apply.Documents.Texts.{newline, split, has_character, lstrip}
use auto_jobs_apply.Documents.Sections.{Dict, key_is}

abbrev pub value_of : Option (String × String) → Option String
value_of none = none
value_of (some (key, value)) = some value

-- `sections.get(key)`
unfoldable pub get_key : String → Dict → Option String
get_key key dict = value_of (first (select (key_is key) dict))

abbrev pub skill_keys : List String
skill_keys = "skills" ∷ "technical skills" ∷ "core competencies" ∷ "competencies" ∷ []

abbrev pub or_later_key : Option String → String → String
or_later_key none later = later
or_later_key (some value) later = value

-- The section of the first key that stands in the dictionary, or the empty text.
abbrev pub first_section : List String → Dict → String
first_section [] dict = ""
first_section (key ∷ keys) dict = or_later_key (get_key key dict) (first_section keys dict)

-- The bullets are U+2022, U+2023 and U+25E6.
abbrev pub skill_delimiters : List ℕ
skill_delimiters = b',' ∷ b'|' ∷ b';' ∷ 8226 ∷ 8227 ∷ 9702 ∷ []

module _ (t : TextTools) where
  -- `s.strip() for s in pieces if s.strip()`
  abbrev pub stripped_pieces : List String → List String
  stripped_pieces pieces = map t.strip (select (λ s. truthy (t.strip s)) pieces)

  abbrev pub single_skill : String → List String
  single_skill line =
      let cleaned = t.strip (lstrip (b'-' ∷ b'*' ∷ 8226 ∷ 8227 ∷ b' ' ∷ []) line) in
      if truthy cleaned && ltb (text_length cleaned) 60 then cleaned ∷ [] else []

  abbrev pub line_skills : List ℕ → String → List String
  line_skills [] line = single_skill line
  line_skills (d ∷ delimiters) line =
      let later = line_skills delimiters line in
      if has_character d line then stripped_pieces (split (d ∷ []) line) else later

  abbrev pub raw_skills : List String → List String
  raw_skills [] = []
  raw_skills (line ∷ lines) =
      let rest = raw_skills lines in
      if truthy (t.strip line) then line_skills skill_delimiters (t.strip line) ++ rest else rest

  abbrev pub is_new : List String → String → Bool
  is_new seen skill = not (any (λ s. str_eq s (t.lower skill)) seen) && ltb 1 (text_length skill)

  unfoldable pub deduplicated : List String → List String → List String
  deduplicated seen [] = []
  deduplicated seen (skill ∷ skills) =
      let kept = deduplicated (t.lower skill ∷ seen) skills in
      let skipped = deduplicated seen skills in if is_new seen skill then skill ∷ kept else skipped

  abbrev pub text_or : String → String → String
  text_or text section = if truthy section then section else text

  unfoldable pub extract_skills_from_text : String → Dict → List String
  extract_skills_from_text text sections =
      deduplicated []
        (raw_skills (split newline (text_or text (first_section skill_keys sections))))

  -- Two skills are the same when they are in lower case.
  abbrev pub same_skill : String → String → Bool
  same_skill skill other = str_eq (t.lower other) (t.lower skill)

  abbrev IsLong : String → Type 0
  IsLong skill = ltb 1 (text_length skill) ≡ true

  deduplicated-IsLong : (seen skills : List String) → All IsLong (deduplicated seen skills)
  unfolding deduplicated
  deduplicated-IsLong seen [] = tt
  deduplicated-IsLong seen (skill ∷ skills) = elim (Bool-cases (is_new seen skill)) [
    | inl e ↦ rw e (ground arith, deduplicated-IsLong (t.lower skill ∷ seen) skills)
    | inr e ↦ rw e (deduplicated-IsLong seen skills)
  ]

  -- What was seen is not listed again.
  deduplicated_seen :
      (seen skills : List String) (name : String)
      → any (λ s. str_eq s name) seen ≡ true
      → count (λ s. str_eq (t.lower s) name) (deduplicated seen skills) ≡ 0
  unfolding deduplicated
  deduplicated_seen seen [] name h = refl
  deduplicated_seen seen (skill ∷ skills) name h = elim (Bool-cases (is_new seen skill)) [
    | inl e ↦ elim (Bool-cases (str_eq (t.lower skill) name)) [
      | inl g ↦ absurd (cc (rw (str_eq→eq (t.lower skill) name g, h) at e))
      | inr g ↦ rw (e, g) (deduplicated_seen (t.lower skill ∷ seen) skills name (rw (g, h)))
    ]
    | inr e ↦ rw e (deduplicated_seen seen skills name h)
  ]

  deduplicated_once :
      (seen skills : List String) (name : String)
      → count (λ s. str_eq (t.lower s) name) (deduplicated seen skills) ≤ 1
  unfolding deduplicated
  deduplicated_once seen [] name = omega arith
  deduplicated_once seen (skill ∷ skills) name = elim (Bool-cases (is_new seen skill)) [
    | inl e ↦ elim (Bool-cases (str_eq (t.lower skill) name)) [
      | inl g ↦ rw (e, g, deduplicated_seen (t.lower skill ∷ seen) skills name (rw g)) (omega arith)
      | inr g ↦ rw (e, g) (deduplicated_once (t.lower skill ∷ seen) skills name)
    ]
    | inr e ↦ rw e (deduplicated_once seen skills name)
  ]

  abbrev lists : String → List String → Bool
  lists name skills = any (λ s. str_eq (t.lower s) name) skills

  -- Every long skill is listed or was seen.
  deduplicated-lists :
      (seen skills : List String) (name : String)
      → any (λ s. str_eq (t.lower s) name && ltb 1 (text_length s)) skills ≡ true
      → any (λ s. str_eq s name) seen || lists name (deduplicated seen skills) ≡ true
  unfolding deduplicated
  deduplicated-lists seen [] name h = cc
  deduplicated-lists seen (skill ∷ skills) name h = elim (Bool-cases (is_new seen skill)) [
    | inl e ↦ elim (Bool-cases (str_eq (t.lower skill) name)) [
      | inl g ↦ rw (e, g) (ground arith)
      | inr g ↦
          rw (e, g) (rw g at (deduplicated-lists (t.lower skill ∷ seen) skills name (rw g at h)))
    ]
    | inr e ↦ elim (Bool-cases (str_eq (t.lower skill) name && ltb 1 (text_length skill))) [
      | inl g ↦
          let same = str_eq→eq (t.lower skill) name (ground arith) in
          let met : any (λ s. str_eq s name) seen ≡ true = ground (arith, rw same at e) in
          rw (e, met)
      | inr g ↦ rw e (deduplicated-lists seen skills name (rw g at h))
    ]
  ]

  -- A list of skills in which each has more than one character and no two are the same in lower
  -- case.
  abbrev pub IsSkillList : List String → Type 0
  IsSkillList skills =
      All IsLong skills × ((name : String) → count (λ s. str_eq (t.lower s) name) skills ≤ 1)

  abbrev pub found_in : String → Dict → List String
  found_in text sections =
      raw_skills (split newline (text_or text (first_section skill_keys sections)))

  -- The skills of a resume have more than one character each, no two are the same in lower case,
  -- and every entry of more than one character in the section of skills, or in the whole text
  -- where there is none, is listed in some case.
  pub extract_skills_from_text-IsSkillList :
      (text : String) (sections : Dict)
      → let skills = extract_skills_from_text text sections in
        IsSkillList skills
        × ((name : String)
            → any (λ s. str_eq (t.lower s) name && ltb 1 (text_length s)) (found_in text sections)
              ≡ true
            → any (λ s. str_eq (t.lower s) name) skills ≡ true)
  unfolding extract_skills_from_text
  extract_skills_from_text-IsSkillList text sections =
      let raw = found_in text sections in
      (
        (deduplicated-IsLong [] raw, λ name. deduplicated_once [] raw name),
        λ name h. deduplicated-lists [] raw name h,
      )
