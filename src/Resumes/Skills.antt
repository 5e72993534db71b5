-- ===== src/Resumes/Skills.antt =====
-- The skills of a text in backend/app/services/resume.py: with the skill matcher, or with its tables
-- alone.
use auto_jobs_apply.Prelude.{
  String, Bool, true, false, not, ◌&&◌, ◌≡◌, refl, inl, inr, List, [], ◌∷◌, any, select, str_eq,
  if◌then◌else◌, Bool-cases, arith,
}
use text.Mathlib.Text.{is_le}
use Prim.Native.String.{compare}
use auto_jobs_apply.Ats.{TextTools}
use auto_jobs_apply.Ats.Matching.{skill_variations, is_mentioned, names, extract_skills}

-- `sorted` of a list of texts.
abbrev pub inserted : String → List String → List String
inserted x [] = x ∷ []
inserted x (y ∷ ys) =
    let rest = inserted x ys in if is_le (compare x y) then x ∷ y ∷ ys else y ∷ rest

unfoldable pub sorted : List String → List String
sorted [] = []
sorted (x ∷ xs) = inserted x (sorted xs)

-- The loop of `_extract_skills_text_based`, from the set `seen`.
abbrev pub is_seen : List String → String → Bool
is_seen seen canonical = any (λ s. str_eq s canonical) seen

unfoldable pub find_skills :
    TextTools → String → List String → List (String × List String) → List String
find_skills t lower seen [] = []
find_skills t lower seen ((canonical, variations) ∷ entries) =
    let skipped = find_skills t lower seen entries in
    let found = find_skills t lower (canonical ∷ seen) entries in
    if is_seen seen canonical
    then skipped
    else if is_mentioned t lower (canonical, variations)
    then canonical ∷ found
    else skipped

unfoldable pub extract_skills_text_based : TextTools → String → List String
extract_skills_text_based t text = find_skills t (t.lower text) [] skill_variations

-- `_extract_skills`: `has_nlp` says whether spaCy and its model can be loaded.
unfoldable pub extract_resume_skills : TextTools → Bool → String → List String
extract_resume_skills t has_nlp text =
    if has_nlp then sorted (extract_skills t text) else extract_skills_text_based t text

-- No name of the table stands twice, nor is it in `seen`.
abbrev are_fresh : List String → List (String × List String) → Bool
are_fresh seen [] = true
are_fresh seen ((canonical, variations) ∷ entries) =
    not (is_seen seen canonical) && are_fresh (canonical ∷ seen) entries

are_fresh_less :
    (fewer more : List String) (table : List (String × List String))
    → ((x : String) → is_seen more x ≡ false → is_seen fewer x ≡ false)
    → are_fresh more table ≡ true
    → are_fresh fewer table ≡ true
are_fresh_less fewer more [] sub h = refl
are_fresh_less fewer more ((canonical, variations) ∷ entries) sub h =
    let rest =
      are_fresh_less (canonical ∷ fewer) (canonical ∷ more) entries (λ x k. ground (arith, sub x))
        (ground arith) in
    ground (arith, sub canonical)

find_skills-select :
    (t : TextTools) (lower : String) (seen : List String) (table : List (String × List String))
    → are_fresh seen table ≡ true
    → find_skills t lower seen table ≡ names (select (is_mentioned t lower) table)
unfolding find_skills
find_skills-select t lower seen [] h = refl
find_skills-select t lower seen ((canonical, variations) ∷ entries) h =
    let unseen : is_seen seen canonical ≡ false = ground arith in
    let fresh : are_fresh (canonical ∷ seen) entries ≡ true = ground arith in
    elim (Bool-cases (is_mentioned t lower (canonical, variations))) [
      | inl e ↦ rw (unseen, e, find_skills-select t lower (canonical ∷ seen) entries fresh)
      | inr e ↦
          rw (unseen, e)
            (find_skills-select t lower seen entries
              (are_fresh_less seen (canonical ∷ seen) entries (λ x k. ground arith) fresh))
    ]

-- The text-based extraction, with its set of what it has seen, finds the skills that the skill
-- matcher finds, in the order of the table: where spaCy is missing no skill is lost, and the list is
-- only not sorted.
pub extract_skills_text_based-eq :
    (t : TextTools) (text : String) → extract_skills_text_based t text ≡ extract_skills t text
unfolding extract_skills_text_based extract_skills
extract_skills_text_based-eq t text = find_skills-select t (t.lower text) [] skill_variations refl
