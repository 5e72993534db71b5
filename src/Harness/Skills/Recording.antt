-- ===== src/Harness/Skills/Recording.antt =====
-- What recording a skill stores, and recording it again.
use auto_jobs_apply.Prelude.{
  ℕ, suc, ◌+◌, ◌≤◌, ◌<◌, String, true, false, ◌≡◌, refl, ap, ◌∙◌, inl, inr, Option, none, some,
  List, [], ◌∷◌, ◌++◌, arith, str_eq, str_eq_self, Bool-cases, any, count, select, first,
  count-append, first-select-append_new, first-select-some, first-select-none, any-eq-false,
}
use auto_jobs_apply.Tx.{Result, ok, scalar-first}
use auto_jobs_apply.Harness.Skills.{
  DomainSkill, Detectors, pii_clean, is_duplicate, has_version, max_version, SkillRequest,
  new_skill, record_version, recorded, record_skill,
}

-- No row has a version above the greatest.
version_free :
    (domain : String) (v : ℕ) (rows : List DomainSkill)
    → max_version domain rows < v
    → any (has_version domain v) rows ≡ false
version_free domain v [] h = refl
version_free domain v (r ∷ rows) h = elim (Bool-cases (str_eq r.domain domain)) [
  | inl e ↦ ground (arith, version_free domain v rows, e)
  | inr e ↦ ground (arith, version_free domain v rows, e)
]

append_nil : (rows : List DomainSkill) → rows ++ [] ≡ rows
append_nil [] = refl
append_nil (r ∷ rows) = ap (λ l. r ∷ l) (append_nil rows)

abbrev next_skill : SkillRequest → String → List DomainSkill → DomainSkill
next_skill request id rows = new_skill request id (max_version request.domain rows + 1)

first_attempt :
    (request : SkillRequest) (id : String) (left : ℕ) (rows : List DomainSkill)
    → record_version request id (λ k. []) (suc left) rows
      ≡ (some (next_skill request id rows), rows ++ next_skill request id rows ∷ [])
unfolding record_version
first_attempt request id left rows =
    rw
      (
        append_nil rows,
        version_free request.domain (max_version request.domain rows + 1) rows (omega arith),
      )
      refl

skill_found :
    (d : Detectors) (request : SkillRequest) (id : String) (others : ℕ → List DomainSkill)
    (rows : List DomainSkill)
    → pii_clean d request.content ≡ true
    → count (is_duplicate request.domain request.content) rows ≤ 1
    → record_skill d request id others rows
      ≡ recorded request id others
          (first (select (is_duplicate request.domain request.content) rows))
          rows
unfolding record_skill
skill_found d request id others rows clean one =
    rw (clean, scalar-first (is_duplicate request.domain request.content) rows one) refl

skill_dirty :
    (d : Detectors) (request : SkillRequest) (id : String) (others : ℕ → List DomainSkill)
    (rows : List DomainSkill)
    → pii_clean d request.content ≡ false
    → record_skill d request id others rows ≡ (ok none, rows)
unfolding record_skill
skill_dirty d request id others rows dirty = rw dirty refl

-- A content that is recorded is found.
skill_old :
    (d : Detectors) (request : SkillRequest) (id : String) (others : ℕ → List DomainSkill)
    (rows : List DomainSkill) (r : DomainSkill)
    → pii_clean d request.content ≡ true
    → count (is_duplicate request.domain request.content) rows ≤ 1
    → first (select (is_duplicate request.domain request.content) rows) ≡ some r
    → record_skill d request id others rows ≡ (ok (some r), rows)
skill_old d request id others rows r clean one h =
    skill_found d request id others rows clean one ∙ rw h refl

skill_new :
    (d : Detectors) (request : SkillRequest) (id : String) (rows : List DomainSkill)
    → pii_clean d request.content ≡ true
    → any (is_duplicate request.domain request.content) rows ≡ false
    → record_skill d request id (λ k. []) rows
      ≡ (ok (some (next_skill request id rows)), rows ++ next_skill request id rows ∷ [])
skill_new d request id rows clean free =
    let p = is_duplicate request.domain request.content in
    skill_found d request id (λ k. []) rows clean (omega (arith, any-eq-false p rows free))
    ∙ rw (first-select-none p rows free, first_attempt request id 2 rows) refl

twice_by :
    (first_run : Result (Option DomainSkill) × List DomainSkill)
    (second_run : List DomainSkill → Result (Option DomainSkill) × List DomainSkill)
    (s skill : DomainSkill) (after : List DomainSkill)
    → first_run ≡ (ok (some s), after)
    → second_run after ≡ (ok (some s), after)
    → first_run.0 ≡ ok (some skill)
    → second_run first_run.1 ≡ (ok (some skill), first_run.1)
twice_by first_run second_run s skill after f g e =
    let same : s ≡ skill = cc (f, e) in rw f (g ∙ ap (λ x. (ok (some x), after)) same)

-- A skill that was recorded without concurrent writers is not recorded again: a second call with
-- the same domain and content answers the same skill and leaves the table alone, whatever other
-- writers do.
pub record_skill_twice :
    (d : Detectors) (request : SkillRequest) (id id' : String) (others : ℕ → List DomainSkill)
    (rows : List DomainSkill) {skill : DomainSkill}
    → count (is_duplicate request.domain request.content) rows ≤ 1
    → (record_skill d request id (λ k. []) rows).0 ≡ ok (some skill)
    → let after = (record_skill d request id (λ k. []) rows).1 in
      record_skill d request id' others after ≡ (ok (some skill), after)
record_skill_twice d request id id' others rows {skill} one e =
    let p = is_duplicate request.domain request.content in
    let next = next_skill request id rows in
    let again = record_skill d request id' others in
    elim (Bool-cases (pii_clean d request.content)) [
      | inr dirty ↦ cc (rw (skill_dirty d request id (λ k. []) rows dirty) at e)
      | inl clean ↦ elim (Bool-cases (any p rows)) [
        | inl old ↦
            let (r, found) = first-select-some p rows old in
            twice_by _ again r skill rows (skill_old d request id (λ k. []) rows r clean one found)
              (skill_old d request id' others rows r clean one found) e
        | inr free ↦
            twice_by _ again next skill (rows ++ next ∷ []) (skill_new d request id rows clean free)
              (skill_old d request id' others (rows ++ next ∷ []) next clean
                (rw (count-append p rows (next ∷ [])) (ground (arith, any-eq-false p rows free)))
                (first-select-append_new p rows next free
                  (ground (arith, str_eq_self request.domain, str_eq_self request.content))))
              e
      ]
    ]

-- A new skill gets the version after the greatest of its domain. Without concurrent writers the
-- first attempt stores it, so that the versions of a domain stay different.
pub record_skill-fresh :
    (d : Detectors) (request : SkillRequest) (id : String) (rows : List DomainSkill)
    → pii_clean d request.content ≡ true
    → any (is_duplicate request.domain request.content) rows ≡ false
    → let skill = new_skill request id (max_version request.domain rows + 1) in
      (record_skill d request id (λ k. []) rows ≡ (ok (some skill), rows ++ skill ∷ []))
      × (any (has_version request.domain skill.version) rows ≡ false)
record_skill-fresh d request id rows clean free = (
  skill_new d request id rows clean free,
  version_free request.domain (max_version request.domain rows + 1) rows (omega arith),
)
