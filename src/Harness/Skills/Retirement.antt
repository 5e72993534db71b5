-- ===== src/Harness/Skills/Retirement.antt =====
-- A skill that keeps failing is retired, and stays so.
use auto_jobs_apply.Prelude.{
  ℕ, zero, suc, ◌+◌, ◌-◌, ◌≤◌, String, Bool, true, false, ◌&&◌, ◌≡◌, refl, ◌∙◌, inl, inr, Option,
  none, some, List, [], ◌∷◌, str_eq_self, Bool-cases, first, count, select, update, arith, ℤ, pos,
  negsuc, ◌+ℤ◌, above_zero, below_zero, leb_ℤ, first-select-update, first-select-holds,
  count-and-found, count-take_le, count-update_same,
}
use auto_jobs_apply.Harness.Skills.{DomainSkill, is_active_status}
use auto_jobs_apply.Harness.Skills.Feedback.{
  SkillFeedback, SkillStore, retire_threshold, has_skill_id, scored, signalled, add_feedback,
  is_loaded, load_skills,
}

-- The skill could be loaded.
abbrev pub is_in_use : String → DomainSkill → Bool
is_in_use i r = has_skill_id i r && is_active_status r.status

scored-is_in_use :
    (i : String) (delta : ℤ) (r : DomainSkill)
    → is_in_use i r ≡ false
    → is_in_use i (scored delta r) ≡ false
unfolding scored
scored-is_in_use i delta r h = elim (Bool-cases (leb_ℤ (r.score +ℤ delta) retire_threshold)) [
  | inl e ↦ rw e (ground arith)
  | inr e ↦ rw e h
]

update-is_in_use :
    (i j : String) (delta : ℤ) (rows : List DomainSkill)
    → count (is_in_use i) rows ≡ 0
    → count (is_in_use i) (update (has_skill_id j) (scored delta) rows) ≡ 0
update-is_in_use i j delta [] h = refl
update-is_in_use i j delta (r ∷ rows) h =
    let unused : is_in_use i r ≡ false = ground arith in
    let rest = update-is_in_use i j delta rows (ground arith) in
    elim (Bool-cases (has_skill_id j r)) [
      | inl e ↦ let still = scored-is_in_use i delta r unused in rw (e, still, rest)
      | inr e ↦ rw (e, unused, rest)
    ]

-- No skill with the id can be loaded.
abbrev pub IsRetired : String → SkillStore → Type 0
IsRetired i s = count (is_in_use i) s.skills ≡ 0

add_feedback-IsRetired :
    (i : String) (f : SkillFeedback) (s : SkillStore)
    → IsRetired i s
    → IsRetired i (add_feedback f s).1
unfolding add_feedback
add_feedback-IsRetired i f s h = by_skill (first (select (has_skill_id f.skill_id) s.skills))
  where
    by_skill : (skill : Option DomainSkill) → IsRetired i (signalled f skill s).1
    by_skill none = h
    by_skill (some skill) = update-is_in_use i skill.id f.delta s.skills h

-- Any further feedback, in order.
abbrev pub feed : List SkillFeedback → SkillStore → SkillStore
feed [] s = s
feed (f ∷ fs) s = feed fs (add_feedback f s).1

feed-IsRetired :
    (i : String) (fs : List SkillFeedback) (s : SkillStore)
    → IsRetired i s
    → IsRetired i (feed fs s)
feed-IsRetired i [] s h = h
feed-IsRetired i (f ∷ fs) s h =
    feed-IsRetired i fs (add_feedback f s).1 (add_feedback-IsRetired i f s h)

-- The failures that are left until the threshold is reached.
abbrev pub failures_left : ℤ → ℕ
failures_left score = above_zero score + 3 - below_zero score

failures_left-decrement : (score : ℤ) → failures_left (score +ℤ negsuc 0) ≡ failures_left score - 1
unfolding ◌+ℤ◌
failures_left-decrement (pos n) = ground arith
failures_left-decrement (negsuc n) = ground arith

threshold_reached : (score : ℤ) → failures_left score ≡ 0 → leb_ℤ score retire_threshold ≡ true
threshold_reached score h = ground arith

add_feedback-keyed :
    (i : String) (f : SkillFeedback) (s : SkillStore)
    → count (has_skill_id i) (add_feedback f s).1.skills ≡ count (has_skill_id i) s.skills
unfolding add_feedback scored
add_feedback-keyed i f s = by_skill (first (select (has_skill_id f.skill_id) s.skills))
  where
    by_skill :
        (skill : Option DomainSkill)
        → count (has_skill_id i) (signalled f skill s).1.skills ≡ count (has_skill_id i) s.skills
    by_skill none = refl
    by_skill (some skill) =
        count-update_same (has_skill_id skill.id) (has_skill_id i) (scored f.delta) s.skills
          (λ r e. refl)

-- One more failed run of the skill after another.
abbrev pub fail_times : ℕ → SkillFeedback → SkillStore → SkillStore
fail_times zero f s = s
fail_times (suc n) f s = fail_times n f (add_feedback f s).1

abbrev find_skill : String → SkillStore → Option DomainSkill
find_skill i s = first (select (has_skill_id i) s.skills)

failed_once :
    (f : SkillFeedback) (s : SkillStore) {skill : DomainSkill}
    → find_skill f.skill_id s ≡ some skill
    → find_skill f.skill_id (add_feedback f s).1 ≡ some (scored f.delta skill)
unfolding add_feedback scored
failed_once f s {skill} found = rw found (
    first-select-update (has_skill_id skill.id) (has_skill_id f.skill_id) (scored f.delta) s.skills
      (λ r. refl) found
    ∙ rw (str_eq_self skill.id))

failures-score :
    (n : ℕ) (f : SkillFeedback) (s : SkillStore) {skill : DomainSkill}
    → f.delta ≡ negsuc 0
    → find_skill f.skill_id s ≡ some skill
    → failures_left skill.score ≤ suc n
    → (last : DomainSkill) × (find_skill f.skill_id (fail_times (suc n) f s) ≡ some last)
      × (is_active_status last.status ≡ false)
unfolding scored
failures-score zero f s {skill} d found h = (
  scored f.delta skill,
  failed_once f s found,
  rw (
    d,
    threshold_reached (skill.score +ℤ negsuc 0)
        (omega (arith, h, failures_left-decrement skill.score)),
  ),
)
failures-score (suc n) f s {skill} d found h =
    failures-score n f (add_feedback f s).1 d (failed_once f s found)
      (rw d (omega (arith, h, failures_left-decrement skill.score)))

fail_times-keyed :
    (i : String) (n : ℕ) (f : SkillFeedback) (s : SkillStore)
    → count (has_skill_id i) (fail_times n f s).skills ≡ count (has_skill_id i) s.skills
fail_times-keyed i zero f s = refl
fail_times-keyed i (suc n) f s =
    fail_times-keyed i n f (add_feedback f s).1 ∙ add_feedback-keyed i f s

-- The rows that a query finds among active skills.
count-loaded_le :
    (i domain : String) (rows : List DomainSkill)
    → count (has_skill_id i) (select (is_loaded domain) rows) ≤ count (is_in_use i) rows
count-loaded_le i domain [] = omega arith
count-loaded_le i domain (r ∷ rows) = ground (arith, count-loaded_le i domain rows)

-- A skill, found by its primary key, that is used in as many failed runs in a row as its score is
-- above -3 is no longer loaded for any domain, whatever feedback it gets afterwards, if the order of
-- the query keeps the rows.
pub failing_skill_retires :
    (order : List DomainSkill → List DomainSkill) (domain : String) (limit n : ℕ)
    (f : SkillFeedback) (later : List SkillFeedback) (s : SkillStore) (skill : DomainSkill)
    → ((p : DomainSkill → Bool) (rows : List DomainSkill) → count p (order rows) ≡ count p rows)
    → count (has_skill_id f.skill_id) s.skills ≤ 1
    → first (select (has_skill_id f.skill_id) s.skills) ≡ some skill
    → f.delta ≡ negsuc 0
    → failures_left skill.score ≤ suc n
    → count
        (has_skill_id f.skill_id)
        (load_skills order domain limit (feed later (fail_times (suc n) f s)).skills)
      ≡ 0
unfolding load_skills
failing_skill_retires order domain limit n f later s skill keeps one found d h =
    let after = fail_times (suc n) f s in
    let (last, found_last, ended) = failures-score n f s d found h in
    let i = f.skill_id in
    let retired_now : IsRetired i after =
      count-and-found (has_skill_id i) (has_skill_id i) (λ r. is_active_status r.status)
        after.skills found_last (first-select-holds (has_skill_id i) after.skills found_last) ended
        (omega (arith, one, fail_times-keyed i (suc n) f s)) in
    let rows = (feed later after).skills in
    omega (
      arith,
      count-take_le (has_skill_id i) limit (order (select (is_loaded domain) rows)),
      keeps (has_skill_id i) (select (is_loaded domain) rows),
      count-loaded_le i domain rows,
      feed-IsRetired i later after retired_now,
    )
