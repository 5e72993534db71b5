-- ===== src/Harness/Skills/Feedback.antt =====
-- `add_feedback`, `load_skills` and `build_skill_guidance` of backend/app/core/harness/skills.py, and
-- `_score_skills_from_verdict` of backend/app/workers/tasks.py. `order` is an ORDER BY.
use auto_jobs_apply.Prelude.{
  ℕ, String, Bool, ◌&&◌, Option, none, some, List, [], ◌∷◌, ◌++◌, str_eq, if◌then◌else◌, first,
  select, update, take, truthy, ℤ, pos, negsuc, ◌+ℤ◌, leb_ℤ,
}
use auto_jobs_apply.Harness.Skills.{DomainSkill, retired, is_active_status}
use Prim.Native.String.{◌++◌ as ◌+++◌}

pub record SkillFeedback : Type 0 where
  pub skill_id : String
  pub delta : ℤ
  pub reason : Option String
  pub run_id : Option String

pub record SkillStore : Type 0 where
  pub skills : List DomainSkill
  pub feedback : List SkillFeedback

-- -3
abbrev pub retire_threshold : ℤ
retire_threshold = negsuc 2

abbrev pub has_skill_id : String → DomainSkill → Bool
has_skill_id i r = str_eq r.id i

unfoldable pub scored : ℤ → DomainSkill → DomainSkill
scored delta skill =
    let score = skill.score +ℤ delta in
    record skill {
      score = score;
      status = if leb_ℤ score retire_threshold then retired else skill.status;
    }

abbrev pub signalled :
    SkillFeedback → Option DomainSkill → SkillStore → Option DomainSkill × SkillStore
signalled signal none s = (none, s)
signalled signal (some skill) s = (
  some (scored signal.delta skill),
  record {
    skills = update (has_skill_id skill.id) (scored signal.delta) s.skills;
    feedback = s.feedback ++ signal ∷ [];
  },
)

unfoldable pub add_feedback : SkillFeedback → SkillStore → Option DomainSkill × SkillStore
add_feedback signal s = signalled signal (first (select (has_skill_id signal.skill_id) s.skills)) s

abbrev pub is_loaded : String → DomainSkill → Bool
is_loaded domain r = str_eq r.domain domain && is_active_status r.status

unfoldable pub load_skills :
    (List DomainSkill → List DomainSkill) → String → ℕ → List DomainSkill → List DomainSkill
load_skills order domain limit rows = take limit (order (select (is_loaded domain) rows))

-- The lines of the guidance, after the heading; `strip` is `str.strip`.
abbrev pub hint_lines : (String → String) → List DomainSkill → List String
hint_lines strip [] = []
hint_lines strip (skill ∷ skills) =
    let rest = hint_lines strip skills in
    if truthy (strip skill.content) then ("- " +++ strip skill.content) ∷ rest else rest

abbrev join_lines : String → List String → String
join_lines text [] = text
join_lines text (line ∷ lines) = join_lines (text +++ ("\n" +++ line)) lines

abbrev guidance : List String → String
guidance [] = ""
guidance (line ∷ lines) =
    join_lines "Learned guidance for this site (from past runs — treat as hints, verify live):"
      (line ∷ lines)

unfoldable pub build_skill_guidance : (String → String) → List DomainSkill → String
build_skill_guidance strip skills = guidance (hint_lines strip skills)

abbrev pub signal : ℤ → String → String → String → SkillFeedback
signal delta reason run_id skill_id = record {
  skill_id = skill_id;
  delta = delta;
  reason = some reason;
  run_id = some run_id;
}

-- The loop over the skills that a run used.
unfoldable pub add_all : ℤ → String → String → List String → SkillStore → SkillStore
add_all delta reason run_id [] s = s
add_all delta reason run_id (i ∷ ids) s =
    add_all delta reason run_id ids (add_feedback (signal delta reason run_id i) s).1

-- `_score_skills_from_verdict`; `success` is whether the verdict is SUCCESS, `reason` its text.
unfoldable pub score_skills : Bool → String → String → List String → SkillStore → SkillStore
score_skills success reason run_id skill_ids s =
    add_all (if success then pos 1 else negsuc 0) reason run_id skill_ids s
