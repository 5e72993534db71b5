-- ===== src/Harness/Skills.antt =====
-- `pii_clean` and `record_skill` of core/harness/skills.py, and DomainSkill of models/harness.py
-- under backend/app. The regular expressions and the name recognizer are the parameter `Detectors`;
-- `others k` are the rows that concurrent writers commit during the attempt with `k` left after it.
pub mod Recording
pub mod Feedback
pub mod Retirement
use auto_jobs_apply.Prelude.{
  ℕ, zero, suc, ◌+◌, max, String, Bool, true, false, not, ◌&&◌, Option, none, some, List, [], ◌∷◌,
  ◌++◌, str_eq, ◌==◌, ℤ, pos, if◌then◌else◌, any, select,
}
use auto_jobs_apply.Tx.{Result, Tx, ok, err, pure, lift, ◌>>=◌, scalar_one_or_none}

pub data SkillStatus : Type 0 where
  active retired : SkillStatus

pub record DomainSkill : Type 0 where
  pub id : String
  pub domain : String
  pub version : ℕ
  pub content : String
  pub score : ℤ
  pub status : SkillStatus
  pub pii_checked : Bool
  pub created_by : String

pub record Detectors : Type 0 where
  pub patterns : List (String → Bool)
  pub person_name : String → Bool

unfoldable pub pii_clean : Detectors → String → Bool
pii_clean d content =
    if any (λ pattern. pattern content) d.patterns then false else not (d.person_name content)

abbrev pub is_active_status : SkillStatus → Bool
is_active_status active = true
is_active_status retired = false

abbrev pub is_duplicate : String → String → DomainSkill → Bool
is_duplicate domain content r =
    str_eq r.domain domain && (str_eq r.content content && is_active_status r.status)

abbrev pub has_version : String → ℕ → DomainSkill → Bool
has_version domain version r = str_eq r.domain domain && r.version == version

-- SELECT max(version) WHERE domain = …, or 0
abbrev pub max_version : String → List DomainSkill → ℕ
max_version domain [] = 0
max_version domain (r ∷ rows) =
    let rest = max_version domain rows in
    if str_eq r.domain domain then max r.version rest else rest

pub record SkillRequest : Type 0 where
  pub domain : String
  pub content : String
  pub created_by : String

abbrev pub new_skill : SkillRequest → String → ℕ → DomainSkill
new_skill request id version = record {
  id = id;
  domain = request.domain;
  version = version;
  content = request.content;
  score = pos 0;
  status = active;
  pii_checked = true;
  created_by = request.created_by;
}

-- The attempts that are left. The unique constraint refuses a version that is taken meanwhile.
unfoldable pub record_version :
    SkillRequest
    → String
    → (ℕ → List DomainSkill)
    → ℕ
    → List DomainSkill
    → Option DomainSkill × List DomainSkill
record_version request id others zero rows = (none, rows)
record_version request id others (suc left) rows =
    let version = max_version request.domain rows + 1 in
    let meanwhile = rows ++ others left in
    let again = record_version request id others left meanwhile in
    let skill = new_skill request id version in
    if any (has_version request.domain version) meanwhile
    then again
    else (some skill, meanwhile ++ skill ∷ [])

abbrev pub version_retries : ℕ
version_retries = 3

abbrev pub recorded :
    SkillRequest
    → String
    → (ℕ → List DomainSkill)
    → Option DomainSkill
    → Tx (List DomainSkill) (Option DomainSkill)
recorded request id others (some duplicate) rows = (ok (some duplicate), rows)
recorded request id others none rows =
    let (skill, after) = record_version request id others version_retries rows in (ok skill, after)

unfoldable pub record_skill :
    Detectors
    → SkillRequest
    → String
    → (ℕ → List DomainSkill)
    → Tx (List DomainSkill) (Option DomainSkill)
record_skill d request id others rows =
    if pii_clean d request.content
    then (do
      duplicate ←
          lift (scalar_one_or_none (select (is_duplicate request.domain request.content) rows))
      recorded request id others duplicate)
        rows
    else (ok none, rows)
