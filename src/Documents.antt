-- ===== src/Documents.antt =====
-- core/documents/{parser,generator}.py and core/storage/documents.py under backend/app: the text of a
-- document read into sections, skills and contacts, documents rendered, and rendered files stored.
pub mod Texts
pub mod Sections
pub mod SectionKeys
pub mod SkillList
pub mod Dicts
pub mod Parsing
pub mod Letters
pub mod Generating
pub mod Rendered
pub mod Generated
pub mod Keys
pub mod Storing
pub mod Persisted
pub mod Delivery
use auto_jobs_apply.Prelude.{String, Option, List}
use auto_jobs_apply.Ats.{TextTools}

-- The texts' functions that are a library's: `str.lower` and `str.strip` of the tools, `str.split`
-- at white space, and the first match of each of the patterns of parser.py, regular expressions.
pub record Reader : Type 0 where
  pub tools : TextTools
  pub words : String → List String
  pub email_re : String → Option String
  pub phone_re : String → Option String
  pub linkedin_re : String → Option String
  pub github_re : String → Option String
