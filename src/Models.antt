-- ===== src/Models.antt =====
-- models/enums.py, models/application.py, models/job.py, models/resume.py and db/tenant.py under
-- backend/app: the rows that the application services read and write, and the tenant filter. Times
-- are numbers of seconds; a column that no modelled function reads or writes is left out.
use auto_jobs_apply.Prelude.{
  ℕ, String, Bool, true, false, not, ◌&&◌, Option, none, some, List, str_eq,
}

pub data ApplicationStatus : Type 0 where
  queued pending_review approved applying applied : ApplicationStatus
  interview rejected offer withdrawn failed : ApplicationStatus

-- The member's value, which equals the member: it is a `StrEnum`.
abbrev pub status_value : ApplicationStatus → String
status_value queued = "queued"
status_value pending_review = "pending_review"
status_value approved = "approved"
status_value applying = "applying"
status_value applied = "applied"
status_value interview = "interview"
status_value rejected = "rejected"
status_value offer = "offer"
status_value withdrawn = "withdrawn"
status_value failed = "failed"

pub data ApplyMode : Type 0 where
  autonomous review batch : ApplyMode

pub record Application : Type 0 where
  pub id : String
  pub user_id : String
  pub job_id : String
  pub resume_id : Option String
  pub status : ApplicationStatus
  pub apply_mode : ApplyMode
  pub cover_letter_path : Option String
  pub applied_at : Option ℕ
  pub notes : Option String
  pub created_at : ℕ

-- The column `skills_required` of a job, a JSON object.
pub record Skills : Type 0 where
  pub required : List String
  pub preferred : List String

-- `status` is the value of the `JobStatus`.
pub record Job : Type 0 where
  pub id : String
  pub user_id : String
  pub platform : String
  pub platform_job_id : String
  pub title : String
  pub company : String
  pub location : String
  pub url : String
  pub description : String
  pub salary_range : Option String
  pub job_type : Option String
  pub remote : Bool
  pub skills_required : Option Skills
  pub status : String
  pub created_at : ℕ

pub data ResumeType : Type 0 where
  base tailored optimized : ResumeType

-- The column `ats_score`, a float, is kept beside the rows (Resumes).
pub record Resume : Type 0 where
  pub id : String
  pub user_id : String
  pub name : String
  pub type_name : ResumeType
  pub base_resume_id : Option String
  pub job_id : Option String
  pub template_id : String
  pub file_path_pdf : Option String
  pub file_path_docx : Option String
  pub content_text : Option String
  pub created_at : ℕ

pub record Store : Type 0 where
  pub applications : List Application
  pub jobs : List Job
  pub resumes : List Resume

-- `_TERMINAL_STATES`, and the condition of the partial index `uq_app_active_job`.
abbrev pub is_terminal : ApplicationStatus → Bool
is_terminal rejected = true
is_terminal withdrawn = true
is_terminal failed = true
is_terminal _ = false

abbrev pub is_active : Application → Bool
is_active r = not (is_terminal r.status)

-- `r` is the active application of user `u` for job `j`.
abbrev pub holds : String → String → Application → Bool
holds u j r = is_active r && (str_eq r.user_id u && str_eq r.job_id j)

-- `_apply_tenant_filter`: whether a SELECT returns a row of this owner, given `current_user_id`.
abbrev pub visible : Option String → String → Bool
visible none owner = true
visible (some uid) owner = str_eq owner uid
