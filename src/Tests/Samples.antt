-- ===== src/Tests/Samples.antt =====
-- A tenant with one job, one resume and at most one application, and a queue.
use auto_jobs_apply.Prelude.{
  truthy, str_eq_self, String, Bool, true, false, ◌&&◌, ◌≡◌, subst, inl, inr, none, some, List, [],
  ◌∷◌, arith, str_eq, str_eq→eq, Bool-cases, any, if◌then◌else◌,
}
use auto_jobs_apply.Models.{
  ApplicationStatus, ApplyMode, autonomous, Application, Job, Resume, Store, base,
}
use auto_jobs_apply.Applications.Create.{ApplicationCreate}
use auto_jobs_apply.Applications.Create.Outcome.{StoreIsConsistent}
use auto_jobs_apply.Dispatch.{Arq}
use auto_jobs_apply.Auth.{User, RefreshToken, PasswordResetToken, Session, Crypto, Draw, kept}
use auto_jobs_apply.Auth.Rows.{SessionIsConsistent}

abbrev pub engineer : Job
engineer = record {
  id = "job-1";
  user_id = "alice";
  platform = "linkedin";
  title = "Engineer";
  platform_job_id = "p-1";
  company = "Acme";
  location = "";
  url = "";
  description = "";
  salary_range = none;
  job_type = none;
  remote = false;
  skills_required = none;
  status = "new";
  created_at = 0;
}

abbrev pub resume : Resume
resume = record {
  id = "cv-1";
  user_id = "alice";
  name = "cv.pdf";
  type_name = base;
  base_resume_id = none;
  job_id = none;
  template_id = "modern";
  file_path_pdf = some "users/alice/uploads/f1.pdf";
  file_path_docx = none;
  content_text = none;
  created_at = 100;
}

abbrev pub application : ApplicationStatus → ApplyMode → Application
application status mode = record {
  id = "app-1";
  user_id = "alice";
  job_id = "job-1";
  resume_id = some "cv-1";
  status = status;
  apply_mode = mode;
  cover_letter_path = none;
  applied_at = none;
  notes = none;
  created_at = 100;
}

abbrev pub with_applications : List Application → Store
with_applications rows = record { applications = rows; jobs = engineer ∷ []; resumes = resume ∷ [] }

abbrev pub request : ApplicationCreate
request = record { job_id = "job-1"; resume_id = some "cv-1"; apply_mode = autonomous }

pub no_rows-IsConsistent : StoreIsConsistent (with_applications [])
no_rows-IsConsistent = record {
  applications_ok = record { one_row = λ i. ground arith; one_active = λ u j. ground arith };
  one_job = λ i. ground arith;
  one_resume = λ i. ground arith;
}

pub one_row-IsConsistent : (a : Application) → StoreIsConsistent (with_applications (a ∷ []))
one_row-IsConsistent a = record {
  applications_ok = record { one_row = λ i. ground arith; one_active = λ u j. ground arith };
  one_job = λ i. ground arith;
  one_resume = λ i. ground arith;
}

pub record Waiting : Type 0 where
  pub task : String
  pub argument : String
  pub job_id : String

abbrev in_queue : String → List Waiting → Bool
in_queue i q = any (λ k. str_eq k.job_id i) q

pub in_queue_same :
    (i j : String) (q : List Waiting)
    → in_queue i q ≡ true
    → str_eq i j ≡ true
    → in_queue j q ≡ true
in_queue_same i j q h e = subst (λ k. in_queue k q ≡ true) (str_eq→eq i j e) h

-- Whether a job with this task, argument and id is in the list.
abbrev is_waiting : String → String → String → List Waiting → Bool
is_waiting task argument i q =
    any (λ k. str_eq k.task task && (str_eq k.argument argument && str_eq k.job_id i)) q

-- A queue that is a list of jobs, none of which is run.
abbrev pub list_queue : Arq
list_queue = record {
  Queue = List Waiting;
  enqueue_job = λ q task argument i.
      if in_queue i q
      then (false, q)
      else (true, record { task = task; argument = argument; job_id = i } ∷ q);
  known = λ q i. in_queue i q;
  pending = λ q task argument i. is_waiting task argument i q;
  queues = λ q task argument i t a j h. rw h;
  refuses = λ q task argument i h. rw h;
  accepts = λ q task argument i h. rw h;
  knows = λ q task argument i j. elim (Bool-cases (in_queue i q)) [
    | inl e ↦ rw e (ground (arith, in_queue_same i j q e))
    | inr e ↦ rw e
  ];
}

abbrev pub stored_password : String → String
stored_password plain = if truthy plain then plain else "-"

pub stored_password_is_nonempty : (plain : String) → truthy (stored_password plain) ≡ true
stored_password_is_nonempty plain = elim (Bool-cases (truthy plain)) [
  | inl e ↦ rw (e, e)
  | inr e ↦ rw e
]

abbrev pub plain_crypto : Crypto
plain_crypto = record {
  hash_token = λ s. s;
  hash = λ salt plain. stored_password plain;
  verify = λ plain hashed. str_eq hashed (stored_password plain);
  dummy_hash = "-";
  create_access_token = λ sub. sub;
  verifies = λ salt plain. str_eq_self (stored_password plain);
  is_nonempty = λ salt plain. stored_password_is_nonempty plain;
}

abbrev pub alice : User
alice = record {
  id = "alice";
  email = "a@x.org";
  hashed_password = some "secret";
  full_name = none;
  is_active = true;
  deleted_at = none;
}

-- A session that nobody has refreshed yet.
abbrev pub first_token : RefreshToken
first_token = record {
  id = "t-1";
  user_id = "alice";
  token_hash = "raw-1";
  family_id = "f-1";
  used = false;
  revoked = false;
  expires_at = 1000;
}

abbrev pub reset_link : PasswordResetToken
reset_link = record {
  id = "r-1";
  user_id = "alice";
  token_hash = "link-1";
  expires_at = 1000;
  used_at = none;
}

abbrev pub accounts : Session
accounts = record {
  users = alice ∷ [];
  refresh_tokens = first_token ∷ [];
  reset_tokens = reset_link ∷ [];
  response = kept;
  sent = [];
}

pub accounts-consistent : SessionIsConsistent accounts
accounts-consistent = record {
  one_id = λ i. ground arith;
  one_hash = λ h. ground arith;
  one_user = λ i. ground arith;
  one_email = λ e. ground arith;
}

abbrev pub second_draw : Draw
second_draw = record { id = "t-2"; token = "raw-2"; family = "f-2" }
