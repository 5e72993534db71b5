-- ===== src/JobSearch/Stored.antt =====
-- The operations of backend/app/services/job_search.py on stored jobs.
use auto_jobs_apply.Prelude.{
  ℕ, ◌-◌, ◌*◌, min, String, Bool, true, ◌&&◌, Option, List, ◌≡◌, refl, inl, inr, ◌⊎◌, ◌≤◌, false,
  any, count, first, arith, Bool-cases, str_eq→eq, count-and_le, select-delete_within, none, some,
  first-select-none, first-select-some, first-select-holds, str_eq, ltb, if◌then◌else◌, select,
  delete, length, take, drop, is_set, or_empty,
}
use auto_jobs_apply.Tx.{
  Result, Tx, ok, err, resume_with, scalar-first, record_not_found, lift, modify, ◌>>=◌, or_raise,
  scalar_one_or_none,
}
use auto_jobs_apply.Models.{Job, Store, visible}
use auto_jobs_apply.JobSearch.{JobListResponse}

abbrev pub is_listed_job : Option String → Option String → Job → Bool
is_listed_job tenant status j =
    visible tenant j.user_id && (if is_set status then str_eq j.status (or_empty status) else true)

-- `order` is the ORDER BY of the query.
unfoldable pub list_jobs :
    (List Job → List Job) → Option String → ℕ → ℕ → Option String → Store → JobListResponse
list_jobs order tenant page page_size status s =
    let size = min page_size 100 in
    let found = select (is_listed_job tenant status) s.jobs in
    record {
      items = take size (drop ((page - 1) * size) (order found));
      total = length found;
      page = page;
      page_size = size;
      has_next = ltb (page * size) (length found);
    }

abbrev pub is_job : Option String → String → Job → Bool
is_job tenant job_id j = visible tenant j.user_id && str_eq j.id job_id

unfoldable pub get_job : Option String → String → Tx Store Job
get_job tenant job_id s =
    (lift (scalar_one_or_none (select (is_job tenant job_id) s.jobs)) >>= or_raise record_not_found)
      s

-- The relationship deletes the job's applications with it.
abbrev pub without_job : String → Store → Store
without_job job_id s = record s {
  jobs = delete (λ j. str_eq j.id job_id) s.jobs;
  applications = delete (λ a. str_eq a.job_id job_id) s.applications;
}

unfoldable pub delete_job : Option String → String → Tx Store (Unit {0})
delete_job tenant job_id = get_job tenant job_id >>= λ job. modify (without_job job.id)

-- The job of the row that was found, or the exception.
abbrev pub job_result : Result (Option Job) → Result Job
job_result (ok none) = err record_not_found
job_result (ok (some job)) = ok job
job_result (err e) = err e

-- A read leaves the database as it is.
pub get_job_result :
    (tenant : Option String) (job_id : String) (s : Store)
    → get_job tenant job_id s
      ≡ (job_result (scalar_one_or_none (select (is_job tenant job_id) s.jobs)), s)
unfolding get_job
get_job_result tenant job_id s = resumed (scalar_one_or_none (select (is_job tenant job_id) s.jobs))
  where
    resumed :
        (r : Result (Option Job)) → resume_with r (or_raise record_not_found) s ≡ (job_result r, s)
    resumed (ok none) = refl
    resumed (ok (some job)) = refl
    resumed (err e) = refl

found_job : Option String → String → Store → Option Job
found_job tenant job_id s = first (select (is_job tenant job_id) s.jobs)

abbrev has_id : String → Job → Bool
has_id i j = str_eq j.id i

get_job_lem :
    (tenant : Option String) (job_id : String) (s : Store)
    → count (has_id job_id) s.jobs ≤ 1
    → get_job tenant job_id s ≡ or_raise record_not_found (found_job tenant job_id s) s
unfolding get_job found_job
get_job_lem tenant job_id s h = rw (
    scalar-first (is_job tenant job_id) s.jobs
      (omega (arith, h, count-and_le (λ j. visible tenant j.user_id) (has_id job_id) s.jobs)))

get_job-deleted :
    (viewer : Option String) (job_id : String) (s : Store)
    → get_job viewer job_id (without_job job_id s) ≡ (err record_not_found, without_job job_id s)
unfolding get_job
get_job-deleted viewer job_id s =
    rw (
      select-delete_within (has_id job_id) (is_job viewer job_id) s.jobs (λ j e. ground (arith, e)))

-- On a table with one row for the id, a user who sees the job deletes it and every application
-- for it, and no other job or application; nobody can get it afterwards. A user who does not
-- see it gets RecordNotFoundError, and nothing changes.
pub delete_job-get :
    (tenant : Option String) (job_id : String) (s : Store)
    → count (has_id job_id) s.jobs ≤ 1
    → let (r, after) = delete_job tenant job_id s in
      ((any (is_job tenant job_id) s.jobs ≡ true)
        × (r ≡ ok tt)
        × (after ≡ without_job job_id s)
        × ((viewer : Option String) → get_job viewer job_id after ≡ (err record_not_found, after)))
      ⊎ ((any (is_job tenant job_id) s.jobs ≡ false) × (r ≡ err record_not_found) × (after ≡ s))
unfolding delete_job found_job
delete_job-get tenant job_id s h =
    rw (get_job_lem tenant job_id s h) (elim (Bool-cases (any (is_job tenant job_id) s.jobs)) [
      | inl e ↦
          let (job, found) = first-select-some (is_job tenant job_id) s.jobs e in
          let same : job.id ≡ job_id =
            by_id job (first-select-holds (is_job tenant job_id) s.jobs found) in
          rw (found, same) (inl (e, refl, refl, λ viewer. get_job-deleted viewer job_id s))
      | inr e ↦ rw (first-select-none (is_job tenant job_id) s.jobs e) (inr (e, refl, refl))
    ])
  where
    by_id : (job : Job) → is_job tenant job_id job ≡ true → job.id ≡ job_id
    by_id job k = str_eq→eq job.id job_id (ground arith)
