-- ===== src/JobSearch.antt =====
-- services/job_search.py under backend/app, with `JobListing` of core/automation/platforms/base.py:
-- the search over the job platforms, which stores what is new, and the operations on stored jobs.
-- What the platforms and the Exa search answer is an argument; so are the amounts of a salary, as
-- `,.0f` prints them. The texts' functions that are a library's are the record `Digests`.
pub mod Registering
pub mod Inserting
pub mod Searching
pub mod Stored
pub mod Analysis
use auto_jobs_apply.Prelude.{
  ℕ, ◌+◌, ◌-◌, ◌*◌, min, String, Bool, true, false, not, ◌&&◌, ◌||◌, Option, none, some, List, [],
  ◌∷◌, ◌++◌, str_eq, ltb, if◌then◌else◌, any, select, delete, first, length, take, drop, truthy,
  is_set, or_empty,
}
use auto_jobs_apply.Tx.{
  Error, Result, Tx, ok, err, record_not_found, pure, lift, gets, modify, ◌>>=◌, ◌>>◌, or_raise,
  scalar_one_or_none,
}
use auto_jobs_apply.Models.{Application, Job, Skills, Store, visible}
use Prim.Native.String.{◌++◌ as ◌+++◌}

-- `str.strip`, and the first 16 hexadecimal digits of the SHA-1 of a text.
pub record Digests : Type 0 where
  pub strip : String → String
  pub sha1_16 : String → String

pub record JobListing : Type 0 where
  pub platform : String
  pub platform_job_id : String
  pub title : String
  pub company : String
  pub location : String
  pub url : String
  pub description : String
  pub salary_min : Option String
  pub salary_max : Option String
  pub salary_currency : String
  pub job_type : String
  pub remote : Bool
  pub skills_required : List String
  pub skills_preferred : List String

-- `_job_identity`, of the two columns that it reads.
unfoldable pub job_identity : Digests → String → String → String
job_identity d platform_job_id url =
    if truthy (d.strip platform_job_id)
    then d.strip platform_job_id
    else if truthy (d.strip url)
    then "url:" +++ d.sha1_16 (d.strip url)
    else ""

abbrev pub salary_range : String → Option String → Option String → Option String
salary_range currency (some low) (some high) =
    some (currency +++ (" " +++ (low +++ (" - " +++ high))))
salary_range currency (some low) none = some (currency +++ (" " +++ (low +++ "+")))
salary_range currency none (some high) = some ("Up to " +++ (currency +++ (" " +++ high)))
salary_range currency none none = none

-- `if required or preferred:`
abbrev pub skills_dict : List String → List String → Option Skills
skills_dict [] [] = none
skills_dict required preferred = some (record { required = required; preferred = preferred })

-- `_listing_to_job`; a flush draws the id and the time.
abbrev pub listing_to_job : JobListing → String → Job
listing_to_job listing user_id = record {
  id = "";
  user_id = user_id;
  platform = listing.platform;
  platform_job_id = listing.platform_job_id;
  title = listing.title;
  company = listing.company;
  location = listing.location;
  url = listing.url;
  description = listing.description;
  salary_range = salary_range listing.salary_currency listing.salary_min listing.salary_max;
  job_type = if truthy listing.job_type then some listing.job_type else none;
  remote = listing.remote;
  skills_required = skills_dict listing.skills_required listing.skills_preferred;
  status = "new";
  created_at = 0;
}

abbrev pub has_key : String → String → Job → Bool
has_key platform ident j = str_eq j.platform platform && str_eq j.platform_job_id ident

abbrev pub is_key : String → String → String × String → Bool
is_key platform ident (p, i) = str_eq p platform && str_eq i ident

-- The local state of a search: `seen`, the values of `existing_by_key`, `all_jobs`, and the jobs
-- that were added to the session.
pub record Search : Type 0 where
  pub seen : List (String × String)
  pub existing : List Job
  pub all_jobs : List Job
  pub added : List Job

-- What a flush draws for the n-th job that was added: its id and its time.
pub record Flush : Type 0 where
  pub new_id : ℕ → String
  pub now : ℕ

abbrev pub flushed : Flush → Search → Job → Job
flushed f st job = record job { id = f.new_id (length st.added); created_at = f.now }

abbrev pub add_new : Flush → Job → Search → Search
add_new f job st =
    let new = flushed f st job in
    record st { all_jobs = st.all_jobs ++ new ∷ []; added = st.added ++ new ∷ [] }

-- An identified job whose key was not seen.
abbrev pub registered : Flush → Job → Option Job → Search → Search
registered f job (some existing) st = record st { all_jobs = st.all_jobs ++ existing ∷ [] }
registered f job none st = record (add_new f job st) {
  existing = st.existing ++ flushed f st job ∷ [];
}

abbrev pub see : String → String → Search → Search
see platform ident st = record st { seen = (platform, ident) ∷ st.seen }

-- The nested function `_register`.
unfoldable pub register : Digests → Flush → Job → Search → Search
register d f job st =
    let ident = job_identity d job.platform_job_id job.url in
    let keyed = record job { platform_job_id = ident } in
    if truthy ident
    then (if any (is_key job.platform ident) st.seen
        then st
        else registered f keyed (first (select (has_key job.platform ident) st.existing))
            (see job.platform ident st))
    else add_new f job st

unfoldable pub register_all : Digests → Flush → String → List JobListing → Search → Search
register_all d f user_id [] st = st
register_all d f user_id (listing ∷ listings) st =
    register_all d f user_id listings (register d f (listing_to_job listing user_id) st)

-- A platform that is not registered, or whose search raises, is passed over.
abbrev pub found_by : Option (Result (List JobListing)) → List JobListing
found_by none = []
found_by (some (ok listings)) = listings
found_by (some (err e)) = []

-- The loop over the platforms.
unfoldable pub search_platforms :
    Digests
    → Flush
    → (String → Option (Result (List JobListing)))
    → String
    → List String
    → Search
    → Search
search_platforms d f search user_id [] st = st
search_platforms d f search user_id (name ∷ names) st =
    search_platforms d f search user_id names (register_all d f user_id (found_by (search name)) st)

-- The unique constraint `uq_job_platform_id`.
abbrev pub same_row : Job → Job → Bool
same_row a b = str_eq b.user_id a.user_id && has_key a.platform a.platform_job_id b

-- The flush of the jobs that were added; none where the constraint refuses one.
unfoldable pub insert_all : List Job → List Job → Option (List Job)
insert_all [] rows = some rows
insert_all (job ∷ jobs) rows =
    if any (same_row job) rows then none else insert_all jobs (rows ++ job ∷ [])

pub record JobListResponse : Type 0 where
  pub items : List Job
  pub total : ℕ
  pub page : ℕ
  pub page_size : ℕ
  pub has_next : Bool

abbrev pub first_page : ℕ → List Job → JobListResponse
first_page limit jobs = record {
  items = take limit jobs;
  total = length jobs;
  page = 1;
  page_size = limit;
  has_next = ltb limit (length jobs);
}

-- The commit, or the rollback that loses every result.
abbrev pub committed : ℕ → Search → Store → Option (List Job) → JobListResponse × Store
committed limit st s none = (first_page limit [], s)
committed limit st s (some jobs) = (first_page limit st.all_jobs, record s { jobs = jobs })

abbrev pub of_user : String → Job → Bool
of_user user_id j = str_eq j.user_id user_id

abbrev pub start : String → Store → Search
start user_id s = record {
  seen = [];
  existing = select (of_user user_id) s.jobs;
  all_jobs = [];
  added = [];
}

-- `request.platforms or platform_registry.list_platforms()`
abbrev pub platforms_or : List String → List String → List String
platforms_or [] all_platforms = all_platforms
platforms_or (name ∷ names) all_platforms = name ∷ names

unfoldable pub search_found :
    Digests
    → Flush
    → (String → Option (Result (List JobListing)))
    → Option (Result (List JobListing))
    → String
    → List String
    → Store
    → Search
search_found d f search exa user_id names s =
    register_all d f user_id (found_by exa)
      (search_platforms d f search user_id names (start user_id s))

abbrev pub search_with :
    Digests
    → Flush
    → (String → Option (Result (List JobListing)))
    → Option (Result (List JobListing))
    → String
    → ℕ
    → List String
    → Store
    → JobListResponse × Store
search_with d f search exa user_id limit [] s = (first_page limit [], s)
search_with d f search exa user_id limit (name ∷ names) s =
    let st = search_found d f search exa user_id (name ∷ names) s in
    committed limit st s (insert_all st.added s.jobs)

-- `exa` is none where no key is configured.
unfoldable pub search_jobs :
    Digests
    → Flush
    → (String → Option (Result (List JobListing)))
    → Option (Result (List JobListing))
    → List String
    → String
    → List String
    → ℕ
    → Store
    → JobListResponse × Store
search_jobs d f search exa all_platforms user_id platforms limit s =
    search_with d f search exa user_id limit (platforms_or platforms all_platforms) s
