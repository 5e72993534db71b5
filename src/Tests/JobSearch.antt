-- ===== src/Tests/JobSearch.antt =====
-- A search finds a listing twice, and a job is deleted.
use auto_jobs_apply.Prelude.{
  ◌≡◌, refl, String, Option, List, [], ◌∷◌, some, none, false, str_eq, arith, if◌then◌else◌,
}
use auto_jobs_apply.Tx.{Result, ok, err, connection}
use auto_jobs_apply.Models.{Store}
use auto_jobs_apply.JobSearch.{
  Digests, Flush, JobListing, job_identity, register, register_all, search_platforms, search_found,
  search_jobs, insert_all,
}
use auto_jobs_apply.JobSearch.Inserting.{IsKeyed}
use auto_jobs_apply.JobSearch.Searching.{SearchStored, search_jobs-stored}
use auto_jobs_apply.Tests.Samples.{engineer}

abbrev digests : Digests
digests = record { strip = λ text. text; sha1_16 = λ text. text }

abbrev flush : Flush
flush = record { new_id = λ n. "new"; now = 7 }

abbrev listing : String → String → JobListing
listing id url = record {
  platform = "linkedin";
  platform_job_id = id;
  title = "Engineer";
  company = "Acme";
  location = "";
  url = url;
  description = "";
  salary_min = none;
  salary_max = none;
  salary_currency = "USD";
  job_type = "";
  remote = false;
  skills_required = [];
  skills_preferred = [];
}

abbrev store : Store
store = record { applications = []; jobs = engineer ∷ []; resumes = [] }

-- LinkedIn answers, any other platform fails.
abbrev answers : List JobListing → String → Option (Result (List JobListing))
answers listings name = if str_eq name "linkedin" then some (ok listings) else some (err connection)

abbrev two : List JobListing
two = listing "" "https://a" ∷ listing "" "https://b" ∷ []

identified : job_identity digests "" "https://a" ≡ "url:https://a"
unfolding job_identity
identified = refl

keyed : IsKeyed store.jobs
keyed u p i = ground arith

search_jobs-stored_example :
    SearchStored digests "alice" store (answers two) none ("linkedin" ∷ "indeed" ∷ []) (
      search_jobs digests flush (answers two) none [] "alice" ("linkedin" ∷ "indeed" ∷ []) 20 store)
unfolding job_identity
search_jobs-stored_example =
    search_jobs-stored digests flush (answers two) none [] "alice" ("linkedin" ∷ "indeed" ∷ []) 20
      store "linkedin" ("indeed" ∷ []) refl keyed ((refl, (refl, tt)), (tt, tt)) tt

-- Two listings with neither an id nor a url lose the third, and all.
blank_listings_lose_all :
    search_jobs digests flush
      (answers (listing "" "" ∷ listing "" "" ∷ two))
      none
      []
      "alice"
      ("linkedin" ∷ [])
      20
      store
    ≡ search_jobs digests flush (answers []) none [] "alice" ("linkedin" ∷ []) 20 store
unfolding search_jobs search_found search_platforms register_all register job_identity insert_all
blank_listings_lose_all = refl
