-- ===== src/JobSearch/Searching.antt =====
-- A search stores every new listing once, and its commit goes through.
use auto_jobs_apply.Prelude.{
  count-take_le, ℕ, ◌≤◌, String, true, ◌≡◌, refl, sym, subst, Option, List, [], ◌∷◌, ◌++◌, count,
  select, All, arith, All-map,
}
use mathlib.Core.List.{append-nil}
use auto_jobs_apply.Tx.{Result}
use auto_jobs_apply.Models.{Job, Store}
use auto_jobs_apply.JobSearch.{
  Digests, Flush, JobListing, job_identity, listing_to_job, has_key, Search, register, register_all,
  found_by, search_platforms, JobListResponse, first_page, of_user, start, platforms_or,
  search_found, search_jobs,
}
use auto_jobs_apply.JobSearch.Inserting.{
  has_row_key, IsKeyed, IsIdentified, insert_all-IsKeyed, count-select_user, count-known,
  added-IsKeyed,
}
use auto_jobs_apply.JobSearch.Registering.{is_seen, IsTidy, register-IsTidy, register-seen}

-- The key of a listing was seen.
abbrev SeenIn : Digests → Search → JobListing → Type 0
SeenIn d st l = is_seen l.platform (job_identity d l.platform_job_id l.url) st ≡ true

abbrev KeepsSeen : Search → Search → Type 0
KeepsSeen st after = (p i : String) → is_seen p i st ≡ true → is_seen p i after ≡ true

module _ (d : Digests) (f : Flush) (u : String) (rows : List Job) where
  register_all-IsTidy :
      (listings : List JobListing) (st : Search)
      → IsTidy u rows st
      → All (IsIdentified d) listings
      → let after = register_all d f u listings st in
        IsTidy u rows after × All (SeenIn d after) listings × KeepsSeen st after
  unfolding register_all
  register_all-IsTidy [] st t h = (t, tt, λ p i k. k)
  register_all-IsTidy (l ∷ listings) st t (one, h) =
      let job = listing_to_job l u in
      let next = register d f job st in
      let (seen, keeps) = register-seen u rows f d job st one in
      let (tidy, all_seen, keeps_on) =
        register_all-IsTidy listings next (register-IsTidy u rows f d job st t refl one) h in
      (
        tidy,
        (keeps_on l.platform (job_identity d l.platform_job_id l.url) seen, all_seen),
        λ p i k. keeps_on p i (keeps p i k),
      )

  search_platforms-IsTidy :
      (find : String → Option (Result (List JobListing))) (names : List String) (st : Search)
      → IsTidy u rows st
      → All (λ name. All (IsIdentified d) (found_by (find name))) names
      → let after = search_platforms d f find u names st in
        IsTidy u rows after
        × All (λ name. All (SeenIn d after) (found_by (find name))) names
        × KeepsSeen st after
  unfolding search_platforms
  search_platforms-IsTidy find [] st t h = (t, tt, λ p i k. k)
  search_platforms-IsTidy find (name ∷ names) st t (one, h) =
      let next = register_all d f u (found_by (find name)) st in
      let last = search_platforms d f find u names next in
      let (tidy, seen, keeps) = register_all-IsTidy (found_by (find name)) st t one in
      let (tidy_on, all_seen, keeps_on) = search_platforms-IsTidy find names next tidy h in
      let still : All (SeenIn d last) (found_by (find name)) =
        All-map (found_by (find name))
          (λ l k. keeps_on l.platform (job_identity d l.platform_job_id l.url) k) seen in
      (tidy_on, (still, all_seen), λ p i k. keeps_on p i (keeps p i k))

start-IsTidy :
    (u : String) (s : Store) → IsKeyed s.jobs → IsTidy u (select (of_user u) s.jobs) (start u s)
start-IsTidy u s keyed = record {
  known = sym (append-nil (select (of_user u) s.jobs));
  one_known = λ p i. rw (sym (count-select_user u p i s.jobs)) (keyed u p i);
  one_found = λ p i. refl;
  stored = λ p i h. cc;
  owned = tt;
}

-- A listing has its row.
abbrev pub StoredIn : Digests → String → List Job → JobListing → Type 0
StoredIn d u jobs l =
    count (has_row_key u l.platform (job_identity d l.platform_job_id l.url)) jobs ≡ 1

-- What was seen has exactly one row.
seen-StoredIn :
    (d : Digests) (u : String) (jobs : List Job) (st : Search) (l : JobListing)
    → IsKeyed jobs
    → IsTidy u (select (of_user u) jobs) st
    → SeenIn d st l
    → StoredIn d u (jobs ++ st.added) l
seen-StoredIn d u jobs st l keyed t seen =
    let i = job_identity d l.platform_job_id l.url in
    omega (
      arith,
      count-known u l.platform i jobs st t,
      t.stored l.platform i seen,
      t.one_known l.platform i,
    )

search_jobs-committed :
    (d : Digests) (f : Flush) (find : String → Option (Result (List JobListing)))
    (exa : Option (Result (List JobListing))) (all_platforms : List String) (u : String)
    (platforms : List String) (limit : ℕ) (s : Store) (name : String) (names : List String)
    → platforms_or platforms all_platforms ≡ name ∷ names
    → let st = search_found d f find exa u (name ∷ names) s in
      IsKeyed (s.jobs ++ st.added)
      → search_jobs d f find exa all_platforms u platforms limit s
        ≡ (first_page limit st.all_jobs, record s { jobs = s.jobs ++ st.added })
unfolding search_jobs
search_jobs-committed d f find exa all_platforms u platforms limit s name names e keyed =
    rw (e, insert_all-IsKeyed (search_found d f find exa u (name ∷ names) s).added s.jobs keyed)

-- The user's new rows are appended, the constraint holds, each listing of the platforms and of the
-- Exa search has exactly one row, and no two items of the answer have one key.
abbrev pub SearchStored :
    Digests
    → String
    → Store
    → (String → Option (Result (List JobListing)))
    → Option (Result (List JobListing))
    → List String
    → JobListResponse × Store
    → Type 0
SearchStored d u s find exa names (r, after) =
    ((added : List Job) × (after.jobs ≡ s.jobs ++ added) × All (λ j. j.user_id ≡ u) added)
    × IsKeyed after.jobs
    × All (λ n. All (StoredIn d u after.jobs) (found_by (find n))) names
    × All (StoredIn d u after.jobs) (found_by exa)
    × ((p i : String) → count (has_key p i) r.items ≤ 1)

-- On a table that keeps the unique constraint, a search whose listings all have an id or a url is
-- committed: it appends rows of the user, the constraint holds, each listing of every platform that
-- answered and of the Exa search has exactly one row, and no two items of the answer have one
-- key. A platform that is not registered or fails costs only its own listings.
pub search_jobs-stored :
    (d : Digests) (f : Flush) (find : String → Option (Result (List JobListing)))
    (exa : Option (Result (List JobListing))) (all_platforms : List String) (u : String)
    (platforms : List String) (limit : ℕ) (s : Store) (name : String) (names : List String)
    → platforms_or platforms all_platforms ≡ name ∷ names
    → IsKeyed s.jobs
    → All (λ n. All (IsIdentified d) (found_by (find n))) (name ∷ names)
    → All (IsIdentified d) (found_by exa)
    → SearchStored d u s find exa
        (name ∷ names)
        (search_jobs d f find exa all_platforms u platforms limit s)
unfolding search_found
search_jobs-stored d f find exa all_platforms u platforms limit s name names e keyed h k =
    let rows = select (of_user u) s.jobs in
    let mid = search_platforms d f find u (name ∷ names) (start u s) in
    let last = register_all d f u (found_by exa) mid in
    let (tidy, seen, keeps) =
      search_platforms-IsTidy d f u rows find (name ∷ names) (start u s) (start-IsTidy u s keyed)
        h in
    let (tidy_on, seen_exa, keeps_on) = register_all-IsTidy d f u rows (found_by exa) mid tidy k in
    let keyed_on = added-IsKeyed u s.jobs last keyed tidy_on in
    subst (SearchStored d u s find exa (name ∷ names))
      (sym (
        search_jobs-committed d f find exa all_platforms u platforms limit s name names e keyed_on))
      (
        (last.added, refl, tidy_on.owned),
        keyed_on,
        All-map (name ∷ names)
            (λ n found.
              All-map (found_by (find n))
                (λ l g.
                  seen-StoredIn d u s.jobs last l keyed tidy_on
                    (keeps_on l.platform (job_identity d l.platform_job_id l.url) g))
                found)
            seen,
        All-map (found_by exa) (λ l g. seen-StoredIn d u s.jobs last l keyed tidy_on g) seen_exa,
        λ p i.
            ground (arith, count-take_le (has_key p i) limit last.all_jobs, tidy_on.one_found p i),
      )
