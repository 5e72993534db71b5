-- ===== src/JobSearch/Inserting.antt =====
-- The jobs that a search added pass the unique constraint of the table.
use auto_jobs_apply.Prelude.{
  ◌≤◌, String, Bool, true, false, ◌&&◌, ◌≡◌, refl, sym, ap, ◌∙◌, inl, inr, some, List, [], ◌∷◌,
  ◌++◌, str_eq, str_eq_self, str_eq→eq, Bool-cases, any, count, select, All, arith, truthy,
  count-append, any-counted,
}
use mathlib.Core.List.{append_assoc, append-nil}
use auto_jobs_apply.Models.{Job}
use auto_jobs_apply.JobSearch.{
  Digests, JobListing, job_identity, has_key, Search, same_row, insert_all, of_user,
}
use auto_jobs_apply.JobSearch.Registering.{IsTidy}

abbrev pub has_row_key : String → String → String → Job → Bool
has_row_key u p i j = of_user u j && has_key p i j

-- The unique constraint.
abbrev pub IsKeyed : List Job → Type 0
IsKeyed jobs = (u p i : String) → count (has_row_key u p i) jobs ≤ 1

-- A listing with an id or a url, of which `_job_identity` makes a key.
abbrev pub IsIdentified : Digests → JobListing → Type 0
IsIdentified d l = truthy (job_identity d l.platform_job_id l.url) ≡ true

pub insert_all-IsKeyed :
    (jobs rows : List Job) → IsKeyed (rows ++ jobs) → insert_all jobs rows ≡ some (rows ++ jobs)
unfolding insert_all
insert_all-IsKeyed [] rows h = ap (λ r. some r) (sym (append-nil rows))
insert_all-IsKeyed (job ∷ jobs) rows h = elim (Bool-cases (any (same_row job) rows)) [
  | inl e ↦
      let self : same_row job job ≡ true =
        rw (str_eq_self job.user_id, str_eq_self job.platform, str_eq_self job.platform_job_id) in
      absurd (
        ground (
          arith,
          self,
          any-counted (same_row job) rows e,
          count-append (same_row job) rows (job ∷ jobs),
          h job.user_id job.platform job.platform_job_id,
        ))
  | inr e ↦
      let moved : (rows ++ job ∷ []) ++ jobs ≡ rows ++ job ∷ jobs =
        append_assoc rows (job ∷ []) jobs in
      rw e (insert_all-IsKeyed jobs (rows ++ job ∷ []) (rw moved h) ∙ ap (λ r. some r) moved)
]

module _ (u : String) where
  pub count-select_user :
      (p i : String) (jobs : List Job)
      → count (has_row_key u p i) jobs ≡ count (has_key p i) (select (of_user u) jobs)
  count-select_user p i [] = refl
  count-select_user p i (j ∷ jobs) = ground (arith, count-select_user p i jobs)

  count-own :
      (p i : String) (jobs : List Job)
      → All (λ j. j.user_id ≡ u) jobs
      → count (has_row_key u p i) jobs ≡ count (has_key p i) jobs
  count-own p i [] h = refl
  count-own p i (j ∷ jobs) (one, h) =
      let own : of_user u j ≡ true = rw (one, str_eq_self u) in rw (own, count-own p i jobs h)

  count-other :
      (v p i : String) (jobs : List Job)
      → str_eq u v ≡ false
      → All (λ j. j.user_id ≡ u) jobs
      → count (has_row_key v p i) jobs ≡ 0
  count-other v p i [] d h = refl
  count-other v p i (j ∷ jobs) d (one, h) =
      let other : of_user v j ≡ false = rw (one, d) in rw (other, count-other v p i jobs d h)

  -- The rows of the user are the jobs that the search knows.
  pub count-known :
      (p i : String) (jobs : List Job) (st : Search)
      → IsTidy u (select (of_user u) jobs) st
      → count (has_row_key u p i) (jobs ++ st.added) ≡ count (has_key p i) st.existing
  count-known p i jobs st t = rw (
    t.known,
    count-append (has_row_key u p i) jobs st.added,
    count-append (has_key p i) (select (of_user u) jobs) st.added,
    count-select_user p i jobs,
    count-own p i st.added t.owned,
  )

  pub added-IsKeyed :
      (jobs : List Job) (st : Search)
      → IsKeyed jobs
      → IsTidy u (select (of_user u) jobs) st
      → IsKeyed (jobs ++ st.added)
  added-IsKeyed jobs st h t v p i = elim (Bool-cases (str_eq u v)) [
    | inl e ↦
        let same : u ≡ v = str_eq→eq u v e in
        let counted : count (has_row_key v p i) (jobs ++ st.added)
            ≡ count (has_key p i) st.existing =
          rw (sym same) (count-known p i jobs st t) in
        rw counted (t.one_known p i)
    | inr e ↦
        rw (count-append (has_row_key v p i) jobs st.added, count-other v p i st.added e t.owned)
          (omega (arith, h v p i))
  ]
