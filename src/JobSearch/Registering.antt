-- ===== src/JobSearch/Registering.antt =====
-- The local state of a search never holds two jobs with one key.
use auto_jobs_apply.Prelude.{
  ◌≤◌, String, Bool, true, false, ◌&&◌, ◌≡◌, refl, sym, ap, ◌∙◌, inl, inr, Option, none, some, List,
  [], ◌∷◌, ◌++◌, str_eq, str_eq_self, str_eq→eq, if◌then◌else◌, Bool-cases, any, count, select,
  first, All, arith, truthy, count-append, any-eq-false, first-select-none, first-select-some,
  first-select-holds, found-counted,
}
use mathlib.Core.List.{append_assoc}
use auto_jobs_apply.Models.{Job}
use auto_jobs_apply.JobSearch.{
  Digests, Flush, job_identity, has_key, is_key, Search, flushed, registered, see, register,
}

abbrev pub is_seen : String → String → Search → Bool
is_seen p i st = any (is_key p i) st.seen

-- The jobs of the user before the search are `rows`.
pub record IsTidy (u : String) (rows : List Job) (st : Search) : Type 0 where
  pub known : st.existing ≡ rows ++ st.added
  pub one_known : (p i : String) → count (has_key p i) st.existing ≤ 1
  pub one_found :
      (p i : String) → count (has_key p i) st.all_jobs ≡ (if is_seen p i st then 1 else 0)
  pub stored : (p i : String) → is_seen p i st ≡ true → 1 ≤ count (has_key p i) st.existing
  pub owned : All (λ j. j.user_id ≡ u) st.added

All-append_one :
    {A : Type 0} (P : A → Type 0) (xs : List A) (a : A) → All P xs → P a → All P (xs ++ a ∷ [])
All-append_one P [] a h k = (k, tt)
All-append_one P (x ∷ xs) a (one, h) k = (one, All-append_one P xs a h k)

-- A job with a key that was not seen is the first with that key.
found_once :
    (p i p' i' : String) (j : Job) (st : Search)
    → j.platform ≡ p
    → j.platform_job_id ≡ i
    → is_seen p i st ≡ false
    → count (has_key p' i') st.all_jobs ≡ (if is_seen p' i' st then 1 else 0)
    → count (has_key p' i') (st.all_jobs ++ j ∷ []) ≡ (if is_seen p' i' (see p i st) then 1 else 0)
found_once p i p' i' j st a b fresh h =
    rw (count-append (has_key p' i') st.all_jobs (j ∷ []), a, b)
      (elim (Bool-cases (str_eq p p' && str_eq i i')) [
        | inl e ↦
            let c : p ≡ p' = str_eq→eq p p' (ground arith) in
            let d : i ≡ i' = str_eq→eq i i' (ground arith) in
            let unseen : is_seen p' i' st ≡ false = rw (sym c, sym d) fresh in
            ground (arith, h, unseen)
        | inr e ↦ ground (arith, h)
      ])

known_once :
    (p i p' i' : String) (j : Job) (jobs : List Job)
    → j.platform ≡ p
    → j.platform_job_id ≡ i
    → any (has_key p i) jobs ≡ false
    → count (has_key p' i') jobs ≤ 1
    → count (has_key p' i') (jobs ++ j ∷ []) ≤ 1
known_once p i p' i' j jobs a b fresh h =
    rw (count-append (has_key p' i') jobs (j ∷ []), a, b)
      (elim (Bool-cases (str_eq p p' && str_eq i i')) [
        | inl e ↦
            let c : p ≡ p' = str_eq→eq p p' (ground arith) in
            let d : i ≡ i' = str_eq→eq i i' (ground arith) in
            let none_yet : count (has_key p' i') jobs ≡ 0 =
              rw (sym c, sym d) (any-eq-false (has_key p i) jobs fresh) in
            ground (arith, none_yet)
        | inr e ↦ ground (arith, h)
      ])

-- What was seen, and the key that is seen now, has a job.
seen_stored :
    (p i p' i' : String) (st : Search) (jobs : List Job)
    → 1 ≤ count (has_key p i) jobs
    → (is_seen p' i' st ≡ true → 1 ≤ count (has_key p' i') jobs)
    → is_seen p' i' (see p i st) ≡ true
    → 1 ≤ count (has_key p' i') jobs
seen_stored p i p' i' st jobs h k e = elim (Bool-cases (str_eq p p' && str_eq i i')) [
  | inl g ↦
      let c : p ≡ p' = str_eq→eq p p' (ground arith) in
      let d : i ≡ i' = str_eq→eq i i' (ground arith) in rw (sym c, sym d) h
  | inr g ↦ k (rw g at e)
]

more_stored :
    (p i : String) (jobs more : List Job)
    → 1 ≤ count (has_key p i) jobs
    → 1 ≤ count (has_key p i) (jobs ++ more)
more_stored p i jobs more h = omega (arith, count-append (has_key p i) jobs more)

key_of :
    (p i : String) (j : Job) → has_key p i j ≡ true → (j.platform ≡ p) × (j.platform_job_id ≡ i)
key_of p i j h =
    (str_eq→eq j.platform p (ground arith), str_eq→eq j.platform_job_id i (ground arith))

module _ (u : String) (rows : List Job) (f : Flush) where
  registered-IsTidy :
      (job : Job) (st : Search)
      → IsTidy u rows st
      → job.user_id ≡ u
      → is_seen job.platform job.platform_job_id st ≡ false
      → IsTidy u rows (
          registered f job
            (first (select (has_key job.platform job.platform_job_id) st.existing))
            (see job.platform job.platform_job_id st))
  registered-IsTidy job st t own fresh = elim (Bool-cases (any (has_key p i) st.existing)) [
    | inl e ↦
        let (known, found) = first-select-some (has_key p i) st.existing e in
        let (a, b) = key_of p i known (first-select-holds (has_key p i) st.existing found) in
        rw found record {
          known = t.known;
          one_known = t.one_known;
          one_found = λ p' i'. found_once p i p' i' known st a b fresh (t.one_found p' i');
          stored = λ p' i'.
              seen_stored p i p' i' st st.existing
                (found-counted (has_key p i) (has_key p i) st.existing found
                  (first-select-holds (has_key p i) st.existing found))
                (t.stored p' i');
          owned = t.owned;
        }
    | inr e ↦
        let new = flushed f (see p i st) job in
        rw (first-select-none (has_key p i) st.existing e) record {
          known = ap (λ k. k ++ new ∷ []) t.known ∙ append_assoc rows st.added (new ∷ []);
          one_known = λ p' i'. known_once p i p' i' new st.existing refl refl e (t.one_known p' i');
          one_found = λ p' i'. found_once p i p' i' new st refl refl fresh (t.one_found p' i');
          stored = λ p' i'.
              seen_stored p i p' i' st (st.existing ++ new ∷ [])
                (new_stored new (rw (str_eq_self p, str_eq_self i)))
                (λ h. more_stored p' i' st.existing (new ∷ []) (t.stored p' i' h));
          owned = All-append_one (λ j. j.user_id ≡ u) st.added new t.owned own;
        }
  ]
    where
      p : String
      p = job.platform

      i : String
      i = job.platform_job_id

      new_stored :
          (new : Job) → has_key p i new ≡ true → 1 ≤ count (has_key p i) (st.existing ++ new ∷ [])
      new_stored new h = ground (arith, count-append (has_key p i) st.existing (new ∷ []))

  pub register-IsTidy :
      (d : Digests) (job : Job) (st : Search)
      → IsTidy u rows st
      → job.user_id ≡ u
      → truthy (job_identity d job.platform_job_id job.url) ≡ true
      → IsTidy u rows (register d f job st)
  unfolding register
  register-IsTidy d job st t own h =
      let ident = job_identity d job.platform_job_id job.url in
      elim (Bool-cases (is_seen job.platform ident st)) [
        | inl e ↦ rw (h, e) t
        | inr e ↦ rw (h, e) (registered-IsTidy (record job { platform_job_id = ident }) st t own e)
      ]

  -- A job that can be identified is seen from then on.
  pub register-seen :
      (d : Digests) (job : Job) (st : Search)
      → truthy (job_identity d job.platform_job_id job.url) ≡ true
      → let after = register d f job st in
        (is_seen job.platform (job_identity d job.platform_job_id job.url) after ≡ true)
        × ((p i : String) → is_seen p i st ≡ true → is_seen p i after ≡ true)
  unfolding register
  register-seen d job st h =
      let ident = job_identity d job.platform_job_id job.url in
      elim (Bool-cases (is_seen job.platform ident st)) [
        | inl e ↦ rw (h, e) (e, λ p i k. k)
        | inr e ↦
            rw (h, e)
              (by_existing (record job { platform_job_id = ident })
                (first (select (has_key job.platform ident) st.existing)))
      ]
    where
      by_existing :
          (keyed : Job) (existing : Option Job)
          → let after = registered f keyed existing (see keyed.platform keyed.platform_job_id st) in
            (is_seen keyed.platform keyed.platform_job_id after ≡ true)
            × ((p i : String) → is_seen p i st ≡ true → is_seen p i after ≡ true)
      by_existing keyed none = (
        rw (str_eq_self keyed.platform, str_eq_self keyed.platform_job_id),
        λ p i k. ground (arith, k),
      )
      by_existing keyed (some e) = (
        rw (str_eq_self keyed.platform, str_eq_self keyed.platform_job_id),
        λ p i k. ground (arith, k),
      )
