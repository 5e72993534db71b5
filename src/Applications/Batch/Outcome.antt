-- ===== src/Applications/Batch/Outcome.antt =====
-- When `create_batch` succeeds, and what it stores.
use auto_jobs_apply.Prelude.{
  ℕ, ◌+◌, String, Bool, true, false, not, ◌&&◌, ◌||◌, ◌≡◌, refl, sym, ap, ◌∙◌, inl, inr, none, some,
  delete, str_eq_self, List, [], ◌∷◌, ◌++◌, map, arith, str_eq, if◌then◌else◌, Bool-cases, any,
  select, subst, fun_ext, str_eq→eq,
}
use auto_jobs_apply.Tx.{Result, ok, err, db_integrity, record_not_found}
use auto_jobs_apply.Models.{Application, Job, Store, queued, holds}
use auto_jobs_apply.Applications.Create.Outcome.{
  StoreIsConsistent, sees_job, sees_resume, assert_resume_lem,
}
use auto_jobs_apply.Applications.Create.{new_application}
use auto_jobs_apply.Applications.Batch.{
  ApplicationBatchCreate, member, owned_ids, none_missing, existing_active, committed,
  new_applications, insert_all, create_batch,
}
use auto_jobs_apply.Applications.Batch.Insertion.{has_repeat, told_apart, insert_all_lem}

member-map-select :
    {A : Type 0} (f : A → String) (p : A → Bool) (j : String) (rows : List A)
    → member j (map f (select p rows)) ≡ any (λ r. str_eq (f r) j && p r) rows
member-map-select f p j [] = refl
member-map-select f p j (r ∷ rows) = elim (Bool-cases (p r)) [
  | inl e ↦ rw e (ground (arith, member-map-select f p j rows))
  | inr e ↦ rw e (ground (arith, member-map-select f p j rows))
]

same_requested :
    (i j : String) (requested : List String)
    → member j requested ≡ true
    → str_eq i j ≡ true
    → member i requested ≡ true
same_requested i j requested m e = subst (λ k. member k requested ≡ true) (sym (str_eq→eq i j e)) m

any-congr :
    {A : Type 0} (p q : A → Bool) (rows : List A) → ((r : A) → p r ≡ q r) → any p rows ≡ any q rows
any-congr p q rows h = rw (fun_ext h)

existing_active_lem :
    (u j : String) (requested : List String) (s : Store)
    → member j requested ≡ true
    → member j (existing_active (some u) requested s) ≡ any (holds u j) s.applications
existing_active_lem u j requested s m =
    member-map-select (λ (r : Application). r.job_id) _ j s.applications
    ∙ any-congr _ _ s.applications (λ r. elim (Bool-cases (str_eq r.job_id j)) [
      | inl e ↦ ground (arith, same_requested r.job_id j requested m e)
      | inr e ↦ ground arith
    ])

-- Whether the user has an active application for the job.
abbrev pub has_active : String → Store → String → Bool
has_active u s j = any (holds u j) s.applications

-- Whether some text stands twice in a list.
abbrev pub has_duplicate : List String → Bool
has_duplicate [] = false
has_duplicate (j ∷ js) = member j js || has_duplicate js

-- A queued application for each of the jobs, with the ids `uuid n`, `uuid (n + 1)` and so on.
abbrev pub queued_rows :
    String → ApplicationBatchCreate → (ℕ → String) → ℕ → ℕ → List String → List Application
queued_rows u request uuid now n [] = []
queued_rows u request uuid now n (j ∷ js) =
    (record {
      id = uuid n;
      user_id = u;
      job_id = j;
      resume_id = request.resume_id;
      status = queued;
      apply_mode = request.apply_mode;
      cover_letter_path = none;
      applied_at = none;
      notes = none;
      created_at = now;
    })
    ∷ queued_rows u request uuid now (n + 1) js

-- What a batch comes to.
abbrev pub batch_spec :
    String → ApplicationBatchCreate → (ℕ → String) → ℕ → Store → Result (List Application) × Store
batch_spec u request uuid now s =
    let new_jobs = delete (has_active u s) request.job_ids in
    let apps = queued_rows u request uuid now 0 new_jobs in
    if sees_resume u request.resume_id s && not (any (λ j. not (sees_job u j s)) request.job_ids)
    then (if has_duplicate new_jobs
        then (err db_integrity, s)
        else (ok apps, record s { applications = s.applications ++ apps }))
    else (err record_not_found, s)

-- Two tests that agree on the elements of a list.
any-agree :
    (p q : String → Bool) (requested js : List String)
    → ((j : String) → member j requested ≡ true → p j ≡ q j)
    → ((j : String) → member j js ≡ true → member j requested ≡ true)
    → (any p js ≡ any q js) × (delete p js ≡ delete q js)
any-agree p q requested [] h inside = (refl, refl)
any-agree p q requested (j ∷ js) h inside =
    let (some_one, left) = any-agree p q requested js h (λ k m. inside k (ground (arith, m))) in
    rw (h j (inside j (ground (arith, str_eq_self j))), some_one, left) (refl, refl)

owned_lem :
    (u j : String) (requested : List String) (s : Store)
    → member j requested ≡ true
    → member j (owned_ids (some u) requested s) ≡ sees_job u j s
owned_lem u j requested s m =
    member-map-select (λ (r : Job). r.id) _ j s.jobs
    ∙ any-congr _ _ s.jobs (λ r. elim (Bool-cases (str_eq r.id j)) [
      | inl e ↦ ground (arith, same_requested r.id j requested m e)
      | inr e ↦ ground arith
    ])

none_missing_lem :
    (u : String) (requested : List String) (s : Store)
    → none_missing (owned_ids (some u) requested s) requested
      ≡ not (any (λ j. not (sees_job u j s)) requested)
none_missing_lem u requested s =
    ap not
      (any-agree _ _ requested requested (λ j m. ap not (owned_lem u j requested s m)) (λ j m. m)).0

new_jobs_lem :
    (u : String) (requested : List String) (s : Store)
    → delete (λ j. member j (existing_active (some u) requested s)) requested
      ≡ delete (has_active u s) requested
new_jobs_lem u requested s =
    (any-agree _ _ requested requested (λ j m. existing_active_lem u j requested s m) (λ j m. m)).1

new_applications_lem :
    (u : String) (request : ApplicationBatchCreate) (uuid : ℕ → String) (now : ℕ)
    (existing : List String) (n : ℕ) (js : List String)
    → new_applications u request uuid now existing n js
      ≡ queued_rows u request uuid now n (delete (λ j. member j existing) js)
unfolding new_applications new_application
new_applications_lem u request uuid now existing n [] = refl
new_applications_lem u request uuid now existing n (j ∷ js) =
    elim (Bool-cases (member j existing)) [
      | inl e ↦ rw e (new_applications_lem u request uuid now existing n js)
      | inr e ↦ rw (e, new_applications_lem u request uuid now existing (n + 1) js) refl
    ]

member-delete :
    (j : String) (existing js : List String)
    → member j existing ≡ false
    → member j (delete (λ k. member k existing) js) ≡ member j js
member-delete j existing [] h = refl
member-delete j existing (k ∷ js) h = elim (Bool-cases (member k existing)) [
  | inl e ↦ rw e (
      ground
        (arith, told_apart (λ i. member i existing) true k j e h, member-delete j existing js h))
  | inr e ↦ rw (e, member-delete j existing js h)
]

has_repeat_lem :
    (existing js : List String)
    → has_repeat existing js ≡ has_duplicate (delete (λ j. member j existing) js)
has_repeat_lem existing [] = refl
has_repeat_lem existing (j ∷ js) = elim (Bool-cases (member j existing)) [
  | inl e ↦ rw e (has_repeat_lem existing js)
  | inr e ↦ rw (e, member-delete j existing js e, has_repeat_lem existing js)
]

committed_lem :
    (u : String) (requested : List String) (apps : List Application) (s : Store)
    (existing : List String)
    → insert_all apps s.applications
      ≡ (if has_repeat existing requested then err db_integrity else ok (s.applications ++ apps))
    → committed apps s (insert_all apps s.applications) ≡ (
        if has_repeat existing requested
        then (err db_integrity, s)
        else (ok apps, record s { applications = s.applications ++ apps }))
committed_lem u requested apps s existing e = elim (Bool-cases (has_repeat existing requested)) [
  | inl r ↦ rw (e, r)
  | inr r ↦ rw (e, r)
]

inserted :
    (u : String) (request : ApplicationBatchCreate) (uuid : ℕ → String) (now : ℕ) (s : Store)
    → let existing = existing_active (some u) request.job_ids s in
      let apps = new_applications u request uuid now existing 0 request.job_ids in
      committed apps s (insert_all apps s.applications) ≡ (
        let new_jobs = delete (has_active u s) request.job_ids in
        let rows = queued_rows u request uuid now 0 new_jobs in
        if has_duplicate new_jobs
        then (err db_integrity, s)
        else (ok rows, record s { applications = s.applications ++ rows }))
inserted u request uuid now s =
    let existing = existing_active (some u) request.job_ids s in
    committed_lem u request.job_ids _ s existing (
      insert_all_lem u request uuid now existing 0 request.job_ids s.applications
        (λ j m n. sym (existing_active_lem u j request.job_ids s m) ∙ n))
    ∙ rw (
      has_repeat_lem existing request.job_ids,
      new_applications_lem u request uuid now existing 0 request.job_ids,
      new_jobs_lem u request.job_ids s,
    )

-- On a consistent database `create_batch` refuses a resume, or any job, that the tenant does not
-- own, and else stores one queued row for each requested job without an active application of the
-- tenant, with the requested resume and mode. It stores nothing and raises the exception of the
-- unique index when such a job is requested twice.
pub create_batch-eq :
    (u : String) (request : ApplicationBatchCreate) (uuid : ℕ → String) (now : ℕ) (s : Store)
    → StoreIsConsistent s
    → create_batch (some u) request u uuid now s ≡ batch_spec u request uuid now s
unfolding create_batch
create_batch-eq u request uuid now s c =
    rw (assert_resume_lem u request.resume_id s c)
      (elim (Bool-cases (sees_resume u request.resume_id s)) [
        | inr e ↦ rw e
        | inl e ↦ elim (Bool-cases (not (any (λ j. not (sees_job u j s)) request.job_ids))) [
          | inr f ↦ rw (e, none_missing_lem u request.job_ids s, f)
          | inl f ↦ rw (e, none_missing_lem u request.job_ids s, f) (inserted u request uuid now s)
        ]
      ])
