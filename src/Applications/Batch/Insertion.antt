-- ===== src/Applications/Batch/Insertion.antt =====
-- The INSERTs of `create_batch`: which rows the unique index lets it store.
use auto_jobs_apply.Prelude.{
  ℕ, ◌+◌, String, Bool, true, false, not, ◌&&◌, ◌||◌, ◌≡◌, refl, sym, ap, ◌∙◌, inl, inr, List, [],
  ◌∷◌, ◌++◌, arith, str_eq, if◌then◌else◌, Bool-cases, any, str_eq_self, str_eq→eq,
}
use auto_jobs_apply.Tx.{ok, err, db_integrity}
use auto_jobs_apply.Models.{Application, is_active, holds}
use auto_jobs_apply.Applications.Index.{insert}
use auto_jobs_apply.Applications.Create.{new_application}
use auto_jobs_apply.Applications.Batch.{
  ApplicationBatchCreate, member, single, new_applications, insert_all,
}

-- Whether a job without an active application is requested twice.
abbrev pub has_repeat : List String → List String → Bool
has_repeat existing [] = false
has_repeat existing (j ∷ js) = (not (member j existing) && member j js) || has_repeat existing js

any-append :
    (p : Application → Bool) (rows : List Application) (a : Application)
    → any p (rows ++ a ∷ []) ≡ (any p rows || p a)
any-append p [] a = ground arith
any-append p (r ∷ rows) a = ground (arith, any-append p rows a)

append_one :
    (rows : List Application) (a : Application) (apps : List Application)
    → (rows ++ a ∷ []) ++ apps ≡ rows ++ a ∷ apps
append_one [] a apps = refl
append_one (r ∷ rows) a apps = ap (λ l. r ∷ l) (append_one rows a apps)

insert_free :
    (a : Application) (rows : List Application)
    → any (holds a.user_id a.job_id) rows ≡ false
    → insert a rows ≡ ok (rows ++ a ∷ [])
unfolding insert
insert_free a rows h = ground arith

insert_taken :
    (a : Application) (rows : List Application)
    → is_active a ≡ true
    → any (holds a.user_id a.job_id) rows ≡ true
    → insert a rows ≡ err db_integrity
unfolding insert
insert_taken a rows act h = rw (act, h)

insert_all_ok :
    (a : Application) (apps rows after : List Application)
    → insert a rows ≡ ok after
    → insert_all (a ∷ apps) rows ≡ insert_all apps after
unfolding insert_all
insert_all_ok a apps rows after e = rw (insert_all, e) refl

insert_all_err :
    (a : Application) (apps rows : List Application)
    → insert a rows ≡ err db_integrity
    → insert_all (a ∷ apps) rows ≡ err db_integrity
unfolding insert_all
insert_all_err a apps rows e = rw (insert_all, e) refl

-- Texts that a test tells apart are different.
pub told_apart :
    (f : String → Bool) (b : Bool) (j k : String) → f j ≡ b → f k ≡ not b → str_eq j k ≡ false
told_apart f b j k e g = elim (Bool-cases (str_eq j k)) [
  | inl same ↦ absurd (ground (arith, e, sym g ∙ ap f (sym (str_eq→eq j k same))))
  | inr h ↦ h
]

module _ (u : String) (request : ApplicationBatchCreate) (uuid : ℕ → String) (now : ℕ)
    (existing : List String) where
  abbrev apps_for : ℕ → List String → List Application
  apps_for n js = new_applications u request uuid now existing n js

  abbrev app_for : ℕ → String → Application
  app_for n j = new_application u (single request j) (uuid n) now

  app_for-free :
      (n : ℕ) (j : String) (rows : List Application)
      → any (holds u j) rows ≡ false
      → insert (app_for n j) rows ≡ ok (rows ++ app_for n j ∷ [])
  unfolding new_application
  app_for-free n j rows free = insert_free (app_for n j) rows free

  app_for-taken :
      (n : ℕ) (j : String) (rows : List Application)
      → any (holds u j) rows ≡ true
      → insert (app_for n j) rows ≡ err db_integrity
  unfolding new_application
  app_for-taken n j rows taken = insert_taken (app_for n j) rows refl taken

  holds-app_for : (n : ℕ) (j k : String) → holds u k (app_for n j) ≡ str_eq j k
  unfolding new_application
  holds-app_for n j k = ground (arith, str_eq_self u)

  apps_for-old :
      (n : ℕ) (j : String) (js : List String)
      → member j existing ≡ true
      → apps_for n (j ∷ js) ≡ apps_for n js
  unfolding new_applications
  apps_for-old n j js old = rw old refl

  apps_for-new :
      (n : ℕ) (j : String) (js : List String)
      → member j existing ≡ false
      → apps_for n (j ∷ js) ≡ app_for n j ∷ apps_for (n + 1) js
  unfolding new_applications
  apps_for-new n j js new = rw new refl

  still_taken :
      (n : ℕ) (j k : String) (rows : List Application)
      → any (holds u j) rows ≡ true
      → any (holds u j) (rows ++ app_for n k ∷ []) ≡ true
  still_taken n j k rows t = ground (arith, any-append (holds u j) rows (app_for n k), t)

  insert_all_taken :
      (n : ℕ) (j : String) (js : List String) (rows : List Application)
      → member j existing ≡ false
      → member j js ≡ true
      → any (holds u j) rows ≡ true
      → insert_all (apps_for n js) rows ≡ err db_integrity
  insert_all_taken n j [] rows new m t = cc
  insert_all_taken n j (k ∷ js) rows new m t = elim (Bool-cases (member k existing)) [
    | inl old ↦ rw (apps_for-old n k js old) (
        insert_all_taken n j js rows new
          (ground (arith, told_apart (λ i. member i existing) true k j old new, m)) t)
    | inr fresh ↦ rw (apps_for-new n k js fresh) (elim (Bool-cases (any (holds u k) rows)) [
      | inl taken ↦
          insert_all_err (app_for n k) (apps_for (n + 1) js) rows (app_for-taken n k rows taken)
      | inr free ↦
          insert_all_ok (app_for n k) (apps_for (n + 1) js) rows (rows ++ app_for n k ∷ [])
            (app_for-free n k rows free)
          ∙ insert_all_taken (n + 1) j js (rows ++ app_for n k ∷ []) new
              (ground (arith, told_apart (λ i. any (holds u i) rows) false k j free t, m))
              (still_taken n j k rows t)
    ])
  ]

  append_nil : (rows : List Application) → rows ++ [] ≡ rows
  append_nil [] = refl
  append_nil (r ∷ rows) = ap (λ l. r ∷ l) (append_nil rows)

  insert_all-nil :
      (n : ℕ) (rows : List Application)
      → insert_all (apps_for n []) rows ≡ ok (rows ++ apps_for n [])
  unfolding insert_all new_applications
  insert_all-nil n rows = ap (λ l. ok l) (sym (append_nil rows))

  -- Rows for the jobs `js`, none of which has an active row unless it is in `existing`, are stored
  -- one after the other, unless one of the jobs stands in `js` twice.
  pub insert_all_lem :
      (n : ℕ) (js : List String) (rows : List Application)
      → ((j : String)
          → member j js ≡ true
          → member j existing ≡ false
          → any (holds u j) rows ≡ false)
      → insert_all (apps_for n js) rows
        ≡ (if has_repeat existing js then err db_integrity else ok (rows ++ apps_for n js))
  insert_all_lem n [] rows free = insert_all-nil n rows
  insert_all_lem n (j ∷ js) rows free = elim (Bool-cases (member j existing)) [
    | inl old ↦
        rw (apps_for-old n j js old, old)
          (insert_all_lem n js rows (λ k m e. free k (ground (arith, m)) e))
    | inr new ↦
        rw (apps_for-new n j js new, new)
          (insert_all_ok (app_for n j) (apps_for (n + 1) js) rows (rows ++ app_for n j ∷ [])
              (app_for-free n j rows (unheld new))
            ∙ elim (Bool-cases (member j js)) [
              | inl again ↦
                  rw again
                    (insert_all_taken (n + 1) j js (rows ++ app_for n j ∷ []) new again (held rows))
              | inr once ↦
                  rw (once, sym (append_one rows (app_for n j) (apps_for (n + 1) js)))
                    (insert_all_lem (n + 1) js (rows ++ app_for n j ∷ [])
                      (λ k m e. still_free once k m e))
            ])
  ]
    where
      unheld : member j existing ≡ false → any (holds u j) rows ≡ false
      unheld new = free j (ground (arith, str_eq_self j)) new

      still_free :
          member j js ≡ false
          → (k : String) → member k js ≡ true
          → member k existing ≡ false
          → any (holds u k) (rows ++ app_for n j ∷ []) ≡ false
      still_free once k m e = ground (
        arith,
        any-append (holds u k) rows (app_for n j),
        holds-app_for n j k,
        told_apart (λ i. member i js) false j k once m,
        free k (ground (arith, m)) e,
      )

      held : (l : List Application) → any (holds u j) (l ++ app_for n j ∷ []) ≡ true
      held l =
          ground (arith, any-append (holds u j) l (app_for n j), holds-app_for n j j, str_eq_self j)
