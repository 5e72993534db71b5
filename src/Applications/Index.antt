-- ===== src/Applications/Index.antt =====
-- The unique partial index `uq_app_active_job` of models/application.py: at most one active
-- application for a user and a job. An INSERT or an UPDATE that would break it raises.
use auto_jobs_apply.Prelude.{
  ◌+◌, ◌≤◌, String, Bool, true, false, not, ◌&&◌, ◌≡◌, refl, List, [], ◌∷◌, ◌++◌, arith, str_eq, ap,
  some, ◌<◌, first, select, count-eq-zero, inl, inr, Bool-cases, if◌then◌else◌, any, count, update,
  count-append, any-eq-false, eq_iff, str_eq_self,
}
use auto_jobs_apply.Tx.{Result, ok, err, db_integrity}
use auto_jobs_apply.Models.{Application, is_active, holds}

-- INSERT of a row with a fresh id.
unfoldable pub insert : Application → List Application → Result (List Application)
insert a rows =
    if is_active a && any (holds a.user_id a.job_id) rows
    then err db_integrity
    else ok (rows ++ a ∷ [])

abbrev pub is_other : Application → Application → Bool
is_other a r = not (str_eq r.id a.id) && holds a.user_id a.job_id r

-- UPDATE of the row with the id of `a`.
unfoldable pub write : Application → List Application → Result (List Application)
write a rows =
    if is_active a && any (is_other a) rows
    then err db_integrity
    else ok (update (λ r. str_eq r.id a.id) (λ _. a) rows)

abbrev pub has_id : String → Application → Bool
has_id i r = str_eq r.id i

-- What the primary key and the index promise of the table.
pub record IsConsistent (rows : List Application) : Type 0 where
  pub one_row : (i : String) → count (has_id i) rows ≤ 1
  pub one_active : (u j : String) → count (holds u j) rows ≤ 1

pub holds_self : (a : Application) → is_active a ≡ true → holds a.user_id a.job_id a ≡ true
holds_self a h = ground (arith, str_eq_self a.user_id, str_eq_self a.job_id)

pub holds-active : (u j : String) (a : Application) → holds u j a ≡ true → is_active a ≡ true
holds-active u j a h = ground arith

-- A row that would collide with the new one is one for the same user and job.
holds_same :
    (a : Application) (u j : String) (rows : List Application)
    → holds u j a ≡ true
    → count (holds u j) rows ≡ count (holds a.user_id a.job_id) rows
holds_same a u j [] h = refl
holds_same a u j (r ∷ rows) h =
    ground (arith, holds_same a u j rows, eq_iff a.user_id u, eq_iff a.job_id j)

insert-inv :
    (a : Application) (rows : List Application) {after : List Application}
    → insert a rows ≡ ok after
    → (after ≡ rows ++ a ∷ []) × ((is_active a && any (holds a.user_id a.job_id) rows) ≡ false)
unfolding insert
insert-inv a rows e = ground arith

-- The new row counts for a user and a job only if no row did.
room :
    (a : Application) (u j : String) (rows : List Application)
    → (is_active a && any (holds a.user_id a.job_id) rows) ≡ false
    → count (holds u j) rows ≤ 1
    → count (holds u j) rows + count (holds u j) (a ∷ []) ≤ 1
room a u j rows free one = elim (Bool-cases (holds u j a)) [
  | inl e ↦ ground (arith, holds_same a u j rows e, any-eq-false (holds a.user_id a.job_id) rows)
  | inr e ↦ rw e (omega (arith, one))
]

pub insert-IsConsistent :
    (a : Application) (rows : List Application) {after : List Application}
    → count (has_id a.id) rows ≡ 0
    → IsConsistent rows
    → insert a rows ≡ ok after
    → IsConsistent after
insert-IsConsistent a rows {after} fresh h e =
    let (same, free) = insert-inv a rows e in
    record {
      one_row = λ i.
          rw (same, count-append (has_id i) rows (a ∷ []))
            (elim (Bool-cases (str_eq a.id i)) [
              | inl p ↦ ground (arith, ap (λ k. count (has_id k) rows) ((eq_iff a.id i).0 p))
              | inr p ↦ ground (arith, h.one_row i)
            ]);
      one_active = λ u j.
          rw (same, count-append (holds u j) rows (a ∷ []))
            (room a u j rows free (h.one_active u j));
    }

module _ (i q : Application → Bool) where
  -- If a row that passes `q`, found by its id, is the only one, no other row passes `q`.
  others-none :
      (p : Application → Bool) (rows : List Application) {r : Application}
      → first (select p rows) ≡ some r
      → i r ≡ true
      → q r ≡ true
      → count q rows ≤ 1
      → (0 < count q rows) × (any (λ x. not (i x) && q x) rows ≡ false)
  others-none p [] h k e one = cc
  others-none p (x ∷ rows) {r} h k e one = elim (Bool-cases (p x)) [
    | inl f ↦ ground (arith, count-eq-zero q rows, alone rows)
    | inr f ↦
        let first_rest : first (select p rows) ≡ some r = rw f at h in
        ground (arith, others-none p rows first_rest k e, f)
  ]
    where
      alone : (xs : List Application) → count q xs ≡ 0 → any (λ x. not (i x) && q x) xs ≡ false
      alone [] k = refl
      alone (y ∷ ys) k = ground (arith, alone ys)

  count-update :
      (a : Application) (rows : List Application)
      → count q (update i (λ _. a) rows)
        ≡ (if q a then count i rows else 0) + count (λ x. not (i x) && q x) rows
  count-update a [] = ground arith
  count-update a (x ∷ rows) = ground (arith, count-update a rows)

  count-not_and_le : (rows : List Application) → count (λ x. not (i x) && q x) rows ≤ count q rows
  count-not_and_le [] = omega arith
  count-not_and_le (x ∷ rows) = ground (arith, count-not_and_le rows)

-- A row found by any query is the one that a query finds which only it passes.
pub first-select-only :
    (p q : Application → Bool) (rows : List Application) {r : Application}
    → first (select p rows) ≡ some r
    → q r ≡ true
    → count q rows ≤ 1
    → first (select q rows) ≡ some r
first-select-only p q [] h k one = cc
first-select-only p q (x ∷ rows) h k one = elim (Bool-cases (p x)) [
  | inl f ↦ ground arith
  | inr f ↦
      let (more, _) = others-none q q p rows (rw f at h) k k (ground arith) in
      ground (arith, first-select-only p q rows (rw f at h) k)
]

-- A rewritten row keeps the key of the only active row for its user and job.
pub write-active :
    (a r : Application) (p : Application → Bool) (rows : List Application)
    → IsConsistent rows
    → first (select p rows) ≡ some r
    → has_id a.id r ≡ true
    → holds a.user_id a.job_id r ≡ true
    → write a rows ≡ ok (update (has_id a.id) (λ _. a) rows)
unfolding write
write-active a r p rows c h k e =
    let (_, none_else) =
      others-none (has_id a.id) (holds a.user_id a.job_id) p rows h k e
        (c.one_active a.user_id a.job_id) in
    rw none_else (ground arith)

write-inv :
    (a : Application) (rows : List Application) {after : List Application}
    → write a rows ≡ ok after
    → (after ≡ update (has_id a.id) (λ _. a) rows)
      × ((is_active a && any (is_other a) rows) ≡ false)
unfolding write
write-inv a rows e = ground arith

holds_others :
    (a : Application) (u j : String) (rows : List Application)
    → holds u j a ≡ true
    → count (λ x. not (has_id a.id x) && holds u j x) rows ≡ count (is_other a) rows
holds_others a u j [] h = refl
holds_others a u j (r ∷ rows) h =
    ground (arith, holds_others a u j rows, eq_iff a.user_id u, eq_iff a.job_id j)

has_id_others :
    (a : Application) (i : String) (rows : List Application)
    → str_eq a.id i ≡ true
    → count (λ x. not (has_id a.id x) && has_id i x) rows ≡ 0
has_id_others a i [] h = refl
has_id_others a i (r ∷ rows) h = ground (arith, has_id_others a i rows, eq_iff a.id i)

-- A write that does not raise keeps the primary key and the index.
pub write-IsConsistent :
    (a : Application) (rows : List Application) {after : List Application}
    → IsConsistent rows
    → write a rows ≡ ok after
    → IsConsistent after
write-IsConsistent a rows {after} h e =
    let (same, free) = write-inv a rows e in
    record {
      one_row = λ i.
          rw (same, count-update (has_id a.id) (has_id i) a rows)
            (elim (Bool-cases (str_eq a.id i)) [
              | inl f ↦ rw (f, has_id_others a i rows f) (omega (arith, h.one_row a.id))
              | inr f ↦
                  rw f (omega (arith, h.one_row i, count-not_and_le (has_id a.id) (has_id i) rows))
            ]);
      one_active = λ u j.
          rw (same, count-update (has_id a.id) (holds u j) a rows)
            (elim (Bool-cases (holds u j a)) [
              | inl f ↦
                  rw (f, holds_others a u j rows f)
                    (ground (arith, any-eq-false (is_other a) rows, h.one_row a.id))
              | inr f ↦
                  rw f (
                    omega
                      (arith, h.one_active u j, count-not_and_le (has_id a.id) (holds u j) rows))
            ]);
    }
