-- ===== src/Prelude/Rows.antt =====
-- A database table is the list of its rows. `select p`, `update p f` and `delete p` are the
-- statements SELECT, UPDATE and DELETE with a WHERE clause `p`; `count p` is `func.count` under the
-- same clause, and the `rowcount` of an update or a delete.
use Prim.Native.Nat.{ℕ, suc, ◌+◌, ◌≤◌}
use mathlib.Core.Path.{◌≡◌, refl, fun_ext, subst}
use mathlib.Core.Logic.{inl, inr}
use mathlib.Core.Bool.{Bool, true, false, not, ◌&&◌, ◌||◌}
use mathlib.Core.Option.{Option, none, some}
use mathlib.Core.List.{List, [], ◌∷◌, ◌++◌}
use native.Mathlib.Omega.{arith}
use auto_jobs_apply.Prelude.Tests.{if◌then◌else◌, Bool-cases}
use auto_jobs_apply.Prelude.Lists.{length}

module _ {ℓ} {A : Type ℓ} where
  abbrev pub any : (A → Bool) → List A → Bool
  any p [] = false
  any p (x ∷ xs) = p x || any p xs

  abbrev pub count : (A → Bool) → List A → ℕ
  count p [] = 0
  count p (x ∷ xs) = let rest = count p xs in if p x then suc rest else rest

  abbrev pub select : (A → Bool) → List A → List A
  select p [] = []
  select p (x ∷ xs) = let rest = select p xs in if p x then x ∷ rest else rest

  abbrev pub update : (A → Bool) → (A → A) → List A → List A
  update p f [] = []
  update p f (x ∷ xs) = (if p x then f x else x) ∷ update p f xs

  abbrev pub delete : (A → Bool) → List A → List A
  delete p = select (λ x. not (p x))

  abbrev pub first : List A → Option A
  first [] = none
  first (x ∷ xs) = some x

  -- A statement about every row.
  abbrev pub All {κ} : (A → Type κ) → List A → Type κ
  All P [] = Unit
  All P (x ∷ xs) = P x × All P xs

  pub count-select : (p : A → Bool) (xs : List A) → length (select p xs) ≡ count p xs
  count-select p [] = refl
  count-select p (x ∷ xs) = ground (arith, count-select p xs)

  pub count-append : (p : A → Bool) (xs ys : List A) → count p (xs ++ ys) ≡ count p xs + count p ys
  count-append p [] ys = omega arith
  count-append p (x ∷ xs) ys = ground (arith, count-append p xs ys)

  pub any-eq-false : (p : A → Bool) (xs : List A) → any p xs ≡ false → count p xs ≡ 0
  any-eq-false p [] h = refl
  any-eq-false p (x ∷ xs) h = ground (arith, any-eq-false p xs)

  pub count-eq-zero : (p : A → Bool) (xs : List A) → count p xs ≡ 0 → any p xs ≡ false
  count-eq-zero p [] h = refl
  count-eq-zero p (x ∷ xs) h = ground (arith, count-eq-zero p xs)

  pub any-counted : (p : A → Bool) (xs : List A) → any p xs ≡ true → 1 ≤ count p xs
  any-counted p [] h = cc
  any-counted p (x ∷ xs) h = ground (arith, any-counted p xs)

  pub All-map {κ μ} :
      {P : A → Type κ} {Q : A → Type μ} (xs : List A) → ((x : A) → P x → Q x) → All P xs → All Q xs
  All-map [] f h = tt
  All-map (x ∷ xs) f (one, h) = (f x one, All-map xs f h)

  pub All-select : (p : A → Bool) (xs : List A) → All (λ x. p x ≡ true) (select p xs)
  All-select p [] = tt
  All-select p (x ∷ xs) =
      elim (Bool-cases (p x)) as (λ _. All (λ y. p y ≡ true) (select p (x ∷ xs))) [
        | inl e ↦ ground (arith, All-select p xs)
        | inr e ↦ ground (arith, All-select p xs)
      ]

  pub select-congr :
      (p q : A → Bool) (xs : List A) → ((x : A) → p x ≡ q x) → select p xs ≡ select q xs
  select-congr p q xs h = rw (fun_ext h)

  pub count-congr : (p q : A → Bool) (xs : List A) → ((x : A) → p x ≡ q x) → count p xs ≡ count q xs
  count-congr p q xs h = rw (fun_ext h)

  pub count-and_le : (p q : A → Bool) (xs : List A) → count (λ x. p x && q x) xs ≤ count q xs
  count-and_le p q [] = omega arith
  count-and_le p q (x ∷ xs) = ground (arith, count-and_le p q xs)

  pub first-select-none :
      (p : A → Bool) (xs : List A) → any p xs ≡ false → first (select p xs) ≡ none
  first-select-none p [] h = refl
  first-select-none p (x ∷ xs) h = ground (arith, first-select-none p xs)

  pub first-select-some :
      (p : A → Bool) (xs : List A) → any p xs ≡ true → (r : A) × (first (select p xs) ≡ some r)
  first-select-some p [] h = cc
  first-select-some p (x ∷ xs) h = elim (Bool-cases (p x)) [
    | inl e ↦ (x, rw e)
    | inr e ↦ let (r, found) = first-select-some p xs (ground arith) in (r, rw e found)
  ]

  -- What a SELECT finds passes its test.
  pub first-select-holds :
      (p : A → Bool) (xs : List A) {r : A} → first (select p xs) ≡ some r → p r ≡ true
  first-select-holds p [] h = cc
  first-select-holds p (x ∷ xs) h = elim (Bool-cases (p x)) [
    | inl e ↦ ground arith
    | inr e ↦ first-select-holds p xs (rw e at h)
  ]

  -- An update that keeps what `q` reads keeps its count.
  pub count-update_same :
      (p q : A → Bool) (f : A → A) (rows : List A)
      → ((r : A) → p r ≡ true → q (f r) ≡ q r)
      → count q (update p f rows) ≡ count q rows
  count-update_same p q f [] h = refl
  count-update_same p q f (r ∷ rows) h = elim (Bool-cases (p r)) [
    | inl e ↦ rw (e, h r e, count-update_same p q f rows h)
    | inr e ↦ rw (e, count-update_same p q f rows h)
  ]

  -- An update after which no row that was updated passes `q`, nor any other that passes `p`.
  pub count-update_none :
      (p q : A → Bool) (f : A → A) (rows : List A)
      → ((r : A) → p r ≡ true → q (f r) ≡ false)
      → ((r : A) → p r ≡ false → q r ≡ false)
      → count q (update p f rows) ≡ 0
  count-update_none p q f [] h k = refl
  count-update_none p q f (r ∷ rows) h k = elim (Bool-cases (p r)) [
    | inl e ↦ rw (e, h r e, count-update_none p q f rows h k)
    | inr e ↦ rw (e, k r e, count-update_none p q f rows h k)
  ]

  -- The row that a query finds, after an update that the query does not see.
  pub first-select-update :
      (p q : A → Bool) (f : A → A) (rows : List A) {r : A}
      → ((x : A) → q (f x) ≡ q x)
      → first (select q rows) ≡ some r
      → first (select q (update p f rows)) ≡ some (if p r then f r else r)
  first-select-update p q f [] h e = cc
  first-select-update p q f (x ∷ rows) {r} h e = elim (Bool-cases (q x)) [
    | inl g ↦
        let same : x ≡ r = ground arith in
        elim (Bool-cases (p x)) [
          | inl k ↦
              subst (λ y. first (select q (update p f (x ∷ rows))) ≡ some (if p y then f y else y))
                same (rw (k, h x, g))
          | inr k ↦
              subst (λ y. first (select q (update p f (x ∷ rows))) ≡ some (if p y then f y else y))
                same (rw (k, g))
        ]
    | inr g ↦
        let rest = first-select-update p q f rows h (rw g at e) in
        elim (Bool-cases (p x)) [ inl k ↦ rw (k, h x, g) rest | inr k ↦ rw (k, g) rest ]
  ]

  -- A row that a query finds is still found when rows are appended.
  pub first-select-append_old :
      (q : A → Bool) (rows more : List A) {r : A}
      → first (select q rows) ≡ some r
      → first (select q (rows ++ more)) ≡ some r
  first-select-append_old q [] more e = cc
  first-select-append_old q (x ∷ rows) more e = elim (Bool-cases (q x)) [
    | inl g ↦ rw g (rw g at e)
    | inr g ↦ rw g (first-select-append_old q rows more (rw g at e))
  ]

  -- A row that a query finds counts for every test that it passes.
  pub found-counted :
      (p q : A → Bool) (rows : List A) {r : A}
      → first (select q rows) ≡ some r
      → p r ≡ true
      → 1 ≤ count p rows
  found-counted p q [] e h = cc
  found-counted p q (x ∷ rows) e h = elim (Bool-cases (q x)) [
    | inl g ↦ ground arith
    | inr g ↦ ground (arith, found-counted p q rows (rw g at e) h)
  ]

  -- A new row is found by a query that found none before.
  pub first-select-append_new :
      (p : A → Bool) (rows : List A) (a : A)
      → any p rows ≡ false
      → p a ≡ true
      → first (select p (rows ++ a ∷ [])) ≡ some a
  first-select-append_new p [] a h e = rw e
  first-select-append_new p (r ∷ rows) a h e = elim (Bool-cases (p r)) [
    | inl f ↦ cc (rw f at h)
    | inr f ↦ rw f (first-select-append_new p rows a (rw f at h) e)
  ]

  -- A row found by any query is the one that a query finds which only it passes.
  pub first-select_unique :
      (p q : A → Bool) (rows : List A) {r : A}
      → first (select p rows) ≡ some r
      → q r ≡ true
      → count q rows ≤ 1
      → first (select q rows) ≡ some r
  first-select_unique p q [] h k one = cc
  first-select_unique p q (x ∷ rows) {r} h k one = elim (Bool-cases (p x)) [
    | inl f ↦ ground arith
    | inr f ↦
        let rest : first (select p rows) ≡ some r = rw f at h in
        ground (arith, found-counted q p rows rest k, first-select_unique p q rows rest k)
  ]
