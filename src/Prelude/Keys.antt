-- ===== src/Prelude/Keys.antt =====
-- Rows that are found by a unique key.
use Prim.Native.Nat.{◌≤◌}
use Prim.Native.Nat.{ℕ, zero, suc}
use auto_jobs_apply.Prelude.Lists.{take}
use Prim.Native.String.{String}
use mathlib.Core.Path.{◌≡◌, refl, ap}
use mathlib.Core.Logic.{inl, inr}
use mathlib.Core.Bool.{Bool, true, false, ◌&&◌}
use mathlib.Core.Option.{some}
use mathlib.Core.List.{List, [], ◌∷◌, ◌++◌}
use native.Mathlib.Omega.{arith}
use text.Mathlib.Text.{◌==◌ as str_eq}
use auto_jobs_apply.Prelude.Tests.{Bool-cases, str_eq→eq}
use auto_jobs_apply.Prelude.Rows.{count, select, update, delete, first, count-append, found-counted}

pub count-and_le_left :
    {A : Type 0} (p g : A → Bool) (rows : List A) → count (λ x. p x && g x) rows ≤ count p rows
count-and_le_left p g [] = omega arith
count-and_le_left p g (x ∷ rows) = ground (arith, count-and_le_left p g rows)

-- If a row that a query finds is the only one that passes `p`, and does not pass `g`, none passes
-- both.
pub count-and-found :
    {A : Type 0} (q p g : A → Bool) (rows : List A) {r : A}
    → first (select q rows) ≡ some r
    → p r ≡ true
    → g r ≡ false
    → count p rows ≤ 1
    → count (λ x. p x && g x) rows ≡ 0
count-and-found q p g [] e h k one = cc
count-and-found q p g (x ∷ rows) {r} e h k one = elim (Bool-cases (q x)) [
  | inl f ↦ ground (arith, count-and_le_left p g rows)
  | inr f ↦
      let rest : first (select q rows) ≡ some r = rw f at e in
      ground (arith, found-counted p q rows rest h, count-and-found q p g rows rest h k)
]

-- A new row with a fresh key keeps the key unique.
pub append_unique :
    {A : Type 0} (key : A → String) (a : A) (rows : List A)
    → count (λ t. str_eq (key t) (key a)) rows ≡ 0
    → ((i : String) → count (λ t. str_eq (key t) i) rows ≤ 1)
    → (i : String) → count (λ t. str_eq (key t) i) (rows ++ a ∷ []) ≤ 1
append_unique key a rows fresh one i =
    rw (count-append (λ t. str_eq (key t) i) rows (a ∷ [])) (elim (Bool-cases (str_eq (key a) i)) [
      | inl e ↦ ground (arith, ap (λ k. count (λ t. str_eq (key t) k) rows) (str_eq→eq (key a) i e))
      | inr e ↦ ground (arith, one i)
    ])

-- An update of rows that a query does not find, before or after, leaves what it finds.
pub select-update_other :
    {A : Type 0} (p q : A → Bool) (f : A → A) (rows : List A)
    → ((x : A) → q (f x) ≡ q x)
    → count (λ x. p x && q x) rows ≡ 0
    → select q (update p f rows) ≡ select q rows
select-update_other p q f [] h none_both = refl
select-update_other p q f (x ∷ rows) h none_both = elim (Bool-cases (p x)) [
  | inl e ↦ elim (Bool-cases (q x)) [
    | inl g ↦ absurd (ground arith)
    | inr g ↦ rw (e, h x, g) (select-update_other p q f rows h (ground arith))
  ]
  | inr e ↦
      let rest = select-update_other p q f rows h (ground arith) in
      elim (Bool-cases (q x)) [ inl g ↦ rw (e, g, rest) | inr g ↦ rw (e, g) rest ]
]

pub select-append_other :
    {A : Type 0} (q : A → Bool) (a : A) (rows : List A)
    → q a ≡ false
    → select q (rows ++ a ∷ []) ≡ select q rows
select-append_other q a [] h = rw h
select-append_other q a (x ∷ rows) h = elim (Bool-cases (q x)) [
  | inl g ↦ rw (g, select-append_other q a rows h)
  | inr g ↦ rw g (select-append_other q a rows h)
]

-- What a SELECT finds after a DELETE.
module _ {A : Type 0} where
  pub select-delete_all : (p : A → Bool) (xs : List A) → select p (delete p xs) ≡ []
  select-delete_all p [] = refl
  select-delete_all p (x ∷ xs) = elim (Bool-cases (p x)) [
    | inl e ↦ rw e (select-delete_all p xs)
    | inr e ↦ rw (e, select-delete_all p xs, e)
  ]

  pub select-delete_within :
      (p q : A → Bool) (xs : List A)
      → ((x : A) → p x ≡ false → q x ≡ false)
      → select q (delete p xs) ≡ []
  select-delete_within p q [] h = refl
  select-delete_within p q (x ∷ xs) h = elim (Bool-cases (p x)) [
    | inl e ↦ rw e (select-delete_within p q xs h)
    | inr e ↦ rw (e, h x e) (select-delete_within p q xs h)
  ]

  pub select-delete_other :
      (p q : A → Bool) (xs : List A)
      → ((x : A) → p x ≡ true → q x ≡ false)
      → select q (delete p xs) ≡ select q xs
  select-delete_other p q [] h = refl
  select-delete_other p q (x ∷ xs) h = elim (Bool-cases (p x)) [
    | inl e ↦ rw (e, h x e) (select-delete_other p q xs h)
    | inr e ↦ rw e (elim (Bool-cases (q x)) [
      | inl g ↦ rw (g, select-delete_other p q xs h)
      | inr g ↦ rw g (select-delete_other p q xs h)
    ])
  ]

pub count-take_le :
    {A : Type 0} (p : A → Bool) (n : ℕ) (xs : List A) → count p (take n xs) ≤ count p xs
count-take_le p zero xs = omega arith
count-take_le p (suc n) [] = omega arith
count-take_le p (suc n) (x ∷ xs) = ground (arith, count-take_le p n xs)
