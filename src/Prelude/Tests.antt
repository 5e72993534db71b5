-- ===== src/Prelude/Tests.antt =====
-- Boolean tests and branching, as Python's conditions are read.
use Prim.Native.Nat.{ℕ, compare, Ordering}
use Prim.Native.String.{String}
use mathlib.Core.Path.{◌≡◌, refl}
use mathlib.Core.Logic.{◌⊎◌, inl, inr}
use mathlib.Core.Bool.{Bool, true, false}
use mathlib.Core.Option.{Option, none, some}
use text.Mathlib.Text.{◌==◌ as str_eq, find?}
use text.Mathlib.TextEquality.{eq_iff}
use text.Mathlib.TextPositions.{eq_refl}

abbrev pub ltb : ℕ → ℕ → Bool
ltb a b = elim (compare a b) [ Ordering.lt ↦ true | _ ↦ false ]

abbrev pub leb : ℕ → ℕ → Bool
leb a b = elim (compare a b) [ Ordering.gt ↦ false | _ ↦ true ]

infix 50 ◌==◌
abbrev pub ◌==◌ : ℕ → ℕ → Bool
a == b = elim (compare a b) [ Ordering.eq ↦ true | _ ↦ false ]

infix 1 if◌then◌else◌
abbrev pub if◌then◌else◌ {ℓ} : {A : Type ℓ} → Bool → A → A → A
if true then x else y = x
if false then x else y = y

-- To split on a computed test and keep the equation.
pub Bool-cases : (b : Bool) → (b ≡ true) ⊎ (b ≡ false)
Bool-cases true = inl refl
Bool-cases false = inr refl

pub str_eq_self : (s : String) → str_eq s s ≡ true
str_eq_self s = eq_refl s

pub str_eq→eq : (s t : String) → str_eq s t ≡ true → s ≡ t
str_eq→eq s t h = (eq_iff s t).0 h

-- `x in text`, the substring test.
abbrev pub contains : String → String → Bool
contains text x = elim (find? text x) [ none ↦ false | some _ ↦ true ]

-- The truth value of a text: `if s:`.
abbrev pub truthy : String → Bool
truthy s = if str_eq s "" then false else true

-- `if s:` for a text that may be `None`, and `s or ""`.
abbrev pub is_set : Option String → Bool
is_set none = false
is_set (some s) = truthy s

abbrev pub or_empty : Option String → String
or_empty none = ""
or_empty (some s) = s

-- `s or default`
abbrev pub or_default : Option String → String → String
or_default s d = if is_set s then or_empty s else d

module _ {ℓ} {A : Type ℓ} where
  abbrev pub is_some : Option A → Bool
  is_some none = false
  is_some (some _) = true
