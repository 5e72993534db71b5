-- ===== src/Tx.antt =====
-- core/exceptions.py, and the code that runs inside a database session (db/session.py).
-- An exception is an `Error`: its class, without the message, which only reaches logs and the body
-- of a response. A function that works on a session is an action of `Tx S`: from the state, with
-- the committed database in it, to its result and the state afterwards. Writes that were not
-- committed when an exception leaves the function are absent from that state, as the session
-- is rolled back or closed without a commit.
use auto_jobs_apply.Prelude.{
  ℕ, Bool, true, false, Option, none, some, List, [], ◌∷◌, ◌≡◌, refl, ◌≤◌, arith, length, count,
  select, first, count-select,
}

pub data Error : Type 0 where
  -- RecordNotFoundError
  record_not_found : Error
  -- Python's ValueError
  value_error : Error
  -- sqlalchemy.exc.IntegrityError, raised by a unique index
  db_integrity : Error
  -- sqlalchemy.exc.MultipleResultsFound
  multiple_results : Error
  -- the domain's IntegrityError
  integrity : Error
  -- AuthError
  auth : Error
  -- RateLimitError
  rate_limit : Error
  -- Python's PermissionError
  permission : Error
  -- cryptography.fernet.InvalidToken
  invalid_token : Error
  -- OSError, and the errors of a storage client
  os_error : Error
  -- DatabaseConnectionError and QueryError
  connection : Error
  query_failed : Error
  -- ParseError
  parse_failed : Error
  -- GenerationError
  generation : Error
  -- LLMError, and what else a call of a language model raises
  llm_failed : Error
  -- HTTPException, with its status
  http : ℕ → Error

pub data Result {ℓ} (A : Type ℓ) : Type ℓ where
  ok : A → Result A
  err : Error → Result A

abbrev pub Tx : Type 0 → Type 0 → Type 0
Tx S A = S → Result A × S

module _ {S A : Type 0} where
  abbrev pub pure : A → Tx S A
  pure a s = (ok a, s)

  abbrev pub raise : Error → Tx S A
  raise e s = (err e, s)

  abbrev pub lift : Result A → Tx S A
  lift r s = (r, s)

  abbrev pub gets : (S → A) → Tx S A
  gets f s = (ok (f s), s)

abbrev pub modify : {S : Type 0} → (S → S) → Tx S (Unit {0})
modify f s = (ok tt, f s)

abbrev pub resume_with : {S A B : Type 0} → Result A → (A → Tx S B) → Tx S B
resume_with (ok a) f s = f a s
resume_with (err e) f s = (err e, s)

infixl 5 ◌>>=◌ ◌>>◌
abbrev pub ◌>>=◌ : {S A B : Type 0} → Tx S A → (A → Tx S B) → Tx S B
◌>>=◌ m f s = let (r, s') = m s in resume_with r f s'

abbrev pub ◌>>◌ : {S B : Type 0} → Tx S (Unit {0}) → Tx S B → Tx S B
m >> k = m >>= λ _. k

-- `if not b: raise e`
abbrev pub guard : {S : Type 0} → Bool → Error → Tx S (Unit {0})
guard true e s = (ok tt, s)
guard false e s = (err e, s)

-- `result.scalar_one_or_none()`
abbrev pub scalar_one_or_none {ℓ} : {A : Type ℓ} → List A → Result (Option A)
scalar_one_or_none [] = ok none
scalar_one_or_none (x ∷ []) = ok (some x)
scalar_one_or_none (x ∷ y ∷ r) = err multiple_results

-- `if row is None: raise e`
abbrev pub or_raise : {S A : Type 0} → Error → Option A → Tx S A
or_raise e none = raise e
or_raise e (some a) = pure a

-- A query that at most one row passes does not raise, and finds the first row that passes.
pub scalar-first {ℓ} :
    {A : Type ℓ} (p : A → Bool) (rows : List A)
    → count p rows ≤ 1
    → scalar_one_or_none (select p rows) ≡ ok (first (select p rows))
scalar-first {A} p rows h = at_most_one (select p rows) (omega (arith, count-select p rows))
  where
    at_most_one : (found : List A) → length found ≤ 1 → scalar_one_or_none found ≡ ok (first found)
    at_most_one [] k = refl
    at_most_one (x ∷ []) k = refl
    at_most_one (x ∷ y ∷ r) k = absurd (omega arith)
