-- ===== src/PasswordReset/Redeeming.antt =====
-- What a reset token is good for: one new password, which ends every session of its user.
use auto_jobs_apply.Prelude.{
  ℕ, ◌≤◌, String, true, false, ◌≡◌, refl, inl, inr, Option, none, some, ltb, Bool-cases, count,
  select, first, is_some,
}
use auto_jobs_apply.Tx.{Result, ok, err, auth, scalar-first}
use auto_jobs_apply.Auth.{User, PasswordResetToken, Session, Crypto, has_user_id}
use auto_jobs_apply.PasswordReset.{has_reset_hash, redeemed, redeem, reset_password}

abbrev pub find_reset : Crypto → String → Session → Option PasswordResetToken
find_reset crypto token s = first (select (has_reset_hash (crypto.hash_token token)) s.reset_tokens)

-- What a redemption that succeeds has found, and what it leaves.
pub record Redeemed (crypto : Crypto) (token new_password salt : String) (now : ℕ) (s : Session)
    (answer : Result (Unit {0}) × Session) : Type 0 where
  pub row : PasswordResetToken
  pub user : User
  pub found : find_reset crypto token s ≡ some row
  pub unused : is_some row.used_at ≡ false
  pub unexpired : ltb row.expires_at now ≡ false
  pub owner : first (select (has_user_id row.user_id) s.users) ≡ some user
  pub undeleted : is_some user.deleted_at ≡ false
  pub after : answer ≡ (ok tt, redeemed (crypto.hash salt new_password) now row user s)

module _ (crypto : Crypto) (token new_password salt : String) (now : ℕ) (s : Session)
    (one : count (has_reset_hash (crypto.hash_token token)) s.reset_tokens ≤ 1) where
  redeem-Redeemed :
      (row : PasswordResetToken) (owner : Option User)
      → find_reset crypto token s ≡ some row
      → is_some row.used_at ≡ false
      → ltb row.expires_at now ≡ false
      → first (select (has_user_id row.user_id) s.users) ≡ owner
      → (redeem (crypto.hash salt new_password) now row owner s).0 ≡ ok tt
      → Redeemed crypto token new_password salt now s
          (redeem (crypto.hash salt new_password) now row owner s)
  redeem-Redeemed row none found unused fresh h e = cc
  redeem-Redeemed row (some user) found unused fresh h e =
      elim (Bool-cases (is_some user.deleted_at)) [
        | inl f ↦ cc (rw f at e)
        | inr f ↦ rw f (record {
          row = row;
          user = user;
          found = found;
          unused = unused;
          unexpired = fresh;
          owner = h;
          undeleted = f;
          after = refl;
        })
      ]

  reset-none :
      find_reset crypto token s ≡ none
      → reset_password crypto token new_password salt now s ≡ (err auth, s)
  unfolding reset_password
  reset-none h = rw (scalar-first (has_reset_hash (crypto.hash_token token)) s.reset_tokens one, h)

  pub reset-used :
      (row : PasswordResetToken)
      → find_reset crypto token s ≡ some row
      → is_some row.used_at ≡ true
      → reset_password crypto token new_password salt now s ≡ (err auth, s)
  unfolding reset_password
  reset-used row h used =
      rw (scalar-first (has_reset_hash (crypto.hash_token token)) s.reset_tokens one, h, used)

  reset-expired :
      (row : PasswordResetToken)
      → find_reset crypto token s ≡ some row
      → is_some row.used_at ≡ false
      → ltb row.expires_at now ≡ true
      → reset_password crypto token new_password salt now s ≡ (err auth, s)
  unfolding reset_password
  reset-expired row h unused late =
      rw (
        scalar-first (has_reset_hash (crypto.hash_token token)) s.reset_tokens one,
        h,
        unused,
        late,
      )

  reset-redeems :
      (row : PasswordResetToken)
      → find_reset crypto token s ≡ some row
      → is_some row.used_at ≡ false
      → ltb row.expires_at now ≡ false
      → reset_password crypto token new_password salt now s
        ≡ redeem
            (crypto.hash salt new_password)
            now
            row
            (first (select (has_user_id row.user_id) s.users))
            s
  unfolding reset_password
  reset-redeems row h unused fresh =
      rw (
        scalar-first (has_reset_hash (crypto.hash_token token)) s.reset_tokens one,
        h,
        unused,
        fresh,
      )

  reset_found :
      (found : Option PasswordResetToken)
      → find_reset crypto token s ≡ found
      → (reset_password crypto token new_password salt now s).0 ≡ ok tt
      → Redeemed crypto token new_password salt now s
          (reset_password crypto token new_password salt now s)
  reset_found none h e = cc (rw (reset-none h) at e)
  reset_found (some row) h e = elim (Bool-cases (is_some row.used_at)) [
    | inl u ↦ cc (rw (reset-used row h u) at e)
    | inr u ↦ elim (Bool-cases (ltb row.expires_at now)) [
      | inl x ↦ cc (rw (reset-expired row h u x) at e)
      | inr x ↦
          let same = reset-redeems row h u x in
          rw same (
            redeem-Redeemed row (first (select (has_user_id row.user_id) s.users)) h u x refl
              (rw same at e))
    ]
  ]

-- A redemption succeeds only for a token that is stored, unused and not expired, of a user that is
-- not deleted. It stores the new password, uses up every outstanding reset token of the user, and
-- revokes all the user's refresh tokens.
pub reset_password-Redeemed :
    (crypto : Crypto) (token new_password salt : String) (now : ℕ) (s : Session)
    → count (has_reset_hash (crypto.hash_token token)) s.reset_tokens ≤ 1
    → (reset_password crypto token new_password salt now s).0 ≡ ok tt
    → Redeemed crypto token new_password salt now s
        (reset_password crypto token new_password salt now s)
reset_password-Redeemed crypto token new_password salt now s one e =
    reset_found crypto token new_password salt now s one (find_reset crypto token s) refl e
