-- ===== src/PasswordReset/Effects.antt =====
-- What follows a redeemed reset token: a second redemption, the old sessions, the new password.
use auto_jobs_apply.Prelude.{
  ℕ, ◌≤◌, String, true, false, ◌≡◌, refl, sym, ap, ◌∙◌, subst, some, arith, str_eq, str_eq_self,
  str_eq→eq, count, select, update, first, is_set, is_some, count-update_same, first-select-update,
  first-select_unique, first-select-holds,
}
use auto_jobs_apply.Tx.{ok, err, auth}
use auto_jobs_apply.Auth.{
  User, RefreshToken, PasswordResetToken, Session, Crypto, Draw, has_hash, has_email, has_user_id,
  of_user, revoke, refresh, login, issue_session,
}
use auto_jobs_apply.Auth.Rows.{has_token_id, SessionIsConsistent, find_token}
use auto_jobs_apply.Auth.Login.{login_found, verifies_stored}
use auto_jobs_apply.Auth.Logout.{dead_refused}
use auto_jobs_apply.PasswordReset.{
  has_reset_hash, has_reset_id, is_outstanding, use_at, with_password, redeemed, reset_password,
}
use auto_jobs_apply.PasswordReset.Redeeming.{find_reset, reset_password-Redeemed, reset-used}

redeemed-consistent :
    (hashed : String) (now : ℕ) (row : PasswordResetToken) (user : User) (s : Session)
    → SessionIsConsistent s
    → SessionIsConsistent (redeemed hashed now row user s)
redeemed-consistent hashed now row user s c = record {
  one_id = λ i.
      rw
        (count-update_same (of_user user.id) (has_token_id i) revoke s.refresh_tokens (λ t e. refl))
        (c.one_id i);
  one_hash = λ h.
      rw (count-update_same (of_user user.id) (has_hash h) revoke s.refresh_tokens (λ t e. refl))
        (c.one_hash h);
  one_user = λ i.
      rw
        (count-update_same (has_user_id user.id) (has_user_id i) (with_password hashed) s.users
          (λ u e. refl))
        (c.one_user i);
  one_email = λ i.
      rw
        (count-update_same (has_user_id user.id) (has_email i) (with_password hashed) s.users
          (λ u e. refl))
        (c.one_email i);
}

used_up :
    (crypto : Crypto) (token hashed : String) (now : ℕ) (row : PasswordResetToken) (user : User)
    (s : Session)
    → find_reset crypto token s ≡ some row
    → find_reset crypto token (redeemed hashed now row user s) ≡ some (use_at now row)
used_up crypto token hashed now row user s h =
    let q = has_reset_hash (crypto.hash_token token) in
    let spent : first (select q (update (has_reset_id row.id) (use_at now) s.reset_tokens))
        ≡ some (use_at now row) =
      first-select-update (has_reset_id row.id) q (use_at now) s.reset_tokens (λ t. refl) h
      ∙ rw (str_eq_self row.id) in
    first-select-update (is_outstanding user.id) q (use_at now) _ (λ t. refl) spent ∙ ground arith

still_one :
    (crypto : Crypto) (token hashed : String) (now : ℕ) (row : PasswordResetToken) (user : User)
    (s : Session)
    → count (has_reset_hash (crypto.hash_token token)) s.reset_tokens ≤ 1
    → count (has_reset_hash (crypto.hash_token token)) (redeemed hashed now row user s).reset_tokens
      ≤ 1
still_one crypto token hashed now row user s one =
    let q = has_reset_hash (crypto.hash_token token) in
    rw
      (
        count-update_same (is_outstanding user.id) q (use_at now) _ (λ t e. refl),
        count-update_same (has_reset_id row.id) q (use_at now) s.reset_tokens (λ t e. refl),
      )
      one

-- A reset token is used once: after a redemption that succeeded, a second redemption of the same
-- token, at any time and with any password, is refused and changes nothing.
pub reset_password_twice :
    (crypto : Crypto) (token first_password salt second_password salt' : String) (now now' : ℕ)
    (s : Session)
    → count (has_reset_hash (crypto.hash_token token)) s.reset_tokens ≤ 1
    → (reset_password crypto token first_password salt now s).0 ≡ ok tt
    → let s' = (reset_password crypto token first_password salt now s).1 in
      reset_password crypto token second_password salt' now' s' ≡ (err auth, s')
reset_password_twice crypto token first_password salt second_password salt' now now' s one e =
    let r = reset_password-Redeemed crypto token first_password salt now s one e in
    let hashed = crypto.hash salt first_password in
    rw r.after (
      reset-used crypto token second_password salt' now' (redeemed hashed now r.row r.user s)
        (still_one crypto token hashed now r.row r.user s one) (use_at now r.row)
        (used_up crypto token hashed now r.row r.user s r.found) refl)

-- After a redemption that succeeded, no refresh token that the user had gets a session.
pub reset_password_ends_sessions :
    (crypto : Crypto) (token new_password salt raw : String) (draw : Draw) (at now days : ℕ)
    (s : Session) (row : PasswordResetToken) (t : RefreshToken)
    → SessionIsConsistent s
    → count (has_reset_hash (crypto.hash_token token)) s.reset_tokens ≤ 1
    → find_reset crypto token s ≡ some row
    → is_set (some raw) ≡ true
    → find_token crypto raw s ≡ some t
    → t.user_id ≡ row.user_id
    → (reset_password crypto token new_password salt at s).0 ≡ ok tt
    → (refresh crypto draw now days
        (some raw)
        (reset_password crypto token new_password salt at s).1).0
      ≡ err auth
reset_password_ends_sessions crypto token new_password salt raw draw at now days s row t c one found
      set held of e =
    let r = reset_password-Redeemed crypto token new_password salt at s one e in
    let hashed = crypto.hash salt new_password in
    let same : r.row ≡ row = cc (r.found, found) in
    let owner = first-select-holds (has_user_id r.row.user_id) s.users r.owner in
    let mine : str_eq t.user_id r.user.id ≡ true =
      subst (λ k. str_eq k r.user.id ≡ true)
        (str_eq→eq r.user.id r.row.user_id owner
          ∙ (ap (λ (x : PasswordResetToken). x.user_id) same ∙ sym of))
        (str_eq_self r.user.id) in
    rw r.after (
      dead_refused crypto draw now days raw (redeemed hashed at r.row r.user s) (revoke t)
        (redeemed-consistent hashed at r.row r.user s c) set
        (first-select-update (of_user r.user.id) (has_hash (crypto.hash_token raw)) revoke
            s.refresh_tokens (λ x. refl) held
          ∙ rw mine)
        (ground arith))

logged_in :
    (crypto : Crypto) (new_password salt : String) (draw : Draw) (at now days : ℕ) (s : Session)
    (row : PasswordResetToken) (user : User)
    → SessionIsConsistent s
    → first (select (has_user_id row.user_id) s.users) ≡ some user
    → user.is_active ≡ true
    → is_some user.deleted_at ≡ false
    → (login crypto user.email new_password draw now days
        (redeemed (crypto.hash salt new_password) at row user s)).0
      ≡ ok (crypto.create_access_token user.id)
logged_in crypto new_password salt draw at now days s row user c owner active undeleted =
    let hashed = crypto.hash salt new_password in
    let s' = redeemed hashed at row user s in
    let c' = redeemed-consistent hashed at row user s c in
    let before =
      first-select_unique (has_user_id row.user_id) (has_email user.email) s.users owner
        (str_eq_self user.email) (c.one_email user.email) in
    let found =
      first-select-update (has_user_id user.id) (has_email user.email) (with_password hashed)
        s.users (λ u. refl) before
      ∙ rw (str_eq_self user.id) in
    rw
      (login_found crypto user.email new_password draw now days s'
        (some (with_password hashed user)) (c'.one_email user.email) found)
      (unfold issue_session in rw (verifies_stored crypto salt new_password, active, undeleted))

-- After a redemption that succeeded, an active user can log in with the new password.
pub reset_password-login :
    (crypto : Crypto) (token new_password salt : String) (draw : Draw) (at now days : ℕ)
    (s : Session) (row : PasswordResetToken) (user : User)
    → SessionIsConsistent s
    → count (has_reset_hash (crypto.hash_token token)) s.reset_tokens ≤ 1
    → find_reset crypto token s ≡ some row
    → first (select (has_user_id row.user_id) s.users) ≡ some user
    → user.is_active ≡ true
    → (reset_password crypto token new_password salt at s).0 ≡ ok tt
    → (login crypto user.email new_password draw now days
        (reset_password crypto token new_password salt at s).1).0
      ≡ ok (crypto.create_access_token user.id)
reset_password-login crypto token new_password salt draw at now days s row user c one found owner
      active e =
    let r = reset_password-Redeemed crypto token new_password salt at s one e in
    let hashed = crypto.hash salt new_password in
    let same : r.row ≡ row = cc (r.found, found) in
    let me : r.user ≡ user = cc (r.owner, owner, same) in
    subst
      (λ (u : User).
        (login crypto u.email new_password draw now days
          (reset_password crypto token new_password salt at s).1).0
        ≡ ok (crypto.create_access_token u.id))
      me
      (rw r.after (
        logged_in crypto new_password salt draw at now days s r.row r.user c r.owner
          (ap (λ (u : User). u.is_active) me ∙ active) r.undeleted))
