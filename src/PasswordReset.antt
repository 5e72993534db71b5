-- ===== src/PasswordReset.antt =====
-- services/password_reset.py under backend/app, with the routes of api/v1/auth.py that call it.
pub mod Redeeming
pub mod Effects
use auto_jobs_apply.Prelude.{
  ℕ, ◌+◌, ◌*◌, String, Bool, true, false, not, ◌&&◌, Option, none, some, List, [], ◌∷◌, ◌++◌,
  str_eq, ltb, if◌then◌else◌, select, update, first, is_some,
}
use auto_jobs_apply.Tx.{
  Result, Tx, ok, err, auth, lift, guard, ◌>>=◌, ◌>>◌, or_raise, scalar_one_or_none,
}
use auto_jobs_apply.Auth.{
  User, PasswordResetToken, Session, Mail, Crypto, Draw, is_usable, has_email, has_user_id, of_user,
  revoke, clear_refresh_cookie,
}

abbrev pub reset_token : Crypto → User → Draw → ℕ → ℕ → PasswordResetToken
reset_token crypto user draw now minutes = record {
  id = draw.id;
  user_id = user.id;
  token_hash = crypto.hash_token draw.token;
  expires_at = now + minutes * 60;
  used_at = none;
}

abbrev issued : Crypto → Draw → ℕ → ℕ → Option User → Tx Session (Unit {0})
issued crypto draw now minutes none s = (ok tt, s)
issued crypto draw now minutes (some user) s = (
  ok tt,
  record s {
    reset_tokens = s.reset_tokens ++ reset_token crypto user draw now minutes ∷ [];
    sent = record { address = user.email; token = draw.token } ∷ s.sent;
  },
)

unfoldable pub request_password_reset : Crypto → String → Draw → ℕ → ℕ → Tx Session (Unit {0})
request_password_reset crypto email draw now minutes s =
    (do
      found ← lift (scalar_one_or_none (select (λ u. has_email email u && is_usable u) s.users))
      issued crypto draw now minutes found)
      s

abbrev pub has_reset_hash : String → PasswordResetToken → Bool
has_reset_hash h t = str_eq t.token_hash h

abbrev pub has_reset_id : String → PasswordResetToken → Bool
has_reset_id i t = str_eq t.id i

abbrev pub is_outstanding : String → PasswordResetToken → Bool
is_outstanding u t = str_eq t.user_id u && not (is_some t.used_at)

abbrev pub use_at : ℕ → PasswordResetToken → PasswordResetToken
use_at now t = record t { used_at = some now }

abbrev pub with_password : String → User → User
with_password hashed user = record user { hashed_password = some hashed }

-- The writes that the one commit stores.
abbrev pub redeemed : String → ℕ → PasswordResetToken → User → Session → Session
redeemed hashed now row user s = record s {
  users = update (has_user_id user.id) (with_password hashed) s.users;
  reset_tokens =
      update (is_outstanding user.id) (use_at now)
        (update (has_reset_id row.id) (use_at now) s.reset_tokens);
  refresh_tokens = update (of_user user.id) revoke s.refresh_tokens;
}

abbrev redeem : String → ℕ → PasswordResetToken → Option User → Tx Session (Unit {0})
redeem hashed now row none s = (err auth, s)
redeem hashed now row (some user) s =
    if is_some user.deleted_at then (err auth, s) else (ok tt, redeemed hashed now row user s)

unfoldable pub reset_password : Crypto → String → String → String → ℕ → Tx Session (Unit {0})
reset_password crypto token new_password salt now s =
    (do
      found ←
          lift
            (scalar_one_or_none (select (has_reset_hash (crypto.hash_token token)) s.reset_tokens))
      row ← or_raise auth found
      guard (not (is_some row.used_at)) auth
      guard (not (ltb row.expires_at now)) auth
      redeem (crypto.hash salt new_password) now row
          (first (select (has_user_id row.user_id) s.users)))
      s

-- POST /auth/reset-password
unfoldable pub reset_route : Crypto → String → String → String → ℕ → Tx Session (Unit {0})
reset_route crypto token new_password salt now = do
  reset_password crypto token new_password salt now
  clear_refresh_cookie
