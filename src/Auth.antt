-- ===== src/Auth.antt =====
-- api/v1/auth.py, with models/user.py, models/refresh_token.py, models/password_reset_token.py and
-- core/security.py under backend/app: accounts and their sessions. Argon2, SHA-256 and JWT are
-- libraries, the record `Crypto`; what the generators draw is the record `Draw`. Of a draw's texts
-- the code reads the token, the family and the id of the new row. Times are numbers of seconds.
pub mod Rows
pub mod Rotation
pub mod Revocation
pub mod Login
pub mod Logout
use auto_jobs_apply.Prelude.{
  ℕ, ◌+◌, ◌*◌, String, Bool, true, false, not, ◌&&◌, ◌≡◌, Option, none, some, List, [], ◌∷◌, ◌++◌,
  str_eq, ltb, ◌==◌, if◌then◌else◌, any, count, select, update, first, is_set, is_some, truthy,
  or_empty, or_default,
}
use auto_jobs_apply.Tx.{
  Result, Tx, ok, err, auth, integrity, pure, lift, gets, guard, ◌>>=◌, ◌>>◌, or_raise,
  scalar_one_or_none,
}

pub record User : Type 0 where
  pub id : String
  pub email : String
  pub hashed_password : Option String
  pub full_name : Option String
  pub is_active : Bool
  pub deleted_at : Option ℕ

pub record RefreshToken : Type 0 where
  pub id : String
  pub user_id : String
  pub token_hash : String
  pub family_id : String
  pub used : Bool
  pub revoked : Bool
  pub expires_at : ℕ

pub record PasswordResetToken : Type 0 where
  pub id : String
  pub user_id : String
  pub token_hash : String
  pub expires_at : ℕ
  pub used_at : Option ℕ

-- What a handler does to the refresh cookie of its response.
pub data Cookie : Type 0 where
  kept : Cookie
  set_to : String → Cookie
  cleared : Cookie

-- A mail with the link for a reset token.
pub record Mail : Type 0 where
  pub address : String
  pub token : String

pub record Session : Type 0 where
  pub users : List User
  pub refresh_tokens : List RefreshToken
  pub reset_tokens : List PasswordResetToken
  pub response : Cookie
  pub sent : List Mail

-- `hash salt plain` is what the password hasher draws a salt for; `verify` is false where the
-- library raises. A hash verifies the password that it is of, and is not empty.
pub record Crypto : Type 0 where
  pub hash_token : String → String
  pub hash : String → String → String
  pub verify : String → String → Bool
  pub dummy_hash : String
  pub create_access_token : String → String
  pub verifies : (salt plain : String) → verify plain (hash salt plain) ≡ true
  pub is_nonempty : (salt plain : String) → truthy (hash salt plain) ≡ true

pub record Draw : Type 0 where
  pub id : String
  pub token : String
  pub family : String

abbrev pub verify_password : Crypto → String → Option String → Bool
verify_password crypto plain hashed = crypto.verify plain (or_default hashed crypto.dummy_hash)

-- `not (user is None or not user.is_active or user.deleted_at is not None)` for a user
abbrev pub is_usable : User → Bool
is_usable user = user.is_active && not (is_some user.deleted_at)

abbrev pub has_email : String → User → Bool
has_email email user = str_eq user.email email

abbrev pub has_user_id : String → User → Bool
has_user_id i user = str_eq user.id i

abbrev pub has_hash : String → RefreshToken → Bool
has_hash h t = str_eq t.token_hash h

abbrev pub in_family : String → RefreshToken → Bool
in_family f t = str_eq t.family_id f

abbrev pub of_user : String → RefreshToken → Bool
of_user u t = str_eq t.user_id u

abbrev pub revoke : RefreshToken → RefreshToken
revoke t = record t { revoked = true }

abbrev pub new_token : Crypto → User → Option String → Draw → ℕ → ℕ → RefreshToken
new_token crypto user family_id draw now days = record {
  id = draw.id;
  user_id = user.id;
  token_hash = crypto.hash_token draw.token;
  family_id = or_default family_id draw.family;
  used = false;
  revoked = false;
  expires_at = now + days * 86400;
}

unfoldable pub issue_session : Crypto → User → Option String → Draw → ℕ → ℕ → Tx Session String
issue_session crypto user family_id draw now days s = (
  ok (crypto.create_access_token user.id),
  record s {
    refresh_tokens = s.refresh_tokens ++ new_token crypto user family_id draw now days ∷ [];
    response = set_to draw.token;
  },
)

pub record RegisterRequest : Type 0 where
  pub email : String
  pub password : String
  pub full_name : Option String

abbrev pub new_user : Crypto → RegisterRequest → String → String → User
new_user crypto request id salt = record {
  id = id;
  email = request.email;
  hashed_password = some (crypto.hash salt request.password);
  full_name = request.full_name;
  is_active = true;
  deleted_at = none;
}

-- The commit, in which the unique constraint on the email may raise, with its `except` branch.
abbrev store_user : User → Tx Session User
store_user user s =
    if any (has_email user.email) s.users
    then (err integrity, s)
    else (ok user, record s { users = s.users ++ user ∷ [] })

unfoldable pub register : Crypto → RegisterRequest → String → String → Tx Session User
register crypto request id salt s =
    (do
      existing ← lift (scalar_one_or_none (select (has_email request.email) s.users))
      guard (not (is_some existing)) integrity
      store_user (new_user crypto request id salt))
      s

-- Verification runs against the dummy hash for an unknown email.
abbrev pub password_of : Option User → Option String
password_of none = none
password_of (some user) = user.hashed_password

abbrev pub checked : Bool → Option User → Result User
checked pw_ok none = err auth
checked pw_ok (some user) = if pw_ok && is_usable user then ok user else err auth

unfoldable pub login : Crypto → String → String → Draw → ℕ → ℕ → Tx Session String
login crypto username password draw now days s =
    (do
      found ← lift (scalar_one_or_none (select (has_email username) s.users))
      user ← lift (checked (verify_password crypto password (password_of found)) found)
      issue_session crypto user none draw now days)
      s

-- The WHERE clause of the claim.
abbrev pub is_claimable : String → RefreshToken → Bool
is_claimable i t = str_eq t.id i && (not t.used && not t.revoked)

abbrev pub claim : RefreshToken → RefreshToken
claim t = record t { used = true }

abbrev pub revoke_family : String → Session → Session
revoke_family f s = record s { refresh_tokens = update (in_family f) revoke s.refresh_tokens }

-- After the claim. The claim is not committed where the user is not active.
abbrev pub rotated : Crypto → Draw → ℕ → ℕ → RefreshToken → Option User → Tx Session String
rotated crypto draw now days row none s = (err auth, s)
rotated crypto draw now days row (some user) s =
    if is_usable user
    then issue_session crypto user (some row.family_id) draw now days
        (record s { refresh_tokens = update (is_claimable row.id) claim s.refresh_tokens })
    else (err auth, s)

unfoldable pub claim_and_rotate : Crypto → Draw → ℕ → ℕ → RefreshToken → Tx Session String
claim_and_rotate crypto draw now days row s =
    if count (is_claimable row.id) s.refresh_tokens == 0
    then (err auth, record (revoke_family row.family_id s) { response = cleared })
    else rotated crypto draw now days row (first (select (has_user_id row.user_id) s.users)) s

-- `raw` is the refresh cookie of the request.
unfoldable pub refresh : Crypto → Draw → ℕ → ℕ → Option String → Tx Session String
refresh crypto draw now days raw s =
    (do
      guard (is_set raw) auth
      found ← lift (
          scalar_one_or_none
            (select (has_hash (crypto.hash_token (or_empty raw))) s.refresh_tokens))
      row ← or_raise auth found
      guard (not (ltb row.expires_at now)) auth
      claim_and_rotate crypto draw now days row)
      s

abbrev pub revoked_family : Option RefreshToken → Tx Session (Unit {0})
revoked_family none s = (ok tt, s)
revoked_family (some row) s = (ok tt, revoke_family row.family_id s)

abbrev pub clear_refresh_cookie : Tx Session (Unit {0})
clear_refresh_cookie s = (ok tt, record s { response = cleared })

abbrev pub revoke_presented : Crypto → Option String → Tx Session (Unit {0})
revoke_presented crypto raw s =
    if is_set raw
    then (do
      found ← lift (
          scalar_one_or_none
            (select (has_hash (crypto.hash_token (or_empty raw))) s.refresh_tokens))
      revoked_family found)
        s
    else (ok tt, s)

unfoldable pub logout : Crypto → Option String → Tx Session (Unit {0})
logout crypto raw = do revoke_presented crypto raw; clear_refresh_cookie

abbrev pub soft_delete : ℕ → User → User
soft_delete now user = record user { deleted_at = some now }

abbrev pub deleted_account : ℕ → String → Option User → Session → Session
deleted_account now user_id none s = s
deleted_account now user_id (some db_user) s = if is_some db_user.deleted_at then s else record s {
  users = update (has_user_id user_id) (soft_delete now) s.users;
  refresh_tokens = update (of_user user_id) revoke s.refresh_tokens;
}

unfoldable pub delete_account : ℕ → String → Tx Session (Unit {0})
delete_account now user_id s =
    clear_refresh_cookie
      (deleted_account now user_id (first (select (has_user_id user_id) s.users)) s)
