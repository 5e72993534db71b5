-- ===== src/PlatformSessions.antt =====
-- services/platform_session.py and models/platform_session.py under backend/app: the browser
-- sessions that a user imports. The cookies are a credential, the row beside it is their metadata.
-- A `storage_state` is its JSON text; `fingerprint` is `_fingerprint`, a hash of the library's. The
-- metadata changes with the last commit of a function, the cookies with their own.
pub mod Importing
pub mod Deletion
use auto_jobs_apply.Prelude.{
  ℕ, ◌+◌, ◌≤◌, String, Bool, true, false, not, ◌&&◌, ◌||◌, ◌≡◌, refl, sym, ◌∙◌, inl, inr, Option,
  none, some, List, [], ◌∷◌, ◌++◌, str_eq, str_eq_self, Bool-cases, any, count, select, update,
  delete, first, ◌==◌, first-select-none, first-select-some, first-select-append_new,
  first-select-update, arith,
}
use auto_jobs_apply.Tx.{
  Result, Tx, ok, err, pure, lift, ◌>>=◌, ◌>>◌, modify, scalar_one_or_none, scalar-first,
  resume_with,
}
use auto_jobs_apply.Credentials.{
  Fernet, SecretsProvider, Draw, UserCredential, is_for, save_session_cookies, load_session_cookies,
  delete_session_cookies, put, get, app_keys, has_row_id,
}
use auto_jobs_apply.Credentials.Rows.{IsKeyed, put-get}

pub record PlatformSession : Type 0 where
  pub id : String
  pub user_id : String
  pub platform : String
  pub last_verified_at : Option ℕ
  pub expires_at : Option ℕ
  pub fingerprint_hash : Option String

pub record SessionStore : Type 0 where
  pub credentials : List UserCredential
  pub platform_sessions : List PlatformSession

abbrev pub is_session : String → String → PlatformSession → Bool
is_session user_id platform r = str_eq r.user_id user_id && str_eq r.platform platform

abbrev pub has_session_id : String → PlatformSession → Bool
has_session_id i r = str_eq r.id i

-- An action on the credentials alone.
abbrev pub on_credentials : {A : Type 0} → Tx (List UserCredential) A → Tx SessionStore A
on_credentials m s =
    let (r, credentials) = m s.credentials in (r, record s { credentials = credentials })

pub record SessionResponse : Type 0 where
  pub platform : String
  pub connected : Bool
  pub last_verified_at : Option ℕ
  pub expires_at : Option ℕ

abbrev pub to_response : PlatformSession → SessionResponse
to_response row = record {
  platform = row.platform;
  connected = true;
  last_verified_at = row.last_verified_at;
  expires_at = row.expires_at;
}

-- What an import writes into the row.
abbrev pub verified : ℕ → Option ℕ → String → PlatformSession → PlatformSession
verified now expires_at fingerprint r = record r {
  last_verified_at = some now;
  expires_at = expires_at;
  fingerprint_hash = some fingerprint;
}

abbrev pub new_session : String → String → String → ℕ → Option ℕ → String → PlatformSession
new_session id user_id platform now expires_at fingerprint = record {
  id = id;
  user_id = user_id;
  platform = platform;
  last_verified_at = some now;
  expires_at = expires_at;
  fingerprint_hash = some fingerprint;
}

abbrev pub recorded :
    String
    → String
    → String
    → ℕ
    → Option ℕ
    → String
    → Option PlatformSession
    → Tx SessionStore PlatformSession
recorded id user_id platform now expires_at fingerprint none s =
    let row = new_session id user_id platform now expires_at fingerprint in
    (ok row, record s { platform_sessions = s.platform_sessions ++ row ∷ [] })
recorded id user_id platform now expires_at fingerprint (some row) s =
    let f = verified now expires_at fingerprint in
    (
      ok (f row),
      record s { platform_sessions = update (has_session_id row.id) f s.platform_sessions },
    )

abbrev pub find_session : String → String → SessionStore → Result (Option PlatformSession)
find_session user_id platform s =
    scalar_one_or_none (select (is_session user_id platform) s.platform_sessions)

unfoldable pub import_session :
    (String → String)
    → Fernet
    → SecretsProvider
    → Draw
    → String
    → String
    → ℕ
    → String
    → String
    → String
    → Option ℕ
    → Tx SessionStore PlatformSession
import_session fingerprint f p draw credential_id id now user_id platform storage_state expires_at =
    on_credentials (save_session_cookies f p draw credential_id user_id platform storage_state)
    >> (λ s. lift (find_session user_id platform s) s)
    >>= recorded id user_id platform now expires_at (fingerprint storage_state)

-- `order` is the ORDER BY of the query.
unfoldable pub list_sessions :
    (List PlatformSession → List PlatformSession) → String → SessionStore → List PlatformSession
list_sessions order user_id s = order (select (λ r. str_eq r.user_id user_id) s.platform_sessions)

abbrev pub removed_rows : String → String → Bool → Tx SessionStore Bool
removed_rows user_id platform had_cookies s =
    let p = is_session user_id platform in
    (
      ok (had_cookies || not (count p s.platform_sessions == 0)),
      record s { platform_sessions = delete p s.platform_sessions },
    )

unfoldable pub delete_session : String → String → Tx SessionStore Bool
delete_session user_id platform =
    on_credentials (delete_session_cookies user_id platform) >>= removed_rows user_id platform

abbrev pub session_of : String → String → SessionStore → Option PlatformSession
session_of user_id platform s = first (select (is_session user_id platform) s.platform_sessions)
