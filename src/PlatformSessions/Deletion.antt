-- ===== src/PlatformSessions/Deletion.antt =====
-- A deletion leaves neither cookies nor metadata.
use auto_jobs_apply.Prelude.{
  String, true, false, not, ◌&&◌, ◌||◌, ◌≡◌, refl, sym, ◌∙◌, none, [], str_eq, str_eq→eq, count,
  select, delete, ◌==◌, arith, select-delete_all, select-delete_other, ap,
}
use auto_jobs_apply.Tx.{ok, scalar_one_or_none}
use auto_jobs_apply.Credentials.{
  Fernet, SecretsProvider, UserCredential, is_for, load_session_cookies, delete_session_cookies,
  get,
}
use auto_jobs_apply.Credentials.Rows.{answered, get-answered}
use auto_jobs_apply.PlatformSessions.{PlatformSession, SessionStore, is_session, delete_session}

-- What a deletion answers and leaves.
delete_session_lem :
    (u platform : String) (s : SessionStore)
    → delete_session u platform s ≡ (
      ok (
          not (count (is_for u "platform_cookies" platform) s.credentials == 0)
          || not (count (is_session u platform) s.platform_sessions == 0)),
      record {
        credentials = delete (is_for u "platform_cookies" platform) s.credentials;
        platform_sessions = delete (is_session u platform) s.platform_sessions;
      },
    )
unfolding delete_session delete_session_cookies
delete_session_lem u platform s = refl

-- A row for one key is not for another.
is_for-other :
    (u k p u' p' : String)
    → (str_eq u u' && str_eq p p') ≡ false
    → (r : UserCredential) → is_for u k p r ≡ true
    → is_for u' k p' r ≡ false
is_for-other u k p u' p' d r h =
    let a : r.user_id ≡ u = str_eq→eq r.user_id u (ground arith) in
    let b : r.provider ≡ p = str_eq→eq r.provider p (ground arith) in rw (a, b) (ground arith)

is_session-other :
    (u p u' p' : String)
    → (str_eq u u' && str_eq p p') ≡ false
    → (r : PlatformSession) → is_session u p r ≡ true
    → is_session u' p' r ≡ false
is_session-other u p u' p' d r h =
    let a : r.user_id ≡ u = str_eq→eq r.user_id u (ground arith) in
    let b : r.platform ≡ p = str_eq→eq r.platform p (ground arith) in rw (a, b) d

-- After a deletion the platform has no row and its cookies cannot be loaded, and the rows and
-- cookies of every other user and platform are what they were; it answers whether there was
-- anything to remove.
pub delete_session-load :
    (f : Fernet) (p : SecretsProvider) (u platform : String) (s : SessionStore)
    → let (r, after) = delete_session u platform s in
      (r
        ≡ ok (
            not (count (is_for u "platform_cookies" platform) s.credentials == 0)
            || not (count (is_session u platform) s.platform_sessions == 0)))
      × (select (is_session u platform) after.platform_sessions ≡ [])
      × ((load_session_cookies f p u platform after.credentials).0 ≡ ok none)
      × ((u' other : String)
          → (str_eq u u' && str_eq platform other) ≡ false
          → (select (is_session u' other) after.platform_sessions
              ≡ select (is_session u' other) s.platform_sessions)
            × ((load_session_cookies f p u' other after.credentials).0
                ≡ (load_session_cookies f p u' other s.credentials).0))
unfolding load_session_cookies get
delete_session-load f p u platform s = rw (delete_session_lem u platform s) (
  refl,
  select-delete_all (is_session u platform) s.platform_sessions,
  rw (select-delete_all (is_for u "platform_cookies" platform) s.credentials),
  λ u' other d. (
    select-delete_other (is_session u platform) (is_session u' other) s.platform_sessions
        (is_session-other u platform u' other d),
    get-answered f p u' "platform_cookies" other
          (delete (is_for u "platform_cookies" platform) s.credentials)
        ∙ ap (λ found. answered f p (scalar_one_or_none found))
            (select-delete_other (is_for u "platform_cookies" platform)
              (is_for u' "platform_cookies" other) s.credentials
              (is_for-other u "platform_cookies" platform u' other d))
        ∙ sym (get-answered f p u' "platform_cookies" other s.credentials),
  ),
)
