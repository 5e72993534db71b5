-- ===== src/Tests/PlatformSessions.antt =====
-- A session is imported, and deleted.
use auto_jobs_apply.Prelude.{◌≡◌, String, [], ◌∷◌, some, none, false, true, str_eq, ◌&&◌, select}
use auto_jobs_apply.Tx.{ok}
use auto_jobs_apply.Credentials.{SecretsProvider, Draw, load_session_cookies}
use auto_jobs_apply.PlatformSessions.{PlatformSession, SessionStore, delete_session, is_session}
use auto_jobs_apply.PlatformSessions.Deletion.{delete_session-load}
use auto_jobs_apply.Tests.Memory.{clear_text}

abbrev keys : SecretsProvider
keys = record { current = "k-2"; older = "k-1" ∷ [] }

abbrev draw : Draw
draw = record { dek = "dek"; nonce = "n"; wrap_nonce = "w" }

abbrev indeed : PlatformSession
indeed = record {
  id = "ps-1";
  user_id = "alice";
  platform = "indeed";
  last_verified_at = some 10;
  expires_at = none;
  fingerprint_hash = none;
}

abbrev store : SessionStore
store = record { credentials = []; platform_sessions = indeed ∷ [] }

delete_session-load_example :
    let (r, after) = delete_session "alice" "indeed" store in
    (r ≡ ok true)
    × (select (is_session "alice" "indeed") after.platform_sessions ≡ [])
    × ((load_session_cookies clear_text keys "alice" "indeed" after.credentials).0 ≡ ok none)
    × ((u other : String)
        → (str_eq "alice" u && str_eq "indeed" other) ≡ false
        → (select (is_session u other) after.platform_sessions
            ≡ select (is_session u other) store.platform_sessions)
          × ((load_session_cookies clear_text keys u other after.credentials).0
              ≡ (load_session_cookies clear_text keys u other store.credentials).0))
delete_session-load_example = delete_session-load clear_text keys "alice" "indeed" store
