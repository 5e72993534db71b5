-- ===== src/Auth/Rows.antt =====
-- What the keys of the account tables promise, and what `refresh` does with the row that it finds.
use auto_jobs_apply.Prelude.{
  ℕ, ◌≤◌, String, Bool, true, false, not, ◌&&◌, ◌≡◌, refl, inl, inr, Option, none, some, List,
  str_eq, str_eq_self, ltb, if◌then◌else◌, Bool-cases, count, select, first, is_set,
  count-and-found,
}
use auto_jobs_apply.Tx.{Result, err, auth, scalar-first}
use auto_jobs_apply.Auth.{
  RefreshToken, Session, Crypto, Draw, has_hash, has_email, has_user_id, is_claimable, refresh,
  claim_and_rotate,
}

abbrev pub has_token_id : String → RefreshToken → Bool
has_token_id i t = str_eq t.id i

-- The primary keys and the unique emails; no two drawn tokens are the same.
pub record SessionIsConsistent (s : Session) : Type 0 where
  pub one_id : (i : String) → count (has_token_id i) s.refresh_tokens ≤ 1
  pub one_hash : (h : String) → count (has_hash h) s.refresh_tokens ≤ 1
  pub one_user : (i : String) → count (has_user_id i) s.users ≤ 1
  pub one_email : (e : String) → count (has_email e) s.users ≤ 1

-- The row of a presented token.
abbrev pub find_token : Crypto → String → Session → Option RefreshToken
find_token crypto raw s = first (select (has_hash (crypto.hash_token raw)) s.refresh_tokens)

abbrev pub presented :
    Crypto → Draw → ℕ → ℕ → Option RefreshToken → Session → Result String × Session
presented crypto draw now days none s = (err auth, s)
presented crypto draw now days (some row) s =
    if ltb row.expires_at now then (err auth, s) else claim_and_rotate crypto draw now days row s

refresh_found :
    (crypto : Crypto) (draw : Draw) (now days : ℕ) (raw : String) (s : Session)
    (found : Option RefreshToken)
    → is_set (some raw) ≡ true
    → count (has_hash (crypto.hash_token raw)) s.refresh_tokens ≤ 1
    → find_token crypto raw s ≡ found
    → refresh crypto draw now days (some raw) s ≡ presented crypto draw now days found s
unfolding refresh
refresh_found crypto draw now days raw s none set one h =
    rw (set, scalar-first (has_hash (crypto.hash_token raw)) s.refresh_tokens one, h)
refresh_found crypto draw now days raw s (some row) set one h =
    elim (Bool-cases (ltb row.expires_at now)) [
      | inl e ↦ rw (set, scalar-first (has_hash (crypto.hash_token raw)) s.refresh_tokens one, h, e)
      | inr e ↦ rw (set, scalar-first (has_hash (crypto.hash_token raw)) s.refresh_tokens one, h, e)
    ]

pub refresh_lem :
    (crypto : Crypto) (draw : Draw) (now days : ℕ) (raw : String) (s : Session)
    → is_set (some raw) ≡ true
    → count (has_hash (crypto.hash_token raw)) s.refresh_tokens ≤ 1
    → refresh crypto draw now days (some raw) s
      ≡ presented crypto draw now days (find_token crypto raw s) s
refresh_lem crypto draw now days raw s set one =
    refresh_found crypto draw now days raw s (find_token crypto raw s) set one refl

-- A used or revoked token cannot be claimed.
pub dead-unclaimable :
    (q : RefreshToken → Bool) (rows : List RefreshToken) (row : RefreshToken)
    → first (select q rows) ≡ some row
    → (not row.used && not row.revoked) ≡ false
    → count (has_token_id row.id) rows ≤ 1
    → count (is_claimable row.id) rows ≡ 0
dead-unclaimable q rows row e dead one =
    count-and-found q (has_token_id row.id) (λ t. not t.used && not t.revoked) rows e
      (str_eq_self row.id) dead one
