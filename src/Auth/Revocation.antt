-- ===== src/Auth/Revocation.antt =====
-- What ends a session: a replayed token, a logout, the deletion of the account.
use auto_jobs_apply.Prelude.{
  append_unique, ℕ, String, Bool, true, false, not, ◌&&◌, ◌≡◌, refl, ap, ◌∙◌, inl, inr, some, arith,
  str_eq_self, ltb, Bool-cases, count, update, is_set, found-counted, count-update_same,
  first-select-update, first-select-append_old,
}
use auto_jobs_apply.Tx.{Result, ok, err, auth}
use auto_jobs_apply.Auth.{
  RefreshToken, Session, Crypto, Draw, has_hash, is_claimable, claim, in_family, refresh, new_token,
}
use auto_jobs_apply.Auth.Rows.{has_token_id, SessionIsConsistent, find_token}
use auto_jobs_apply.Auth.Rotation.{
  is_live, unrevoked, reused, refresh-dead, revoke_family-unrevoked, Rotated, refresh-Rotated,
}

module _ (crypto : Crypto) (draw : Draw) (now days : ℕ) (raw : String) (s : Session)
    {answer : Result String × Session} (r : Rotated crypto draw now days raw s answer)
    (c : SessionIsConsistent s) (fresh_id : count (has_token_id draw.id) s.refresh_tokens ≡ 0)
    (fresh_hash : count (has_hash (crypto.hash_token draw.token)) s.refresh_tokens ≡ 0) where
  claimed_count :
      (q : RefreshToken → Bool)
      → ((t : RefreshToken) → q (claim t) ≡ q t)
      → count q (update (is_claimable r.row.id) claim s.refresh_tokens) ≡ count q s.refresh_tokens
  claimed_count q h =
      count-update_same (is_claimable r.row.id) q claim s.refresh_tokens (λ t e. h t)

  Rotated-consistent : SessionIsConsistent answer.1
  Rotated-consistent =
      let rows = update (is_claimable r.row.id) claim s.refresh_tokens in
      let new = new_token crypto r.user (some r.row.family_id) draw now days in
      record {
        one_id = rw r.rows (
            append_unique (λ (t : RefreshToken). t.id) new rows
              (claimed_count (has_token_id draw.id) (λ t. refl) ∙ fresh_id)
              (λ i. rw (claimed_count (has_token_id i) (λ t. refl)) (c.one_id i)));
        one_hash = rw r.rows (
            append_unique (λ (t : RefreshToken). t.token_hash) new rows
              (claimed_count (has_hash (crypto.hash_token draw.token)) (λ t. refl) ∙ fresh_hash)
              (λ i. rw (claimed_count (has_hash i) (λ t. refl)) (c.one_hash i)));
        one_user = rw r.users c.one_user;
        one_email = rw r.users c.one_email;
      }

  Rotated-found : find_token crypto raw answer.1 ≡ some (claim r.row)
  Rotated-found =
      let q = has_hash (crypto.hash_token raw) in
      let claimable : is_claimable r.row.id r.row ≡ true =
        ground (arith, str_eq_self r.row.id, r.live) in
      let old =
        first-select-update (is_claimable r.row.id) q claim s.refresh_tokens (λ t. refl) r.found in
      rw r.rows (
        first-select-append_old q (update (is_claimable r.row.id) claim s.refresh_tokens) _
          (old ∙ rw claimable))

-- A refresh that succeeds keeps the keys unique, if the draw is fresh.
pub refresh-consistent :
    (crypto : Crypto) (draw : Draw) (now days : ℕ) (raw : String) (s : Session) {access : String}
    → SessionIsConsistent s
    → is_set (some raw) ≡ true
    → count (has_token_id draw.id) s.refresh_tokens ≡ 0
    → count (has_hash (crypto.hash_token draw.token)) s.refresh_tokens ≡ 0
    → (refresh crypto draw now days (some raw) s).0 ≡ ok access
    → SessionIsConsistent (refresh crypto draw now days (some raw) s).1
refresh-consistent crypto draw now days raw s c set fi fh e =
    Rotated-consistent crypto draw now days raw s
      (refresh-Rotated crypto draw now days raw s c set e) c fi fh

reused-lem :
    (row : RefreshToken) (s : Session)
    → ((reused row s).0 ≡ err auth) × (unrevoked row.family_id (reused row s).1 ≡ 0)
reused-lem row s = (refl, revoke_family-unrevoked row.family_id s)

-- A refresh token is used once: after a refresh that succeeded, a second refresh with the same
-- token before it expires gets no session, and leaves no token of the family that is not revoked.
pub refresh_replayed :
    (crypto : Crypto) (draw draw' : Draw) (now now' days days' : ℕ) (raw : String) (s : Session)
    (row : RefreshToken) {access : String}
    → SessionIsConsistent s
    → is_set (some raw) ≡ true
    → count (has_token_id draw.id) s.refresh_tokens ≡ 0
    → count (has_hash (crypto.hash_token draw.token)) s.refresh_tokens ≡ 0
    → find_token crypto raw s ≡ some row
    → ltb row.expires_at now' ≡ false
    → (refresh crypto draw now days (some raw) s).0 ≡ ok access
    → let s' = (refresh crypto draw now days (some raw) s).1 in
      let (answer, after) = refresh crypto draw' now' days' (some raw) s' in
      (answer ≡ err auth) × (unrevoked row.family_id after ≡ 0)
refresh_replayed crypto draw draw' now now' days days' raw s row c set fi fh found unexpired e =
    let r = refresh-Rotated crypto draw now days raw s c set e in
    let c' = Rotated-consistent crypto draw now days raw s r c fi fh in
    let same : r.row ≡ row = cc (r.found, found) in
    let again = Rotated-found crypto draw now days raw s r c fi fh in
    let s' = (refresh crypto draw now days (some raw) s).1 in
    let second =
      refresh-dead crypto draw' now' days' raw s' (claim row) c' set
        (again ∙ ap (λ (t : RefreshToken). some (claim t)) same) (ground arith) in
    rw (second, unexpired) (reused-lem row s')

-- Once a family has no token that is not revoked, none of its tokens gets a session.
pub refresh-revoked :
    (crypto : Crypto) (draw : Draw) (now days : ℕ) (raw : String) (s : Session) (row : RefreshToken)
    → SessionIsConsistent s
    → is_set (some raw) ≡ true
    → find_token crypto raw s ≡ some row
    → unrevoked row.family_id s ≡ 0
    → (refresh crypto draw now days (some raw) s).0 ≡ err auth
refresh-revoked crypto draw now days raw s row c set found none_left =
    rw (refresh-dead crypto draw now days raw s row c set found dead)
      (elim (Bool-cases (ltb row.expires_at now)) [ inl e ↦ rw e | inr e ↦ rw e ])
  where
    dead : is_live row ≡ false
    dead = elim (Bool-cases (is_live row)) [
      | inr k ↦ k
      | inl k ↦ absurd (
          ground (
            arith,
            found-counted (λ t. in_family row.family_id t && not t.revoked)
                (has_hash (crypto.hash_token raw)) s.refresh_tokens found
                (ground (arith, str_eq_self row.family_id)),
          ))
    ]
