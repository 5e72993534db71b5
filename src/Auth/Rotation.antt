-- ===== src/Auth/Rotation.antt =====
-- Refresh tokens are used once: a rotation, and a second use of the same token.
use auto_jobs_apply.Prelude.{
  ℕ, String, Bool, true, false, not, ◌&&◌, ◌≡◌, refl, inl, inr, Option, none, some, List, [], ◌∷◌,
  ◌++◌, arith, ltb, if◌then◌else◌, Bool-cases, count, select, update, first, is_set,
  count-update_none, ◌==◌,
}
use auto_jobs_apply.Tx.{Result, ok, err, auth}
use auto_jobs_apply.Auth.{
  User, RefreshToken, Session, Crypto, Draw, cleared, set_to, has_hash, has_user_id, is_claimable,
  claim, in_family, revoke, refresh, claim_and_rotate, issue_session, new_token, is_usable, rotated,
  revoke_family,
}
use auto_jobs_apply.Auth.Rows.{
  SessionIsConsistent, find_token, presented, refresh_lem, dead-unclaimable,
}

abbrev pub is_live : RefreshToken → Bool
is_live t = not t.used && not t.revoked

-- The tokens of this family that are not revoked.
abbrev pub unrevoked : String → Session → ℕ
unrevoked f s = count (λ t. in_family f t && not t.revoked) s.refresh_tokens

-- What `refresh` answers to a used or a revoked token.
abbrev pub reused : RefreshToken → Session → Result String × Session
reused row s = (err auth, record (revoke_family row.family_id s) { response = cleared })

claim-dead :
    (crypto : Crypto) (draw : Draw) (now days : ℕ) (row : RefreshToken) (s : Session)
    → count (is_claimable row.id) s.refresh_tokens ≡ 0
    → claim_and_rotate crypto draw now days row s ≡ reused row s
unfolding claim_and_rotate
claim-dead crypto draw now days row s h = rw h

-- A token that is used or revoked, and not expired, gets no session: its whole family is revoked.
pub refresh-dead :
    (crypto : Crypto) (draw : Draw) (now days : ℕ) (raw : String) (s : Session) (row : RefreshToken)
    → SessionIsConsistent s
    → is_set (some raw) ≡ true
    → find_token crypto raw s ≡ some row
    → is_live row ≡ false
    → refresh crypto draw now days (some raw) s
      ≡ (if ltb row.expires_at now then (err auth, s) else reused row s)
refresh-dead crypto draw now days raw s row c set found dead =
    rw (refresh_lem crypto draw now days raw s set (c.one_hash (crypto.hash_token raw)), found)
      (elim (Bool-cases (ltb row.expires_at now)) [
        | inl e ↦ rw e
        | inr e ↦ rw (
          e,
          claim-dead crypto draw now days row s (
              dead-unclaimable (has_hash (crypto.hash_token raw)) s.refresh_tokens row found dead
                (c.one_id row.id)),
        )
      ])

pub revoke_family-unrevoked : (f : String) (s : Session) → unrevoked f (revoke_family f s) ≡ 0
revoke_family-unrevoked f s =
    count-update_none (in_family f) (λ t. in_family f t && not t.revoked) revoke s.refresh_tokens
      (λ t h. ground arith) (λ t h. ground arith)

-- The rows after a rotation of `row`.
abbrev pub rotated_rows :
    Crypto → Draw → ℕ → ℕ → RefreshToken → User → List RefreshToken → List RefreshToken
rotated_rows crypto draw now days row user rows =
    update (is_claimable row.id) claim rows
    ++ new_token crypto user (some row.family_id) draw now days ∷ []

-- What a refresh that succeeds has found, and what it leaves.
pub record Rotated (crypto : Crypto) (draw : Draw) (now days : ℕ) (raw : String) (s : Session)
    (answer : Result String × Session) : Type 0 where
  pub row : RefreshToken
  pub user : User
  pub found : find_token crypto raw s ≡ some row
  pub unexpired : ltb row.expires_at now ≡ false
  pub live : is_live row ≡ true
  pub owner : first (select (has_user_id row.user_id) s.users) ≡ some user
  pub usable : is_usable user ≡ true
  pub result : answer.0 ≡ ok (crypto.create_access_token user.id)
  pub rows : answer.1.refresh_tokens ≡ rotated_rows crypto draw now days row user s.refresh_tokens
  pub users : answer.1.users ≡ s.users
  pub cookie : answer.1.response ≡ set_to draw.token

module _ (crypto : Crypto) (draw : Draw) (now days : ℕ) (raw : String) (s : Session)
    (c : SessionIsConsistent s) (set : is_set (some raw) ≡ true) where
  rotated_by :
      (row : RefreshToken) (owner : Option User) {access : String}
      → find_token crypto raw s ≡ some row
      → ltb row.expires_at now ≡ false
      → is_live row ≡ true
      → first (select (has_user_id row.user_id) s.users) ≡ owner
      → (rotated crypto draw now days row owner s).0 ≡ ok access
      → Rotated crypto draw now days raw s (rotated crypto draw now days row owner s)
  unfolding issue_session
  rotated_by row none found fresh live h e = cc
  rotated_by row (some user) found fresh live h e = elim (Bool-cases (is_usable user)) [
    | inr f ↦ cc (rw f at e)
    | inl f ↦ rw f (record {
      row = row;
      user = user;
      found = found;
      unexpired = fresh;
      live = live;
      owner = h;
      usable = f;
      result = refl;
      rows = refl;
      users = refl;
      cookie = refl;
    })
  ]

  presented-Rotated :
      (found : Option RefreshToken) {access : String}
      → find_token crypto raw s ≡ found
      → (presented crypto draw now days found s).0 ≡ ok access
      → Rotated crypto draw now days raw s (presented crypto draw now days found s)
  unfolding claim_and_rotate
  presented-Rotated none h e = cc
  presented-Rotated (some row) h e = elim (Bool-cases (ltb row.expires_at now)) [
    | inl f ↦ cc (rw f at e)
    | inr f ↦ elim (Bool-cases (count (is_claimable row.id) s.refresh_tokens == 0)) [
      | inl g ↦ cc (rw (f, g) at e)
      | inr g ↦
          rw (f, g)
            (rotated_by row (first (select (has_user_id row.user_id) s.users)) h f (alive row h g)
              refl (rw (f, g) at e))
    ]
  ]
    where
      alive :
          (row : RefreshToken)
          → find_token crypto raw s ≡ some row
          → (count (is_claimable row.id) s.refresh_tokens == 0) ≡ false
          → is_live row ≡ true
      alive row h g = elim (Bool-cases (is_live row)) [
        | inl k ↦ k
        | inr k ↦ ground (
          arith,
          dead-unclaimable (has_hash (crypto.hash_token raw)) s.refresh_tokens row h k
              (c.one_id row.id),
        )
      ]

pub refresh-Rotated :
    (crypto : Crypto) (draw : Draw) (now days : ℕ) (raw : String) (s : Session) {access : String}
    → SessionIsConsistent s
    → is_set (some raw) ≡ true
    → (refresh crypto draw now days (some raw) s).0 ≡ ok access
    → Rotated crypto draw now days raw s (refresh crypto draw now days (some raw) s)
refresh-Rotated crypto draw now days raw s c set e =
    let looked = refresh_lem crypto draw now days raw s set (c.one_hash (crypto.hash_token raw)) in
    rw looked (
      presented-Rotated crypto draw now days raw s c set (find_token crypto raw s) refl
        (rw looked at e))
