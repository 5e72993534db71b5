-- ===== src/Auth/Logout.antt =====
-- A logout and the deletion of an account end the sessions.
use auto_jobs_apply.Prelude.{
  subst, first-select_unique, ℕ, String, Bool, true, false, ◌≡◌, refl, ◌∙◌, inl, inr, Option, none,
  some, arith, str_eq, str_eq_self, Bool-cases, select, ltb, update, first, is_set, is_some,
  count-update_same, first-select-update,
}
use auto_jobs_apply.Tx.{ok, err, auth, scalar-first}
use auto_jobs_apply.Auth.{
  User, RefreshToken, Session, Crypto, Draw, cleared, has_hash, has_user_id, has_email, in_family,
  of_user, revoke, refresh, logout, revoked_family, delete_account, soft_delete, login, is_usable,
}
use auto_jobs_apply.Auth.Rows.{has_token_id, SessionIsConsistent, find_token, refresh_lem}
use auto_jobs_apply.Auth.Rotation.{is_live, refresh-dead, revoke_family-unrevoked}
use auto_jobs_apply.Auth.Revocation.{refresh-revoked}
use auto_jobs_apply.Auth.Login.{login_found, login_as}

-- The tokens that pass `p` are revoked, and the cookie is cleared.
abbrev revoked_where : (RefreshToken → Bool) → Session → Session
revoked_where p s = record s {
  refresh_tokens = update p revoke s.refresh_tokens;
  response = cleared;
}

revoked-consistent :
    (p : RefreshToken → Bool) (s : Session)
    → SessionIsConsistent s
    → SessionIsConsistent (revoked_where p s)
revoked-consistent p s c = record {
  one_id = λ i.
      rw (count-update_same p (has_token_id i) revoke s.refresh_tokens (λ t e. refl)) (c.one_id i);
  one_hash = λ h.
      rw (count-update_same p (has_hash h) revoke s.refresh_tokens (λ t e. refl)) (c.one_hash h);
  one_user = c.one_user;
  one_email = c.one_email;
}

logout_found :
    (crypto : Crypto) (raw : String) (s : Session) (found : Option RefreshToken)
    → SessionIsConsistent s
    → is_set (some raw) ≡ true
    → find_token crypto raw s ≡ found
    → logout crypto (some raw) s ≡ (ok tt, record (revoked_family found s).1 { response = cleared })
unfolding logout
logout_found crypto raw s none c set h = rw (
  set,
  scalar-first (has_hash (crypto.hash_token raw)) s.refresh_tokens
      (c.one_hash (crypto.hash_token raw)),
  h,
)
logout_found crypto raw s (some row) c set h = rw (
  set,
  scalar-first (has_hash (crypto.hash_token raw)) s.refresh_tokens
      (c.one_hash (crypto.hash_token raw)),
  h,
)

no_token :
    (crypto : Crypto) (draw : Draw) (now days : ℕ) (raw : String) (s : Session)
    → SessionIsConsistent s
    → is_set (some raw) ≡ true
    → find_token crypto raw s ≡ none
    → (refresh crypto draw now days (some raw) s).0 ≡ err auth
no_token crypto draw now days raw s c set h =
    rw (refresh_lem crypto draw now days raw s set (c.one_hash (crypto.hash_token raw)), h)

-- After a logout, the refresh cookie that was presented to it gets no session.
pub logout-refresh :
    (crypto : Crypto) (draw : Draw) (now days : ℕ) (raw : String) (s : Session)
    → SessionIsConsistent s
    → is_set (some raw) ≡ true
    → (refresh crypto draw now days (some raw) (logout crypto (some raw) s).1).0 ≡ err auth
logout-refresh crypto draw now days raw s c set = after (find_token crypto raw s) refl
  where
    after :
        (found : Option RefreshToken)
        → find_token crypto raw s ≡ found
        → (refresh crypto draw now days (some raw) (logout crypto (some raw) s).1).0 ≡ err auth
    after none h = rw (logout_found crypto raw s none c set h) (
        no_token crypto draw now days raw (record s { response = cleared })
          (record {
            one_id = c.one_id;
            one_hash = c.one_hash;
            one_user = c.one_user;
            one_email = c.one_email;
          })
          set h)
    after (some row) h =
        let s' = revoked_where (in_family row.family_id) s in
        let found =
          first-select-update (in_family row.family_id) (has_hash (crypto.hash_token raw)) revoke
            s.refresh_tokens (λ t. refl) h in
        rw (logout_found crypto raw s (some row) c set h) (
          refresh-revoked crypto draw now days raw s' (revoke row)
            (revoked-consistent (in_family row.family_id) s c) set
            (found ∙ rw (str_eq_self row.family_id)) (revoke_family-unrevoked row.family_id s))

delete_account_lem :
    (now : ℕ) (user_id : String) (s : Session) (user : User)
    → first (select (has_user_id user_id) s.users) ≡ some user
    → is_some user.deleted_at ≡ false
    → delete_account now user_id s ≡ (
      ok tt,
      record (revoked_where (of_user user_id) s) {
        users = update (has_user_id user_id) (soft_delete now) s.users;
      },
    )
unfolding delete_account
delete_account_lem now user_id s user h live = rw (h, live)

deleted-consistent :
    (now : ℕ) (user_id : String) (s : Session)
    → SessionIsConsistent s
    → SessionIsConsistent (record (revoked_where (of_user user_id) s) {
      users = update (has_user_id user_id) (soft_delete now) s.users;
    })
deleted-consistent now user_id s c =
    let r = revoked-consistent (of_user user_id) s c in
    record {
      one_id = r.one_id;
      one_hash = r.one_hash;
      one_user = λ i.
          rw
            (count-update_same (has_user_id user_id) (has_user_id i) (soft_delete now) s.users
              (λ u e. refl))
            (c.one_user i);
      one_email = λ i.
          rw
            (count-update_same (has_user_id user_id) (has_email i) (soft_delete now) s.users
              (λ u e. refl))
            (c.one_email i);
    }

pub dead_refused :
    (crypto : Crypto) (draw : Draw) (now days : ℕ) (raw : String) (s : Session) (row : RefreshToken)
    → SessionIsConsistent s
    → is_set (some raw) ≡ true
    → find_token crypto raw s ≡ some row
    → is_live row ≡ false
    → (refresh crypto draw now days (some raw) s).0 ≡ err auth
dead_refused crypto draw now days raw s row c set found dead =
    rw (refresh-dead crypto draw now days raw s row c set found dead)
      (elim (Bool-cases (ltb row.expires_at now)) [ inl e ↦ rw e | inr e ↦ rw e ])

unusable :
    (crypto : Crypto) (password : String) (draw : Draw) (now days : ℕ) (user : User) (s : Session)
    → is_usable user ≡ false
    → login_as crypto password draw now days (some user) s ≡ (err auth, s)
unusable crypto password draw now days user s h = ground (arith, h)

owned_by : (i j : String) → i ≡ j → str_eq i j ≡ true
owned_by i j e = subst (λ k. str_eq i k ≡ true) e (str_eq_self i)

-- After a user deletes the account, none of the user's refresh tokens gets a session, and neither
-- does a login with the user's email, whatever the password.
pub delete_account_locks_out :
    (crypto : Crypto) (draw draw' : Draw) (at now days : ℕ) (raw password : String) (s : Session)
    (user : User) (row : RefreshToken)
    → SessionIsConsistent s
    → first (select (has_user_id user.id) s.users) ≡ some user
    → is_some user.deleted_at ≡ false
    → is_set (some raw) ≡ true
    → find_token crypto raw s ≡ some row
    → row.user_id ≡ user.id
    → let s' = (delete_account at user.id s).1 in
      ((refresh crypto draw now days (some raw) s').0 ≡ err auth)
      × (login crypto user.email password draw' now days s' ≡ (err auth, s'))
delete_account_locks_out crypto draw draw' at now days raw password s user row c owner live set
      found of =
    let s' = record (revoked_where (of_user user.id) s) {
      users = update (has_user_id user.id) (soft_delete at) s.users;
    } in
    let c' = deleted-consistent at user.id s c in
    rw (delete_account_lem at user.id s user owner live) (
      dead_refused crypto draw now days raw s' (revoke row) c' set
          (first-select-update (of_user user.id) (has_hash (crypto.hash_token raw)) revoke
              s.refresh_tokens (λ t. refl) found
            ∙ rw (owned_by row.user_id user.id of))
          (ground arith),
      rw
          (login_found crypto user.email password draw' now days s' (some (soft_delete at user))
            (c'.one_email user.email)
            (first-select-update (has_user_id user.id) (has_email user.email) (soft_delete at)
                s.users (λ u. refl)
                (first-select_unique (has_user_id user.id) (has_email user.email) s.users owner
                  (str_eq_self user.email) (c.one_email user.email))
              ∙ rw (str_eq_self user.id)))
          (unusable crypto password draw' now days (soft_delete at user) s' (ground arith)),
    )
