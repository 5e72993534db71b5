-- ===== src/Auth/Login.antt =====
-- Registration and login.
use auto_jobs_apply.Prelude.{
  ℕ, ◌≤◌, String, true, false, ◌&&◌, ◌≡◌, refl, inl, inr, Option, none, some, [], ◌∷◌, ◌++◌, arith,
  str_eq_self, if◌then◌else◌, Bool-cases, any, count, select, first, first-select-append_new,
  first-select-none, first-select-some, count-append, any-eq-false,
}
use auto_jobs_apply.Tx.{Result, ok, err, auth, integrity, scalar-first}
use auto_jobs_apply.Auth.{
  User, Session, Crypto, Draw, has_email, RegisterRequest, new_user, register, login, issue_session,
  verify_password, is_usable,
}
use auto_jobs_apply.Auth.Rows.{SessionIsConsistent}

abbrev pub find_email : String → Session → Option User
find_email email s = first (select (has_email email) s.users)

-- A login for the user with this email, if there is one.
abbrev pub login_as :
    Crypto → String → Draw → ℕ → ℕ → Option User → Session → Result String × Session
login_as crypto password draw now days none s = (err auth, s)
login_as crypto password draw now days (some user) s =
    if verify_password crypto password user.hashed_password && is_usable user
    then issue_session crypto user none draw now days s
    else (err auth, s)

-- A password verifies against its stored hash.
pub verifies_stored :
    (crypto : Crypto) (salt plain : String)
    → verify_password crypto plain (some (crypto.hash salt plain)) ≡ true
verifies_stored crypto salt plain =
    ground (arith, crypto.is_nonempty salt plain, crypto.verifies salt plain)

pub login_found :
    (crypto : Crypto) (email password : String) (draw : Draw) (now days : ℕ) (s : Session)
    (found : Option User)
    → count (has_email email) s.users ≤ 1
    → find_email email s ≡ found
    → login crypto email password draw now days s ≡ login_as crypto password draw now days found s
unfolding login
login_found crypto email password draw now days s none one h =
    rw (scalar-first (has_email email) s.users one, h)
login_found crypto email password draw now days s (some user) one h =
    elim (Bool-cases (verify_password crypto password user.hashed_password && is_usable user)) [
      | inl e ↦ rw (scalar-first (has_email email) s.users one, h, e)
      | inr e ↦ rw (scalar-first (has_email email) s.users one, h, e)
    ]

-- On consistent accounts `login` starts a session exactly for the user with this email whose
-- password verifies and who is active and not deleted; it raises AuthError and changes nothing
-- for any other.
pub login-eq :
    (crypto : Crypto) (email password : String) (draw : Draw) (now days : ℕ) (s : Session)
    → SessionIsConsistent s
    → login crypto email password draw now days s
      ≡ login_as crypto password draw now days (find_email email s) s
login-eq crypto email password draw now days s c =
    login_found crypto email password draw now days s (find_email email s) (c.one_email email) refl

abbrev pub register_spec :
    Crypto → RegisterRequest → String → String → Session → Result User × Session
register_spec crypto request id salt s =
    let user = new_user crypto request id salt in
    if any (has_email request.email) s.users
    then (err integrity, s)
    else (ok user, record s { users = s.users ++ user ∷ [] })

-- `register` refuses an email that is taken, and else stores one active account with it.
register_lem :
    (crypto : Crypto) (request : RegisterRequest) (id salt : String) (s : Session)
    → SessionIsConsistent s
    → register crypto request id salt s ≡ register_spec crypto request id salt s
unfolding register
register_lem crypto request id salt s c =
    let p = has_email request.email in
    rw (scalar-first p s.users (c.one_email request.email)) (elim (Bool-cases (any p s.users)) [
      | inl e ↦ let (u, found) = first-select-some p s.users e in rw (found, e)
      | inr e ↦ rw (first-select-none p s.users e, e)
    ])

-- Who has registered can log in with that email and password.
pub register-login :
    (crypto : Crypto) (request : RegisterRequest) (id salt : String) (draw : Draw) (now days : ℕ)
    (s : Session) {user : User}
    → SessionIsConsistent s
    → (register crypto request id salt s).0 ≡ ok user
    → (login crypto request.email request.password draw now days
        (register crypto request id salt s).1).0
      ≡ ok (crypto.create_access_token id)
register-login crypto request id salt draw now days s c e =
    let p = has_email request.email in
    let spec = register_lem crypto request id salt s c in
    rw spec (elim (Bool-cases (any p s.users)) [
      | inl taken ↦ cc (rw taken at (rw spec at e))
      | inr free ↦ rw free (logged_in free)
    ])
  where
    after : Session
    after = record s { users = s.users ++ new_user crypto request id salt ∷ [] }

    logged_in :
        any (has_email request.email) s.users ≡ false
        → (login crypto request.email request.password draw now days after).0
          ≡ ok (crypto.create_access_token id)
    logged_in free =
        let user = new_user crypto request id salt in
        let one : count (has_email request.email) after.users ≤ 1 =
          rw (count-append (has_email request.email) s.users (user ∷ []))
            (ground (arith, any-eq-false (has_email request.email) s.users free)) in
        let found =
          first-select-append_new (has_email request.email) s.users user free
            (str_eq_self request.email) in
        rw
          (login_found crypto request.email request.password draw now days after (some user) one
            found)
          (unfold issue_session in rw (verifies_stored crypto salt request.password))
