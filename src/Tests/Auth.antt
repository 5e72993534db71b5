-- ===== src/Tests/Auth.antt =====
-- Accounts log in, refresh and log out.
use auto_jobs_apply.Prelude.{◌≡◌, refl, none, some}
use auto_jobs_apply.Tx.{ok, err, auth}
use auto_jobs_apply.Auth.{
  claim_and_rotate, issue_session, new_user, RegisterRequest, refresh, login, register,
  delete_account,
}
use auto_jobs_apply.Auth.Rotation.{unrevoked}
use auto_jobs_apply.Auth.Revocation.{refresh_replayed}
use auto_jobs_apply.Auth.Logout.{delete_account_locks_out}
use auto_jobs_apply.Tests.Samples.{
  plain_crypto, alice, first_token, accounts, accounts-consistent, second_draw,
}

refreshed : (refresh plain_crypto second_draw 500 7 (some "raw-1") accounts).0 ≡ ok "alice"
unfolding refresh claim_and_rotate issue_session
refreshed = refl

refresh_replayed_example :
    let s = (refresh plain_crypto second_draw 500 7 (some "raw-1") accounts).1 in
    let (answer, after) = refresh plain_crypto second_draw 600 7 (some "raw-1") s in
    (answer ≡ err auth) × (unrevoked "f-1" after ≡ 0)
refresh_replayed_example =
    refresh_replayed plain_crypto second_draw second_draw 500 600 7 7 "raw-1" accounts first_token
      accounts-consistent refl refl refl refl refl refreshed

delete_account_locks_out_example :
    let s = (delete_account 400 "alice" accounts).1 in
    ((refresh plain_crypto second_draw 500 7 (some "raw-1") s).0 ≡ err auth)
    × (login plain_crypto "a@x.org" "secret" second_draw 500 7 s ≡ (err auth, s))
delete_account_locks_out_example =
    delete_account_locks_out plain_crypto second_draw second_draw 400 500 7 "raw-1" "secret"
      accounts alice first_token accounts-consistent refl refl refl refl refl

abbrev bob : RegisterRequest
bob = record { email = "b@x.org"; password = "hunter2"; full_name = none }

registered :
    (register plain_crypto bob "bob" "salt" accounts).0
    ≡ ok (new_user plain_crypto bob "bob" "salt")
unfolding register
registered = refl
