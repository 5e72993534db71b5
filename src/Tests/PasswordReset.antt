-- ===== src/Tests/PasswordReset.antt =====
-- A reset link is redeemed.
use auto_jobs_apply.Prelude.{◌≡◌, ◌≤◌, refl, arith, some, count}
use auto_jobs_apply.Tx.{ok, err, auth}
use auto_jobs_apply.Auth.{refresh}
use auto_jobs_apply.PasswordReset.{has_reset_hash, reset_password}
use auto_jobs_apply.PasswordReset.Effects.{reset_password_twice, reset_password_ends_sessions}
use auto_jobs_apply.Tests.Samples.{
  plain_crypto, first_token, reset_link, accounts, accounts-consistent, second_draw,
}

one_link : count (has_reset_hash "link-1") accounts.reset_tokens ≤ 1
one_link = ground arith

redeemed_link : (reset_password plain_crypto "link-1" "new" "salt" 500 accounts).0 ≡ ok tt
unfolding reset_password
redeemed_link = refl

reset_password_twice_example :
    let s = (reset_password plain_crypto "link-1" "new" "salt" 500 accounts).1 in
    reset_password plain_crypto "link-1" "newer" "salt" 600 s ≡ (err auth, s)
reset_password_twice_example =
    reset_password_twice plain_crypto "link-1" "new" "salt" "newer" "salt" 500 600 accounts one_link
      redeemed_link

reset_password_ends_sessions_example :
    (refresh plain_crypto second_draw 600 7
      (some "raw-1")
      (reset_password plain_crypto "link-1" "new" "salt" 500 accounts).1).0
    ≡ err auth
reset_password_ends_sessions_example =
    reset_password_ends_sessions plain_crypto "link-1" "new" "salt" "raw-1" second_draw 500 600 7
      accounts reset_link first_token accounts-consistent one_link refl refl refl refl redeemed_link
