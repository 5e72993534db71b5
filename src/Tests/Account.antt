-- ===== src/Tests/Account.antt =====
-- Accounts are purged.
use auto_jobs_apply.Prelude.{◌≡◌, refl, inl, inr, String, [], ◌∷◌, some, none, false, true, str_eq}
use auto_jobs_apply.Auth.{User}
use auto_jobs_apply.Account.{
  Accounts, OwnedRow, Model, job, password_reset_token, delete_user_data, delete_owned, purge_all,
  purge_deleted_accounts,
}
use auto_jobs_apply.Tx.{ok}
use auto_jobs_apply.Account.Purging.{IsPurged, Untouched, delete_user_data-Gone}
use auto_jobs_apply.Account.Daily.{purge_deleted_accounts-Untouched}
use auto_jobs_apply.Storage.{resume_key, is_within}
use auto_jobs_apply.Storage.Service.{delete_prefix}
use auto_jobs_apply.Storage.Tenants.{is_slash_free}
use auto_jobs_apply.Tests.Memory.{Files, memory}
use auto_jobs_apply.Tests.Samples.{alice}

abbrev bob : User
bob = record {
  id = "bob";
  email = "bob@example.org";
  hashed_password = none;
  full_name = none;
  is_active = false;
  deleted_at = some 100;
}

abbrev row : Model → String → OwnedRow
row m user_id = record { model = m; id = "row"; user_id = user_id }

abbrev accounts : Accounts Files
accounts = record {
  users = alice ∷ bob ∷ [];
  rows = row job "alice" ∷ row job "bob" ∷ row password_reset_token "bob" ∷ [];
  files = (resume_key "alice" "r" "pdf", "a") ∷ (resume_key "bob" "r" "pdf", "b") ∷ [];
}

-- A row of password_reset_tokens is not in the list of what a purge deletes.
reset_token_left :
    (delete_user_data memory "bob" accounts).1.rows
    ≡ row job "alice" ∷ row password_reset_token "bob" ∷ []
unfolding delete_user_data delete_owned delete_prefix is_within
reset_token_left = refl

delete_user_data-Gone_example :
    let out = delete_user_data memory "bob" accounts in
    IsPurged memory "bob" accounts (ok 1) out
    × ((v : String)
        → is_slash_free v ≡ true
        → str_eq "bob" v ≡ false
        → Untouched memory v accounts out.1)
delete_user_data-Gone_example = delete_user_data-Gone memory "bob" accounts refl refl

-- Alice is not deleted; Bob was a second too long ago.
purge_deleted_accounts-Untouched_example :
    Untouched memory "alice" accounts (purge_deleted_accounts memory 2592101 accounts).1
purge_deleted_accounts-Untouched_example =
    purge_deleted_accounts-Untouched memory 2592101 "alice" accounts
      ((refl, refl), ((refl, refl), tt)) refl (inr tt, (inl refl, tt))

bob_purged : (purge_deleted_accounts memory 2592101 accounts).0 ≡ 1
unfolding purge_deleted_accounts purge_all delete_user_data delete_prefix is_within
bob_purged = refl

bob_kept : (purge_deleted_accounts memory 2592100 accounts).0 ≡ 0
unfolding purge_deleted_accounts purge_all
bob_kept = refl
