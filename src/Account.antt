-- ===== src/Account.antt =====
-- services/account.py under backend/app, and `purge_deleted_accounts` of workers/tasks.py: accounts
-- that were deleted are purged after a grace period. The tables with a `user_id` are one list of
-- rows, each with its model. The storage back end is the interface `FileStorage`.
pub mod Purging
pub mod Daily
use auto_jobs_apply.Prelude.{
  ℕ, ◌+◌, ◌-◌, ◌*◌, String, Bool, true, false, ◌&&◌, Option, none, some, List, [], ◌∷◌, str_eq, ltb,
  ◌==◌, count, select, delete,
}
use auto_jobs_apply.Tx.{Result, Tx, ok, err}
use auto_jobs_apply.Auth.{User, has_user_id}
use auto_jobs_apply.Storage.{FileStorage, user_prefix}
use auto_jobs_apply.Storage.Service.{delete_prefix}
use Prim.Native.String.{◌++◌}

-- The models with a `user_id`.
pub data Model : Type 0 where
  run_verdict run_diagnosis run_trajectory application resume job : Model
  llm_usage user_credential user_llm_config user_settings : Model
  platform_session refresh_token password_reset_token : Model

abbrev pub model_number : Model → ℕ
model_number run_verdict = 0
model_number run_diagnosis = 1
model_number run_trajectory = 2
model_number application = 3
model_number resume = 4
model_number job = 5
model_number llm_usage = 6
model_number user_credential = 7
model_number user_llm_config = 8
model_number user_settings = 9
model_number platform_session = 10
model_number refresh_token = 11
model_number password_reset_token = 12

abbrev pub is_reset_token : Model → Bool
is_reset_token m = model_number m == 12

-- `_OWNED_MODELS_IN_DELETE_ORDER`
abbrev pub owned_models : List Model
owned_models =
    run_verdict ∷ run_diagnosis ∷ run_trajectory ∷ application ∷ resume ∷ job ∷ llm_usage
    ∷ user_credential ∷ user_llm_config ∷ user_settings ∷ platform_session ∷ refresh_token ∷ []

pub record OwnedRow : Type 0 where
  pub model : Model
  pub id : String
  pub user_id : String

pub record Accounts (Files : Type 0) : Type 0 where
  pub users : List User
  pub rows : List OwnedRow
  pub files : Files

pub record Purge : Type 0 where
  pub rows_deleted : ℕ
  pub files_removed : ℕ
  pub purged : ℕ

abbrev pub purge_grace_days : ℕ
purge_grace_days = 30

-- The WHERE clause of the DELETE on one model.
abbrev pub is_owned : String → Model → OwnedRow → Bool
is_owned user_id m r = model_number r.model == model_number m && str_eq r.user_id user_id

-- The loop over the models: the rows that are left, and how many were deleted.
unfoldable pub delete_owned : String → List Model → List OwnedRow → List OwnedRow × ℕ
delete_owned user_id [] rows = (rows, 0)
delete_owned user_id (m ∷ models) rows =
    let p = is_owned user_id m in
    let (left, n) = delete_owned user_id models (delete p rows) in (left, count p rows + n)

-- `User.deleted_at.isnot(None), User.deleted_at < cutoff`
abbrev pub is_past : ℕ → Option ℕ → Bool
is_past cutoff none = false
is_past cutoff (some t) = ltb t cutoff

abbrev pub is_expired : ℕ → User → Bool
is_expired now u = is_past (now - purge_grace_days * 86400) u.deleted_at

module _ {Files : Type 0} (storage : FileStorage Files) where
  -- What follows the deletion of the files; an exception of the storage was caught.
  abbrev pub after_files : String → Result ℕ → Accounts Files → Purge × Accounts Files
  after_files user_id (err e) s = (record { rows_deleted = 0; files_removed = 0; purged = 0 }, s)
  after_files user_id (ok files_removed) s =
      let (left, n) = delete_owned user_id owned_models s.rows in
      (
        record { rows_deleted = n; files_removed = files_removed; purged = 1 },
        record s { users = delete (has_user_id user_id) s.users; rows = left },
      )

  unfoldable pub delete_user_data : String → Accounts Files → Purge × Accounts Files
  delete_user_data user_id s =
      let (r, files) = delete_prefix storage user_id (user_prefix user_id ++ "/") s.files in
      after_files user_id r (record s { files = files })

  -- The loop over the candidates: how many were purged.
  unfoldable pub purge_all : List User → Accounts Files → ℕ × Accounts Files
  purge_all [] s = (0, s)
  purge_all (u ∷ candidates) s =
      let (result, after) = delete_user_data u.id s in
      let (purged, last) = purge_all candidates after in (result.purged + purged, last)

  unfoldable pub purge_deleted_accounts : ℕ → Accounts Files → ℕ × Accounts Files
  purge_deleted_accounts now s = purge_all (select (is_expired now) s.users) s
