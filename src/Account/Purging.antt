-- ===== src/Account/Purging.antt =====
-- A purge removes what the account owns, and nothing of another account.
use auto_jobs_apply.Prelude.{
  ℕ, ◌≤◌, String, Bool, true, false, ◌≡◌, refl, sym, ap, ◌∙◌, inl, inr, List, [], ◌∷◌, str_eq,
  str_eq→eq, ◌==◌, any, count, select, delete, Bool-cases, arith, count-select, length,
  select-delete_all, select-delete_other,
}
use auto_jobs_apply.Tx.{Result, ok, err}
use auto_jobs_apply.Auth.{User, has_user_id}
use auto_jobs_apply.Storage.{FileStorage, user_prefix}
use auto_jobs_apply.Storage.Service.{delete_prefix}
use auto_jobs_apply.Storage.Tenants.{is_slash_free, tree_key, tree_apart, tree_own, is_within-root}
use auto_jobs_apply.Account.{
  Model, model_number, is_reset_token, owned_models, OwnedRow, Accounts, Purge, is_owned,
  delete_owned, after_files, delete_user_data,
}
use Prim.Native.String.{◌++◌}

count-delete_le :
    {A : Type 0} (p q : A → Bool) (rows : List A) → count q (delete p rows) ≤ count q rows
count-delete_le p q [] = omega arith
count-delete_le p q (x ∷ rows) = ground (arith, count-delete_le p q rows)

count-delete_same : {A : Type 0} (p : A → Bool) (rows : List A) → count p (delete p rows) ≡ 0
count-delete_same p rows =
    sym (count-select p (delete p rows)) ∙ ap length (select-delete_all p rows)

other_owner :
    (u v : String) (m k : Model)
    → str_eq u v ≡ false
    → (r : OwnedRow) → is_owned u m r ≡ true
    → is_owned v k r ≡ false
other_owner u v m k d r h =
    let same : r.user_id ≡ u = str_eq→eq r.user_id u (ground arith) in rw (same, d) (ground arith)

other_user :
    (u v : String)
    → str_eq u v ≡ false
    → (r : User) → has_user_id u r ≡ true
    → has_user_id v r ≡ false
other_user u v d r h = rw (str_eq→eq r.id u h) d

delete_owned-count_le :
    (u : String) (models : List Model) (q : OwnedRow → Bool) (rows : List OwnedRow)
    → count q (delete_owned u models rows).0 ≤ count q rows
unfolding delete_owned
delete_owned-count_le u [] q rows = omega arith
delete_owned-count_le u (m ∷ models) q rows = omega (
  arith,
  count-delete_le (is_owned u m) q rows,
  delete_owned-count_le u models q (delete (is_owned u m) rows),
)

delete_owned-select :
    (u v : String) (models : List Model) (k : Model) (rows : List OwnedRow)
    → str_eq u v ≡ false
    → select (is_owned v k) (delete_owned u models rows).0 ≡ select (is_owned v k) rows
unfolding delete_owned
delete_owned-select u v [] k rows d = refl
delete_owned-select u v (m ∷ models) k rows d =
    delete_owned-select u v models k (delete (is_owned u m) rows) d
    ∙ select-delete_other (is_owned u m) (is_owned v k) rows (other_owner u v m k d)

-- `m` is among the models.
abbrev is_among : Model → List Model → Bool
is_among m models = any (λ k. model_number k == model_number m) models

is_among-owned : (m : Model) → is_reset_token m ≡ false → is_among m owned_models ≡ true
is_among-owned Model.run_verdict h = refl
is_among-owned Model.run_diagnosis h = refl
is_among-owned Model.run_trajectory h = refl
is_among-owned Model.application h = refl
is_among-owned Model.resume h = refl
is_among-owned Model.job h = refl
is_among-owned Model.llm_usage h = refl
is_among-owned Model.user_credential h = refl
is_among-owned Model.user_llm_config h = refl
is_among-owned Model.user_settings h = refl
is_among-owned Model.platform_session h = refl
is_among-owned Model.refresh_token h = refl
is_among-owned Model.password_reset_token h = cc

delete_owned-gone :
    (u : String) (models : List Model) (m : Model) (rows : List OwnedRow)
    → is_among m models ≡ true
    → count (is_owned u m) (delete_owned u models rows).0 ≡ 0
unfolding delete_owned
delete_owned-gone u [] m rows h = cc
delete_owned-gone u (k ∷ models) m rows h = elim (Bool-cases (model_number k == model_number m)) [
  | inl e ↦
      let same : model_number k ≡ model_number m = ground arith in
      let none_left : count (is_owned u m) (delete (is_owned u k) rows) ≡ 0 =
        rw same (count-delete_same (is_owned u m) rows) in
      omega (
        arith,
        none_left,
        delete_owned-count_le u models (is_owned u m) (delete (is_owned u k) rows),
      )
  | inr e ↦ delete_owned-gone u models m (delete (is_owned u k) rows) (rw e at h)
]

module _ {Files : Type 0} (storage : FileStorage Files) where
  -- What account `v` owns is in both states the same.
  abbrev pub Untouched : String → Accounts Files → Accounts Files → Type 0
  Untouched v s after =
      (select (has_user_id v) after.users ≡ select (has_user_id v) s.users)
      × ((m : Model) → select (is_owned v m) after.rows ≡ select (is_owned v m) s.rows)
      × ((rest : String)
          → storage.is_plain (tree_key v rest) ≡ true
          → (storage.get (tree_key v rest) after.files).0
            ≡ (storage.get (tree_key v rest) s.files).0)

  -- Nothing of account `u` is left, but password-reset tokens.
  abbrev pub Gone : String → Accounts Files → Type 0
  Gone u after =
      (count (has_user_id u) after.users ≡ 0)
      × ((m : Model) → is_reset_token m ≡ false → count (is_owned u m) after.rows ≡ 0)
      × ((rest : String)
          → storage.is_plain (tree_key u rest) ≡ true
          → storage.exists_key (tree_key u rest) after.files ≡ false)

  files_removed :
      (u : String) (files : Files)
      → delete_prefix storage u (user_prefix u ++ "/") files
        ≡ storage.delete_prefix (user_prefix u ++ "/") files
  unfolding delete_prefix
  files_removed u files = rw (is_within-root u)

  after_files-Untouched :
      (u v : String) (r : Result ℕ) (s : Accounts Files)
      → str_eq u v ≡ false
      → (select (has_user_id v) (after_files storage u r s).1.users
          ≡ select (has_user_id v) s.users)
        × ((m : Model)
            → select (is_owned v m) (after_files storage u r s).1.rows
              ≡ select (is_owned v m) s.rows)
        × ((after_files storage u r s).1.files ≡ s.files)
  after_files-Untouched u v (err e) s d = (refl, λ m. refl, refl)
  after_files-Untouched u v (ok n) s d = (
    select-delete_other (has_user_id u) (has_user_id v) s.users (other_user u v d),
    λ m. delete_owned-select u v owned_models m s.rows d,
    refl,
  )

  pub delete_user_data-Untouched :
      (u v : String) (s : Accounts Files)
      → storage.is_plain (user_prefix u) ≡ true
      → is_slash_free u ≡ true
      → is_slash_free v ≡ true
      → str_eq u v ≡ false
      → Untouched v s (delete_user_data storage u s).1
  unfolding delete_user_data
  delete_user_data-Untouched u v s tree h k d =
      let (r, files) = storage.delete_prefix (user_prefix u ++ "/") s.files in
      let (a, b, c) = after_files-Untouched u v r (record s { files = files }) d in
      rw (files_removed u s.files) (
        a,
        b,
        λ rest plain.
            ap (λ f. (storage.get (tree_key v rest) f).0) c
            ∙ (storage.delete_prefix_keeps (user_prefix u) (tree_key v rest) s.files tree plain
                (tree_apart u v rest h k d)).0,
      )

  -- What a purge of account `u` comes to, by what the storage answers when it removes the files.
  abbrev pub IsPurged : String → Accounts Files → Result ℕ → Purge × Accounts Files → Type 0
  IsPurged u s (err e) (result, after) =
      (result.purged ≡ 0)
      × (result.rows_deleted ≡ 0)
      × (after.users ≡ s.users)
      × (after.rows ≡ s.rows)
  IsPurged u s (ok n) (result, after) =
      (result.purged ≡ 1) × (result.files_removed ≡ n) × Gone u after

  after_files-IsPurged :
      (u : String) (s : Accounts Files) (removed : Result ℕ × Files)
      → storage.is_plain (user_prefix u) ≡ true
      → storage.delete_prefix (user_prefix u ++ "/") s.files ≡ removed
      → IsPurged u s removed.0 (after_files storage u removed.0 (record s { files = removed.1 }))
  after_files-IsPurged u s (err x, files) tree e = (refl, refl, refl, refl)
  after_files-IsPurged u s (ok n, files) tree e = (
    refl,
    refl,
    (
      count-delete_same (has_user_id u) s.users,
      λ m h. delete_owned-gone u owned_models m s.rows (is_among-owned m h),
      λ rest plain.
          ap (λ x. storage.exists_key (tree_key u rest) x.1) (sym e)
          ∙ storage.delete_prefix_clears (user_prefix u) (tree_key u rest) n s.files tree plain
              (ap (λ x. x.0) e) (tree_own u rest),
    ),
  )

-- A purge of an account, on a storage that keeps what it documents for the account's tree: where the
-- storage removes the files of the tree, the account, everything it owns but password-reset tokens,
-- and every file of its tree are gone, and one purge is counted; where the storage fails, the
-- database is as it was and nothing is counted, so that the next run tries again. Either way the
-- user, the rows and the files of every other account are what they were.
pub delete_user_data-Gone :
    {Files : Type 0} (storage : FileStorage Files) (u : String) (s : Accounts Files)
    → storage.is_plain (user_prefix u) ≡ true
    → is_slash_free u ≡ true
    → let out = delete_user_data storage u s in
      IsPurged storage u s (storage.delete_prefix (user_prefix u ++ "/") s.files).0 out
      × ((v : String) → is_slash_free v ≡ true → str_eq u v ≡ false → Untouched storage v s out.1)
unfolding delete_user_data
delete_user_data-Gone storage u s tree h = (
  rw (files_removed storage u s.files) (
      after_files-IsPurged storage u s (storage.delete_prefix (user_prefix u ++ "/") s.files) tree
        refl),
  λ v k d. delete_user_data-Untouched storage u v s tree h k d,
)
