-- ===== src/Account/Daily.antt =====
-- The daily purge leaves the other accounts alone.
use auto_jobs_apply.Prelude.{
  ℕ, ◌+◌, ◌-◌, ◌*◌, ◌≤◌, String, true, false, ◌≡◌, ◌⊎◌, refl, ◌∙◌, inl, inr, Option, none, some,
  List, [], ◌∷◌, str_eq, select, All, Bool-cases, arith,
}
use auto_jobs_apply.Auth.{User, has_user_id}
use auto_jobs_apply.Storage.{FileStorage, user_prefix}
use auto_jobs_apply.Storage.Tenants.{is_slash_free}
use auto_jobs_apply.Account.{
  Accounts, delete_user_data, is_expired, is_past, purge_grace_days, purge_all,
  purge_deleted_accounts,
}
use auto_jobs_apply.Account.Purging.{Untouched, delete_user_data-Untouched}

-- Not deleted, or deleted at most 30 days ago.
abbrev pub IsRecent : ℕ → Option ℕ → Type 0
IsRecent now none = Unit {0}
IsRecent now (some deleted_at) = now ≤ deleted_at + 2592000

IsRecent-is_past :
    (now : ℕ) (deleted_at : Option ℕ)
    → IsRecent now deleted_at
    → is_past (now - purge_grace_days * 86400) deleted_at ≡ false
IsRecent-is_past now none h = refl
IsRecent-is_past now (some t) h = ground arith

module _ {Files : Type 0} (storage : FileStorage Files) where
  -- The id of an account is a folder of its own.
  abbrev pub HasTree : User → Type 0
  HasTree u = (is_slash_free u.id ≡ true) × (storage.is_plain (user_prefix u.id) ≡ true)

  -- An account to purge, other than `v`.
  abbrev IsOther : String → User → Type 0
  IsOther v u = HasTree u × (str_eq u.id v ≡ false)

  Untouched-trans :
      (v : String) (a b c : Accounts Files)
      → Untouched storage v a b
      → Untouched storage v b c
      → Untouched storage v a c
  Untouched-trans v a b c (p, q, r) (p', q', r') =
      (p' ∙ p, λ m. q' m ∙ q m, λ rest plain. r' rest plain ∙ r rest plain)

  purge_all-Untouched :
      (v : String) (candidates : List User) (s : Accounts Files)
      → is_slash_free v ≡ true
      → All (IsOther v) candidates
      → Untouched storage v s (purge_all storage candidates s).1
  unfolding purge_all
  purge_all-Untouched v [] s k h = (refl, λ m. refl, λ rest plain. refl)
  purge_all-Untouched v (u ∷ candidates) s k (((free, tree), d), h) =
      let next = (delete_user_data storage u.id s).1 in
      Untouched-trans v s next (purge_all storage candidates next).1
        (delete_user_data-Untouched storage u.id v s tree free k d)
        (purge_all-Untouched v candidates next k h)

  -- The users that the query finds are others, if every row of `v` is recent.
  others_found :
      (now : ℕ) (v : String) (users : List User)
      → All HasTree users
      → All (λ u. (has_user_id v u ≡ false) ⊎ IsRecent now u.deleted_at) users
      → All (IsOther v) (select (is_expired now) users)
  others_found now v [] trees recent = tt
  others_found now v (u ∷ users) (tree, trees) (inl other, recent) =
      let rest = others_found now v users trees recent in
      elim (Bool-cases (is_expired now u))
        as (λ _. All (IsOther v) (select (is_expired now) (u ∷ users))) [
          | inl e ↦ rw e ((tree, other), rest)
          | inr e ↦ rw e rest
        ]
  others_found now v (u ∷ users) (tree, trees) (inr young, recent) =
      rw (IsRecent-is_past now u.deleted_at young) (others_found now v users trees recent)

-- The daily purge does not touch an account that is not deleted, or was deleted at most 30 days
-- (2,592,000 seconds) ago: its user, its rows and its files are what they were, whatever the storage
-- does for others. The ids of the accounts are folders of their own on the storage.
pub purge_deleted_accounts-Untouched :
    {Files : Type 0} (storage : FileStorage Files) (now : ℕ) (v : String) (s : Accounts Files)
    → All (HasTree storage) s.users
    → is_slash_free v ≡ true
    → All (λ u. (has_user_id v u ≡ false) ⊎ IsRecent now u.deleted_at) s.users
    → Untouched storage v s (purge_deleted_accounts storage now s).1
unfolding purge_deleted_accounts
purge_deleted_accounts-Untouched storage now v s trees k recent =
    purge_all-Untouched storage v (select (is_expired now) s.users) s k
      (others_found storage now v s.users trees recent)
