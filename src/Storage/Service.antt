-- ===== src/Storage/Service.antt =====
-- `StorageService(storage, user_id)` of backend/app/core/storage/service.py.
use auto_jobs_apply.Prelude.{ℕ, String}
use auto_jobs_apply.Tx.{Tx, permission, guard, ◌>>◌}
use auto_jobs_apply.Storage.{FileStorage, StoredObject, is_within}

module _ {Files : Type 0} (storage : FileStorage Files) (user_id : String) where
  -- `_check`
  abbrev pub check : String → Tx Files (Unit {0})
  check key = guard (is_within user_id key) permission

  unfoldable pub put : String → String → String → Tx Files StoredObject
  put key content content_type = check key >> storage.put key content content_type

  unfoldable pub get : String → Tx Files String
  get key = check key >> storage.get key

  unfoldable pub delete : String → Tx Files (Unit {0})
  delete key = check key >> storage.delete key

  unfoldable pub delete_prefix : String → Tx Files ℕ
  delete_prefix prefix = check prefix >> storage.delete_prefix prefix

  unfoldable pub url_for : String → Tx Files String
  url_for key = check key >> storage.url_for key

  unfoldable pub materialize_to_temp : String → Tx Files String
  materialize_to_temp key = check key >> storage.materialize_to_temp key
