-- ===== src/Storage.antt =====
-- core/storage/{base,keys,service,documents}.py under backend/app: files under the keys of their
-- tenant. The two back ends, core/storage/{local,s3}.py, are left as the interface `FileStorage`: they
-- only call the file system and the S3 client. Bytes are a text.
pub mod Service
pub mod Tenants
use auto_jobs_apply.Prelude.{
  ℕ, String, Bool, true, false, not, ◌||◌, ◌&&◌, ◌≡◌, ◌==◌, Option, none, some, str_eq,
}
use auto_jobs_apply.Tx.{Error, Result, Tx, ok, err, permission, guard, pure, ◌>>=◌, ◌>>◌}
use Prim.Native.String.{◌++◌}
use Prim.Native.Char.{code}
use text.Mathlib.Text.{starts_with}

pub record StoredObject : Type 0 where
  pub key : String
  pub size : ℕ
  pub content_type : String

-- The protocol of a back end whose objects make the state `Files`, with what it promises for plain
-- keys and prefixes: a back end on a file system resolves the others (`a/../b`) to another key.
pub record FileStorage (Files : Type 0) : Type 0 where
  pub put : String → String → String → Tx Files StoredObject
  pub get : String → Tx Files String
  pub exists_key : String → Files → Bool
  pub delete : String → Tx Files (Unit {0})
  pub delete_prefix : String → Tx Files ℕ
  pub url_for : String → Tx Files String
  pub materialize_to_temp : String → Tx Files String
  pub is_plain : String → Bool
  pub put_gets :
      (key content content_type : String) (o : StoredObject) (files : Files)
      → is_plain key ≡ true
      → (put key content content_type files).0 ≡ ok o
      → (get key (put key content content_type files).1).0 ≡ ok content
  pub put_keeps :
      (key content content_type other : String) (files : Files)
      → is_plain key ≡ true
      → is_plain other ≡ true
      → str_eq key other ≡ false
      → (get other (put key content content_type files).1).0 ≡ (get other files).0
  pub delete_prefix_clears :
      (prefix key : String) (n : ℕ) (files : Files)
      → is_plain prefix ≡ true
      → is_plain key ≡ true
      → (delete_prefix (prefix ++ "/") files).0 ≡ ok n
      → starts_with key (prefix ++ "/") ≡ true
      → exists_key key (delete_prefix (prefix ++ "/") files).1 ≡ false
  pub delete_prefix_keeps :
      (prefix key : String) (files : Files)
      → is_plain prefix ≡ true
      → is_plain key ≡ true
      → starts_with key (prefix ++ "/") ≡ false
      → ((get key (delete_prefix (prefix ++ "/") files).1).0 ≡ (get key files).0)
        × (exists_key key (delete_prefix (prefix ++ "/") files).1 ≡ exists_key key files)

abbrev pub user_prefix : String → String
user_prefix user_id = "users/" ++ user_id

-- `f"{user_prefix(user_id)}/{folder}/{id}.{ext}"`
abbrev pub document_key : String → String → String → String → String
document_key folder user_id id ext = user_prefix user_id ++ (folder ++ (id ++ ("." ++ ext)))

abbrev pub resume_key : String → String → String → String
resume_key = document_key "/resumes/"

abbrev pub upload_key : String → String → String → String
upload_key = document_key "/uploads/"

abbrev pub cover_letter_key : String → String → String → String
cover_letter_key = document_key "/cover_letters/"

abbrev pub screenshot_key : String → String → String → String
screenshot_key user_id application_id name =
    user_prefix user_id ++ ("/screenshots/" ++ (application_id ++ ("/" ++ name)))

abbrev pub trajectory_key : String → String → String
trajectory_key user_id run_id = document_key "/trajectories/" user_id run_id "json"

unfoldable pub is_within : String → String → Bool
is_within user_id key =
    str_eq key (user_prefix user_id) || starts_with key (user_prefix user_id ++ "/")
