-- ===== src/Tests/Memory.antt =====
-- A cipher that hides nothing, and a storage back end that is a list, for the tests.
use auto_jobs_apply.Prelude.{
  String, Bool, true, false, ◌≡◌, ◌⊎◌, refl, ap, inl, inr, Option, none, some, List, ◌∷◌, str_eq,
  str_eq_self, str_eq→eq, Bool-cases, any, count, select, delete, first, select-delete_other,
  select-delete_within,
}
use auto_jobs_apply.Tx.{Result, ok, err, os_error}
use auto_jobs_apply.Credentials.{Fernet}
use auto_jobs_apply.Storage.{FileStorage}
use Prim.Native.String.{◌++◌, count as text_length}
use text.Mathlib.Text.{starts_with}

abbrev pub clear_text : Fernet
clear_text = record {
  encrypt = λ key nonce text. text;
  decrypt = λ key text. some text;
  multi_decrypt = λ keys text. some text;
  kek_id = λ key. key;
  decrypts = λ key nonce text. refl;
  unwraps = λ keys key nonce text h. refl;
}

abbrev pub Files : Type 0
Files = List (String × String)

abbrev has_name : String → String × String → Bool
has_name key (name, content) = str_eq name key

abbrev is_under : String → String × String → Bool
is_under prefix (name, content) = starts_with name prefix

abbrev content_of : Option (String × String) → Result String
content_of none = err os_error
content_of (some (name, content)) = ok content

abbrev read : String → Files → Result String
read key files = content_of (first (select (has_name key) files))

abbrev written : String → String → Files → Files
written key content files = (key, content) ∷ delete (has_name key) files

pub read-written :
    (key content : String) (files : Files) → read key (written key content files) ≡ ok content
read-written key content files = rw (str_eq_self key)

pub read-written_other :
    (key content other : String) (files : Files)
    → str_eq key other ≡ false
    → read other (written key content files) ≡ read other files
read-written_other key content other files h = rw (
  h,
  select-delete_other (has_name key) (has_name other) files
      (λ file e. rw (str_eq→eq file.0 key e) h),
)

pub kept :
    (prefix key : String) (files : Files)
    → starts_with key prefix ≡ false
    → select (has_name key) (delete (is_under prefix) files) ≡ select (has_name key) files
kept prefix key files h =
    select-delete_other (is_under prefix) (has_name key) files
      (λ file e. apart file e (Bool-cases (has_name key file)))
  where
    apart :
        (file : String × String)
        → is_under prefix file ≡ true
        → (has_name key file ≡ true) ⊎ (has_name key file ≡ false)
        → has_name key file ≡ false
    apart file e (inl g) = cc (rw (str_eq→eq file.0 key g) at e)
    apart file e (inr g) = g

abbrev has : String → Files → Bool
has key files = any (λ file. true) (select (has_name key) files)

pub cleared :
    (prefix key : String) (files : Files)
    → starts_with key prefix ≡ true
    → has key (delete (is_under prefix) files) ≡ false
cleared prefix key files h = rw (
    select-delete_within (is_under prefix) (has_name key) files
      (λ file e. apart file e (Bool-cases (has_name key file))))
  where
    apart :
        (file : String × String)
        → is_under prefix file ≡ false
        → (has_name key file ≡ true) ⊎ (has_name key file ≡ false)
        → has_name key file ≡ false
    apart file e (inl g) = cc (rw (str_eq→eq file.0 key g) at e)
    apart file e (inr g) = g

abbrev pub memory : FileStorage Files
memory = record {
  put = λ key content content_type files. (
    ok (record { key = key; size = text_length content; content_type = content_type }),
    written key content files,
  );
  get = λ key files. (read key files, files);
  exists_key = has;
  delete = λ key files. (ok tt, delete (has_name key) files);
  delete_prefix =
      λ prefix files. (ok (count (is_under prefix) files), delete (is_under prefix) files);
  url_for = λ key files. (ok ("/api/v1/files/" ++ key), files);
  materialize_to_temp = λ key files. (ok ("/tmp/" ++ key), files);
  is_plain = λ key. true;
  put_gets = λ key content content_type o files plain h. read-written key content files;
  put_keeps = λ key content content_type other files plain plain' h.
      read-written_other key content other files h;
  delete_prefix_clears = λ prefix key n files plain plain' h e. cleared (prefix ++ "/") key files e;
  delete_prefix_keeps = λ prefix key files plain plain' e. (
    ap (λ found. content_of (first found)) (kept (prefix ++ "/") key files e),
    ap (λ found. any (λ file. true) found) (kept (prefix ++ "/") key files e),
  );
}
