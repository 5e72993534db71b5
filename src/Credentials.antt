-- ===== src/Credentials.antt =====
-- core/secrets/{base,local,credential_store}.py and models/user_credential.py under backend/app: secrets
-- that are stored encrypted. Fernet and MultiFernet are a library, the record `Fernet`, with what it
-- documents; `draw` stands for the data key and the nonces that an encryption draws. JSON and the
-- encoding of texts are left to the callers: a secret is a text.
pub mod Rows
pub mod Rotation
use auto_jobs_apply.Prelude.{
  ℕ, ◌+◌, String, Bool, true, false, ◌&&◌, ◌≡◌, Option, none, some, List, [], ◌∷◌, ◌++◌, str_eq,
  if◌then◌else◌, any, count, select, update, delete, ◌==◌, not,
}
use auto_jobs_apply.Tx.{
  Error, Result, Tx, ok, err, invalid_token, pure, lift, ◌>>=◌, ◌>>◌, scalar_one_or_none,
}

-- What an encryption draws: the data key, and a nonce for each of its two calls of Fernet.
pub record Draw : Type 0 where
  pub dek : String
  pub nonce : String
  pub wrap_nonce : String

-- `encrypt key nonce text`; `decrypt` is none where the library raises InvalidToken. MultiFernet
-- encrypts with its first key and decrypts with whichever of its keys fits.
pub record Fernet : Type 0 where
  pub encrypt : String → String → String → String
  pub decrypt : String → String → Option String
  pub multi_decrypt : List String → String → Option String
  pub kek_id : String → String
  pub decrypts : (key nonce text : String) → decrypt key (encrypt key nonce text) ≡ some text
  pub unwraps :
      (keys : List String) (key nonce text : String)
      → any (λ k. str_eq k key) keys ≡ true
      → multi_decrypt keys (encrypt key nonce text) ≡ some text

pub record EncryptedBlob : Type 0 where
  pub kek_id : String
  pub wrapped_dek : String
  pub ciphertext : String

-- `LocalSecretsProvider`; it is constructed with at least one key, the current one first.
pub record SecretsProvider : Type 0 where
  pub current : String
  pub older : List String

abbrev pub app_keys : SecretsProvider → List String
app_keys p = p.current ∷ p.older

unfoldable pub encrypt : Fernet → SecretsProvider → Draw → String → EncryptedBlob
encrypt f p draw plaintext = record {
  kek_id = f.kek_id p.current;
  wrapped_dek = f.encrypt p.current draw.wrap_nonce draw.dek;
  ciphertext = f.encrypt draw.dek draw.nonce plaintext;
}

abbrev with_dek : Fernet → EncryptedBlob → Option String → Option String
with_dek f blob none = none
with_dek f blob (some dek) = f.decrypt dek blob.ciphertext

unfoldable pub decrypt : Fernet → SecretsProvider → EncryptedBlob → Option String
decrypt f p blob = with_dek f blob (f.multi_decrypt (app_keys p) blob.wrapped_dek)

abbrev sealed_again : Fernet → SecretsProvider → Draw → Option String → Result EncryptedBlob
sealed_again f p draw none = err invalid_token
sealed_again f p draw (some plaintext) = ok (encrypt f p draw plaintext)

unfoldable pub rotate : Fernet → SecretsProvider → Draw → EncryptedBlob → Result EncryptedBlob
rotate f p draw blob = sealed_again f p draw (decrypt f p blob)

pub record UserCredential : Type 0 where
  pub id : String
  pub user_id : String
  pub kind : String
  pub provider : String
  pub blob : EncryptedBlob
  pub kek_id : String

abbrev pub is_for : String → String → String → UserCredential → Bool
is_for user_id kind provider r =
    str_eq r.user_id user_id && (str_eq r.kind kind && str_eq r.provider provider)

abbrev pub has_row_id : String → UserCredential → Bool
has_row_id i r = str_eq r.id i

abbrev pub with_blob : EncryptedBlob → UserCredential → UserCredential
with_blob blob r = record r { blob = blob; kek_id = blob.kek_id }

abbrev pub new_credential : String → String → String → String → EncryptedBlob → UserCredential
new_credential id user_id kind provider blob = record {
  id = id;
  user_id = user_id;
  kind = kind;
  provider = provider;
  blob = blob;
  kek_id = blob.kek_id;
}

abbrev pub upserted :
    String
    → String
    → String
    → String
    → EncryptedBlob
    → Option UserCredential
    → Tx (List UserCredential) (Unit {0})
upserted id user_id kind provider blob none rows =
    (ok tt, rows ++ new_credential id user_id kind provider blob ∷ [])
upserted id user_id kind provider blob (some existing) rows =
    (ok tt, update (has_row_id existing.id) (with_blob blob) rows)

unfoldable pub put :
    Fernet
    → SecretsProvider
    → Draw
    → String
    → String
    → String
    → String
    → String
    → Tx (List UserCredential) (Unit {0})
put f p draw id user_id kind provider plaintext rows =
    (do
      let blob = encrypt f p draw plaintext
      existing ← lift (scalar_one_or_none (select (is_for user_id kind provider) rows))
      upserted id user_id kind provider blob existing)
      rows

abbrev pub opened : Option String → Result (Option String)
opened none = err invalid_token
opened (some plaintext) = ok (some plaintext)

abbrev pub secret_of : Fernet → SecretsProvider → Option UserCredential → Result (Option String)
secret_of f p none = ok none
secret_of f p (some row) = opened (decrypt f p row.blob)

unfoldable pub get :
    Fernet → SecretsProvider → String → String → String → Tx (List UserCredential) (Option String)
get f p user_id kind provider rows =
    (do
      row ← lift (scalar_one_or_none (select (is_for user_id kind provider) rows))
      lift (secret_of f p row))
      rows

unfoldable pub put_llm_key :
    Fernet
    → SecretsProvider
    → Draw
    → String
    → String
    → String
    → String
    → Tx (List UserCredential) (Unit {0})
put_llm_key f p draw id user_id provider_name api_key =
    put f p draw id user_id "llm_key" provider_name api_key

unfoldable pub get_llm_key :
    Fernet → SecretsProvider → String → String → Tx (List UserCredential) (Option String)
get_llm_key f p user_id provider_name = get f p user_id "llm_key" provider_name

unfoldable pub save_session_cookies :
    Fernet
    → SecretsProvider
    → Draw
    → String
    → String
    → String
    → String
    → Tx (List UserCredential) (Unit {0})
save_session_cookies f p draw id user_id platform storage_state =
    put f p draw id user_id "platform_cookies" platform storage_state

unfoldable pub load_session_cookies :
    Fernet → SecretsProvider → String → String → Tx (List UserCredential) (Option String)
load_session_cookies f p user_id platform = get f p user_id "platform_cookies" platform

unfoldable pub delete_session_cookies : String → String → Tx (List UserCredential) Bool
delete_session_cookies user_id platform rows =
    let p = is_for user_id "platform_cookies" platform in
    (ok (not (count p rows == 0)), delete p rows)

abbrev pub with_row :
    UserCredential → Result (List UserCredential × ℕ) → Result (List UserCredential × ℕ)
with_row r (ok (rows, n)) = ok (r ∷ rows, n)
with_row r (err e) = err e

abbrev pub with_rotated :
    UserCredential
    → Result EncryptedBlob
    → Result (List UserCredential × ℕ)
    → Result (List UserCredential × ℕ)
with_rotated r (ok blob) (ok (rows, n)) = ok (with_blob blob r ∷ rows, n + 1)
with_rotated r (ok blob) (err e) = err e
with_rotated r (err e) rest = err e

-- The loop over the rows; `draws i` is drawn for the row with the id `i`.
unfoldable pub rotate_rows :
    Fernet
    → SecretsProvider
    → (String → Draw)
    → List UserCredential
    → Result (List UserCredential × ℕ)
rotate_rows f p draws [] = ok ([], 0)
rotate_rows f p draws (r ∷ rows) =
    let rest = rotate_rows f p draws rows in
    if str_eq r.kek_id (f.kek_id p.current)
    then with_row r rest
    else with_rotated r (rotate f p (draws r.id) r.blob) rest

-- The commit comes last.
abbrev pub stored_rows :
    List UserCredential → Result (List UserCredential × ℕ) → Result ℕ × List UserCredential
stored_rows rows (ok (after, n)) = (ok n, after)
stored_rows rows (err e) = (err e, rows)

unfoldable pub rotate_all : Fernet → SecretsProvider → (String → Draw) → Tx (List UserCredential) ℕ
rotate_all f p draws rows = stored_rows rows (rotate_rows f p draws rows)
