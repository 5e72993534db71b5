-- ===== src/Credentials/Rows.antt =====
-- A secret that is put can be read, and no other is touched.
use auto_jobs_apply.Prelude.{
  ◌≤◌, String, true, false, ◌&&◌, ◌≡◌, refl, ◌∙◌, inl, inr, Option, some, List, [], ◌∷◌, ◌++◌,
  arith, str_eq, str_eq_self, Bool-cases, any, count, select, update, first, count-append,
  count-update_same, count-and-found, select-update_other, select-append_other,
  first-select-append_new, first-select-update, first-select-none, first-select-some, any-eq-false,
  first-select-holds, append_unique, sym, str_eq→eq,
}
use auto_jobs_apply.Tx.{Result, ok, err, scalar-first, scalar_one_or_none, resume_with, lift}
use auto_jobs_apply.Credentials.{
  Fernet, SecretsProvider, Draw, EncryptedBlob, encrypt, decrypt, UserCredential, is_for,
  has_row_id, with_blob, new_credential, upserted, put, get, secret_of, app_keys,
}

-- The primary key, and the unique constraint `uq_user_credential`.
pub record IsKeyed (rows : List UserCredential) : Type 0 where
  pub one_id : (i : String) → count (has_row_id i) rows ≤ 1
  pub one_key : (u k p : String) → count (is_for u k p) rows ≤ 1

pub decrypt-encrypt :
    (f : Fernet) (p q : SecretsProvider) (draw : Draw) (plaintext : String)
    → any (λ k. str_eq k p.current) (app_keys q) ≡ true
    → decrypt f q (encrypt f p draw plaintext) ≡ some plaintext
unfolding decrypt encrypt
decrypt-encrypt f p q draw plaintext h =
    rw (f.unwraps (app_keys q) p.current draw.wrap_nonce draw.dek h)
      (f.decrypts draw.dek draw.nonce plaintext)

abbrev pub find_credential : String → String → String → List UserCredential → Option UserCredential
find_credential u k p rows = first (select (is_for u k p) rows)

put_lem :
    (f : Fernet) (p : SecretsProvider) (draw : Draw) (id u k v text : String)
    (rows : List UserCredential)
    → IsKeyed rows
    → put f p draw id u k v text rows
      ≡ upserted id u k v (encrypt f p draw text) (find_credential u k v rows) rows
unfolding put
put_lem f p draw id u k v text rows c = rw (scalar-first (is_for u k v) rows (c.one_key u k v))

pub get_lem :
    (f : Fernet) (p : SecretsProvider) (u k v : String) (rows : List UserCredential)
    → IsKeyed rows
    → get f p u k v rows ≡ (secret_of f p (find_credential u k v rows), rows)
unfolding get
get_lem f p u k v rows c = rw (scalar-first (is_for u k v) rows (c.one_key u k v))

-- What `get` answers for the rows that its query finds.
abbrev pub answered :
    Fernet → SecretsProvider → Result (Option UserCredential) → Result (Option String)
answered f q (ok row) = secret_of f q row
answered f q (err e) = err e

pub get-answered :
    (f : Fernet) (q : SecretsProvider) (u k v : String) (rows : List UserCredential)
    → (get f q u k v rows).0 ≡ answered f q (scalar_one_or_none (select (is_for u k v) rows))
unfolding get
get-answered f q u k v rows = resumed (scalar_one_or_none (select (is_for u k v) rows))
  where
    resumed :
        (r : Result (Option UserCredential))
        → (resume_with r (λ row. lift (secret_of f q row)) rows).0 ≡ answered f q r
    resumed (ok row) = refl
    resumed (err e) = refl

-- What is found for a key after an upsert.
abbrev pub UpsertedTo :
    String → String → String → EncryptedBlob → List UserCredential → List UserCredential → Type 0
UpsertedTo u k v blob rows after =
    ((row : UserCredential) × (find_credential u k v after ≡ some row) × (row.blob ≡ blob))
    × IsKeyed after
    × ((u' k' v' : String)
        → (str_eq u u' && (str_eq k k' && str_eq v v')) ≡ false
        → select (is_for u' k' v') after ≡ select (is_for u' k' v') rows)

key_parts :
    (u k v : String) (r : UserCredential)
    → is_for u k v r ≡ true
    → (r.user_id ≡ u) × (r.kind ≡ k) × (r.provider ≡ v)
key_parts u k v r h = (
  str_eq→eq r.user_id u (ground arith),
  str_eq→eq r.kind k (ground arith),
  str_eq→eq r.provider v (ground arith),
)

-- A row with one key has no other.
other_key :
    (u k v u' k' v' : String) (r : UserCredential)
    → is_for u k v r ≡ true
    → (str_eq u u' && (str_eq k k' && str_eq v v')) ≡ false
    → is_for u' k' v' r ≡ false
other_key u k v u' k' v' r h d = let (a, b, c) = key_parts u k v r h in rw (a, b, c) d

appended :
    (id u k v : String) (blob : EncryptedBlob) (rows : List UserCredential)
    → IsKeyed rows
    → count (has_row_id id) rows ≡ 0
    → any (is_for u k v) rows ≡ false
    → UpsertedTo u k v blob rows (rows ++ new_credential id u k v blob ∷ [])
appended id u k v blob rows c fresh absent = (
  (
    row,
    first-select-append_new (is_for u k v) rows row absent
        (rw (str_eq_self u, str_eq_self k, str_eq_self v)),
    refl,
  ),
  record { one_id = append_unique (λ r. r.id) row rows fresh c.one_id; one_key = one },
  λ u' k' v' d. select-append_other (is_for u' k' v') row rows d,
)
  where
    row : UserCredential
    row = new_credential id u k v blob

    one : (u' k' v' : String) → count (is_for u' k' v') (rows ++ row ∷ []) ≤ 1
    one u' k' v' =
        rw (count-append (is_for u' k' v') rows (row ∷ []))
          (elim (Bool-cases (is_for u' k' v' row)) [
            | inl e ↦
                let (a, b, d) = key_parts u' k' v' row e in
                let none_yet : count (is_for u' k' v') rows ≡ 0 =
                  rw (sym a, sym b, sym d) (any-eq-false (is_for u k v) rows absent) in
                ground arith
            | inr e ↦ ground (arith, c.one_key u' k' v')
          ])

changed :
    (u k v : String) (blob : EncryptedBlob) (rows : List UserCredential) (existing : UserCredential)
    → IsKeyed rows
    → find_credential u k v rows ≡ some existing
    → UpsertedTo u k v blob rows (update (has_row_id existing.id) (with_blob blob) rows)
changed u k v blob rows existing c found = (
  (
    with_blob blob existing,
    first-select-update (has_row_id existing.id) (is_for u k v) (with_blob blob) rows (λ x. refl)
          found
        ∙ rw (str_eq_self existing.id),
    refl,
  ),
  record {
    one_id = λ i.
        rw
          (count-update_same (has_row_id existing.id) (has_row_id i) (with_blob blob) rows
            (λ r e. refl))
          (c.one_id i);
    one_key = λ u' k' v'.
        rw
          (count-update_same (has_row_id existing.id) (is_for u' k' v') (with_blob blob) rows
            (λ r e. refl))
          (c.one_key u' k' v');
  },
  λ u' k' v' d.
      select-update_other (has_row_id existing.id) (is_for u' k' v') (with_blob blob) rows
        (λ x. refl)
        (count-and-found (is_for u k v) (has_row_id existing.id) (is_for u' k' v') rows found
          (str_eq_self existing.id)
          (other_key u k v u' k' v' existing (first-select-holds (is_for u k v) rows found) d)
          (c.one_id existing.id)),
)

-- A `put` on keyed rows succeeds, and stores a blob of the new text for its key alone.
pub put-UpsertedTo :
    (f : Fernet) (p : SecretsProvider) (draw : Draw) (id u k v text : String)
    (rows : List UserCredential)
    → IsKeyed rows
    → count (has_row_id id) rows ≡ 0
    → let (r, after) = put f p draw id u k v text rows in
      (r ≡ ok tt) × UpsertedTo u k v (encrypt f p draw text) rows after
put-UpsertedTo f p draw id u k v text rows c fresh =
    rw (put_lem f p draw id u k v text rows c) (elim (Bool-cases (any (is_for u k v) rows)) [
      | inl e ↦
          let (existing, found) = first-select-some (is_for u k v) rows e in
          rw found (refl, changed u k v (encrypt f p draw text) rows existing c found)
      | inr e ↦
          rw (first-select-none (is_for u k v) rows e)
            (refl, appended id u k v (encrypt f p draw text) rows c fresh e)
    ])

-- After a `put`, a provider that still has the current key of the one that put the secret reads
-- it back under its key, and reads under every other key what it read before. No statement raises.
pub put-get :
    (f : Fernet) (p q : SecretsProvider) (draw : Draw) (id u k v text : String)
    (rows : List UserCredential)
    → IsKeyed rows
    → count (has_row_id id) rows ≡ 0
    → any (λ key. str_eq key p.current) (app_keys q) ≡ true
    → let (r, after) = put f p draw id u k v text rows in
      (r ≡ ok tt)
      × (get f q u k v after ≡ (ok (some text), after))
      × ((u' k' v' : String)
          → (str_eq u u' && (str_eq k k' && str_eq v v')) ≡ false
          → (get f q u' k' v' after).0 ≡ (get f q u' k' v' rows).0)
put-get f p q draw id u k v text rows c fresh h =
    let after = (put f p draw id u k v text rows).1 in
    let (e, done) = put-UpsertedTo f p draw id u k v text rows c fresh in
    let (stored, d, others) = done in
    let (row, found, sealed) = stored in
    (
      e,
      rw (get_lem f q u k v after d, found, sealed, decrypt-encrypt f p q draw text h),
      λ u' k' v' g.
          rw (get_lem f q u' k' v' after d, get_lem f q u' k' v' rows c, others u' k' v' g),
    )
