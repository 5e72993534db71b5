-- ===== src/Credentials/Rotation.antt =====
-- The rotation of the key-encryption key: afterwards the older keys can be retired.
use auto_jobs_apply.Prelude.{
  String, Bool, true, not, ◌≡◌, refl, sym, ap, ◌∙◌, inl, inr, some, List, [], ◌∷◌, arith, str_eq,
  str_eq_self, str_eq→eq, Bool-cases, any, count, select, All,
}
use auto_jobs_apply.Tx.{ok, scalar_one_or_none}
use auto_jobs_apply.Credentials.{
  Fernet, SecretsProvider, Draw, encrypt, decrypt, rotate, UserCredential, is_for, with_blob, get,
  app_keys, rotate_rows, rotate_all,
}
use auto_jobs_apply.Credentials.Rows.{decrypt-encrypt, answered, get-answered}

-- A provider with this key alone.
abbrev pub solo : String → SecretsProvider
solo key = record { current = key; older = [] }

-- A row as `put` stores it, under a key that the provider still has.
pub record IsSealed (f : Fernet) (p : SecretsProvider) (r : UserCredential) : Type 0 where
  pub key : String
  pub draw : Draw
  pub plaintext : String
  pub known : any (λ k. str_eq k key) (app_keys p) ≡ true
  pub sealed : r.blob ≡ encrypt f (solo key) draw plaintext
  pub named : r.kek_id ≡ f.kek_id key

abbrev pub is_stale : Fernet → SecretsProvider → UserCredential → Bool
is_stale f p r = not (str_eq r.kek_id (f.kek_id p.current))

module _ (f : Fernet) (p : SecretsProvider) where
  -- The kek id of the current key is that of no other key of the provider.
  abbrev pub HasOwnId : Type 0
  HasOwnId =
      (key : String)
      → any (λ k. str_eq k key) (app_keys p) ≡ true
      → f.kek_id key ≡ f.kek_id p.current
      → key ≡ p.current

  abbrev pub SameSecret : UserCredential → UserCredential → Type 0
  SameSecret r r' =
      ((u k v : String) → is_for u k v r' ≡ is_for u k v r)
      × (decrypt f (solo p.current) r'.blob ≡ decrypt f p r.blob)
      × (r'.kek_id ≡ f.kek_id p.current)

  -- The rows correspond, in their order.
  data SameSecrets : List UserCredential → List UserCredential → Type 0 where
    done : SameSecrets [] []
    next :
        {x y : UserCredential} {xs ys : List UserCredential}
        → SameSecret x y
        → SameSecrets xs ys
        → SameSecrets (x ∷ xs) (y ∷ ys)

  opens : (r : UserCredential) (s : IsSealed f p r) → decrypt f p r.blob ≡ some s.plaintext
  opens r s = rw s.sealed (decrypt-encrypt f (solo s.key) p s.draw s.plaintext s.known)

  solo_has : any (λ k. str_eq k p.current) (app_keys (solo p.current)) ≡ true
  solo_has = rw (str_eq_self p.current)

  current_has : any (λ k. str_eq k p.current) (app_keys p) ≡ true
  current_has = rw (str_eq_self p.current)

  kept_row :
      (r : UserCredential) (s : IsSealed f p r)
      → HasOwnId
      → str_eq r.kek_id (f.kek_id p.current) ≡ true
      → SameSecret r r
  kept_row r s own e =
      let e' = str_eq→eq r.kek_id (f.kek_id p.current) e in
      let same : s.key ≡ p.current = own s.key s.known (sym s.named ∙ e') in
      (
        λ u k v. refl,
        rw s.sealed (
              decrypt-encrypt f (solo s.key) (solo p.current) s.draw s.plaintext (rw same solo_has))
            ∙ sym (opens r s),
        e',
      )

  kek_id-encrypt :
      (draw : Draw) (text : String) → (encrypt f p draw text).kek_id ≡ f.kek_id p.current
  unfolding encrypt
  kek_id-encrypt draw text = refl

  resealed_row :
      (r : UserCredential) (s : IsSealed f p r) (draw : Draw)
      → SameSecret r (with_blob (encrypt f p draw s.plaintext) r)
  resealed_row r s draw = (
    λ u k v. refl,
    decrypt-encrypt f p (solo p.current) draw s.plaintext solo_has ∙ sym (opens r s),
    kek_id-encrypt draw s.plaintext,
  )

  rotate-seals :
      (r : UserCredential) (s : IsSealed f p r) (draw : Draw)
      → rotate f p draw r.blob ≡ ok (encrypt f p draw s.plaintext)
  unfolding rotate
  rotate-seals r s draw = rw (opens r s)

  rotate_rows-SameSecrets :
      (draws : String → Draw) (rows : List UserCredential)
      → HasOwnId
      → All (IsSealed f p) rows
      → (after : List UserCredential) × (rotate_rows f p draws rows
          ≡ ok (after, count (is_stale f p) rows))
        × SameSecrets rows after
  unfolding rotate_rows
  rotate_rows-SameSecrets draws [] own h = ([], refl, done)
  rotate_rows-SameSecrets draws (r ∷ rows) own (s, h) =
      let (after, e, same) = rotate_rows-SameSecrets draws rows own h in
      elim (Bool-cases (str_eq r.kek_id (f.kek_id p.current))) [
        | inl g ↦ (r ∷ after, rw (g, e), next (kept_row r s own g) same)
        | inr g ↦
            let again = with_blob (encrypt f p (draws r.id) s.plaintext) r in
            (
              again ∷ after,
              rw (g, e, rotate-seals r s (draws r.id))
                  (ap (λ n. ok (again ∷ after, n)) (omega arith)),
              next (resealed_row r s (draws r.id)) same,
            )
      ]

  select-SameSecrets :
      (u k v : String) {rows after : List UserCredential}
      → SameSecrets rows after
      → SameSecrets (select (is_for u k v) rows) (select (is_for u k v) after)
  select-SameSecrets u k v done = done
  select-SameSecrets u k v (next {x} one rest) =
      let more = select-SameSecrets u k v rest in
      elim (Bool-cases (is_for u k v x)) [
        | inl e ↦ rw (one.0 u k v, e) (next one more)
        | inr e ↦ rw (one.0 u k v, e) more
      ]

  rotate_rows-idle :
      (draws : String → Draw) {rows after : List UserCredential}
      → SameSecrets rows after
      → rotate_rows f p draws after ≡ ok (after, 0)
  unfolding rotate_rows
  rotate_rows-idle draws done = refl
  rotate_rows-idle draws (next one rest) =
      rw (one.2, str_eq_self (f.kek_id p.current), rotate_rows-idle draws rest)

  answered-SameSecrets :
      {rows after : List UserCredential}
      → SameSecrets rows after
      → answered f (solo p.current) (scalar_one_or_none after)
        ≡ answered f p (scalar_one_or_none rows)
  answered-SameSecrets done = refl
  answered-SameSecrets (next one done) = rw one.1
  answered-SameSecrets (next one (next two rest)) = refl

-- A rotation of rows that are sealed under keys of the provider succeeds, if the id of the current
-- key is that of no other key: it counts the rows under other keys. Afterwards a provider with the
-- current key alone reads under every key what the old one read, so that the others can be
-- retired, and a second rotation changes nothing.
pub rotate_all-get :
    (f : Fernet) (p : SecretsProvider) (draws : String → Draw) (rows : List UserCredential)
    → HasOwnId f p
    → All (IsSealed f p) rows
    → let (r, after) = rotate_all f p draws rows in
      (r ≡ ok (count (is_stale f p) rows))
      × ((u k v : String) → (get f (solo p.current) u k v after).0 ≡ (get f p u k v rows).0)
      × ((later : String → Draw) → rotate_all f p later after ≡ (ok 0, after))
unfolding rotate_all
rotate_all-get f p draws rows own h =
    let (after, e, same) = rotate_rows-SameSecrets f p draws rows own h in
    rw e (
      refl,
      λ u k v.
          get-answered f (solo p.current) u k v after
          ∙ answered-SameSecrets f p (select-SameSecrets f p u k v same)
          ∙ sym (get-answered f p u k v rows),
      λ later. rw (rotate_rows-idle f p later same),
    )
