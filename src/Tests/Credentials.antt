-- ===== src/Tests/Credentials.antt =====
-- Secrets are put, read and rotated.
use auto_jobs_apply.Prelude.{◌≡◌, refl, String, [], ◌∷◌, some, false, str_eq, ◌&&◌, arith}
use auto_jobs_apply.Tx.{ok}
use auto_jobs_apply.Credentials.{
  SecretsProvider, Draw, UserCredential, encrypt, put, get, rotate_all,
}
use auto_jobs_apply.Credentials.Rows.{IsKeyed, put-get}
use auto_jobs_apply.Credentials.Rotation.{IsSealed, solo, rotate_all-get}
use auto_jobs_apply.Tests.Memory.{clear_text}

abbrev keys : SecretsProvider
keys = record { current = "k-2"; older = "k-1" ∷ [] }

abbrev draw : Draw
draw = record { dek = "dek"; nonce = "n"; wrap_nonce = "w" }

abbrev key_row : UserCredential
key_row = record {
  id = "c-1";
  user_id = "alice";
  kind = "llm_key";
  provider = "openai";
  blob = record { kek_id = "k-1"; wrapped_dek = "dek"; ciphertext = "sk-1" };
  kek_id = "k-1";
}

keyed : IsKeyed (key_row ∷ [])
keyed = record { one_id = λ i. ground arith; one_key = λ u k p. ground arith }

put-get_example :
    let (r, after) =
      put clear_text keys draw "c-2" "alice" "llm_key" "openai" "sk-2" (key_row ∷ []) in
    (r ≡ ok tt)
    × (get clear_text keys "alice" "llm_key" "openai" after ≡ (ok (some "sk-2"), after))
    × ((u k p : String)
        → (str_eq "alice" u && (str_eq "llm_key" k && str_eq "openai" p)) ≡ false
        → (get clear_text keys u k p after).0 ≡ (get clear_text keys u k p (key_row ∷ [])).0)
put-get_example =
    put-get clear_text keys keys draw "c-2" "alice" "llm_key" "openai" "sk-2" (key_row ∷ []) keyed
      refl refl

abbrev old : String → Draw
old i = draw

sealed : IsSealed clear_text keys key_row
unfolding encrypt
sealed = record {
  key = "k-1";
  draw = draw;
  plaintext = "sk-1";
  known = refl;
  sealed = refl;
  named = refl;
}

rotate_all-get_example :
    let (r, after) = rotate_all clear_text keys old (key_row ∷ []) in
    (r ≡ ok 1)
    × ((u k p : String)
        → (get clear_text (solo "k-2") u k p after).0
          ≡ (get clear_text keys u k p (key_row ∷ [])).0)
    × ((later : String → Draw) → rotate_all clear_text keys later after ≡ (ok 0, after))
rotate_all-get_example =
    rotate_all-get clear_text keys old (key_row ∷ []) (λ key known same. same) (sealed, tt)
