-- ===== src/RateLimit/Windows.antt =====
-- How many requests of a window pass.
use auto_jobs_apply.Prelude.{
  ℕ, zero, suc, ◌+◌, ◌-◌, ◌≤◌, ◌<◌, min, String, Bool, true, false, ◌&&◌, ◌≡◌, ap, sym, ◌∙◌, inl,
  inr, List, [], ◌∷◌, count, str_eq, str_eq→eq, subst, ltb, ◌==◌, if◌then◌else◌, Bool-cases, arith,
}
use auto_jobs_apply.Tx.{Result, ok, err}
use auto_jobs_apply.RateLimit.{Redis, bucket_of, expired_once, check}

-- A request: its key and its time.
abbrev pub Request : Type 0
Request = String × ℕ

abbrev pub is_passed : Result (Unit {0}) → Bool
is_passed (ok u) = true
is_passed (err e) = false

-- The times do not go back, from `start`, and stay in a window that ends at `until`.
abbrev pub InWindow : ℕ → ℕ → ℕ → List Request → Type 0
InWindow window until start [] = Unit
InWindow window until start ((key, now) ∷ requests) =
    (start ≤ now) × (now < until) × (until ≤ now + window) × InWindow window until now requests

module _ {Db : Type 0} (r : Redis Db) (decimal : ℕ → String) (production : Bool)
    (limit window : ℕ) where
  abbrev pub is_of : String → Request → Bool
  is_of bucket (key, now) = str_eq (bucket_of decimal key window now) bucket

  -- The requests are checked one after the other: how many of a bucket pass.
  unfoldable pub passes : String → List Request → Db → ℕ
  passes bucket [] db = 0
  passes bucket ((key, now) ∷ requests) db =
      let (result, after) = check r decimal production true key limit window now db in
      let later = passes bucket requests after in
      if is_of bucket (key, now) && is_passed result then suc later else later

  abbrev Reads : String → ℕ → ℕ → ℕ → Db → Type 0
  Reads bucket start until n db = (t : ℕ) → start ≤ t → t < until → r.reading bucket t db ≡ n

  abbrev after_check : String → ℕ → Db → Db
  after_check bucket now db =
      expired_once r decimal production bucket window now (r.incr bucket now db).0
        (r.incr bucket now db).1

  checked-Reads :
      (bucket : String) (start until now n : ℕ) (db : Db)
      → start ≤ now
      → now < until
      → until ≤ now + window
      → Reads bucket start until n db
      → Reads bucket now until (suc n) (after_check bucket now db)
  checked-Reads bucket start until now zero db h k m reads t g l =
      let fresh = reads now h k in
      let one = r.incr_new bucket now t db fresh g in
      rw (r.incr_answers bucket now db, fresh)
        (r.expire_later bucket window now t (r.incr bucket now db).1 g (omega arith)
            (omega (arith, one))
          ∙ one)
  checked-Reads bucket start until now (suc n) db h k m reads t g l =
      let before = reads t (omega (arith, h, g)) l in
      let two : (suc (suc n) == 1) ≡ false = ground arith in
      rw (r.incr_answers bucket now db, reads now h k, two)
        (r.incr_old bucket now t db g (omega (arith, before)) ∙ ap suc before)

  checked_other-Reads :
      (other bucket : String) (start until now n : ℕ) (db : Db)
      → str_eq other bucket ≡ false
      → start ≤ now
      → Reads bucket start until n db
      → Reads bucket now until n (after_check other now db)
  checked_other-Reads other bucket start until now n db e h reads t g l =
      elim (Bool-cases ((r.incr other now db).0 == 1)) [
        | inl f ↦ rw f (
            r.expire_other other bucket window now t (r.incr other now db).1 e
            ∙ r.incr_other other bucket now t db e
            ∙ reads t (omega (arith, h, g)) l)
        | inr f ↦ rw f (r.incr_other other bucket now t db e ∙ reads t (omega (arith, h, g)) l)
      ]

  passes-from :
      (bucket : String) (requests : List Request) (start until n : ℕ) (db : Db)
      → InWindow window until start requests
      → Reads bucket start until n db
      → passes bucket requests db ≡ min (limit - n) (count (is_of bucket) requests)
  unfolding passes check
  passes-from bucket [] start until n db h reads = omega arith
  passes-from bucket ((key, now) ∷ requests) start until n db (h, k, m, rest) reads =
      elim (Bool-cases (is_of bucket (key, now))) [
        | inl e ↦
            let own = bucket_of decimal key window now in
            let same = sym (str_eq→eq own bucket e) in
            let answer : (r.incr own now db).0 ≡ suc n =
              r.incr_answers own now db
              ∙ ap suc (subst (λ b. r.reading b now db ≡ n) same (reads now h k)) in
            let later =
              subst
                (λ b.
                  passes bucket requests (after_check b now db)
                  ≡ min (limit - suc n) (count (is_of bucket) requests))
                same
                (passes-from bucket requests now until (suc n) (after_check bucket now db) rest
                  (checked-Reads bucket start until now n db h k m reads)) in
            elim (Bool-cases (ltb limit (r.incr own now db).0)) [
              | inl f ↦
                  let full : ltb limit (suc n) ≡ true = rw answer at f in
                  rw (e, f, later) (ground arith)
              | inr f ↦
                  let free : ltb limit (suc n) ≡ false = rw answer at f in
                  rw (e, f, later) (ground arith)
            ]
        | inr e ↦
            let other = bucket_of decimal key window now in
            rw e (
              passes-from bucket requests now until n (after_check other now db) rest
                (checked_other-Reads other bucket start until now n db e h reads))
      ]

  -- Of requests whose times stay in one window and do not go back, exactly `limit` of a bucket pass,
  -- or all of it if they are fewer, however the requests of other buckets stand between them, if the
  -- bucket was empty before.
  pub passes-limit :
      (bucket : String) (requests : List Request) (start until : ℕ) (db : Db)
      → InWindow window until start requests
      → ((t : ℕ) → start ≤ t → t < until → r.reading bucket t db ≡ 0)
      → passes bucket requests db ≡ min limit (count (is_of bucket) requests)
  passes-limit bucket requests start until db h reads =
      passes-from bucket requests start until 0 db h reads ∙ omega arith
