-- ===== src/Tests/RateLimit.antt =====
-- Two clients of one route, against a Redis that counts and forgets nothing.
use auto_jobs_apply.Prelude.{
  ℕ, suc, min, String, true, ◌≡◌, refl, some, List, [], ◌∷◌, count, str_eq, str_eq_self,
  if◌then◌else◌, arith,
}
use auto_jobs_apply.RateLimit.{Redis, bucket_of, limit_key, check}
use auto_jobs_apply.RateLimit.Windows.{Request, is_of, passes, passes-limit}

abbrev Counts : Type 0
Counts = String → ℕ

abbrev raised : String → Counts → Counts
raised key counts = λ k. if str_eq key k then suc (counts key) else counts k

redis : Redis Counts
redis = record {
  incr = λ key now counts. (suc (counts key), raised key counts);
  expire = λ key seconds now counts. counts;
  reading = λ key now counts. counts key;
  incr_answers = λ key now counts. refl;
  incr_new = λ key now t counts none_yet h. rw (str_eq_self key, none_yet);
  incr_old = λ key now t counts h k. rw (str_eq_self key);
  incr_other = λ key other now t counts h. rw h;
  expire_later = λ key seconds now t counts h k some_yet. refl;
  expire_other = λ key other seconds now t counts h. refl;
}

abbrev window_number : ℕ → String
window_number n = "7"

abbrev alice_key : String
alice_key = limit_key (some "10.0.0.1") "/api/v1/resumes/generate"

abbrev bob_key : String
bob_key = limit_key (some "10.0.0.2") "/api/v1/resumes/generate"

abbrev requests : List Request
requests = (alice_key, 430) ∷ (bob_key, 431) ∷ (alice_key, 431) ∷ (alice_key, 470) ∷ []

abbrev alice_bucket : String
alice_bucket = bucket_of window_number alice_key 60 430

passes-limit_example :
    passes redis window_number true 2 60 alice_bucket requests (λ key. 0)
    ≡ min 2 (count (is_of redis window_number true 2 60 alice_bucket) requests)
unfolding redis
passes-limit_example =
    passes-limit redis window_number true 2 60 alice_bucket requests 420 480 (λ key. 0)
      (
        omega arith,
        omega arith,
        omega arith,
        (
          omega arith,
          omega arith,
          omega arith,
          (omega arith, omega arith, omega arith, (omega arith, omega arith, omega arith, tt)),
        ),
      )
      (λ t h k. refl)

two_pass : passes redis window_number true 2 60 alice_bucket requests (λ key. 0) ≡ 2
unfolding passes check redis
two_pass = refl
