-- ===== src/RateLimit.antt =====
-- backend/app/core/ratelimit.py: the fixed-window limiter of the costly routes. Redis is the interface
-- `Redis`; a time is a number of seconds.
pub mod Windows
use auto_jobs_apply.Prelude.{
  ℕ, suc, ◌+◌, ◌/◌, ◌≤◌, ◌<◌, String, Bool, true, false, ◌≡◌, Option, none, some, str_eq, ltb, ◌==◌,
  if◌then◌else◌, or_default,
}
use auto_jobs_apply.Tx.{Result, Tx, ok, err, rate_limit}
use Prim.Native.String.{◌++◌}

-- INCR and EXPIRE at a time, and what GET would read at a time, 0 for a key that is missing or has
-- expired. An INCR keeps the time to live of a key and gives none to a new one; a key with a time to
-- live is read until that has passed.
pub record Redis (Db : Type 0) : Type 0 where
  pub incr : String → ℕ → Db → ℕ × Db
  pub expire : String → ℕ → ℕ → Db → Db
  pub reading : String → ℕ → Db → ℕ
  pub incr_answers :
      (key : String) (now : ℕ) (db : Db) → (incr key now db).0 ≡ suc (reading key now db)
  pub incr_new :
      (key : String) (now t : ℕ) (db : Db)
      → reading key now db ≡ 0
      → now ≤ t
      → reading key t (incr key now db).1 ≡ 1
  pub incr_old :
      (key : String) (now t : ℕ) (db : Db)
      → now ≤ t
      → 1 ≤ reading key t db
      → reading key t (incr key now db).1 ≡ suc (reading key t db)
  pub incr_other :
      (key other : String) (now t : ℕ) (db : Db)
      → str_eq key other ≡ false
      → reading other t (incr key now db).1 ≡ reading other t db
  pub expire_later :
      (key : String) (seconds now t : ℕ) (db : Db)
      → now ≤ t
      → t < now + seconds
      → 1 ≤ reading key t db
      → reading key t (expire key seconds now db) ≡ reading key t db
  pub expire_other :
      (key other : String) (seconds now t : ℕ) (db : Db)
      → str_eq key other ≡ false
      → reading other t (expire key seconds now db) ≡ reading other t db

abbrev pub client_or_unknown : Option String → String
client_or_unknown none = "unknown"
client_or_unknown (some host) = host

-- The key of `_dependency`: the address of the client, if there is one, and the path.
abbrev pub limit_key : Option String → String → String
limit_key client path = client_or_unknown client ++ (":" ++ path)

-- `decimal` is `str` of an integer.
abbrev pub bucket_of : (ℕ → String) → String → ℕ → ℕ → String
bucket_of decimal key window now = "ratelimit:" ++ (key ++ (":" ++ decimal (now / window)))

module _ {Db : Type 0} (r : Redis Db) (decimal : ℕ → String) (production : Bool) where
  abbrev pub expired_once : String → ℕ → ℕ → ℕ → Db → Db
  expired_once bucket window now count db = if count == 1 then r.expire bucket window now db else db

  abbrev pub counted : String → ℕ → ℕ → ℕ → ℕ × Db → Result (Unit {0}) × Db
  counted bucket limit window now (count, db) =
      (if ltb limit count then err rate_limit else ok tt, expired_once bucket window now count db)

  -- `RateLimiter.check`; `available` says whether there is a Redis client.
  unfoldable pub check : Bool → String → ℕ → ℕ → ℕ → Tx Db (Unit {0})
  check available key limit window now db =
      let bucket = bucket_of decimal key window now in
      if available
      then counted bucket limit window now (r.incr bucket now db)
      else (if production then err rate_limit else ok tt, db)
