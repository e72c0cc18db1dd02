-- ===== src/UserCache/Redis/Known.antt =====
-- Logging in behind a registration, with the cache of src/db/redis_user_cache.cpp.
use my_bookstore.Base.{
  none, ◌∙◌, sym, text_eq, ap, false, ◌==◌, is_empty, some, true, Option, if◌then◌else◌, ℕ, ◌≡◌,
  Bool, Text,
}
use my_bookstore.ConnectionPool.{Pool}
use my_bookstore.Hash.{sha256_hex}
use my_bookstore.Mysql.{Client}
use my_bookstore.UserCache.Redis.{
  cache_ttl_seconds, Text, Bool, Redis, Cached, found, raised, missing, make_key, register_user,
  authenticate, decide,
}

module _ {R D : Type 0} (redis : Redis R) (client : Client D) where
  -- A value that was set is there when it is asked for, as long as it has not expired.
  abbrev pub Keeps : Type 0
  Keeps =
      (key value : Text) (ttl : ℕ) (r : R)
      → (redis.get key (redis.set key value ttl r)).0 ≡ found value

  decided :
      (pool : Bool) (user hashed cached : Text) (c : Cached × R) (p : Pool) (d : D)
      → c.0 ≡ found cached
      → decide redis client pool user hashed c p d ≡ some ((cached == hashed, c.1), (p, d))
  unfolding decide
  decided pool user hashed cached (found x, r) p d e =
      let same : x ≡ cached = cc e in ap (λ y. some ((y == hashed, r), (p, d))) same
  decided pool user hashed cached (raised, r) p d e = cc e
  decided pool user hashed cached (missing, r) p d e = cc e

  inserted :
      (ok : Bool) (r r' : R) (d : D) {x : R} {y : D}
      → Path ((Bool × R) × D) (if ok then ((true, r), d) else ((false, r'), d)) ((true, x), y)
      → r ≡ x
  inserted true r r' d e = cc e
  inserted false r r' d e = cc e

  -- Behind a registration that returned true, while Redis holds what was set: logging in under that
  -- name, which is not empty, compares the digests of the two passwords, takes no connection and leaves
  -- the database alone.
  pub authenticate-register_user_cached :
      (pool : Bool) (user pass tried : Text) (db : Option ℕ) (r r' : R) (d d' : D) (p : Pool)
      (later : D)
      → Keeps
      → is_empty user ≡ false
      → register_user redis client user pass db r d ≡ ((true, r'), d')
      → authenticate redis client pool user tried r' p later
        ≡ some ((sha256_hex pass == sha256_hex tried, (redis.get (make_key user) r').1), (p, later))
  unfolding register_user authenticate
  authenticate-register_user_cached pool user pass tried none r r' d d' p later k n e = cc e
  authenticate-register_user_cached pool user pass tried (some db) r r' d d' p later k n e =
      let set : redis.set (make_key user) (sha256_hex pass) cache_ttl_seconds r ≡ r' =
        inserted _ _ r _ e in
      rw n (
        decided pool user (sha256_hex tried) (sha256_hex pass) (redis.get (make_key user) r') p
          later
          (ap (λ x. (redis.get (make_key user) x).0) (sym set)
            ∙ k (make_key user) (sha256_hex pass) cache_ttl_seconds r))
