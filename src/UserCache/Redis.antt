-- ===== src/UserCache/Redis.antt =====
-- `RedisUserCache` of src/db/redis_user_cache.cpp. The Redis client and the state behind it are a parameter, as
-- is MySQL's; `none` as the pool is a null pointer.
pub mod Known
use my_bookstore.Base.{
  text_eq, is_empty, none, not, true, ◌++◌, ◌==◌, Option, [], codes, false, if◌then◌else◌, some,
  ◌*◌, ◌∷◌, Bool, List, Text, ℕ,
}
use my_bookstore.ConnectionPool.{Pool}
use my_bookstore.Hash.{sha256_hex}
use my_bookstore.Mysql.{
  Client, Method, Row, Session, done, read, write, or_return, or_no_result, talk, with_connection,
  return, run,
}

-- What `redis.get` gives: an exception, no value, or the value.
pub data Cached : Type 0 where
  raised : Cached
  missing : Cached
  found : Text → Cached

-- `redis.set` returns in a state whether it raises an exception or not; its exceptions are logged only.
pub record Redis (R : Type 0) : Type 0 where
  pub get : Text → R → Cached × R
  pub set : Text → Text → ℕ → R → R

-- Seven days.
abbrev pub cache_ttl_seconds : ℕ
cache_ttl_seconds = 7 * 24 * 3600

unfoldable pub make_key : Text → Text
make_key user = codes "booktrade:user:cred:" ++ user

unfoldable pub select_password_sql : (Text → Text) → Text → Text
select_password_sql escape user =
    codes "SELECT passwd FROM user WHERE username='" ++ escape user ++ codes "' LIMIT 1"

-- `if (row == nullptr || row[0] == nullptr) return {}; return row[0];`
unfoldable pub first_password : List Row → Session Text
first_password [] = done []
first_password ([] ∷ rows) = done []
first_password ((none ∷ row) ∷ rows) = done []
first_password ((some password ∷ row) ∷ rows) = done password

unfoldable pub select_password : (Text → Text) → Text → Session Text
unfolding or_return or_no_result first_password
select_password escape user =
    or_return (read (select_password_sql escape user)) [] (or_no_result (done []) first_password)

unfoldable pub insert_user_sql : (Text → Text) → Text → Text → Text
insert_user_sql escape user hashed =
    codes "INSERT INTO user(username, passwd) VALUES('"
    ++ escape user
    ++ codes "', '"
    ++ escape hashed
    ++ codes "')"

module _ {R D : Type 0} (redis : Redis R) (client : Client D) where
  unfoldable pub query_mysql_password : Bool → Text → Method D Text
  unfolding with_connection talk select_password
  query_mysql_password pool user =
      if not pool
      then return []
      else with_connection [] (λ con. talk client con (select_password (client.escape con) user))

  -- `authenticate` with what MySQL holds.
  unfoldable pub remember : Text → Text → R → Text → Bool × R
  unfolding make_key
  remember user hashed r stored =
      if is_empty stored
      then (false, r)
      else (stored == hashed, redis.set (make_key user) stored cache_ttl_seconds r)

  abbrev pub remembered :
      Text → Text → R → Option (Text × (Pool × D)) → Option ((Bool × R) × (Pool × D))
  remembered user hashed r none = none
  remembered user hashed r (some (stored, (p, d))) = some (remember user hashed r stored, (p, d))

  -- `authenticate` behind the look into Redis.
  unfoldable pub decide : Bool → Text → Text → Cached × R → Method D (Bool × R)
  unfolding query_mysql_password remember
  decide pool user hashed (found cached, r) p d = some ((cached == hashed, r), (p, d))
  decide pool user hashed (raised, r) p d =
      remembered user hashed r (query_mysql_password pool user p d)
  decide pool user hashed (missing, r) p d =
      remembered user hashed r (query_mysql_password pool user p d)

  unfoldable pub authenticate : Bool → Text → Text → R → Method D (Bool × R)
  unfolding make_key decide
  authenticate pool user pass r =
      if is_empty user
      then return (false, r)
      else decide pool user (sha256_hex pass) (redis.get (make_key user) r)

  unfoldable pub insert_user : (Text → Text) → Text → Text → Session Bool
  unfolding or_return insert_user_sql
  insert_user escape user hashed =
      or_return (write (insert_user_sql escape user hashed)) false (done true)

  -- `none` is a null `db`.
  unfoldable pub register_user : Text → Text → Option ℕ → R → D → (Bool × R) × D
  unfolding run insert_user make_key
  register_user user pass none r d = ((false, r), d)
  register_user user pass (some db) r d =
      let hashed = sha256_hex pass in
      let (ok, d') = run client db (insert_user (client.escape db) user hashed) d in
      if ok
      then ((true, redis.set (make_key user) hashed cache_ttl_seconds r), d')
      else ((false, r), d')
