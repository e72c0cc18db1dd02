-- ===== src/Mysql.antt =====
-- The repositories of src/app/repository/mysql/mysql_repositories.cpp over the C client of MySQL. The
-- client library and the server behind it are a parameter, `Client`, on a state `D`; a connection is
-- the number that stands for its pointer. What a method says on one connection is a `Session`, in the
-- order of the source and for every answer of the server; `run` holds it with a client.
-- `connectionRAII` is `with_connection`, over the pool of src/db/sql_connection_pool.cpp.
pub mod Rows
pub mod Users
pub mod Books
pub mod Inventory
pub mod Orders
pub mod Transaction
pub mod Connections
use my_bookstore.ConnectionPool.{Pool, Got, waits, refused, got, get_connection, release_connection}
use my_bookstore.Base.{Bool, List, Option, Text, codes, none, some, ℕ, if◌then◌else◌}

-- A row of a result: `nullptr` stands for an SQL NULL.
abbrev pub Row : Type 0
Row = List (Option Text)

-- `query` is `mysql_query`, true where it returns 0; `store_result` is `mysql_store_result` with the
-- rows that `mysql_fetch_row` then returns; `escape` is `mysql_real_escape_string`.
pub record Client (D : Type 0) : Type 0 where
  pub escape : ℕ → Text → Text
  pub query : ℕ → Text → D → Bool × D
  pub store_result : ℕ → D → Option (List Row) × D
  pub insert_id : ℕ → D → ℕ
  pub affected_rows : ℕ → D → ℕ

-- The statements of the source: the three that frame a transaction, those that read and those that
-- write.
pub data Statement : Type 0 where
  start_transaction : Statement
  commit : Statement
  rollback : Statement
  read : Text → Statement
  write : Text → Statement

unfoldable pub sql : Statement → Text
sql start_transaction = codes "START TRANSACTION"
sql commit = codes "COMMIT"
sql rollback = codes "ROLLBACK"
sql (read s) = s
sql (write s) = s

-- The calls of the client library on one connection, and what follows each answer.
pub data Session (A : Type 0) : Type 0 where
  done : A → Session A
  query : Statement → (Bool → Session A) → Session A
  store_result : (Option (List Row) → Session A) → Session A
  insert_id : (ℕ → Session A) → Session A
  affected_rows : (ℕ → Session A) → Session A

module _ {A : Type 0} where
  -- `mysql_query(mysql, "ROLLBACK"); return failed;`
  unfoldable pub roll_back : A → Session A
  roll_back failed = query rollback (λ ok. done failed)

  -- A statement of a transaction, which ends at the first failure.
  unfoldable pub or_roll_back : Statement → A → Session A → Session A
  unfolding roll_back
  or_roll_back statement failed next = query statement (λ ok. if ok then next else roll_back failed)

  -- A statement outside a transaction.
  unfoldable pub or_return : Statement → A → Session A → Session A
  or_return statement failed next = query statement (λ ok. if ok then next else done failed)

  -- `store_result` under the test for `nullptr`.
  unfoldable pub or_no_result : Session A → (List Row → Session A) → Session A
  or_no_result failed next = store_result (λ r. elim r [ none ↦ failed | some rows ↦ next rows ])

module _ {D A : Type 0} (client : Client D) (con : ℕ) where
  unfoldable pub run : Session A → D → A × D
  unfolding sql
  run (done a) d = (a, d)
  run (query statement next) d =
      let (ok, d') = client.query con (sql statement) d in run (next ok) d'
  run (store_result next) d = let (result, d') = client.store_result con d in run (next result) d'
  run (insert_id next) d = run (next (client.insert_id con d)) d
  run (affected_rows next) d = run (next (client.affected_rows con d)) d

-- A method: its result, the pool and the server's state, or `none` where `GetConnection` waits for a
-- connection that another thread gives back.
abbrev pub Method : Type 0 → Type 0 → Type 0
Method D A = Pool → D → Option (A × (Pool × D))

module _ {D A : Type 0} where
  abbrev pub return : A → Method D A
  return a p d = some (a, (p, d))

  unfoldable pub talk : Client D → ℕ → Session A → Method D A
  unfolding run
  talk client con session p d = let (a, d') = run client con session d in some (a, (p, d'))

  -- The destructor of `connectionRAII`.
  unfoldable pub give_back : ℕ → Option (A × (Pool × D)) → Option (A × (Pool × D))
  unfolding release_connection
  give_back con none = none
  give_back con (some (a, (p, d))) = some (a, ((release_connection (some con) p).1, d))

  -- The constructor of `connectionRAII`; behind it `failed` is returned where the pointer is null.
  unfoldable pub with_connection : A → (ℕ → Method D A) → Method D A
  unfolding get_connection give_back
  with_connection failed body p d = elim (get_connection p) [
    | waits ↦ none
    | refused ↦ some (failed, (p, d))
    | got con p' ↦ give_back con (body con p' d)
  ]
