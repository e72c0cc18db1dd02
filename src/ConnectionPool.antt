-- ===== src/ConnectionPool.antt =====
-- `connection_pool` of src/db/sql_connection_pool.cpp. A connection is a number that stands for the
-- pointer, and each call is one step under the mutex. `connectionRAII` makes the calls of
-- `GetConnection` and `ReleaseConnection` and nothing else.
pub mod Counters
use my_bookstore.Base.{
  none, ◌+ℤ◌, ◌-ℤ◌, some, wrap32, Bool, false, true, ◌++◌, ◌∷◌, List, Option, [], if◌then◌else◌,
  pos, ℕ, ℤ,
}

pub record Pool : Type 0 where
  pub max_conn : ℤ
  pub cur_conn : ℤ
  pub free_conn : ℤ
  pub shutdown : Bool
  pub conn_list : List ℕ

-- The members before `init`; the source leaves `m_MaxConn` without a value.
abbrev pub fresh : Pool
fresh = record {
  max_conn = pos 0;
  cur_conn = pos 0;
  free_conn = pos 0;
  shutdown = false;
  conn_list = [];
}

-- The end of a round of `init`: `push_back` and `++m_FreeConn`.
unfoldable pub add_connection : Pool → ℕ → Pool
add_connection p con = record p {
  conn_list = p.conn_list ++ con ∷ [];
  free_conn = wrap32 (p.free_conn +ℤ pos 1);
}

-- The loop of `init`, over the connections that the client library opens; a failure ends the process.
unfoldable pub add_connections : List ℕ → Pool → Pool
unfolding add_connection
add_connections [] p = p
add_connections (con ∷ rest) p = add_connections rest (add_connection p con)

unfoldable pub init : List ℕ → Pool → Pool
unfolding add_connections
init opened p = let p' = add_connections opened p in record p' { max_conn = p'.free_conn }

-- What `GetConnection` does in a state: it waits, returns `nullptr` on a pool that is shut down, or
-- returns a connection.
pub data Got : Type 0 where
  waits : Got
  refused : Got
  got : ℕ → Pool → Got

-- Behind the wait and the test of `m_shutdown`; the list is not empty there.
unfoldable pub take_connection : List ℕ → Pool → Got
take_connection [] p = waits
take_connection (con ∷ rest) p = got con (record p {
  conn_list = rest;
  free_conn = wrap32 (p.free_conn -ℤ pos 1);
  cur_conn = wrap32 (p.cur_conn +ℤ pos 1);
})

unfoldable pub get_connection : Pool → Got
unfolding take_connection
get_connection p = if p.shutdown then refused else take_connection p.conn_list p

-- `none` is `nullptr`.
unfoldable pub release_connection : Option ℕ → Pool → Bool × Pool
release_connection none p = (false, p)
release_connection (some con) p = (
  true,
  record p {
    conn_list = p.conn_list ++ con ∷ [];
    free_conn = wrap32 (p.free_conn +ℤ pos 1);
    cur_conn = wrap32 (p.cur_conn -ℤ pos 1);
  },
)

unfoldable pub destroy_pool : Pool → Pool
destroy_pool p = record p { conn_list = []; cur_conn = pos 0; free_conn = pos 0; shutdown = true }

unfoldable pub get_free_conn : Pool → ℤ
get_free_conn p = p.free_conn
