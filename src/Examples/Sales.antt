-- ===== src/Examples/Sales.antt =====
-- The repositories of src/app/repository/mysql/mysql_repositories.cpp on the server of `Server`, over a pool of
-- two connections.
use my_bookstore.Base.{
  ◌^◌, ◌<◌, is_some, length, none, ◌*ℤ◌, ◌+ℤ◌, digits, to_string, wrap32, ◌-ℤ◌, insert, arith,
  lookup, refl, some, ◌≡◌, codes, false, ◌∷◌, List, [], pos, true, ℕ,
}
use my_bookstore.Mysql.{run}
use my_bookstore.Mysql.Orders.{create_order, insert_order_sql, insert_order_item_sql}
use my_bookstore.Mysql.Books.{
  create_book, insert_book, insert_book_sql, insert_inventory_sql, find_book_sql,
}
use my_bookstore.Mysql.Connections.{create_book-GivesBack}
use my_bookstore.Mysql.Connections.Waits.{create_book-waits, create_book-returns}
use my_bookstore.Mysql.Transaction.Methods.{create_order-none}
use my_bookstore.ConnectionPool.Counters.{Reach, starts, continues, takes}
use my_bookstore.Model.{Book, OrderItem}
use my_bookstore.Mysql.Inventory.{
  take_available_sql, insert_reservation_sql, find_reservation_sql, insert_item_sql, reserve_all,
}
use my_bookstore.ConnectionPool.{
  got, add_connection, take_connection, add_connections, init, get_connection, Pool,
}
use my_bookstore.Examples.Tables.{server-KeepsNames, server-KeepsAmounts}
use my_bookstore.Examples.Server.{reservation, amount, Tables, server-Promises, Db, server}
use my_bookstore.Examples.Stock.{start_stock-IsStocked, start_stock}
use my_bookstore.Examples.Server.{query}
use my_bookstore.Inventory.Memory
use my_bookstore.Inventory.Memory.{available_stock, reserve_stock}
use my_bookstore.Mysql.Transaction.Reserve.{reserve_all-Outcome}
use my_bookstore.Mysql.Transaction.Names.{Outcome}
use my_bookstore.Model.{InventoryMutation}

abbrev start_tables : Tables
start_tables = record { stock = start_stock; names = [] }

abbrev shelf : Db
shelf = record {
  stored = start_tables;
  current = start_tables;
  opened = false;
  changed = 0;
  found = [];
}

-- Both connections are free, the next one is `first`.
abbrev two_connections : ℕ → ℕ → Pool
two_connections first second = record {
  max_conn = pos 2;
  cur_conn = pos 0;
  free_conn = pos 2;
  shutdown = false;
  conn_list = first ∷ second ∷ [];
}

abbrev two_copies : List InventoryMutation
two_copies = record { book_id = pos 1; quantity = pos 2 } ∷ []

abbrev fewer_tables : Tables
fewer_tables = record {
  stock = (pos 1, pos 10) ∷ (pos 2, pos 4) ∷ [];
  names = (codes "r", codes "reserved") ∷ [];
}

abbrev fewer : Db
fewer = record {
  stored = fewer_tables;
  current = fewer_tables;
  opened = false;
  changed = 0;
  found = [];
}

two_copies-taken :
    reserve_all server true (codes "r") two_copies (two_connections 1 2) shelf
    ≡ some (true, (two_connections 2 1, fewer))
unfolding reserve_all query lookup insert ◌-ℤ◌ wrap32 reserve_stock Memory.take_from
    take_available_sql insert_reservation_sql find_reservation_sql insert_item_sql to_string digits
    ◌+ℤ◌
two_copies-taken = refl

reserve_all-Outcome_example :
    Outcome amount reservation (codes "r") two_copies start_tables true fewer_tables
reserve_all-Outcome_example =
    reserve_all-Outcome server true (λ d. d.stored) (λ d. d.current) (λ con d. d.opened) amount
      reservation (codes "r") two_copies (two_connections 1 2) (two_connections 2 1) shelf fewer
      true
      (
        (
          record { below = omega arith; above = omega arith },
          record { below = omega arith; above = omega arith },
        ),
        tt,
      )
      server-Promises server-KeepsAmounts server-KeepsNames (λ con. refl) start_stock-IsStocked
      two_copies-taken

abbrev one_item : List OrderItem
one_item = record { book_id = pos 1; quantity = pos 2; unit_price_cents = pos 9800 } ∷ []

abbrev rolled_back : Db
rolled_back = shelf

one_item-refused :
    create_order server true (pos 3) one_item (pos 19600) (two_connections 1 2) shelf
    ≡ some (none, (two_connections 2 1, rolled_back))
unfolding create_order query ◌-ℤ◌ wrap32 insert_order_sql insert_order_item_sql to_string digits
    ◌+ℤ◌ ◌*ℤ◌ take_available_sql insert_reservation_sql
one_item-refused = refl

create_order-none_example : rolled_back.stored ≡ shelf.stored
create_order-none_example =
    create_order-none server true (λ d. d.stored) (λ d. d.current) (λ con d. d.opened)
      server-Promises (pos 3) one_item (pos 19600) (two_connections 1 2) (two_connections 2 1) shelf
      rolled_back (λ con. refl) one_item-refused

abbrev new_book : Book
new_book = record {
  id = pos 0;
  title = codes "A";
  author = codes "B";
  price_cents = pos 100;
  stock = pos 5;
  status = [];
}

-- The first connection is in use.
abbrev one_left : Pool
one_left = record {
  max_conn = pos 2;
  cur_conn = pos 1;
  free_conn = pos 1;
  shutdown = false;
  conn_list = 2 ∷ [];
}

abbrev none_left : Pool
none_left = record {
  max_conn = pos 2;
  cur_conn = pos 2;
  free_conn = pos 0;
  shutdown = false;
  conn_list = [];
}

all_free : Reach (1 ∷ 2 ∷ []) [] (two_connections 1 2)
unfolding init add_connections add_connection wrap32 ◌+ℤ◌
all_free = starts

one_used : Reach (1 ∷ 2 ∷ []) (1 ∷ []) one_left
unfolding get_connection take_connection wrap32 ◌+ℤ◌ ◌-ℤ◌
one_used = continues all_free (takes [] (two_connections 1 2) one_left 1 refl)

last_taken : get_connection one_left ≡ got 2 none_left
unfolding get_connection take_connection wrap32 ◌+ℤ◌ ◌-ℤ◌
last_taken = refl

abbrev filed : Db
filed = shelf

new_book-filed : run server 2 (insert_book (server.escape 2) new_book) shelf ≡ (some (pos 7), filed)
unfolding run insert_book query wrap32 insert_book_sql insert_inventory_sql to_string digits
    take_available_sql insert_reservation_sql
new_book-filed = refl

two_small : length {A = ℕ} (1 ∷ 2 ∷ []) < 2 ^ 31
two_small = omega arith

create_book-waits_example : create_book server true new_book one_left shelf ≡ none
create_book-waits_example =
    create_book-waits server (1 ∷ 2 ∷ []) (1 ∷ []) one_left none_left 2 new_book shelf filed (pos 7)
      two_small one_used refl last_taken refl new_book-filed (omega arith)

create_book-returns_example :
    is_some (create_book server true new_book (two_connections 1 2) shelf) ≡ true
create_book-returns_example =
    create_book-returns server (1 ∷ 2 ∷ []) true [] (two_connections 1 2) new_book shelf two_small
      all_free (omega arith)

new_book-created :
    create_book server true new_book (two_connections 1 2) shelf
    ≡ some (none, (two_connections 2 1, filed))
unfolding create_book query wrap32 insert_book_sql insert_inventory_sql to_string digits
    find_book_sql ◌+ℤ◌ ◌-ℤ◌ take_available_sql find_reservation_sql insert_reservation_sql
new_book-created = refl

create_book-GivesBack_example : Reach (1 ∷ 2 ∷ []) [] (two_connections 2 1)
create_book-GivesBack_example =
    create_book-GivesBack server true new_book (1 ∷ 2 ∷ []) [] (two_connections 1 2)
      (two_connections 2 1) shelf filed none all_free new_book-created
