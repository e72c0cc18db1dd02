-- ===== src/Mysql/Inventory.antt =====
-- `MysqlInventoryRepository` of src/app/repository/mysql/mysql_repositories.cpp. `pool` says that
-- `pool_` is not null.
use my_bookstore.Base.{
  is_empty, text_eq, ◌&&◌, [], pos, some, to_string, ◌||◌, leb_ℤ, nat_eq, none, not, ◌++◌, ◌==◌,
  Option, codes, false, if◌then◌else◌, map, true, ◌∷◌, Bool, List, Text, ℤ,
}
use my_bookstore.Model.{InventoryMutation}
use my_bookstore.Mysql.{
  Text, List, Bool, Session, Client, Method, done, read, write, or_return, or_no_result, talk,
  with_connection, query, return, Row, or_roll_back, start_transaction, commit, affected_rows,
  roll_back,
}
use my_bookstore.Mysql.Rows.{int_at, text_at, mutation_from_row}

unfoldable pub available_sql : ℤ → Text
available_sql book_id = codes "SELECT available FROM inventory WHERE book_id=" ++ to_string book_id

unfoldable pub add_available_sql : ℤ → ℤ → Text
add_available_sql book_id quantity =
    codes "UPDATE inventory SET available=available+"
    ++ to_string quantity
    ++ codes " WHERE book_id="
    ++ to_string book_id

unfoldable pub add_book_stock_sql : ℤ → ℤ → Text
add_book_stock_sql book_id quantity =
    codes "UPDATE books SET stock=stock+"
    ++ to_string quantity
    ++ codes " WHERE id="
    ++ to_string book_id

unfoldable pub take_available_sql : ℤ → ℤ → Text
take_available_sql book_id quantity =
    codes "UPDATE inventory SET available=available-"
    ++ to_string quantity
    ++ codes " WHERE book_id="
    ++ to_string book_id
    ++ codes " AND available>="
    ++ to_string quantity

unfoldable pub first_available : List Row → Session (Option ℤ)
first_available [] = done none
first_available (row ∷ rows) = done (some (int_at 0 row))

unfoldable pub select_available : ℤ → Session (Option ℤ)
unfolding or_return or_no_result first_available
select_available book_id =
    or_return (read (available_sql book_id ++ codes " LIMIT 1")) none
      (or_no_result (done none) first_available)

-- The end of `add_stock`: the row of the new amount, then `COMMIT`.
unfoldable pub commit_available : List Row → Session (Option ℤ)
unfolding or_roll_back roll_back
commit_available [] = roll_back none
commit_available (row ∷ rows) = or_roll_back commit none (done (some (int_at 0 row)))

-- The transaction of `add_stock`.
unfoldable pub add_both : ℤ → ℤ → Session (Option ℤ)
unfolding or_return or_roll_back roll_back or_no_result commit_available
add_both book_id quantity = or_return start_transaction none (
    or_roll_back (write (add_available_sql book_id quantity)) none (
      affected_rows (λ n.
        if nat_eq n 1
        then or_roll_back (write (add_book_stock_sql book_id quantity)) none (
            or_roll_back (read (available_sql book_id)) none
              (or_no_result (roll_back none) commit_available))
        else roll_back none)))

unfoldable pub take_one : ℤ → ℤ → Session Bool
unfolding or_return
take_one book_id quantity =
    or_return (write (take_available_sql book_id quantity)) false
      (affected_rows (λ n. done (nat_eq n 1)))

unfoldable pub add_one : ℤ → ℤ → Session Unit
add_one book_id quantity = query (write (add_available_sql book_id quantity)) (λ ok. done tt)

abbrev pub reserved : Text
reserved = codes "reserved"

abbrev released : Text
released = codes "released"

-- The first loop of the batch `reserve_stock`.
unfoldable pub all_positive : List InventoryMutation → Bool
all_positive [] = true
all_positive (item ∷ rest) =
    not (leb_ℤ item.book_id (pos 0) || leb_ℤ item.quantity (pos 0)) && all_positive rest

module _ (escape : Text → Text) (reservation_id : Text) where
  unfoldable pub find_reservation_sql : Text
  find_reservation_sql =
      codes "SELECT status FROM inventory_reservations WHERE reservation_id='"
      ++ escape reservation_id
      ++ codes "' FOR UPDATE"

  unfoldable pub insert_reservation_sql : Text
  insert_reservation_sql =
      codes "INSERT INTO inventory_reservations(reservation_id,status) VALUES('"
      ++ escape reservation_id
      ++ codes "', 'reserved')"

  unfoldable pub insert_item_sql : InventoryMutation → Text
  insert_item_sql item =
      codes "INSERT INTO inventory_reservation_items(reservation_id,book_id,quantity) VALUES('"
      ++ escape reservation_id
      ++ codes "', "
      ++ to_string item.book_id
      ++ codes ", "
      ++ to_string item.quantity
      ++ codes ")"

  unfoldable pub reserved_items_sql : Text
  reserved_items_sql =
      codes "SELECT book_id,quantity FROM inventory_reservation_items WHERE reservation_id='"
      ++ escape reservation_id
      ++ codes "'"

  unfoldable pub mark_released_sql : Text
  mark_released_sql =
      codes "UPDATE inventory_reservations SET status='released' WHERE reservation_id='"
      ++ escape reservation_id
      ++ codes "'"

  -- The second loop of the batch `reserve_stock`, and the `COMMIT` behind it.
  unfoldable pub take_each : List InventoryMutation → Session Bool
  unfolding or_roll_back roll_back
  take_each [] = or_roll_back commit false (done true)
  take_each (item ∷ rest) =
      or_roll_back (write (take_available_sql item.book_id item.quantity)) false (
        affected_rows (λ n.
          if nat_eq n 1
          then or_roll_back (write (insert_item_sql item)) false (take_each rest)
          else roll_back false))

  -- Behind the SELECT: a reservation of that name is there, or this is a new one.
  unfoldable pub reserve_found : List InventoryMutation → List Row → Session Bool
  unfolding or_roll_back roll_back take_each
  reserve_found items [] = or_roll_back (write insert_reservation_sql) false (take_each items)
  reserve_found items (row ∷ rows) =
      if text_at 0 row == reserved then query commit (λ ok. done true) else roll_back false

  -- The transaction of the batch `reserve_stock`.
  unfoldable pub reserve_batch : List InventoryMutation → Session Bool
  unfolding or_return or_roll_back roll_back or_no_result reserve_found
  reserve_batch items = or_return start_transaction false (
      or_roll_back (read find_reservation_sql) false
        (or_no_result (roll_back false) (reserve_found items)))

  -- The loop of the batch `release_stock`, and what follows it.
  unfoldable pub release_each : List InventoryMutation → Session Unit
  unfolding or_roll_back roll_back
  release_each [] = or_roll_back (write mark_released_sql) tt (or_roll_back commit tt (done tt))
  release_each (item ∷ rest) =
      if leb_ℤ item.book_id (pos 0) || leb_ℤ item.quantity (pos 0)
      then roll_back tt
      else or_roll_back (write (add_available_sql item.book_id item.quantity)) tt
          (release_each rest)

  unfoldable pub release_reserved : Session Unit
  unfolding or_roll_back roll_back or_no_result release_each
  release_reserved =
      or_roll_back (read reserved_items_sql) tt
        (or_no_result (roll_back tt) (λ rows. release_each (map mutation_from_row rows)))

  unfoldable pub release_found : List Row → Session Unit
  unfolding roll_back release_reserved
  release_found [] = roll_back tt
  release_found (row ∷ rows) =
      if text_at 0 row == released
      then query commit (λ ok. done tt)
      else if not (text_at 0 row == reserved)
      then roll_back tt
      else release_reserved

  -- The transaction of the batch `release_stock`.
  unfoldable pub release_batch : Session Unit
  unfolding or_return or_roll_back roll_back or_no_result release_found
  release_batch =
      or_return start_transaction tt
        (or_roll_back (read find_reservation_sql) tt (or_no_result (roll_back tt) release_found))

module _ {D : Type 0} (client : Client D) (pool : Bool) where
  unfoldable pub available_stock : ℤ → Method D (Option ℤ)
  unfolding with_connection talk select_available
  available_stock book_id =
      if not pool || leb_ℤ book_id (pos 0)
      then return none
      else with_connection none (λ con. talk client con (select_available book_id))

  unfoldable pub add_stock : ℤ → ℤ → Method D (Option ℤ)
  unfolding with_connection talk add_both
  add_stock book_id quantity =
      if not pool || leb_ℤ book_id (pos 0) || leb_ℤ quantity (pos 0)
      then return none
      else with_connection none (λ con. talk client con (add_both book_id quantity))

  unfoldable pub reserve_stock : ℤ → ℤ → Method D Bool
  unfolding with_connection talk take_one
  reserve_stock book_id quantity =
      if not pool || leb_ℤ book_id (pos 0) || leb_ℤ quantity (pos 0)
      then return false
      else with_connection false (λ con. talk client con (take_one book_id quantity))

  unfoldable pub release_stock : ℤ → ℤ → Method D Unit
  unfolding with_connection talk add_one
  release_stock book_id quantity =
      if not pool || leb_ℤ book_id (pos 0) || leb_ℤ quantity (pos 0)
      then return tt
      else with_connection tt (λ con. talk client con (add_one book_id quantity))

  unfoldable pub reserve_all : Text → List InventoryMutation → Method D Bool
  unfolding with_connection talk reserve_batch all_positive
  reserve_all reservation_id items =
      if not pool || is_empty reservation_id || is_empty items || not (all_positive items)
      then return false
      else with_connection false
          (λ con. talk client con (reserve_batch (client.escape con) reservation_id items))

  -- The batch's own items have no name in the source: what the table holds is given back.
  unfoldable pub release_all : Text → List InventoryMutation → Method D Unit
  unfolding with_connection talk release_batch
  release_all reservation_id items =
      if not pool || is_empty reservation_id
      then return tt
      else with_connection tt
          (λ con. talk client con (release_batch (client.escape con) reservation_id))
