-- ===== src/Mysql/Orders.antt =====
-- `MysqlOrderRepository` of src/app/repository/mysql/mysql_repositories.cpp. `pool` says that `pool_` is
-- not null. `cancel_order` ends with `find_order`, which takes a second connection while the first is
-- held.
use my_bookstore.Base.{
  is_empty, leb_ℤ, pos, ◌*ℤ◌, map, some, to_string, wrap32, ◌||◌, [], none, not, true, ◌++◌, Option,
  Text, codes, false, if◌then◌else◌, ◌∷◌, Bool, List, ℤ,
}
use my_bookstore.Model.{Order, OrderItem}
use my_bookstore.Orders.{created_status}
use my_bookstore.Mysql.{
  query, List, Bool, Session, Client, Method, done, read, write, or_return, or_no_result, insert_id,
  talk, with_connection, return, Row, or_roll_back, start_transaction, commit, run,
}
use my_bookstore.Mysql.Rows.{item_from_row, order_from_row}

unfoldable pub insert_order_sql : ℤ → ℤ → Text
insert_order_sql user_id total_cents =
    codes "INSERT INTO orders(user_id,status,total_cents) VALUES("
    ++ to_string user_id
    ++ codes ", 'created', "
    ++ to_string total_cents
    ++ codes ")"

unfoldable pub insert_order_item_sql : ℤ → OrderItem → Text
insert_order_item_sql order_id item =
    codes
      "INSERT INTO order_items(order_id,book_id,quantity,unit_price_cents,line_total_cents) VALUES("
    ++ to_string order_id
    ++ codes ", "
    ++ to_string item.book_id
    ++ codes ", "
    ++ to_string item.quantity
    ++ codes ", "
    ++ to_string item.unit_price_cents
    ++ codes ", "
    ++ to_string (wrap32 (item.quantity *ℤ item.unit_price_cents))
    ++ codes ")"

-- The loop of `create_order`, then `COMMIT` and the order.
unfoldable pub insert_items : Order → List OrderItem → Session (Option Order)
unfolding or_roll_back
insert_items order [] = or_roll_back commit none (done (some order))
insert_items order (item ∷ rest) =
    or_roll_back (write (insert_order_item_sql order.id item)) none (insert_items order rest)

-- The transaction of `create_order`.
unfoldable pub insert_order : ℤ → List OrderItem → ℤ → Session (Option Order)
unfolding or_return or_roll_back insert_items
insert_order user_id items total_cents = or_return start_transaction none (
    or_roll_back (write (insert_order_sql user_id total_cents)) none (
      insert_id (λ id.
        insert_items
          (record {
            id = wrap32 (pos id);
            user_id = user_id;
            items = items;
            total_cents = total_cents;
            status = created_status;
          })
          items)))

unfoldable pub order_items_sql : ℤ → Text
order_items_sql order_id =
    codes "SELECT book_id,quantity,unit_price_cents FROM order_items WHERE order_id="
    ++ to_string order_id
    ++ codes " ORDER BY id"

-- `fetch_order_items`, and what its caller does with the items.
unfoldable pub fetch_order_items : {A : Type 0} → ℤ → (List OrderItem → Session A) → Session A
unfolding or_return or_no_result
fetch_order_items order_id next =
    query (read (order_items_sql order_id))
      (λ ok. if ok then or_no_result (next []) (λ rows. next (map item_from_row rows)) else next [])

-- The last loop of `list_orders`; the orders before it are `filled`, in their order.
unfoldable pub fetch_all : List Order → List Order → Session (List Order)
unfolding fetch_order_items
fetch_all filled [] = done filled
fetch_all filled (order ∷ rest) =
    fetch_order_items order.id
      (λ items. fetch_all (filled ++ record order { items = items } ∷ []) rest)

unfoldable pub select_orders : Session (List Order)
unfolding or_return or_no_result fetch_all
select_orders =
    or_return (read (codes "SELECT id,user_id,status,total_cents FROM orders ORDER BY id DESC")) []
      (or_no_result (done []) (λ rows. fetch_all [] (map order_from_row rows)))

unfoldable pub find_order_sql : ℤ → Text
find_order_sql order_id =
    codes "SELECT id,user_id,status,total_cents FROM orders WHERE id="
    ++ to_string order_id
    ++ codes " LIMIT 1"

unfoldable pub first_order : List Row → Session (Option Order)
unfolding fetch_order_items
first_order [] = done none
first_order (row ∷ rows) =
    fetch_order_items (order_from_row row).id
      (λ items. done (some (record (order_from_row row) { items = items })))

unfoldable pub select_order : ℤ → Session (Option Order)
unfolding or_return or_no_result first_order
select_order order_id =
    or_return (read (find_order_sql order_id)) none (or_no_result (done none) first_order)

unfoldable pub cancel_order_sql : ℤ → Text
cancel_order_sql order_id =
    codes "UPDATE orders SET status='cancelled' WHERE id="
    ++ to_string order_id
    ++ codes " AND status<>'cancelled'"

unfoldable pub mark_cancelled : ℤ → Session Bool
unfolding or_return
mark_cancelled order_id = or_return (write (cancel_order_sql order_id)) false (done true)

module _ {D : Type 0} (client : Client D) (pool : Bool) where
  unfoldable pub create_order : ℤ → List OrderItem → ℤ → Method D (Option Order)
  unfolding with_connection talk insert_order
  create_order user_id items total_cents =
      if not pool || leb_ℤ user_id (pos 0) || is_empty items
      then return none
      else with_connection none (λ con. talk client con (insert_order user_id items total_cents))

  unfoldable pub list_orders : Method D (List Order)
  unfolding with_connection talk select_orders
  list_orders =
      if not pool then return [] else with_connection [] (λ con. talk client con select_orders)

  unfoldable pub find_order : ℤ → Method D (Option Order)
  unfolding with_connection talk select_order
  find_order order_id =
      if not pool || leb_ℤ order_id (pos 0)
      then return none
      else with_connection none (λ con. talk client con (select_order order_id))

  unfoldable pub cancel_order : ℤ → Method D (Option Order)
  unfolding with_connection run mark_cancelled find_order
  cancel_order order_id =
      if not pool || leb_ℤ order_id (pos 0)
      then return none
      else with_connection none (λ con p d.
        let (changed, d') = run client con (mark_cancelled order_id) d in
        if changed then find_order order_id p d' else some (none, (p, d')))
