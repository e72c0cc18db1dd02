-- ===== src/Orders/Memory.antt =====
-- `MemoryOrderRepository` of src/app/repository/memory/memory_repositories.h.
pub mod History
use my_bookstore.Base.{
  ◌++◌, ◌+ℤ◌, wrap32, ℤ_eq, is_empty, some, ◌||◌, ◌∷◌, leb_ℤ, none, text_eq, Option, [], ◌==◌, List,
  if◌then◌else◌, pos, ℤ,
}
use my_bookstore.Model.{Order, OrderItem}
use my_bookstore.Orders.{ℤ, List, OrderRepository, created_status, cancelled_status}

-- The members `next_order_id_` and `orders_`.
pub record Store : Type 0 where
  pub next_order_id : ℤ
  pub orders : List Order

abbrev pub empty_store : Store
empty_store = record { next_order_id = pos 1; orders = [] }

unfoldable pub create_order : ℤ → List OrderItem → ℤ → Store → Option Order × Store
create_order user_id items total_cents s =
    if leb_ℤ user_id (pos 0) || is_empty items
    then (none, s)
    else let order : Order = record {
      id = s.next_order_id;
      user_id = user_id;
      items = items;
      total_cents = total_cents;
      status = created_status;
    } in
      (
        some order,
        record {
          next_order_id = wrap32 (s.next_order_id +ℤ pos 1);
          orders = s.orders ++ order ∷ [];
        },
      )

unfoldable pub list_orders : Store → List Order
list_orders s = s.orders

unfoldable pub find_in : ℤ → List Order → Option Order
find_in order_id [] = none
find_in order_id (order ∷ rest) = if order.id == order_id then some order else find_in order_id rest

unfoldable pub find_order : ℤ → Store → Option Order
unfolding find_in
find_order order_id s = find_in order_id s.orders

-- `if (order.status != "cancelled") order.status = "cancelled";`
unfoldable pub cancelled : Order → Order
cancelled order =
    if order.status == cancelled_status then order else record order { status = cancelled_status }

-- The loop of `cancel_order`.
unfoldable pub cancel_first : ℤ → List Order → Option Order × List Order
cancel_first order_id [] = (none, [])
cancel_first order_id (order ∷ rest) =
    let (found, rest') = cancel_first order_id rest in
    if order.id == order_id
    then (some (cancelled order), cancelled order ∷ rest)
    else (found, order ∷ rest')

unfoldable pub cancel_order : ℤ → Store → Option Order × Store
unfolding cancel_first
cancel_order order_id s =
    let (found, orders') = cancel_first order_id s.orders in (found, record s { orders = orders' })

abbrev pub memory : OrderRepository Store
memory = record {
  create_order = create_order;
  list_orders = list_orders;
  find_order = find_order;
  cancel_order = cancel_order;
}
