-- ===== src/Orders/Service.antt =====
-- `OrderService` of src/app/service/order_service.h over a book client, an inventory client and an
-- order repository.
pub mod Pricing
pub mod Create
pub mod Cancel
use my_bookstore.Base.{
  ◌*ℤ◌, text_eq, ◌+ℤ◌, is_empty, wrap32, ◌==◌, digits, none, ◌||◌, pos, to_string, ◌^◌, is_some,
  leb_ℤ, ◌%◌, ◌++◌, [], codes, if◌then◌else◌, some, ◌+◌, Option, Text, map, ◌∷◌, List, ℕ, ℤ,
}
use my_bookstore.Model.{Book, InventoryMutation, Order, OrderItem, OrderItemRequest}
use my_bookstore.Catalog.{BookClient}
use my_bookstore.Inventory.{InventoryClient}
use my_bookstore.Orders.{ℤ, List, OrderRepository, OrderClient, cancelled_status}

-- The states behind the three parts, and the static counter of `next_reservation_id`.
pub record State (B I O : Type 0) : Type 0 where
  pub books : B
  pub inventory : I
  pub orders : O
  pub next_reservation : ℕ

-- `next_reservation_id`: the text, from the value that `fetch_add` returns.
unfoldable pub reservation_id : ℤ → ℕ → Text
reservation_id user_id n = codes "order-" ++ (to_string user_id ++ (codes "-" ++ digits n))

abbrev pub mutation_of : OrderItemRequest → InventoryMutation
mutation_of request = record { book_id = request.book_id; quantity = request.quantity }

-- The second loop of `create_order`.
unfoldable pub mutations : List OrderItemRequest → List InventoryMutation
mutations = map mutation_of

module _ {B : Type 0} (books : BookClient B) where
  -- The first loop of `create_order`: the priced items and the `int` total.
  unfoldable pub price_items :
      List OrderItemRequest → B → List OrderItem → ℤ → Option (List OrderItem × ℤ)
  price_items [] b items total = some (items, total)
  price_items (request ∷ rest) b items total =
      if leb_ℤ request.quantity (pos 0) then none else elim (books.find_book request.book_id b) [
        | none ↦ none
        | some book ↦
            price_items rest b
              (items
                ++ record {
                  book_id = request.book_id;
                  quantity = request.quantity;
                  unit_price_cents = book.price_cents;
                }
                  ∷ [])
              (wrap32 (total +ℤ wrap32 (book.price_cents *ℤ request.quantity)))
      ]

module _ {B I O : Type 0} (books : BookClient B) (inventory : InventoryClient I)
    (orders : OrderRepository O) where
  -- The end of `create_order`: the order is recorded, or the reservation is given back.
  unfoldable pub record_order :
      ℤ
      → Text
      → List InventoryMutation
      → List OrderItem
      → ℤ
      → State B I O
      → Option Order × State B I O
  record_order user_id id reserved items total st =
      let (order, orders') = orders.create_order user_id items total st.orders in
      let st' = record st { orders = orders' } in
      if is_some order
      then (order, st')
      else (order, record st' { inventory = inventory.release_all id reserved st.inventory })

  -- The middle of `create_order`: the reservation under a new id.
  unfoldable pub reserve_and_record :
      ℤ → List InventoryMutation → List OrderItem → ℤ → State B I O → Option Order × State B I O
  unfolding record_order
  reserve_and_record user_id reserved items total st =
      let id = reservation_id user_id st.next_reservation in
      let (taken, left) = inventory.reserve_all id reserved st.inventory in
      let st' = record st {
        inventory = left;
        next_reservation = (st.next_reservation + 1) % 2 ^ 64;
      } in
      if taken then record_order user_id id reserved items total st' else (none, st')

  unfoldable pub create_order : ℤ → List OrderItemRequest → State B I O → Option Order × State B I O
  unfolding price_items mutations reserve_and_record
  create_order user_id requests st =
      if leb_ℤ user_id (pos 0) || is_empty requests
      then (none, st)
      else elim (price_items books requests st.books [] (pos 0)) [
        | none ↦ (none, st)
        | some (items, total) ↦ reserve_and_record user_id (mutations requests) items total st
      ]

  unfoldable pub list_orders : State B I O → List Order
  list_orders st = orders.list_orders st.orders

  unfoldable pub find_order : ℤ → State B I O → Option Order
  find_order order_id st =
      if leb_ℤ order_id (pos 0) then none else orders.find_order order_id st.orders

  -- The loop of `cancel_order`: each item is released by itself.
  unfoldable pub release_items : List OrderItem → I → I
  release_items [] s = s
  release_items (item ∷ rest) s =
      release_items rest (inventory.release_stock item.book_id item.quantity s)

  -- `cancel_order` from the call of the repository on.
  unfoldable pub cancel_found : ℤ → State B I O → Option Order × State B I O
  unfolding release_items
  cancel_found order_id st =
      let (found, orders') = orders.cancel_order order_id st.orders in
      elim found [
        | none ↦ (none, record st { orders = orders' })
        | some order ↦ (
          some order,
          record st { orders = orders'; inventory = release_items order.items st.inventory },
        )
      ]

  unfoldable pub cancel_order : ℤ → State B I O → Option Order × State B I O
  unfolding cancel_found
  cancel_order order_id st =
      if leb_ℤ order_id (pos 0) then (none, st) else elim (orders.find_order order_id st.orders) [
        | none ↦ (none, st)
        | some existing ↦
            if existing.status == cancelled_status
            then (some existing, st)
            else cancel_found order_id st
      ]

  -- `LocalOrderClient` of src/app/client/local_order_client.h.
  abbrev pub local_client : OrderClient (State B I O)
  local_client = record {
    create_order = create_order;
    list_orders = list_orders;
    find_order = find_order;
    cancel_order = cancel_order;
  }
