-- ===== src/Grpc/Orders/Same.antt =====
-- Orders over gRPC against the service in the process: src/app/grpc/order_grpc_service.cpp and
-- src/app/client/grpc_order_client.cpp.
use my_bookstore.Base.{
  sym, none, subst, Text, ap, arith, false, refl, [], inr, leb_ℤ, inl, map, ◌<ℤ◌, ◌∷◌, ◌⊎◌, All,
  pos, some, wrap32_id, IsInt, List, Option, ℤ, ◌≡◌,
}
use my_bookstore.Model.{Order, OrderItem, OrderItemRequest}
use my_bookstore.Orders.{OrderClient, created_status, cancelled_status}
use my_bookstore.Grpc.Orders.{
  ℤ, Option, List, fill_order, order_from_proto, item_from_proto, status_to_proto, read_items,
}
use my_bookstore.Grpc.{Answer, answered, failed, Code, failed_precondition, if_ok}
use my_bookstore.Grpc.Orders.{OrderMessage, status_text}
use my_bookstore.Grpc.Orders.Service
use my_bookstore.Grpc.Orders.Client

-- An order whose numbers fit `int` and whose status is one of the two that the services write.
pub record IsSent (order : Order) : Type 0 where
  pub id : IsInt order.id
  pub user_id : IsInt order.user_id
  pub total_cents : IsInt order.total_cents
  pub items : All (λ item. IsInt item.book_id × IsInt item.unit_price_cents) order.items
  pub status : (order.status ≡ created_status) ⊎ (order.status ≡ cancelled_status)

items_same :
    (items : List OrderItem)
    → All (λ item. IsInt item.book_id × IsInt item.unit_price_cents) items
    → map item_from_proto items ≡ items
unfolding item_from_proto
items_same [] h = refl
items_same (item ∷ rest) h =
    rw (items_same rest h.1, wrap32_id item.book_id h.0.0, wrap32_id item.unit_price_cents h.0.1)
      refl

status_back :
    (status : Text)
    → (status ≡ created_status) ⊎ (status ≡ cancelled_status)
    → status_text (status_to_proto status) ≡ status
unfolding status_to_proto
status_back status (inl e) = subst (λ t. status_text (status_to_proto t) ≡ t) (sym e) refl
status_back status (inr e) = subst (λ t. status_text (status_to_proto t) ≡ t) (sym e) refl

-- An order whose numbers fit `int`, with a status that the services write, comes back from its message.
pub order_from_proto-fill_order :
    (order : Order) → IsSent order → order_from_proto (fill_order order) ≡ order
unfolding order_from_proto fill_order
order_from_proto-fill_order order h =
    rw
      (
        wrap32_id order.id h.id,
        wrap32_id order.user_id h.user_id,
        wrap32_id order.total_cents h.total_cents,
        items_same order.items h.items,
        status_back order.status h.status,
      )
      refl

-- A request for positive numbers of books.
abbrev pub IsValid : List OrderItemRequest → Type 0
IsValid = All (λ item. (pos 0 <ℤ item.book_id) × ((pos 0 <ℤ item.quantity) × IsInt item.book_id))

read_items-IsValid : (items : List OrderItemRequest) → IsValid items → read_items items ≡ some items
unfolding read_items
read_items-IsValid [] h = refl
read_items-IsValid (item ∷ rest) h =
    let book_id : leb_ℤ item.book_id (pos 0) ≡ false = ground (arith, h.0.0) in
    let quantity : leb_ℤ item.quantity (pos 0) ≡ false = ground (arith, h.0.1.0) in
    rw (read_items-IsValid rest h.1, book_id, quantity, wrap32_id item.book_id h.0.1.1) refl

-- The order that the client makes of an answer is the one that the service returned.
came_back :
    (code : Code) (message : Text) (order : Option Order)
    → ((o : Order) → order ≡ some o → IsSent o)
    → if_ok none
        (λ m. some (order_from_proto m))
        (elim order as (λ o. Answer OrderMessage) [
          | none ↦ failed code message
          | some o ↦ answered (fill_order o)
        ])
      ≡ order
came_back code message none h = refl
came_back code message (some o) h = ap some (order_from_proto-fill_order o (h o refl))

module _ {S : Type 0} (service : OrderClient S) where
  -- A valid order request, placed over a channel that loses nothing, does what the service does in the
  -- process, if the order that the service returns can be sent.
  pub create_order-stub :
      (user_id : ℤ) (item : OrderItemRequest) (rest : List OrderItemRequest) (s : S)
      → pos 0 <ℤ user_id
      → IsInt user_id
      → IsValid (item ∷ rest)
      → ((o : Order) → (service.create_order user_id (item ∷ rest) s).0 ≡ some o → IsSent o)
      → Client.create_order (Service.stub service) user_id (item ∷ rest) s
        ≡ service.create_order user_id (item ∷ rest) s
  unfolding Client.create_order Service.create_order
  create_order-stub user_id item rest s p i h k =
      let user : leb_ℤ user_id (pos 0) ≡ false = ground (arith, p) in
      rw (user, read_items-IsValid (item ∷ rest) h, wrap32_id user_id i)
        (ap (λ o. (o, (service.create_order user_id (item ∷ rest) s).1))
          (came_back failed_precondition _ _ k))
