-- ===== src/Grpc/Orders.antt =====
-- `OrderGrpcServiceImpl` of src/app/grpc/order_grpc_service.cpp and `GrpcOrderClient` of
-- src/app/client/grpc_order_client.cpp, with the messages of proto/order/v1/order.proto.
pub mod Service
pub mod Client
pub mod Same
use my_bookstore.Base.{
  [], none, ◌||◌, pos, leb_ℤ, text_eq, ◌∷◌, some, ◌==◌, Option, if◌then◌else◌, map, List, Text,
  wrap32, ℤ,
}
use my_bookstore.Grpc.{
  Text, Answer, answered, failed, invalid_argument, not_found, failed_precondition, Call, if_ok,
}
use my_bookstore.Model.{Order, OrderItem, OrderItemRequest}
use my_bookstore.Orders.{OrderClient, created_status, cancelled_status}

pub data OrderStatus : Type 0 where
  unspecified created cancelled : OrderStatus

pub record OrderMessage : Type 0 where
  pub order_id : ℤ
  pub user_id : ℤ
  pub items : List OrderItem
  pub total_cents : ℤ
  pub status : OrderStatus

pub record CreateOrderRequest : Type 0 where
  pub user_id : ℤ
  pub items : List OrderItemRequest

unfoldable pub status_to_proto : Text → OrderStatus
status_to_proto status =
    if status == cancelled_status
    then cancelled
    else if status == created_status
    then created
    else unspecified

-- An item's message has the fields of the struct.
unfoldable pub fill_order : Order → OrderMessage
unfolding status_to_proto
fill_order source = record {
  order_id = source.id;
  user_id = source.user_id;
  items = source.items;
  total_cents = source.total_cents;
  status = status_to_proto source.status;
}

abbrev pub status_text : OrderStatus → Text
status_text cancelled = cancelled_status
status_text status = created_status

unfoldable pub item_from_proto : OrderItem → OrderItem
item_from_proto item = record {
  book_id = wrap32 item.book_id;
  quantity = item.quantity;
  unit_price_cents = wrap32 item.unit_price_cents;
}

unfoldable pub order_from_proto : OrderMessage → Order
unfolding item_from_proto
order_from_proto source = record {
  id = wrap32 source.order_id;
  user_id = wrap32 source.user_id;
  items = map item_from_proto source.items;
  total_cents = wrap32 source.total_cents;
  status = status_text source.status;
}

pub record OrderStub (S : Type 0) : Type 0 where
  pub create_order : Call S CreateOrderRequest OrderMessage
  pub list_orders : S → Answer (List OrderMessage)
  pub get_order : ℤ → S → Answer OrderMessage
  pub cancel_order : Call S ℤ OrderMessage

-- The loop of `CreateOrder`: a bad item ends the call.
unfoldable pub read_items : List OrderItemRequest → Option (List OrderItemRequest)
read_items [] = some []
read_items (item ∷ rest) =
    let more = read_items rest in
    if leb_ℤ item.book_id (pos 0) || leb_ℤ item.quantity (pos 0) then none else elim more [
      | none ↦ none
      | some items ↦
          some (record { book_id = wrap32 item.book_id; quantity = item.quantity } ∷ items)
    ]
