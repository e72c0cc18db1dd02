-- ===== src/Grpc/Orders/Service.antt =====
-- `OrderGrpcServiceImpl` of src/app/grpc/order_grpc_service.cpp.
use my_bookstore.Base.{
  is_empty, wrap32, codes, ◌||◌, pos, leb_ℤ, none, if◌then◌else◌, map, some, List, Option, ℤ,
}
use my_bookstore.Grpc.Orders.{
  CreateOrderRequest, ℤ, read_items, List, fill_order, OrderStub, OrderMessage,
}
use my_bookstore.Grpc.{
  Option, Answer, answered, failed, invalid_argument, not_found, failed_precondition, Call,
}
use my_bookstore.Model.{Order}
use my_bookstore.Orders.{OrderClient}

-- The response of an order, or the status under which there is none.
abbrev order_or : Answer OrderMessage → Option Order → Answer OrderMessage
order_or status none = status
order_or status (some order) = answered (fill_order order)

module _ {S : Type 0} (service : OrderClient S) where
  unfoldable pub create_order : Call S CreateOrderRequest OrderMessage
  unfolding read_items fill_order
  create_order request s =
      if leb_ℤ request.user_id (pos 0) || is_empty request.items
      then (failed invalid_argument (codes "invalid order request"), s)
      else elim (read_items request.items) [
        | none ↦ (failed invalid_argument (codes "invalid order item"), s)
        | some items ↦
            let (order, s') = service.create_order (wrap32 request.user_id) items s in
            (order_or (failed failed_precondition (codes "order rejected")) order, s')
      ]

  unfoldable pub list_orders : S → Answer (List OrderMessage)
  unfolding fill_order
  list_orders s = answered (map fill_order (service.list_orders s))

  unfoldable pub get_order : ℤ → S → Answer OrderMessage
  unfolding fill_order
  get_order order_id s =
      if leb_ℤ order_id (pos 0)
      then failed invalid_argument (codes "invalid order id")
      else order_or (failed not_found (codes "order not found"))
          (service.find_order (wrap32 order_id) s)

  unfoldable pub cancel_order : Call S ℤ OrderMessage
  unfolding fill_order
  cancel_order order_id s =
      if leb_ℤ order_id (pos 0)
      then (failed invalid_argument (codes "invalid order id"), s)
      else let (order, s') = service.cancel_order (wrap32 order_id) s in
        (order_or (failed not_found (codes "order not found")) order, s')

  -- A channel that brings every call to the service and its answer back.
  abbrev pub stub : OrderStub S
  stub = record {
    create_order = create_order;
    list_orders = list_orders;
    get_order = get_order;
    cancel_order = cancel_order;
  }
