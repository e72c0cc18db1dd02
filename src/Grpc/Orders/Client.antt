-- ===== src/Grpc/Orders/Client.antt =====
-- `GrpcOrderClient` of src/app/client/grpc_order_client.cpp.
use my_bookstore.Base.{map, some, [], none, List, Option, ℤ}
use my_bookstore.Grpc.Orders.{OrderMessage, ℤ, order_from_proto, OrderStub}
use my_bookstore.Grpc.{Answer, if_ok}
use my_bookstore.Model.{Order, OrderItemRequest}
use my_bookstore.Orders.{OrderClient}

module _ {S : Type 0} (stub : OrderStub S) where
  abbrev order_of : Answer OrderMessage → Option Order
  unfolding order_from_proto
  order_of = if_ok none (λ message. some (order_from_proto message))

  unfoldable pub create_order : ℤ → List OrderItemRequest → S → Option Order × S
  unfolding order_of
  create_order user_id items s =
      let (answer, s') = stub.create_order (record { user_id = user_id; items = items }) s in
      (order_of answer, s')

  unfoldable pub list_orders : S → List Order
  unfolding order_from_proto
  list_orders s = if_ok [] (map order_from_proto) (stub.list_orders s)

  unfoldable pub find_order : ℤ → S → Option Order
  unfolding order_of
  find_order order_id s = order_of (stub.get_order order_id s)

  unfoldable pub cancel_order : ℤ → S → Option Order × S
  unfolding order_of
  cancel_order order_id s = let (answer, s') = stub.cancel_order order_id s in (order_of answer, s')

  abbrev pub remote_client : OrderClient S
  remote_client = record {
    create_order = create_order;
    list_orders = list_orders;
    find_order = find_order;
    cancel_order = cancel_order;
  }
