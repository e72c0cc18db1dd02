-- ===== src/Controllers/Orders.antt =====
-- src/app/controller/order_controller.h.
use my_bookstore.Json.{escape_json_string, json_order_items, json_int_value}
use my_bookstore.Http.{HttpResponse}
use my_bookstore.Controllers.{atoi, with_commas, failure, success}
use my_bookstore.Base.{
  text_eq, [], map, none, ◌∷◌, some, to_string, List, ◌++◌, codes, lookup, ℤ, Option, Text,
}
use my_bookstore.Http.Router.{Handler}
use my_bookstore.Orders.{OrderClient}
use my_bookstore.Model.{OrderItemRequest, OrderItem, Order}

unfoldable pub item_to_json : OrderItem → Text
item_to_json item =
    codes "{\"book_id\":"
    ++ (to_string item.book_id
        ++ (codes ",\"quantity\":"
            ++ (to_string item.quantity
                ++ (codes ",\"unit_price_cents\":"
                    ++ (to_string item.unit_price_cents ++ codes "}")))))

unfoldable pub order_to_json : Order → Text
unfolding item_to_json
order_to_json order =
    codes "{\"id\":"
    ++ (to_string order.id
        ++ (codes ",\"user_id\":"
            ++ (to_string order.user_id
                ++ (codes ",\"status\":\""
                    ++ (escape_json_string order.status
                        ++ (codes "\",\"total_cents\":"
                            ++ (to_string order.total_cents
                                ++ (codes ",\"items\":["
                                    ++ (with_commas (map item_to_json order.items)
                                        ++ codes "]}")))))))))

-- `{"order":<order>}` without its braces.
abbrev order_data : Order → Text
order_data order = codes "\"order\":" ++ order_to_json order

module _ {S : Type 0} (client : OrderClient S) where
  abbrev created : Option Order × S → HttpResponse × S
  created (none, s) = (failure 409 (codes "insufficient stock or invalid order"), s)
  created (some order, s) = (success 201 (order_data order), s)

  abbrev create_with : Option ℤ → List OrderItemRequest → S → HttpResponse × S
  create_with none items s = (failure 400 (codes "invalid order request"), s)
  create_with (some user_id) [] s = (failure 400 (codes "invalid order request"), s)
  create_with (some user_id) (item ∷ items) s =
      created (client.create_order user_id (item ∷ items) s)

  unfoldable pub handle_create_order : Handler S
  handle_create_order request s =
      create_with (json_int_value request.body (codes "user_id")) (json_order_items request.body) s

  unfoldable pub handle_list_orders : Handler S
  handle_list_orders request s = (
    success 200 (
        codes "\"orders\":["
        ++ (with_commas (map order_to_json (client.list_orders s)) ++ codes "]")),
    s,
  )

  abbrev found : Option Order × S → HttpResponse × S
  found (none, s) = (failure 404 (codes "order not found"), s)
  found (some order, s) = (success 200 (order_data order), s)

  abbrev get_with : Option Text → S → HttpResponse × S
  get_with none s = (failure 400 (codes "missing order_id"), s)
  get_with (some id) s = found (client.find_order (atoi id) s, s)

  unfoldable pub handle_get_order : Handler S
  handle_get_order request s = get_with (lookup (codes "order_id") request.path_params) s

  abbrev cancel_with : Option Text → S → HttpResponse × S
  cancel_with none s = (failure 400 (codes "missing order_id"), s)
  cancel_with (some id) s = found (client.cancel_order (atoi id) s)

  unfoldable pub handle_cancel_order : Handler S
  handle_cancel_order request s = cancel_with (lookup (codes "order_id") request.path_params) s
