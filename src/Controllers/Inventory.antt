-- ===== src/Controllers/Inventory.antt =====
-- src/app/controller/inventory_controller.h.
use my_bookstore.Json.{json_int_value}
use my_bookstore.Controllers.{success, atoi, failure}
use my_bookstore.Http.Router.{Handler}
use my_bookstore.Http.{HttpResponse, HttpRequest}
use my_bookstore.Base.{
  text_eq, pos, leb_ℤ, none, if◌then◌else◌, some, to_string, ◌++◌, codes, lookup, Option, Text, ℤ,
}
use my_bookstore.Inventory.{InventoryClient}

abbrev stock_data : ℤ → ℤ → Text
stock_data book_id stock =
    codes "\"book_id\":" ++ (to_string book_id ++ (codes ",\"available\":" ++ to_string stock))

abbrev answer_stock : {S : Type 0} → ℤ → Option ℤ × S → HttpResponse × S
answer_stock book_id (none, s) = (failure 404 (codes "inventory not found"), s)
answer_stock book_id (some stock, s) = (success 200 (stock_data book_id stock), s)

module _ {S : Type 0} (client : InventoryClient S) where
  abbrev get_with : Option Text → S → HttpResponse × S
  get_with none s = (failure 400 (codes "missing book_id"), s)
  get_with (some id) s = answer_stock (atoi id) (client.available_stock (atoi id) s, s)

  unfoldable pub handle_get_inventory : Handler S
  handle_get_inventory request s = get_with (lookup (codes "book_id") request.path_params) s

  abbrev add_quantity : ℤ → Option ℤ → S → HttpResponse × S
  add_quantity book_id none s = (failure 400 (codes "invalid inbound request"), s)
  add_quantity book_id (some quantity) s =
      if leb_ℤ quantity (pos 0)
      then (failure 400 (codes "invalid inbound request"), s)
      else answer_stock book_id (client.add_stock book_id quantity s)

  abbrev add_with : HttpRequest → Option Text → S → HttpResponse × S
  add_with request none s = (failure 400 (codes "missing book_id"), s)
  add_with request (some id) s =
      add_quantity (atoi id) (json_int_value request.body (codes "quantity")) s

  unfoldable pub handle_add_inventory : Handler S
  handle_add_inventory request s = add_with request (lookup (codes "book_id") request.path_params) s
