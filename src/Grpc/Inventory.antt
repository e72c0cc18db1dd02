-- ===== src/Grpc/Inventory.antt =====
-- `InventoryGrpcServiceImpl` of src/app/grpc/inventory_grpc_service.cpp and `GrpcInventoryClient` of
-- src/app/client/grpc_inventory_client.cpp, with the messages of proto/inventory/v1/inventory.proto.
pub mod Remote
pub mod Client
pub mod Known
use my_bookstore.Base.{
  [], wrap32, none, ◌||◌, pos, leb_ℤ, if◌then◌else◌, ◌∷◌, some, Option, List, Text, ℤ,
}
use my_bookstore.Grpc.{
  Text, Answer, answered, failed, invalid_argument, not_found, failed_precondition, Call, if_ok,
}
use my_bookstore.Model.{InventoryItem, InventoryMutation}
use my_bookstore.Inventory.{InventoryRepository, InventoryClient}
use my_bookstore.Inventory.Service

-- The request of `ReserveInventory` and of `ReleaseInventory`.
pub record BatchRequest : Type 0 where
  pub reservation_id : Text
  pub items : List InventoryMutation

pub record InboundRequest : Type 0 where
  pub book_id : ℤ
  pub quantity : ℤ

pub record InventoryStub (S : Type 0) : Type 0 where
  pub get_inventory : ℤ → S → Answer InventoryItem
  pub inbound_inventory : Call S InboundRequest InventoryItem
  pub reserve_inventory : Call S BatchRequest (List InventoryItem)
  pub release_inventory : Call S BatchRequest (List InventoryItem)

-- The loop over the items of a request: a bad item ends the call.
unfoldable pub read_items : List InventoryMutation → Option (List InventoryMutation)
read_items [] = some []
read_items (item ∷ rest) =
    let more = read_items rest in
    if leb_ℤ item.book_id (pos 0) || leb_ℤ item.quantity (pos 0) then none else elim more [
      | none ↦ none
      | some items ↦
          some (record { book_id = wrap32 item.book_id; quantity = item.quantity } ∷ items)
    ]
