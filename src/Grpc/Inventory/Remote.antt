-- ===== src/Grpc/Inventory/Remote.antt =====
-- `InventoryGrpcServiceImpl` of src/app/grpc/inventory_grpc_service.cpp.
use my_bookstore.Base.{
  ◌||◌, [], pos, some, codes, is_empty, leb_ℤ, wrap32, if◌then◌else◌, none, ◌∷◌, List, ℤ,
}
use my_bookstore.Grpc.Inventory.{read_items, InventoryStub, InboundRequest, BatchRequest}
use my_bookstore.Grpc.{
  Answer, answered, failed, invalid_argument, not_found, failed_precondition, Call,
}
use my_bookstore.Model.{InventoryItem, InventoryMutation}
use my_bookstore.Inventory.{InventoryRepository}
use my_bookstore.Inventory.Service

module _ {S : Type 0} (r : InventoryRepository S) where
  unfoldable pub append_current_item : ℤ → S → Answer InventoryItem
  unfolding Service.available_stock
  append_current_item book_id s = elim (Service.available_stock r book_id s) [
    | none ↦ failed not_found (codes "inventory not found")
    | some stock ↦ answered (record { book_id = book_id; available = stock })
  ]

  -- The last loop of `ReserveInventory` and of `ReleaseInventory`.
  unfoldable pub append_items : List InventoryMutation → S → Answer (List InventoryItem)
  unfolding append_current_item
  append_items [] s = answered []
  append_items (item ∷ rest) s =
      let more = append_items rest s in
      elim (append_current_item (wrap32 item.book_id) s) [
        | failed code message ↦ failed code message
        | answered current ↦ elim more [
          | failed code message ↦ failed code message
          | answered items ↦ answered (current ∷ items)
        ]
      ]

  unfoldable pub get_inventory : ℤ → S → Answer InventoryItem
  unfolding append_current_item
  get_inventory book_id s =
      if leb_ℤ book_id (pos 0)
      then failed invalid_argument (codes "book_id must be positive")
      else append_current_item (wrap32 book_id) s

  unfoldable pub inbound_inventory : Call S InboundRequest InventoryItem
  unfolding Service.add_stock
  inbound_inventory request s =
      if leb_ℤ request.book_id (pos 0) || leb_ℤ request.quantity (pos 0)
      then (failed invalid_argument (codes "book_id and quantity must be positive"), s)
      else let (stock, s') = Service.add_stock r (wrap32 request.book_id) request.quantity s in
        elim stock [
          | none ↦ (failed not_found (codes "inventory not found"), s')
          | some available ↦
              (answered (record { book_id = request.book_id; available = available }), s')
        ]

  -- The tests in front of both batches.
  unfoldable pub with_items :
      BatchRequest
      → (List InventoryMutation → S → Answer (List InventoryItem) × S)
      → S
      → Answer (List InventoryItem) × S
  unfolding read_items
  with_items request next s =
      if is_empty request.items
      then (failed invalid_argument (codes "items must not be empty"), s)
      else if is_empty request.reservation_id
      then (failed invalid_argument (codes "reservation_id is required"), s)
      else elim (read_items request.items) [
        | none ↦ (failed invalid_argument (codes "book_id and quantity must be positive"), s)
        | some items ↦ next items s
      ]

  unfoldable pub reserve_inventory : Call S BatchRequest (List InventoryItem)
  unfolding with_items append_items Service.reserve_all
  reserve_inventory request = with_items request (λ items s.
      let (taken, s') = Service.reserve_all r request.reservation_id items s in
      if taken
      then (append_items request.items s', s')
      else (failed failed_precondition (codes "insufficient stock"), s'))

  unfoldable pub release_inventory : Call S BatchRequest (List InventoryItem)
  unfolding with_items append_items Service.release_all
  release_inventory request = with_items request (λ items s.
      let s' = Service.release_all r request.reservation_id items s in
      (append_items request.items s', s'))

  -- A channel that brings every call to the service and its answer back.
  abbrev pub stub : InventoryStub S
  stub = record {
    get_inventory = get_inventory;
    inbound_inventory = inbound_inventory;
    reserve_inventory = reserve_inventory;
    release_inventory = release_inventory;
  }
