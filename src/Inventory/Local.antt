-- ===== src/Inventory/Local.antt =====
-- `LocalInventoryClient` of src/app/client/local_inventory_client.h: it reserves a batch item by
-- item and gives back what it took when one item fails.
pub mod Atomic
use my_bookstore.Base.{ℤ, Bool, true, false, Text, Option, List, [], ◌∷◌, ◌++◌, if◌then◌else◌}
use my_bookstore.Model.{InventoryMutation}
use my_bookstore.Inventory.{InventoryRepository, InventoryClient}
use my_bookstore.Inventory.Service

module _ {S : Type 0} (r : InventoryRepository S) where
  -- `for (const auto& item : items) service_.release_stock(item.book_id, item.quantity);`
  unfoldable pub release_each : List InventoryMutation → S → S
  unfolding Service.release_stock
  release_each [] s = s
  release_each (item ∷ rest) s =
      release_each rest (Service.release_stock r item.book_id item.quantity s)

  unfoldable pub reserve_loop : List InventoryMutation → List InventoryMutation → S → Bool × S
  unfolding Service.reserve_stock
  reserve_loop [] reserved s = (true, s)
  reserve_loop (item ∷ rest) reserved s =
      let (taken, s') = Service.reserve_stock r item.book_id item.quantity s in
      let more = reserve_loop rest (reserved ++ item ∷ []) s' in
      if taken then more else (false, release_each reserved s')

  unfoldable pub reserve_all : Text → List InventoryMutation → S → Bool × S
  reserve_all reservation_id items s = reserve_loop items [] s

  unfoldable pub release_all : Text → List InventoryMutation → S → S
  release_all reservation_id items s = release_each items s

  abbrev pub local_client : InventoryClient S
  local_client = record {
    available_stock = Service.available_stock r;
    add_stock = Service.add_stock r;
    reserve_stock = Service.reserve_stock r;
    release_stock = Service.release_stock r;
    reserve_all = reserve_all;
    release_all = release_all;
  }
