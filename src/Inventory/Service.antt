-- ===== src/Inventory/Service.antt =====
-- `InventoryService` of src/app/service/inventory_service.h: the repository behind one guard.
use my_bookstore.Base.{ℤ, pos, leb_ℤ, Bool, ◌||◌, Text, Option, none, List, if◌then◌else◌}
use my_bookstore.Model.{InventoryMutation}
use my_bookstore.Inventory.{InventoryRepository}

module _ {S : Type 0} (r : InventoryRepository S) where
  unfoldable pub available_stock : ℤ → S → Option ℤ
  available_stock book_id s = r.available_stock book_id s

  unfoldable pub add_stock : ℤ → ℤ → S → Option ℤ × S
  add_stock book_id quantity s =
      if leb_ℤ book_id (pos 0) || leb_ℤ quantity (pos 0)
      then (none, s)
      else r.add_stock book_id quantity s

  unfoldable pub reserve_stock : ℤ → ℤ → S → Bool × S
  reserve_stock book_id quantity s = r.reserve_stock book_id quantity s

  unfoldable pub release_stock : ℤ → ℤ → S → S
  release_stock book_id quantity s = r.release_stock book_id quantity s

  unfoldable pub reserve_all : Text → List InventoryMutation → S → Bool × S
  reserve_all reservation_id items s = r.reserve_all reservation_id items s

  unfoldable pub release_all : Text → List InventoryMutation → S → S
  release_all reservation_id items s = r.release_all reservation_id items s
