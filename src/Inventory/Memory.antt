-- ===== src/Inventory/Memory.antt =====
-- `MemoryInventoryRepository` of src/app/repository/memory/memory_repositories.h.
pub mod Stock
pub mod Batch
use my_bookstore.Base.{
  ℤ_eq, ℤ, pos, ◌+ℤ◌, ◌-ℤ◌, leb_ℤ, ltb_ℤ, wrap32, Bool, true, false, ◌&&◌, ◌||◌, not, Text, Option,
  none, some, List, [], ◌∷◌, Dict, lookup, insert, if◌then◌else◌, is_empty,
}
use my_bookstore.Model.{InventoryItem, InventoryMutation}
use my_bookstore.Inventory.{InventoryRepository}

-- The member `stock_`.
abbrev pub Stock : Type 0
Stock = Dict ℤ ℤ

-- The constructor's loop.
unfoldable pub of_items : List InventoryItem → Stock
of_items items = fill items []
  where
    fill : List InventoryItem → Stock → Stock
    fill [] s = s
    fill (item ∷ rest) s = fill rest (insert item.book_id item.available s)

-- `stock_[book_id]` read: `operator[]` makes a missing entry zero.
abbrev or_zero : Option ℤ → ℤ
or_zero none = pos 0
or_zero (some v) = v

-- `stock_[book_id] += quantity`
unfoldable pub add_to : ℤ → ℤ → Stock → Stock
add_to book_id quantity s = insert book_id (wrap32 (or_zero (lookup book_id s) +ℤ quantity)) s

-- `stock_[book_id] -= quantity`
unfoldable pub take_from : ℤ → ℤ → Stock → Stock
take_from book_id quantity s = insert book_id (wrap32 (or_zero (lookup book_id s) -ℤ quantity)) s

unfoldable pub available_stock : ℤ → Stock → Option ℤ
available_stock book_id s = lookup book_id s

unfoldable pub add_stock : ℤ → ℤ → Stock → Option ℤ × Stock
add_stock book_id quantity s =
    if leb_ℤ book_id (pos 0) || leb_ℤ quantity (pos 0)
    then (none, s)
    else (some (or_zero (lookup book_id (add_to book_id quantity s))), add_to book_id quantity s)

-- `it != stock_.end() && it->second >= quantity`
abbrev enough : Option ℤ → ℤ → Bool
enough none quantity = false
enough (some have) quantity = not (ltb_ℤ have quantity)

unfoldable pub reserve_stock : ℤ → ℤ → Stock → Bool × Stock
reserve_stock book_id quantity s =
    if leb_ℤ quantity (pos 0)
    then (false, s)
    else if enough (lookup book_id s) quantity
    then (true, take_from book_id quantity s)
    else (false, s)

unfoldable pub release_stock : ℤ → ℤ → Stock → Stock
release_stock book_id quantity s = if leb_ℤ quantity (pos 0) then s else add_to book_id quantity s

-- The first loop of the batch `reserve_stock`: each item by itself.
unfoldable pub all_available : List InventoryMutation → Stock → Bool
all_available [] s = true
all_available (item ∷ rest) s =
    not (leb_ℤ item.quantity (pos 0))
    && enough (lookup item.book_id s) item.quantity
    && all_available rest s

-- The second loop.
unfoldable pub take_all : List InventoryMutation → Stock → Stock
take_all [] s = s
take_all (item ∷ rest) s = take_all rest (take_from item.book_id item.quantity s)

unfoldable pub reserve_all : Text → List InventoryMutation → Stock → Bool × Stock
reserve_all reservation_id items s =
    if is_empty items
    then (false, s)
    else if all_available items s
    then (true, take_all items s)
    else (false, s)

unfoldable pub release_all : Text → List InventoryMutation → Stock → Stock
release_all reservation_id [] s = s
release_all reservation_id (item ∷ rest) s =
    release_all reservation_id rest
      (if ltb_ℤ (pos 0) item.quantity then add_to item.book_id item.quantity s else s)

abbrev pub memory : InventoryRepository Stock
memory = record {
  available_stock = available_stock;
  add_stock = add_stock;
  reserve_stock = reserve_stock;
  release_stock = release_stock;
  reserve_all = reserve_all;
  release_all = release_all;
}
