-- ===== src/Examples/Stock.antt =====
-- The inventory of two books that the gateway starts with, and batches on it.
use my_bookstore.Inventory.Memory.Batch.{reserve_all-oversells}
use my_bookstore.Inventory.Reserved.{Reserved}
use my_bookstore.Inventory.Memory.Stock.{memory-IsLawful}
use my_bookstore.Inventory.Local.Atomic.{reserve_all-atomic, release_all-reserve_all}
use my_bookstore.Inventory.Laws.{IsStocked}
use my_bookstore.Base.{
  wrap32, ◌-ℤ◌, insert, refl, ◌+ℤ◌, ℤ_eq, arith, ◌<ℤ◌, some, true, [], ◌⊎◌, false, ◌∷◌, lookup, pos,
  ◌≡◌, List, codes, ℤ,
}
use my_bookstore.Model.{InventoryMutation}
use my_bookstore.Inventory.Memory.{reserve_stock, memory, available_stock, Stock}
use my_bookstore.Inventory.Memory
use my_bookstore.Inventory.Local
use my_bookstore.Inventory.Service

-- `default_dependencies` of src/app/api_gateway.h.
abbrev pub start_stock : Stock
start_stock = (pos 1, pos 12) ∷ (pos 2, pos 4) ∷ []

pub start_stock-IsStocked : IsStocked available_stock start_stock
unfolding available_stock lookup
start_stock-IsStocked b v e =
    (ground (arith, e), record { below = ground (arith, e); above = ground (arith, e) })

-- Two books, of which the second is not covered.
abbrev too_much : List InventoryMutation
too_much =
    record { book_id = pos 1; quantity = pos 2 } ∷ record { book_id = pos 2; quantity = pos 9 } ∷ []

abbrev fitting : List InventoryMutation
fitting =
    record { book_id = pos 1; quantity = pos 2 } ∷ record { book_id = pos 2; quantity = pos 4 } ∷ []

fitting-taken : (Local.reserve_all memory (codes "a") fitting start_stock).0 ≡ true
unfolding Local.reserve_all Service.reserve_stock reserve_stock lookup insert ◌-ℤ◌ wrap32
    Local.reserve_loop Memory.take_from
fitting-taken = refl

start_stock-second : lookup (pos 2) start_stock ≡ some (pos 4)
unfolding lookup
start_stock-second = refl

four_less_six : pos 4 <ℤ pos 3 +ℤ pos 3
unfolding ◌+ℤ◌
four_less_six = omega arith

reserve_all-atomic_example :
    let (taken, t) = Local.reserve_all memory (codes "a") too_much start_stock in
    ((taken ≡ false) × ((b : ℤ) → available_stock b t ≡ available_stock b start_stock))
    ⊎ ((taken ≡ true) × Reserved available_stock too_much start_stock t)
reserve_all-atomic_example =
    reserve_all-atomic memory (codes "a") too_much start_stock memory-IsLawful start_stock-IsStocked

release_all-reserve_all_example :
    available_stock (pos 2) (
      Local.release_all memory
        (codes "b")
        fitting
        (Local.reserve_all memory (codes "a") fitting start_stock).1)
    ≡ available_stock (pos 2) start_stock
release_all-reserve_all_example =
    release_all-reserve_all memory (codes "a") (codes "b") fitting start_stock memory-IsLawful
      start_stock-IsStocked fitting-taken (pos 2)

reserve_all-oversells_example :
    let item : InventoryMutation = record { book_id = pos 2; quantity = pos 3 } in
    let (taken, t) = Memory.reserve_all (codes "a") (item ∷ item ∷ []) start_stock in
    (taken ≡ true) × (w : ℤ) × (lookup (pos 2) t ≡ some w) × (w <ℤ pos 0)
reserve_all-oversells_example =
    reserve_all-oversells (codes "a") (pos 2) (pos 3) (pos 4) start_stock start_stock-second
      (record { below = omega arith; above = omega arith }) (omega arith) (omega arith)
      four_less_six
