-- ===== src/Examples/Cancels.antt =====
-- `cancel_order` on the shop of `Shop`.
use my_bookstore.Examples.Shop.{
  books, inventory, later_shop, later_shop-IsNumbered, first_order, first_order-found,
  inventory-IsAtomic, two_priced,
}
use my_bookstore.Orders.Service.Cancel.{item_mutation}
use my_bookstore.Orders.Service.Cancel.Cases.{cancel_order-cases, Missing, Before, Ends}
use my_bookstore.Inventory.Returned.{IsReturnable}
use my_bookstore.Inventory.Laws.{demand}
use my_bookstore.Orders.Memory.{cancelled, Store, empty_store}
use my_bookstore.Inventory.Memory.{Stock}
use my_bookstore.Base.{
  map, ◌∙◌, ◌≤ℤ◌, sym, subst, ℤ, IsInt, lookup, arith, refl, some, ◌+ℤ◌, ◌⊎◌, ◌≡◌, pos,
}
use my_bookstore.Orders.Service.{mutations, price_items, State}
use my_bookstore.Orders.Memory.History.{memory-IsHistory}
use my_bookstore.Model.{Order}
use my_bookstore.Orders.Memory as OrdersMemory
use my_bookstore.Orders.Service as OrdersService
use my_bookstore.Inventory.Memory as InventoryMemory
use my_bookstore.Inventory.Service as InventoryService

later_shop-found_once :
    (order : Order)
    → OrdersMemory.find_order (pos 1) later_shop.orders ≡ some order
    → first_order ≡ order
later_shop-found_once order e = cc (sym first_order-found ∙ e)

-- Two copies of the first book can come back.
later_shop-room :
    (b w : ℤ)
    → inventory.available_stock b later_shop.inventory ≡ some w
    → (pos 0 ≤ℤ w) × IsInt (w +ℤ demand b (map item_mutation two_priced))
unfolding InventoryService.available_stock InventoryMemory.available_stock lookup ◌+ℤ◌
later_shop-room b w e =
    (ground (arith, e), record { below = ground (arith, e); above = ground (arith, e) })

later_shop-stock : inventory.available_stock (pos 1) later_shop.inventory ≡ some (pos 12)
unfolding InventoryService.available_stock InventoryMemory.available_stock lookup
later_shop-stock = refl

first_order-IsReturnable :
    IsReturnable inventory.available_stock
      (map item_mutation first_order.items)
      later_shop.inventory
first_order-IsReturnable = record {
  positive = (omega arith, tt);
  known = ((pos 12, later_shop-stock), tt);
  room = later_shop-room;
}

cancel_order-cases_example :
    let (out, st') =
      OrdersService.cancel_order books inventory OrdersMemory.memory (pos 1) later_shop in
    Missing books inventory OrdersMemory.memory (pos 1) later_shop out st'
    ⊎ (Before books inventory OrdersMemory.memory (pos 1) later_shop out st'
        ⊎ Ends books inventory OrdersMemory.memory (pos 1) later_shop out st')
cancel_order-cases_example =
    cancel_order-cases books inventory OrdersMemory.memory memory-IsHistory
      inventory-IsAtomic.release_one (pos 1) later_shop later_shop-IsNumbered
      (λ order e n.
        subst
          (λ (o : Order).
            IsReturnable inventory.available_stock (map item_mutation o.items) later_shop.inventory)
          (later_shop-found_once order e) first_order-IsReturnable)
