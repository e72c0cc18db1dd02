-- ===== src/Examples/Shop.antt =====
-- Orders over the in-memory parts that the gateway starts with.
use my_bookstore.Orders.Laws.{as_cancelled}
use my_bookstore.Inventory.Laws.{IsStocked}
use my_bookstore.Examples.Stock.{start_stock-IsStocked, start_stock}
use my_bookstore.Inventory.Memory.Stock.{memory-IsLawful}
use my_bookstore.Orders.Service.Create.{create_order-cases, Places, Refuses}
use my_bookstore.Orders.Service.Cancel.{cancel_order-create_order}
use my_bookstore.Orders.Memory.{cancelled, Store, empty_store}
use my_bookstore.Orders.{created_status}
use my_bookstore.Inventory.Memory.{Stock}
use my_bookstore.Inventory.Local.Atomic.{local_client-IsAtomic}
use my_bookstore.Examples.Shelf.{start_books}
use my_bookstore.Catalog.Memory.{Books}
use my_bookstore.Base.{
  sym, subst, ◌-ℤ◌, inr, ℤ, IsInt, Option, inl, lookup, arith, [], refl, wrap32, some, ◌+ℤ◌, ◌∷◌,
  ◌⊎◌, ◌*ℤ◌, ◌≡◌, List, pos,
}
use my_bookstore.Orders.Service.Pricing.{price_items-total, cost, PricesNonneg}
use my_bookstore.Orders.Service.{mutations, price_items, State}
use my_bookstore.Orders.Memory.History.{memory-IsHistory, IsNumbered}
use my_bookstore.Model.{OrderItemRequest, OrderItem, Order}
use my_bookstore.Inventory.Reserved.{IsAtomic}
use my_bookstore.Inventory.{InventoryClient}
use my_bookstore.Catalog.{BookClient}
use my_bookstore.Orders.Memory as OrdersMemory
use my_bookstore.Catalog.Service as CatalogService
use my_bookstore.Orders.Service as OrdersService
use my_bookstore.Catalog.Memory as CatalogMemory
use my_bookstore.Inventory.Memory as InventoryMemory
use my_bookstore.Inventory.Service as InventoryService
use my_bookstore.Inventory.Local as InventoryLocal
use my_bookstore.Catalog.Local as CatalogLocal

abbrev pub books : BookClient Books
books = CatalogLocal.local_client CatalogMemory.memory

abbrev pub inventory : InventoryClient Stock
inventory = InventoryLocal.local_client InventoryMemory.memory

pub inventory-IsAtomic : IsAtomic inventory
inventory-IsAtomic = local_client-IsAtomic InventoryMemory.memory memory-IsLawful

abbrev pub start_shop : State Books Stock Store
start_shop = record {
  books = start_books;
  inventory = start_stock;
  orders = empty_store;
  next_reservation = 1;
}

-- Two copies of the first book.
abbrev pub two_copies : List OrderItemRequest
two_copies = record { book_id = pos 1; quantity = pos 2 } ∷ []

abbrev pub two_priced : List OrderItem
two_priced = record { book_id = pos 1; quantity = pos 2; unit_price_cents = pos 9800 } ∷ []

empty_store-IsNumbered : IsNumbered empty_store
empty_store-IsNumbered = (omega arith, tt)

start_shop-IsStocked : IsStocked inventory.available_stock start_shop.inventory
unfolding InventoryService.available_stock
start_shop-IsStocked = start_stock-IsStocked

create_order-cases_example :
    let (out, st') =
      OrdersService.create_order books inventory OrdersMemory.memory
        (pos 7)
        two_copies
        start_shop in
    Refuses books inventory OrdersMemory.memory start_shop out st'
    ⊎ Places books inventory OrdersMemory.memory (pos 7) two_copies start_shop out st'
create_order-cases_example =
    create_order-cases books inventory OrdersMemory.memory inventory-IsAtomic memory-IsHistory
      (pos 7) two_copies start_shop empty_store-IsNumbered start_shop-IsStocked

two_copies-priced :
    price_items books two_copies start_books [] (pos 0) ≡ some (two_priced, pos 19600)
unfolding price_items ◌*ℤ◌ ◌+ℤ◌ wrap32 CatalogService.find_book CatalogMemory.find_book
two_copies-priced = refl

start_books-PricesNonneg : PricesNonneg books start_books
unfolding CatalogService.find_book CatalogMemory.find_book
start_books-PricesNonneg id book e = ground (arith, e)

two_priced-IsInt : IsInt (cost two_priced)
unfolding ◌*ℤ◌ ◌+ℤ◌
two_priced-IsInt = record { below = omega arith; above = omega arith }

price_items-total_example : pos 19600 ≡ cost two_priced
price_items-total_example =
    price_items-total books start_books two_copies two_priced (pos 19600) start_books-PricesNonneg
      two_copies-priced two_priced-IsInt

-- The first order of user 7, as it is recorded.
abbrev pub first_order : Order
first_order = record {
  id = pos 1;
  user_id = pos 7;
  items = two_priced;
  total_cents = pos 19600;
  status = created_status;
}

abbrev pub later_shop : State Books Stock Store
later_shop = record start_shop {
  orders = record { next_order_id = pos 2; orders = first_order ∷ [] };
}

pub later_shop-IsNumbered : IsNumbered later_shop.orders
later_shop-IsNumbered = (omega arith, (omega arith, tt))

pub first_order-found : OrdersMemory.find_order (pos 1) later_shop.orders ≡ some first_order
unfolding OrdersMemory.find_order
first_order-found = refl

abbrev pub placing : Option Order × State Books Stock Store
placing =
    OrdersService.create_order books inventory OrdersMemory.memory (pos 7) two_copies start_shop

pub placing-order : placing.0 ≡ some first_order
unfolding OrdersService.create_order OrdersService.reserve_and_record OrdersService.record_order
    OrdersMemory.create_order InventoryLocal.reserve_all InventoryLocal.reserve_loop
    InventoryService.reserve_stock InventoryMemory.reserve_stock InventoryMemory.take_from lookup
    price_items ◌*ℤ◌ ◌+ℤ◌ ◌-ℤ◌ wrap32 CatalogService.find_book CatalogMemory.find_book mutations
placing-order = refl

placing-orders : placing.1.orders ≡ later_shop.orders
unfolding OrdersService.create_order OrdersService.reserve_and_record OrdersService.record_order
    OrdersMemory.create_order InventoryLocal.reserve_all InventoryLocal.reserve_loop
    InventoryService.reserve_stock InventoryMemory.reserve_stock InventoryMemory.take_from lookup
    price_items ◌*ℤ◌ ◌+ℤ◌ ◌-ℤ◌ wrap32 CatalogService.find_book CatalogMemory.find_book mutations
placing-orders = refl

placing-IsNumbered : IsNumbered placing.1.orders
placing-IsNumbered = subst IsNumbered (sym placing-orders) later_shop-IsNumbered

placing-Places :
    Places books inventory OrdersMemory.memory (pos 7) two_copies start_shop placing.0 placing.1
placing-Places =
    elim (create_order-cases books inventory OrdersMemory.memory inventory-IsAtomic memory-IsHistory
      (pos 7) two_copies start_shop empty_store-IsNumbered start_shop-IsStocked) [
        | inl refusal ↦ cc (placing-order, refusal.no_order)
        | inr placed ↦ placed
      ]

cancel_order-create_order_example :
    let (again, st'') =
      OrdersService.cancel_order books inventory OrdersMemory.memory placing-Places.order.id
        placing.1 in
    (again ≡ some (as_cancelled placing-Places.order))
    × ((b : ℤ)
        → inventory.available_stock b st''.inventory
          ≡ inventory.available_stock b start_shop.inventory)
cancel_order-create_order_example =
    cancel_order-create_order books inventory OrdersMemory.memory memory-IsHistory (pos 7)
      two_copies inventory-IsAtomic placing-IsNumbered placing-Places

placing-items : placing-Places.items ≡ two_priced
placing-items = cc (placing-Places.computed, two_copies-priced)

-- The shop where the first order is cancelled already.
abbrev cancelled_shop : State Books Stock Store
cancelled_shop = record later_shop {
  orders = record { next_order_id = pos 2; orders = as_cancelled first_order ∷ [] };
}

cancelled_order-found :
    OrdersMemory.find_order (pos 1) cancelled_shop.orders ≡ some (as_cancelled first_order)
unfolding OrdersMemory.find_order
cancelled_order-found = refl

two-IsInt : IsInt (pos 1 +ℤ pos 1)
unfolding ◌+ℤ◌
two-IsInt = record { below = omega arith; above = omega arith }
