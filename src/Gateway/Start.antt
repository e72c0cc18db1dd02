-- ===== src/Gateway/Start.antt =====
-- What the gateway of src/app/api_gateway.h is made of: its dependencies, the clients that it makes where none
-- are given, and the dependencies in memory that it starts with.
use my_bookstore.Base.{[], ◌∷◌, codes, some, Option, none, pos}
use my_bookstore.Accounts.{UserRepository, UserClient}
use my_bookstore.Catalog.{BookRepository, BookClient, active}
use my_bookstore.Inventory.{InventoryRepository, InventoryClient}
use my_bookstore.Orders.{OrderRepository, OrderClient}
use my_bookstore.Orders.Service.{State}
use my_bookstore.Orders.Service as OrdersService
use my_bookstore.Orders.Memory as OrdersMemory
use my_bookstore.Accounts.Service as AccountsService
use my_bookstore.Accounts.Memory as AccountsMemory
use my_bookstore.Catalog.Local as CatalogLocal
use my_bookstore.Catalog.Memory as CatalogMemory
use my_bookstore.Inventory.Local as InventoryLocal
use my_bookstore.Inventory.Memory as InventoryMemory
use my_bookstore.Recommend.{BookIndex, rebuild, similar_books}
use my_bookstore.Gateway.{none, Option, Services, ReadinessStatus}

-- `none` is a null pointer; a repository is never null.
pub record Dependencies (U B I O : Type 0) : Type 0 where
  pub users : UserRepository U
  pub books : BookRepository B
  pub inventory : InventoryRepository I
  pub orders : OrderRepository O
  pub inventory_client : Option (InventoryClient I)
  pub order_client : Option (OrderClient (State B I O))
  pub user_client : Option (UserClient U)
  pub book_client : Option (BookClient B)

-- The state behind the gateway: the accounts, and what orders work on.
pub record Shop (U B I O : Type 0) : Type 0 where
  pub users : U
  pub trade : State B I O

abbrev or_made : {A : Type 0} → Option A → A → A
or_made none made = made
or_made (some given) made = given

module _ {U B I O : Type 0} where
  unfoldable pub ensure_inventory_client : Dependencies U B I O → InventoryClient I
  ensure_inventory_client deps =
      or_made deps.inventory_client (InventoryLocal.local_client deps.inventory)

  unfoldable pub ensure_user_client : Dependencies U B I O → UserClient U
  ensure_user_client deps = or_made deps.user_client (AccountsService.local_client deps.users)

  unfoldable pub ensure_book_client : Dependencies U B I O → BookClient B
  ensure_book_client deps = or_made deps.book_client (CatalogLocal.local_client deps.books)

  -- It is called behind the others.
  unfoldable pub ensure_order_client : Dependencies U B I O → OrderClient (State B I O)
  unfolding ensure_book_client ensure_inventory_client
  ensure_order_client deps = or_made deps.order_client (
      OrdersService.local_client (ensure_book_client deps) (ensure_inventory_client deps)
        deps.orders)

  -- Each client on its part of the state.
  unfoldable pub on_books : BookClient B → BookClient (Shop U B I O)
  on_books c = record {
    list_books = λ s. c.list_books s.trade.books;
    find_book = λ id s. c.find_book id s.trade.books;
    create_book = λ book s.
        let (made, b) = c.create_book book s.trade.books in
        (made, record s { trade = record s.trade { books = b } });
    update_book = λ id update s.
        let (changed, b) = c.update_book id update s.trade.books in
        (changed, record s { trade = record s.trade { books = b } });
  }

  abbrev with_inventory : Shop U B I O → I → Shop U B I O
  with_inventory s i = record s { trade = record s.trade { inventory = i } }

  unfoldable pub on_inventory : InventoryClient I → InventoryClient (Shop U B I O)
  on_inventory c = record {
    available_stock = λ id s. c.available_stock id s.trade.inventory;
    add_stock =
        λ id n s. let (v, i) = c.add_stock id n s.trade.inventory in (v, with_inventory s i);
    reserve_stock =
        λ id n s. let (ok, i) = c.reserve_stock id n s.trade.inventory in (ok, with_inventory s i);
    release_stock = λ id n s. with_inventory s (c.release_stock id n s.trade.inventory);
    reserve_all = λ id items s.
        let (ok, i) = c.reserve_all id items s.trade.inventory in (ok, with_inventory s i);
    release_all = λ id items s. with_inventory s (c.release_all id items s.trade.inventory);
  }

  unfoldable pub on_orders : OrderClient (State B I O) → OrderClient (Shop U B I O)
  on_orders c = record {
    create_order = λ id items s.
        let (order, t) = c.create_order id items s.trade in (order, record s { trade = t });
    list_orders = λ s. c.list_orders s.trade;
    find_order = λ id s. c.find_order id s.trade;
    cancel_order =
        λ id s. let (order, t) = c.cancel_order id s.trade in (order, record s { trade = t });
  }

  unfoldable pub on_users : UserClient U → UserClient (Shop U B I O)
  on_users c = record {
    register_user = λ name password s.
        let (user, u) = c.register_user name password s.users in (user, record s { users = u });
    authenticate = λ name password s. c.authenticate name password s.users;
  }

  -- The constructor and `use_dependencies`, up to the routes. The index is built anew for each request
  -- for similar books, so it is no part of the state; `5` is DEFAULT_SIMILAR_BOOK_LIMIT.
  unfoldable pub use_dependencies :
      {X : Type 0}
      → BookIndex X
      → Option (Shop U B I O → ReadinessStatus)
      → Dependencies U B I O
      → Services (Shop U B I O)
  unfolding on_books on_inventory on_orders on_users ensure_user_client ensure_order_client rebuild
      similar_books
  use_dependencies index checker deps = record {
    books = on_books (ensure_book_client deps);
    inventory = on_inventory (ensure_inventory_client deps);
    orders = on_orders (ensure_order_client deps);
    users = on_users (ensure_user_client deps);
    similar_books = λ id s.
        let client = ensure_book_client deps in
        (
          similar_books client index id (pos 5) s.trade.books (rebuild client index s.trade.books),
          s,
        );
    readiness_checker = checker;
  }

-- The repositories of `default_dependencies`.
abbrev pub default_dependencies :
    Dependencies AccountsMemory.Users CatalogMemory.Books InventoryMemory.Stock OrdersMemory.Store
default_dependencies = record {
  users = AccountsMemory.memory;
  books = CatalogMemory.memory;
  inventory = InventoryMemory.memory;
  orders = OrdersMemory.memory;
  inventory_client = none;
  order_client = none;
  user_client = none;
  book_client = none;
}

-- What they hold at the start.
unfoldable pub default_shop :
    Shop AccountsMemory.Users CatalogMemory.Books InventoryMemory.Stock OrdersMemory.Store
unfolding InventoryMemory.of_items
default_shop = record {
  users = AccountsMemory.empty_users;
  trade = record {
    books =
        record {
          id = pos 1;
          title = codes "C++ Primer";
          author = codes "Stanley Lippman";
          price_cents = pos 9800;
          stock = pos 12;
          status = active;
        }
        ∷ record {
          id = pos 2;
          title = codes "Unix Network Programming";
          author = codes "W. Richard Stevens";
          price_cents = pos 12800;
          stock = pos 4;
          status = active;
        }
        ∷ [];
    inventory = InventoryMemory.of_items (
        record { book_id = pos 1; available = pos 12 }
        ∷ record { book_id = pos 2; available = pos 4 }
        ∷ []);
    orders = OrdersMemory.empty_store;
    next_reservation = 1;
  };
}
