-- ===== src/Examples/Remote.antt =====
-- The clients of src/app/client/grpc_*.cpp over the services of src/app/grpc, in memory.
use my_bookstore.Base.{
  ◌∙◌, sym, ◌&&◌, [], inl, refl, subst, wrap32, ◌∷◌, arith, codes, pos, some, ◌+ℤ◌, ◌≡◌,
}
use my_bookstore.Catalog.Local as CatalogLocal
use my_bookstore.Catalog.Memory as CatalogMemory
use my_bookstore.Catalog.Service as CatalogService
use my_bookstore.Inventory.Memory as InventoryMemory
use my_bookstore.Orders.Memory as OrdersMemory
use my_bookstore.Orders.Service as OrdersService
use my_bookstore.Examples.Shop.{books, inventory, start_shop, first_order}
use my_bookstore.Examples.Shop
use my_bookstore.Examples.Shelf.{start_books}
use my_bookstore.Examples.Stock.{start_stock}
use my_bookstore.Inventory.Memory.{Stock}
use my_bookstore.Model.{Book, InventoryMutation}
use my_bookstore.Grpc.Orders.Same.{create_order-stub, order_from_proto-fill_order}
use my_bookstore.Grpc.Orders.Same
use my_bookstore.Grpc.Orders.Service as OrdersRemote
use my_bookstore.Grpc.Orders.Client as OrdersClient
use my_bookstore.Grpc.Books.Same.{create_book-stub, told}
use my_bookstore.Grpc.Books.Same as BooksSame
use my_bookstore.Grpc.Books.Service as BooksRemote
use my_bookstore.Grpc.Books.Client as BooksClient
use my_bookstore.Grpc.Inventory.Known.{reserve_all-stub, all_known}
use my_bookstore.Grpc.Inventory.Remote as InventoryRemote
use my_bookstore.Grpc.Inventory.Client as InventoryClient
use my_bookstore.Grpc.Inventory.Client.{Channel}

some_same : {A : Type 0} {x y : A} → some x ≡ some y → x ≡ y
some_same e = cc e

first_order-IsSent : Same.IsSent first_order
first_order-IsSent = record {
  id = record { below = omega arith; above = omega arith };
  user_id = record { below = omega arith; above = omega arith };
  total_cents = record { below = omega arith; above = omega arith };
  items = (
    (
      record { below = omega arith; above = omega arith },
      record { below = omega arith; above = omega arith },
    ),
    tt,
  );
  status = inl refl;
}

create_order-stub_example :
    OrdersClient.create_order
      (OrdersRemote.stub (OrdersService.local_client books inventory OrdersMemory.memory))
      (pos 7)
      Shop.two_copies
      start_shop
    ≡ OrdersService.create_order books inventory OrdersMemory.memory
        (pos 7)
        Shop.two_copies
        start_shop
create_order-stub_example =
    create_order-stub (OrdersService.local_client books inventory OrdersMemory.memory) (pos 7)
      (record { book_id = pos 1; quantity = pos 2 }) [] start_shop (omega arith)
      (record { below = omega arith; above = omega arith })
      ((omega arith, (omega arith, record { below = omega arith; above = omega arith })), tt)
      (λ o e. subst Same.IsSent (some_same (sym Shop.placing-order ∙ e)) first_order-IsSent)

abbrev channel : Channel Stock
channel = record { next_id = 1; remote = start_stock }

abbrev wanted : InventoryMutation
wanted = record { book_id = pos 1; quantity = pos 2 }

reserve_all-stub_example :
    let (taken, s) = InventoryMemory.reserve_all (codes "r") (wanted ∷ []) start_stock in
    InventoryClient.reserve_all
      (InventoryRemote.stub InventoryMemory.memory)
      (codes "r")
      (wanted ∷ [])
      channel
    ≡ (
      taken && all_known InventoryMemory.memory (wanted ∷ []) s,
      record { next_id = 1; remote = s },
    )
reserve_all-stub_example =
    reserve_all-stub InventoryMemory.memory (codes "r") wanted [] channel refl
      ((omega arith, (omega arith, record { below = omega arith; above = omega arith })), tt)

-- A book of a status that the service does not know.
abbrev odd_book : Book
odd_book = record {
  id = pos 0;
  title = codes "K&R";
  author = codes "Kernighan";
  price_cents = pos 5000;
  stock = pos 1;
  status = codes "gone";
}

abbrev third_book : Book
third_book = record (told odd_book) { id = pos 3 }

third_book-IsSent : BooksSame.IsSent third_book
third_book-IsSent = record {
  id = record { below = omega arith; above = omega arith };
  price_cents = record { below = omega arith; above = omega arith };
  status = refl;
}

third_book-made :
    (CatalogService.create_book CatalogMemory.memory (told odd_book) start_books).0
    ≡ some third_book
unfolding CatalogService.create_book CatalogMemory.create_book ◌+ℤ◌ wrap32
    CatalogMemory.next_book_id CatalogMemory.next_id_from
third_book-made = refl

create_book-stub_example :
    BooksClient.create_book
      (BooksRemote.stub (CatalogLocal.local_client CatalogMemory.memory))
      odd_book
      start_books
    ≡ CatalogService.create_book CatalogMemory.memory (told odd_book) start_books
create_book-stub_example =
    create_book-stub (CatalogLocal.local_client CatalogMemory.memory) odd_book start_books
      (record { below = omega arith; above = omega arith })
      (record { below = omega arith; above = omega arith })
      (λ b e. subst BooksSame.IsSent (some_same (sym third_book-made ∙ e)) third_book-IsSent)
