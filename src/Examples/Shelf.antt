-- ===== src/Examples/Shelf.antt =====
-- The catalogue that the gateway starts with, and calls on it.
use my_bookstore.Catalog.Memory.Lookup.{create_book-find_book}
use my_bookstore.Catalog.Service.Guards.{IsSellable}
use my_bookstore.Catalog.Service.{unknown_status}
use my_bookstore.Base.{
  ℤ_eq, arith, ◌==◌, if◌then◌else◌, refl, [], false, some, ◌∷◌, codes, none, ◌≡◌, All, pos,
}
use my_bookstore.Model.{BookUpdate, Book}
use my_bookstore.Catalog.Memory.{find_book, memory, apply_update, is_incomplete, Books}
use my_bookstore.Catalog.Memory

-- `default_dependencies` of src/app/api_gateway.h.
abbrev pub start_books : Books
start_books =
    record {
      id = pos 1;
      title = codes "C++ Primer";
      author = codes "Stanley Lippman";
      price_cents = pos 9800;
      stock = pos 12;
      status = codes "active";
    }
    ∷ record {
      id = pos 2;
      title = codes "Unix Network Programming";
      author = codes "W. Richard Stevens";
      price_cents = pos 12800;
      stock = pos 4;
      status = codes "active";
    }
    ∷ []

abbrev new_book : Book
new_book = record {
  id = pos 0;
  title = codes "K&R";
  author = codes "Kernighan";
  price_cents = pos 5000;
  stock = pos 1;
  status = [];
}

abbrev cheaper : BookUpdate
cheaper = record {
  title = none;
  author = none;
  price_cents = some (pos 9000);
  stock = none;
  status = none;
}

new_book_complete : is_incomplete new_book ≡ false
unfolding is_incomplete
new_book_complete = refl

start_books-IsSellable : All IsSellable start_books
unfolding is_incomplete unknown_status
start_books-IsSellable = ((refl, refl), ((refl, refl), tt))

create_book-find_book_example :
    (created : Book) × ((Memory.create_book new_book start_books).0 ≡ some created)
    × (find_book (pos 3) (Memory.create_book new_book start_books).1
        ≡ (if created.id == pos 3 then some created else find_book (pos 3) start_books))
create_book-find_book_example =
    create_book-find_book new_book start_books (pos 3) new_book_complete
      (omega arith, (omega arith, tt))
