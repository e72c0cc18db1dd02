-- ===== src/Grpc/Books/Client.antt =====
-- `GrpcBookClient` of src/app/client/grpc_book_client.cpp.
use my_bookstore.Base.{true, map, [], List, none, some, ℤ, Option}
use my_bookstore.Grpc.Books.{BookMessage, fill_book, book_from_proto, BookStub}
use my_bookstore.Grpc.{Option, Answer, if_ok}
use my_bookstore.Model.{Book, BookUpdate}
use my_bookstore.Catalog.{BookClient}

abbrev or_else : {A : Type 0} → A → Option A → A
or_else old none = old
or_else old (some new) = new

-- The fields of `update` over those of the book.
unfoldable pub overwritten : Book → BookUpdate → Book
overwritten current update = record {
  id = current.id;
  title = or_else current.title update.title;
  author = or_else current.author update.author;
  price_cents = or_else current.price_cents update.price_cents;
  stock = or_else current.stock update.stock;
  status = or_else current.status update.status;
}

module _ {S : Type 0} (stub : BookStub S) where
  abbrev book_of : Answer BookMessage → Option Book
  unfolding book_from_proto
  book_of = if_ok none (λ message. some (book_from_proto message))

  unfoldable pub list_books : S → List Book
  unfolding book_from_proto
  list_books s = if_ok [] (map book_from_proto) (stub.list_books true s)

  unfoldable pub find_book : ℤ → S → Option Book
  unfolding book_of
  find_book book_id s = book_of (stub.get_book book_id s)

  unfoldable pub create_book : Book → S → Option Book × S
  unfolding book_of fill_book
  create_book book s =
      let (answer, s') = stub.create_book (fill_book book) s in (book_of answer, s')

  unfoldable pub update_book : ℤ → BookUpdate → S → Option Book × S
  unfolding book_of fill_book overwritten find_book
  update_book book_id update s = elim (find_book book_id s) [
    | none ↦ (none, s)
    | some current ↦
        let (answer, s') =
          stub.update_book
            (record { book_id = book_id; book = fill_book (overwritten current update) }) s in
        (book_of answer, s')
  ]

  abbrev pub remote_client : BookClient S
  remote_client = record {
    list_books = list_books;
    find_book = find_book;
    create_book = create_book;
    update_book = update_book;
  }
