-- ===== src/Grpc/Books/Service.antt =====
-- `BookGrpcServiceImpl` of src/app/grpc/book_grpc_service.cpp.
use my_bookstore.Base.{wrap32, pos, leb_ℤ, none, List, codes, if◌then◌else◌, some, Bool, Option, ℤ}
use my_bookstore.Grpc.Books.{
  UpdateBookRequest, ℤ, whole_update, book_from_proto, Bool, listed, fill_book, BookStub,
  BookMessage,
}
use my_bookstore.Grpc.{Option, Answer, answered, failed, invalid_argument, not_found, Call}
use my_bookstore.Model.{Book}
use my_bookstore.Catalog.{BookClient}

abbrev book_or : Answer BookMessage → Option Book → Answer BookMessage
book_or status none = status
book_or status (some book) = answered (fill_book book)

module _ {S : Type 0} (service : BookClient S) where
  unfoldable pub list_books : Bool → S → Answer (List BookMessage)
  unfolding listed
  list_books active_only s = answered (listed active_only (service.list_books s))

  unfoldable pub get_book : ℤ → S → Answer BookMessage
  unfolding fill_book
  get_book book_id s =
      if leb_ℤ book_id (pos 0)
      then failed invalid_argument (codes "invalid book id")
      else book_or (failed not_found (codes "book not found"))
          (service.find_book (wrap32 book_id) s)

  unfoldable pub create_book : Call S BookMessage BookMessage
  unfolding fill_book book_from_proto
  create_book request s =
      let (book, s') = service.create_book (book_from_proto request) s in
      (book_or (failed invalid_argument (codes "invalid book request")) book, s')

  unfoldable pub update_book : Call S UpdateBookRequest BookMessage
  unfolding fill_book whole_update
  update_book request s =
      if leb_ℤ request.book_id (pos 0)
      then (failed invalid_argument (codes "invalid book id"), s)
      else let (book, s') =
          service.update_book (wrap32 request.book_id) (whole_update request.book) s in
        (book_or (failed not_found (codes "book not found or invalid")) book, s')

  -- A channel that brings every call to the service and its answer back.
  abbrev pub stub : BookStub S
  stub = record {
    list_books = list_books;
    get_book = get_book;
    create_book = create_book;
    update_book = update_book;
  }
