-- ===== src/Grpc/Books.antt =====
-- `BookGrpcServiceImpl` of src/app/grpc/book_grpc_service.cpp and `GrpcBookClient` of
-- src/app/client/grpc_book_client.cpp, with the messages of proto/book/v1/book.proto.
pub mod Service
pub mod Client
pub mod Same
use my_bookstore.Base.{
  [], not, text_eq, ◌&&◌, ◌==◌, ◌∷◌, List, if◌then◌else◌, Bool, Text, some, wrap32, ℤ,
}
use my_bookstore.Grpc.{Text, Answer, answered, failed, invalid_argument, not_found, Call, if_ok}
use my_bookstore.Model.{Book, BookUpdate}
use my_bookstore.Catalog.{BookClient, active, inactive}

pub data BookStatus : Type 0 where
  unspecified active_book inactive_book : BookStatus

pub record BookMessage : Type 0 where
  pub book_id : ℤ
  pub title : Text
  pub author : Text
  pub price_cents : ℤ
  pub stock : ℤ
  pub status : BookStatus

pub record UpdateBookRequest : Type 0 where
  pub book_id : ℤ
  pub book : BookMessage

unfoldable pub status_to_proto : Text → BookStatus
status_to_proto status =
    if status == inactive
    then inactive_book
    else if status == active
    then active_book
    else unspecified

unfoldable pub fill_book : Book → BookMessage
unfolding status_to_proto
fill_book source = record {
  book_id = source.id;
  title = source.title;
  author = source.author;
  price_cents = source.price_cents;
  stock = source.stock;
  status = status_to_proto source.status;
}

abbrev pub status_text : BookStatus → Text
status_text inactive_book = inactive
status_text status = active

unfoldable pub book_from_proto : BookMessage → Book
book_from_proto source = record {
  id = wrap32 source.book_id;
  title = source.title;
  author = source.author;
  price_cents = wrap32 source.price_cents;
  stock = source.stock;
  status = status_text source.status;
}

-- The request of `ListBooks` is its `active_only`; the page of its response is not read.
pub record BookStub (S : Type 0) : Type 0 where
  pub list_books : Bool → S → Answer (List BookMessage)
  pub get_book : ℤ → S → Answer BookMessage
  pub create_book : Call S BookMessage BookMessage
  pub update_book : Call S UpdateBookRequest BookMessage

-- The loop of `ListBooks`.
unfoldable pub listed : Bool → List Book → List BookMessage
unfolding fill_book
listed active_only [] = []
listed active_only (book ∷ rest) =
    let more = listed active_only rest in
    if active_only && not (book.status == active) then more else fill_book book ∷ more

-- The update of `UpdateBook`: every field.
unfoldable pub whole_update : BookMessage → BookUpdate
whole_update source = record {
  title = some source.title;
  author = some source.author;
  price_cents = some (wrap32 source.price_cents);
  stock = some source.stock;
  status = some (status_text source.status);
}
