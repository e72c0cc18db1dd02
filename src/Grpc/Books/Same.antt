-- ===== src/Grpc/Books/Same.antt =====
-- The status of a book over gRPC: src/app/grpc/book_grpc_service.cpp and
-- src/app/client/grpc_book_client.cpp.
use my_bookstore.Base.{
  inr, ◌∙◌, ap, inl, none, refl, Bool-cases, Option, some, wrap32_id, text_eq, ◌==◌, if◌then◌else◌,
  ◌≡◌, IsInt, Text,
}
use my_bookstore.Model.{Book}
use my_bookstore.Catalog.{BookClient, active, inactive}
use my_bookstore.Grpc.Books.{Text, fill_book, book_from_proto, status_to_proto}
use my_bookstore.Grpc.{Answer, answered, failed, Code, invalid_argument, if_ok}
use my_bookstore.Grpc.Books.{BookMessage, status_text}
use my_bookstore.Grpc.Books.Service
use my_bookstore.Grpc.Books.Client

-- What the service is told of a book: a status that it does not know becomes `active`.
abbrev pub known_status : Text → Text
known_status status = if status == inactive then inactive else active

abbrev pub told : Book → Book
told book = record book { status = known_status book.status }

status_known : (s : Text) → status_text (status_to_proto s) ≡ known_status s
unfolding status_to_proto
status_known s = elim (Bool-cases (s == inactive)) [
  | inl e ↦ rw e refl
  | inr e ↦ rw e (elim (Bool-cases (s == active)) [ inl f ↦ rw f refl | inr f ↦ rw f refl ])
]

-- A book whose numbers fit `int` comes out of its message with its status known.
pub book_from_proto-fill_book :
    (book : Book)
    → IsInt book.id
    → IsInt book.price_cents
    → book_from_proto (fill_book book) ≡ told book
unfolding book_from_proto fill_book
book_from_proto-fill_book book i j =
    rw (wrap32_id book.id i, wrap32_id book.price_cents j, status_known book.status) refl

-- A book that the message does not change.
pub record IsSent (book : Book) : Type 0 where
  pub id : IsInt book.id
  pub price_cents : IsInt book.price_cents
  pub status : known_status book.status ≡ book.status

came_back :
    (code : Code) (message : Text) (book : Option Book)
    → ((b : Book) → book ≡ some b → IsSent b)
    → if_ok none
        (λ m. some (book_from_proto m))
        (elim book as (λ b. Answer BookMessage) [
          | none ↦ failed code message
          | some b ↦ answered (fill_book b)
        ])
      ≡ book
came_back code message none h = refl
came_back code message (some b) h =
    let sent = h b refl in
    ap some (
      book_from_proto-fill_book b sent.id sent.price_cents
      ∙ ap (λ s. record b { status = s }) sent.status)

module _ {S : Type 0} (service : BookClient S) where
  -- A book whose numbers fit `int`, created over a channel that loses nothing, is what the service in
  -- the process makes of it with the status `active` in place of one that is not known, if the book that
  -- the service returns is sent unchanged.
  pub create_book-stub :
      (book : Book) (s : S)
      → IsInt book.id
      → IsInt book.price_cents
      → ((b : Book) → (service.create_book (told book) s).0 ≡ some b → IsSent b)
      → Client.create_book (Service.stub service) book s ≡ service.create_book (told book) s
  unfolding Client.create_book Service.create_book
  create_book-stub book s i j k =
      rw (book_from_proto-fill_book book i j)
        (ap (λ b. (b, (service.create_book (told book) s).1)) (came_back invalid_argument _ _ k))
