-- ===== src/Catalog.antt =====
-- The catalogue of books: src/app/repository/book_repository.h, src/app/client/book_client.h, and in
-- the children the in-memory repository, the service over a repository and the local client.
pub mod Memory
pub mod Service
pub mod Local
use my_bookstore.Base.{Option, codes, ℤ, List, Text}
use my_bookstore.Model.{Book, BookUpdate}

pub record BookRepository (S : Type 0) : Type 0 where
  pub list_books : S → List Book
  pub find_book : ℤ → S → Option Book
  pub create_book : Book → S → Option Book × S
  pub update_book : ℤ → BookUpdate → S → Option Book × S

pub record BookClient (S : Type 0) : Type 0 where
  pub list_books : S → List Book
  pub find_book : ℤ → S → Option Book
  pub create_book : Book → S → Option Book × S
  pub update_book : ℤ → BookUpdate → S → Option Book × S

abbrev pub active : Text
active = codes "active"

abbrev pub inactive : Text
inactive = codes "inactive"
