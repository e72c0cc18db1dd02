-- ===== src/Catalog/Memory.antt =====
-- `MemoryBookRepository` of src/app/repository/memory/memory_repositories.h; the state is `books_`.
pub mod Lookup
use my_bookstore.Base.{
  ℤ_eq, [], ltb_ℤ, ◌+ℤ◌, wrap32, ◌++◌, ◌==◌, ◌||◌, is_empty, leb_ℤ, none, pos, some, ◌∷◌, Bool,
  List, Option, if◌then◌else◌, ℤ,
}
use my_bookstore.Model.{Book, BookUpdate}
use my_bookstore.Catalog.{ℤ, Option, List, BookRepository, active}

abbrev pub Books : Type 0
Books = List Book

unfoldable pub list_books : Books → List Book
list_books s = s

unfoldable pub find_book : ℤ → Books → Option Book
find_book book_id [] = none
find_book book_id (book ∷ rest) = if book.id == book_id then some book else find_book book_id rest

-- The loop of `next_book_id`; `book.id + 1` is an `int` sum.
unfoldable pub next_id_from : ℤ → Books → ℤ
next_id_from next [] = next
next_id_from next (book ∷ rest) =
    next_id_from (if leb_ℤ next book.id then wrap32 (book.id +ℤ pos 1) else next) rest

unfoldable pub next_book_id : Books → ℤ
next_book_id s = next_id_from (pos 1) s

-- The guard of `create_book`, here and in the service.
unfoldable pub is_incomplete : Book → Bool
is_incomplete book =
    is_empty book.title
    || is_empty book.author
    || leb_ℤ book.price_cents (pos 0)
    || ltb_ℤ book.stock (pos 0)

-- `if (created.status.empty()) created.status = "active";`
unfoldable pub with_status : Book → Book
with_status book = if is_empty book.status then record book { status = active } else book

unfoldable pub create_book : Book → Books → Option Book × Books
unfolding is_incomplete
create_book book s =
    if is_incomplete book
    then (none, s)
    else let created = with_status (record book { id = next_book_id s }) in
      (some created, s ++ created ∷ [])

abbrev or_old {ℓ} : {A : Type ℓ} → Option A → A → A
or_old none old = old
or_old (some new) old = new

-- The assignments of `update_book`, field by field.
unfoldable pub apply_update : BookUpdate → Book → Book
apply_update update book = record book {
  title = or_old update.title book.title;
  author = or_old update.author book.author;
  price_cents = or_old update.price_cents book.price_cents;
  stock = or_old update.stock book.stock;
  status = or_old update.status book.status;
}

-- The loop of `update_book`: the first book of that id changes.
unfoldable pub update_first : ℤ → BookUpdate → Books → Option Book × Books
update_first book_id update [] = (none, [])
update_first book_id update (book ∷ rest) =
    let (found, rest') = update_first book_id update rest in
    let updated = apply_update update book in
    if book.id == book_id then (some updated, updated ∷ rest) else (found, book ∷ rest')

unfoldable pub update_book : ℤ → BookUpdate → Books → Option Book × Books
update_book book_id update s =
    if leb_ℤ book_id (pos 0) then (none, s) else update_first book_id update s

abbrev pub memory : BookRepository Books
memory = record {
  list_books = list_books;
  find_book = find_book;
  create_book = create_book;
  update_book = update_book;
}
