-- ===== src/Catalog/Service/Guards.antt =====
-- What the validation of `BookService` protects: every book of the catalogue can be sold.
-- A title and an author, a positive price, a stock that is not negative, and a known status.
use my_bookstore.Catalog.{active}
use my_bookstore.Base.{
  if◌then◌else◌, All-append, arith, subst, ◌||◌, pos, refl, is_empty, leb_ℤ, ℤ_eq, [], inr, inl,
  ◌==◌, Bool-cases, ◌∷◌, All, false, ℤ, ◌≡◌,
}
use my_bookstore.Catalog.Service.{
  active, create_book, update_book, unknown_status, BookUpdate, bad_update,
}
use my_bookstore.Model.{BookUpdate, Book}
use my_bookstore.Catalog.Memory.{
  create_book as memory_create, update_book as memory_update, Books, memory, is_incomplete,
  with_status, apply_update, update_first, next_book_id,
}

abbrev pub IsSellable : Book → Type 0
IsSellable book = (is_incomplete book ≡ false) × (unknown_status book.status ≡ false)

created-IsSellable :
    (book : Book) (id : ℤ)
    → is_incomplete book ≡ false
    → unknown_status (with_status book).status ≡ false
    → IsSellable (with_status (record (with_status book) { id = id }))
unfolding is_incomplete with_status unknown_status
created-IsSellable book id h k = elim (Bool-cases (is_empty book.status)) [
  | inl e ↦ rw e (h, refl)
  | inr e ↦
      rw (e, e)
        (
          h,
          subst
              (λ b.
                unknown_status (if b then record book { status = active } else book).status ≡ false)
              e k,
        )
]

is_incomplete-with_status : (book : Book) → is_incomplete (with_status book) ≡ is_incomplete book
unfolding is_incomplete with_status
is_incomplete-with_status book = elim (Bool-cases (is_empty book.status)) [
  | inl e ↦ rw e refl
  | inr e ↦ rw e refl
]

memory_create-IsSellable :
    (book : Book) (s : Books)
    → is_incomplete book ≡ false
    → unknown_status (with_status book).status ≡ false
    → All IsSellable s
    → All IsSellable (memory_create (with_status book) s).1
unfolding memory_create
memory_create-IsSellable book s h k a =
    rw (is_incomplete-with_status book, h)
      (All-append IsSellable s
        (with_status (record (with_status book) { id = next_book_id s }) ∷ []) a
        (created-IsSellable book (next_book_id s) h k, tt))

-- If every book of the in-memory catalogue has a title, an author, a positive price, a stock that
-- is not negative and a known status, then so it is after a creation through the service.
pub create_book-IsSellable :
    (book : Book) (s : Books) → All IsSellable s → All IsSellable (create_book memory book s).1
unfolding create_book
create_book-IsSellable book s h = elim (Bool-cases (is_incomplete book)) [
  | inl e ↦ rw e h
  | inr e ↦ elim (Bool-cases (unknown_status (with_status book).status)) [
    | inl d ↦ rw (e, d) h
    | inr d ↦ rw (e, d) (memory_create-IsSellable book s e d h)
  ]
]

apply_update-IsSellable :
    (update : BookUpdate) (book : Book)
    → bad_update update ≡ false
    → IsSellable book
    → IsSellable (apply_update update book)
unfolding apply_update bad_update is_incomplete
apply_update-IsSellable update book h k = ground (arith, h, k.0, k.1)

update_first-IsSellable :
    (book_id : ℤ) (update : BookUpdate) (s : Books)
    → bad_update update ≡ false
    → All IsSellable s
    → All IsSellable (update_first book_id update s).1
unfolding update_first
update_first-IsSellable book_id update [] h k = tt
update_first-IsSellable book_id update (book ∷ rest) h k = elim (Bool-cases (book.id == book_id)) [
  | inl e ↦ rw e (apply_update-IsSellable update book h k.0, k.1)
  | inr e ↦ rw e (k.0, update_first-IsSellable book_id update rest h k.1)
]

memory_update-IsSellable :
    (book_id : ℤ) (update : BookUpdate) (s : Books)
    → bad_update update ≡ false
    → All IsSellable s
    → All IsSellable (memory_update book_id update s).1
unfolding memory_update
memory_update-IsSellable book_id update s h a = elim (Bool-cases (leb_ℤ book_id (pos 0))) [
  | inl e ↦ rw e a
  | inr e ↦ rw e (update_first-IsSellable book_id update s h a)
]

-- If every book of the in-memory catalogue has a title, an author, a positive price, a stock that
-- is not negative and a known status, then so it is after an update through the service.
pub update_book-IsSellable :
    (book_id : ℤ) (update : BookUpdate) (s : Books)
    → All IsSellable s
    → All IsSellable (update_book memory book_id update s).1
unfolding update_book
update_book-IsSellable book_id update s h =
    elim (Bool-cases (leb_ℤ book_id (pos 0) || bad_update update)) [
      | inl e ↦ rw e h
      | inr e ↦ rw e (memory_update-IsSellable book_id update s (ground (arith, e)) h)
    ]
