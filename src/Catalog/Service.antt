-- ===== src/Catalog/Service.antt =====
-- `BookService` of src/app/service/book_service.h: validation in front of a repository.
pub mod Guards
use my_bookstore.Base.{
  ltb_ℤ, text_eq, pos, ◌&&◌, leb_ℤ, none, some, ◌==◌, ◌||◌, false, if◌then◌else◌, is_empty, not,
  Bool, List, Option, Text, ℤ,
}
use my_bookstore.Model.{Book, BookUpdate}
use my_bookstore.Catalog.{ℤ, Text, Option, List, BookRepository, active, inactive}
use my_bookstore.Catalog.Memory.{is_incomplete, with_status}

-- `s != "active" && s != "inactive"`
unfoldable pub unknown_status : Text → Bool
unknown_status s = not (s == active) && not (s == inactive)

-- `o.has_value() && test(*o)`
abbrev has_bad {ℓ} : {A : Type ℓ} → (A → Bool) → Option A → Bool
has_bad test none = false
has_bad test (some a) = test a

-- The early returns of `update_book` after the test of the id.
unfoldable pub bad_update : BookUpdate → Bool
unfolding unknown_status
bad_update update =
    has_bad is_empty update.title
    || has_bad is_empty update.author
    || has_bad (λ cents. leb_ℤ cents (pos 0)) update.price_cents
    || has_bad (λ count. ltb_ℤ count (pos 0)) update.stock
    || has_bad unknown_status update.status

module _ {S : Type 0} (r : BookRepository S) where
  unfoldable pub list_books : S → List Book
  list_books s = r.list_books s

  unfoldable pub find_book : ℤ → S → Option Book
  find_book book_id s = r.find_book book_id s

  unfoldable pub create_book : Book → S → Option Book × S
  unfolding is_incomplete with_status unknown_status
  create_book book s =
      if is_incomplete book
      then (none, s)
      else let created = with_status book in
        if unknown_status created.status then (none, s) else r.create_book created s

  unfoldable pub update_book : ℤ → BookUpdate → S → Option Book × S
  unfolding bad_update
  update_book book_id update s =
      if leb_ℤ book_id (pos 0) || bad_update update
      then (none, s)
      else r.update_book book_id update s
