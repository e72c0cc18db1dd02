-- ===== src/Recommend.antt =====
-- `RecommendService` of src/app/service/recommend_service.h, over an index as the interface
-- `BookVectorIndex`.
pub mod Shelf
pub mod Embed
pub mod TopK
pub mod Hnsw
use my_bookstore.Model.{Book}
use my_bookstore.Base.{
  text_eq, ◌||◌, pos, ◌==◌, [], leb_ℤ, none, if◌then◌else◌, some, ◌∷◌, Bool, List, Option, ℤ,
}
use my_bookstore.Catalog.{BookClient, active}

pub record BookIndex (I : Type 0) : Type 0 where
  pub build : List Book → I
  pub search_similar : Book → ℤ → I → List ℤ
  pub ready : I → Bool

module _ {S I : Type 0} (client : BookClient S) (index : BookIndex I) where
  -- `rebuild` with a book client.
  unfoldable pub rebuild : S → I
  rebuild s = index.build (client.list_books s)

  -- The loop of `similar_books`.
  unfoldable pub collect : List ℤ → S → List Book
  collect [] s = []
  collect (id ∷ ids) s =
      let rest = collect ids s in
      elim (client.find_book id s) [
        | none ↦ rest
        | some book ↦ if book.status == active then book ∷ rest else rest
      ]

  unfoldable pub similar_to : Option Book → ℤ → S → I → Option (List Book)
  unfolding collect
  similar_to none limit s i = none
  similar_to (some book) limit s i =
      if index.ready i then some (collect (index.search_similar book limit i) s) else some []

  unfoldable pub similar_books : ℤ → ℤ → S → I → Option (List Book)
  unfolding similar_to
  similar_books book_id limit s i =
      if leb_ℤ book_id (pos 0) || leb_ℤ limit (pos 0)
      then none
      else similar_to (client.find_book book_id s) limit s i
