-- ===== src/Recommend/Hnsw.antt =====
-- `HnswRecommendationIndex` of src/app/recommend/book_vector_index.cpp. The graph of hnswlib is a parameter: how
-- it is made of the embeddings, whose labels are their places, and what `searchKnn` gives.
pub mod Offers
use my_bookstore.Base.{
  ◌%◌, ◌+ℤ◌, ◌-◌, wrap32, ◌^◌, ℤ_eq, nat_eq, leb_ℤ, map, ◌||◌, length, negsuc, none, not, text_eq,
  get_elem?, is_empty, leb, some, ◌&&◌, ◌+◌, ◌==◌, [], if◌then◌else◌, is_some, pos, ◌∷◌, Bool, List,
  Option, ℕ, ℤ,
}
use my_bookstore.Model.{Book}
use my_bookstore.Catalog.{active}
use my_bookstore.Recommend.{ℤ, Option, List, Bool, BookIndex}
use my_bookstore.Recommend.Embed.{Floats, embed_book}
use my_bookstore.Recommend.TopK.{sort, is_nearer, first_ids}

-- `search_knn` is `none` where the library raises an exception, and else what `top` and `pop` give until
-- the queue is empty.
pub record Graph (F G : Type 0) : Type 0 where
  pub add_points : List (List F) → G
  pub search_knn : List F → ℕ → G → Option (List (F × ℕ))

-- `index_` and `label_to_book_id_`.
pub record Index (G : Type 0) : Type 0 where
  pub index : Option G
  pub label_to_book_id : List ℤ

unfoldable pub active_books : List Book → List Book
active_books [] = []
active_books (book ∷ rest) =
    let more = active_books rest in if book.status == active then book ∷ more else more

abbrev as_size : ℤ → ℕ
as_size (pos n) = n
as_size (negsuc n) = 2 ^ 64 - 1 - n % 2 ^ 64

-- `static_cast<std::size_t>(limit + 1)`
unfoldable pub wanted : ℤ → ℕ
wanted limit = as_size (wrap32 (limit +ℤ pos 1))

abbrev pub min : ℕ → ℕ → ℕ
min m n = if leb m n then m else n

module _ {F G : Type 0} (floats : Floats F) (graph : Graph F G) where
  unfoldable pub build : List Book → Index G
  unfolding active_books embed_book
  build books =
      let chosen = active_books books in
      if is_empty chosen then record { index = none; label_to_book_id = [] } else record {
        index = some (graph.add_points (map (embed_book floats) chosen));
        label_to_book_id = map (λ book. book.id) chosen;
      }

  -- The loop over what was found.
  unfoldable pub score : ℤ → List ℤ → List (F × ℕ) → List (F × ℤ)
  score book_id labels [] = []
  score book_id labels ((distance, label) ∷ rest) =
      let more = score book_id labels rest in
      elim (get_elem? labels label) [
        | none ↦ more
        | some id ↦ if id == book_id then more else (distance, id) ∷ more
      ]

  unfoldable pub found_ids : ℤ → ℤ → List ℤ → Option (List (F × ℕ)) → List ℤ
  unfolding score sort is_nearer first_ids
  found_ids book_id limit labels none = []
  found_ids book_id limit labels (some nearest) =
      first_ids floats limit (sort (is_nearer floats) (score book_id labels nearest)) []

  unfoldable pub search_in : Book → ℤ → List ℤ → Option G → List ℤ
  unfolding embed_book wanted found_ids
  search_in book limit labels none = []
  search_in book limit labels (some g) =
      let k = min (length labels) (wanted limit) in
      if is_empty labels || leb_ℤ book.id (pos 0) || leb_ℤ limit (pos 0) || nat_eq k 0
      then []
      else found_ids book.id limit labels (graph.search_knn (embed_book floats book) k g)

  unfoldable pub search_similar : Book → ℤ → Index G → List ℤ
  unfolding search_in
  search_similar book limit i = search_in book limit i.label_to_book_id i.index

  unfoldable pub ready : Index G → Bool
  ready i = is_some i.index && not (is_empty i.label_to_book_id)

  abbrev pub hnsw : BookIndex (Index G)
  hnsw = record { build = build; search_similar = search_similar; ready = ready }
