-- ===== src/Recommend/TopK.antt =====
-- `TopKRecommendationIndex` of src/app/recommend/book_vector_index.cpp.
pub mod Offers
use my_bookstore.Base.{
  text_eq, ℤ_eq, length, pos, leb_ℤ, ◌||◌, [], is_empty, ltb_ℤ, ◌++◌, ◌==◌, if◌then◌else◌, not, ◌∷◌,
  Bool, List, ℤ,
}
use my_bookstore.Model.{Book}
use my_bookstore.Catalog.{active}
use my_bookstore.Recommend.{ℤ, List, Bool, BookIndex}
use my_bookstore.Recommend.Embed.{Floats, embed_book, zero_float}

pub record Entry (F : Type 0) : Type 0 where
  pub book_id : ℤ
  pub embedding : List F

-- `std::sort` with `before`, by insertion.
unfoldable pub insert_sorted : {A : Type 0} → (A → A → Bool) → A → List A → List A
insert_sorted before x [] = x ∷ []
insert_sorted before x (y ∷ ys) =
    let later = insert_sorted before x ys in if before y x then y ∷ later else x ∷ (y ∷ ys)

unfoldable pub sort : {A : Type 0} → (A → A → Bool) → List A → List A
unfolding insert_sorted
sort before [] = []
sort before (x ∷ xs) = insert_sorted before x (sort before xs)

module _ {F : Type 0} (floats : Floats F) where
  -- The loop of `build`.
  unfoldable pub build : List Book → List (Entry F)
  unfolding embed_book
  build [] = []
  build (book ∷ rest) =
      let more = build rest in
      if not (book.status == active)
      then more
      else record { book_id = book.id; embedding = embed_book floats book } ∷ more

  -- The loop over the two embeddings.
  unfoldable pub distance : List F → List F → F → F
  distance [] other sum = sum
  distance (q ∷ query) [] sum = sum
  distance (q ∷ query) (e ∷ other) sum =
      let diff = floats.minus q e in distance query other (floats.plus sum (floats.times diff diff))

  unfoldable pub score : ℤ → List F → List (Entry F) → List (F × ℤ)
  unfolding distance
  score book_id query [] = []
  score book_id query (entry ∷ rest) =
      let more = score book_id query rest in
      if entry.book_id == book_id
      then more
      else (distance query entry.embedding (zero_float floats), entry.book_id) ∷ more

  unfoldable pub is_nearer : F × ℤ → F × ℤ → Bool
  is_nearer lhs rhs = if floats.same lhs.0 rhs.0 then ltb_ℤ lhs.1 rhs.1 else floats.less lhs.0 rhs.0

  -- The last loop, with the results so far.
  unfoldable pub first_ids : ℤ → List (F × ℤ) → List ℤ → List ℤ
  first_ids limit [] results = results
  first_ids limit (item ∷ rest) results =
      let results' = results ++ item.1 ∷ [] in
      let more = first_ids limit rest results' in
      if leb_ℤ limit (pos (length results')) then results' else more

  unfoldable pub search_similar : Book → ℤ → List (Entry F) → List ℤ
  unfolding embed_book score sort is_nearer first_ids
  search_similar book limit entries =
      if is_empty entries || leb_ℤ book.id (pos 0) || leb_ℤ limit (pos 0)
      then []
      else first_ids limit (sort is_nearer (score book.id (embed_book floats book) entries)) []

  abbrev pub top_k : BookIndex (List (Entry F))
  top_k = record {
    build = build;
    search_similar = search_similar;
    ready = λ entries. not (is_empty entries);
  }
