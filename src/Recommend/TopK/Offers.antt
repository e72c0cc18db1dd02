-- ===== src/Recommend/TopK/Offers.antt =====
-- What `TopKRecommendationIndex::search_similar` of src/app/recommend/book_vector_index.cpp returns.
use my_bookstore.Base.{
  ℤ_eq, text_eq, inr, length-append, list_eq_iff, ◌++◌, ◌||◌, arith, inl, is_empty, leb_ℤ,
  All-append, Bool-cases, [], ◌≤◌, false, pos, ◌<◌, ◌∷◌, All, length, ◌≡◌, List, ℕ, ◌==◌, Bool, ℤ,
}
use my_bookstore.Model.{Book}
use my_bookstore.Catalog.{active}
use my_bookstore.Recommend.Embed.{Floats, embed_book}
use my_bookstore.Recommend.TopK.{
  ℤ, Bool, Entry, insert_sorted, sort, build, score, first_ids, search_similar, is_nearer,
}

module _ {A : Type 0} (P : A → Type 0) (before : A → A → Bool) where
  insert_sorted-All : (x : A) (ys : List A) → P x → All P ys → All P (insert_sorted before x ys)
  unfolding insert_sorted
  insert_sorted-All x [] p h = (p, tt)
  insert_sorted-All x (y ∷ ys) p h = elim (Bool-cases (before y x)) [
    | inl e ↦ rw (e, All) (h.0, insert_sorted-All x ys p h.1)
    | inr e ↦ rw (e, All) (p, h)
  ]

  pub sort-All : (xs : List A) → All P xs → All P (sort before xs)
  unfolding sort
  sort-All [] h = tt
  sort-All (x ∷ xs) h = insert_sorted-All x (sort before xs) h.0 (sort-All xs h.1)

module _ {F : Type 0} (floats : Floats F) (P : ℤ → Type 0) where
  build-All :
      (books : List Book)
      → All (λ book. book.status ≡ active → P book.id) books
      → All (λ entry. P entry.book_id) (build floats books)
  unfolding build
  build-All [] h = tt
  build-All (book ∷ rest) h = elim (Bool-cases (book.status == active)) [
    | inl e ↦ rw (e, All) (h.0 ((list_eq_iff _ _).0 e), build-All rest h.1)
    | inr e ↦ rw (e, All) (build-All rest h.1)
  ]

  -- What is offered for a book.
  abbrev pub IsOther : ℤ → ℤ → Type 0
  IsOther book_id id = ((id == book_id) ≡ false) × P id

  score-All :
      (book_id : ℤ) (query : List F) (entries : List (Entry F))
      → All (λ entry. P entry.book_id) entries
      → All (λ item. IsOther book_id item.1) (score floats book_id query entries)
  unfolding score
  score-All book_id query [] h = tt
  score-All book_id query (entry ∷ rest) h = elim (Bool-cases (entry.book_id == book_id)) [
    | inl e ↦ rw (e, All) (score-All book_id query rest h.1)
    | inr e ↦ rw (e, All) ((e, h.0), score-All book_id query rest h.1)
  ]

  pub first_ids-All :
      (Q : ℤ → Type 0) (limit : ℤ) (items : List (F × ℤ)) (results : List ℤ)
      → All (λ item. Q item.1) items
      → All Q results
      → All Q (first_ids floats limit items results)
  unfolding first_ids
  first_ids-All Q limit [] results h k = k
  first_ids-All Q limit (item ∷ rest) results h k =
      let k' = All-append Q results (item.1 ∷ []) k (h.0, tt) in
      elim (Bool-cases (leb_ℤ limit (pos (length (results ++ item.1 ∷ []))))) [
        | inl e ↦ rw e k'
        | inr e ↦ rw e (first_ids-All Q limit rest (results ++ item.1 ∷ []) h.1 k')
      ]

  pub first_ids-at_most :
      (n : ℕ) (items : List (F × ℤ)) (results : List ℤ)
      → length results < n
      → length (first_ids floats (pos n) items results) ≤ n
  unfolding first_ids
  first_ids-at_most n [] results h = omega arith
  first_ids-at_most n (item ∷ rest) results h =
      let longer = length-append results (item.1 ∷ []) in
      elim (Bool-cases (leb_ℤ (pos n) (pos (length (results ++ item.1 ∷ []))))) [
        | inl e ↦ rw (e, longer) (omega (arith, h))
        | inr e ↦
            rw e (first_ids-at_most n rest (results ++ item.1 ∷ []) (ground (arith, e, longer)))
      ]

  -- What the index finds for a book: at most as many as asked for, none of them the book itself, and
  -- each with every property that the active books of the list have.
  pub search_similar-build :
      (books : List Book) (book : Book) (n : ℕ)
      → All (λ b. b.status ≡ active → P b.id) books
      → let ids = search_similar floats book (pos n) (build floats books) in
        (length ids ≤ n) × All (IsOther book.id) ids
  unfolding search_similar
  search_similar-build books book n h =
      let entries = build floats books in
      elim (Bool-cases (is_empty entries || leb_ℤ book.id (pos 0) || leb_ℤ (pos n) (pos 0))) [
        | inl e ↦ rw e (omega arith, tt)
        | inr e ↦
            let scored = score floats book.id (embed_book floats book) entries in
            let near =
              sort-All (λ item. IsOther book.id item.1) (is_nearer floats) scored
                (score-All book.id _ entries (build-All books h)) in
            rw e (
              first_ids-at_most n (sort (is_nearer floats) scored) [] (ground (arith, e)),
              first_ids-All (IsOther book.id) (pos n) _ [] near tt,
            )
      ]
