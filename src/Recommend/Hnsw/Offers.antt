-- ===== src/Recommend/Hnsw/Offers.antt =====
-- What `HnswRecommendationIndex::search_similar` of src/app/recommend/book_vector_index.cpp returns.
use my_bookstore.Base.{
  nat_eq, leb_ℤ, ◌||◌, refl, true, if◌then◌else◌, false, Bool, is_empty, ℤ_eq, text_eq, inr,
  list_eq_iff, zero, inl, suc, ◌==◌, Bool-cases, Option-cases, subst, [], none, ◌∷◌, arith, map,
  some, get_elem?, pos, ◌<◌, ◌≡◌, ◌≤◌, All, Option, length, List, ℕ, ℤ,
}
use my_bookstore.Model.{Book}
use my_bookstore.Catalog.{active}
use my_bookstore.Recommend.Embed.{Floats, embed_book}
use my_bookstore.Recommend.TopK.{is_nearer}
use my_bookstore.Recommend.TopK.Offers.{sort-All, first_ids-All, first_ids-at_most, IsOther}
use my_bookstore.Recommend.Hnsw.{
  ℤ, Graph, active_books, min, build, score, found_ids, search_in, search_similar, wanted,
}

module _ {F G : Type 0} (floats : Floats F) (graph : Graph F G) (P : ℤ → Type 0) where
  active_books-All :
      (books : List Book)
      → All (λ book. book.status ≡ active → P book.id) books
      → All P (map (λ book. book.id) (active_books books))
  unfolding active_books
  active_books-All [] h = tt
  active_books-All (book ∷ rest) h = elim (Bool-cases (book.status == active)) [
    | inl e ↦ rw (e, All) (h.0 ((list_eq_iff _ _).0 e), active_books-All rest h.1)
    | inr e ↦ rw (e, All) (active_books-All rest h.1)
  ]

  get_elem?-All : (ids : List ℤ) (i : ℕ) (id : ℤ) → All P ids → get_elem? ids i ≡ some id → P id
  get_elem?-All [] i id h e = cc e
  get_elem?-All (x ∷ ids) zero id h e = subst P (cc e) h.0
  get_elem?-All (x ∷ ids) (suc i) id h e = get_elem?-All ids i id h.1 e

  score-All :
      (book_id : ℤ) (labels : List ℤ) (nearest : List (F × ℕ))
      → All P labels
      → All (λ item. IsOther floats P book_id item.1) (score floats graph book_id labels nearest)
  unfolding score
  score-All book_id labels [] h = tt
  score-All book_id labels ((distance, label) ∷ rest) h =
      elim (Option-cases (get_elem? labels label)) [
        | inl e ↦ rw (e, All) (score-All book_id labels rest h)
        | inr (id, e) ↦ elim (Bool-cases (id == book_id)) [
          | inl f ↦ rw (e, f, All) (score-All book_id labels rest h)
          | inr f ↦
              rw (e, f, All)
                ((f, get_elem?-All labels label id h e), score-All book_id labels rest h)
        ]
      ]

  -- At most `n`, none of them the book itself, each as the active books are.
  abbrev pub Offers : ℤ → ℕ → List ℤ → Type 0
  Offers book_id n ids = (length ids ≤ n) × All (IsOther floats P book_id) ids

  found_ids-Offers :
      (book_id : ℤ) (n : ℕ) (labels : List ℤ) (found : Option (List (F × ℕ)))
      → 0 < n
      → All P labels
      → Offers book_id n (found_ids floats graph book_id (pos n) labels found)
  unfolding found_ids
  found_ids-Offers book_id n labels none p h = (omega (arith, p), tt)
  found_ids-Offers book_id n labels (some nearest) p h = (
    first_ids-at_most floats P n _ [] p,
    first_ids-All floats P (IsOther floats P book_id) (pos n) _ []
        (sort-All (λ item. IsOther floats P book_id item.1) (is_nearer floats) _
          (score-All book_id labels nearest h))
        tt,
  )

  guarded-Offers :
      (book_id : ℤ) (n : ℕ) (b : Bool) (ids : List ℤ)
      → (b ≡ false → Offers book_id n ids)
      → Offers book_id n (if b then [] else ids)
  guarded-Offers book_id n true ids f = (omega arith, tt)
  guarded-Offers book_id n false ids f = f refl

  positive :
      (a b : Bool) (n : ℕ) (c : Bool) → (a || b || leb_ℤ (pos n) (pos 0) || c) ≡ false → 0 < n
  positive a b n c e = ground (arith, e)

  search_in-Offers :
      (book : Book) (n : ℕ) (labels : List ℤ) (g : Option G)
      → All P labels
      → Offers book.id n (search_in floats graph book (pos n) labels g)
  unfolding search_in
  search_in-Offers book n labels none h = (omega arith, tt)
  search_in-Offers book n labels (some g) h =
      guarded-Offers book.id n
        (is_empty labels
          || leb_ℤ book.id (pos 0)
          || leb_ℤ (pos n) (pos 0)
          || nat_eq (min (length labels) (wanted (pos n))) 0)
        _
        (λ e.
          found_ids-Offers book.id n labels _
            (positive (is_empty labels) (leb_ℤ book.id (pos 0)) n
              (nat_eq (min (length labels) (wanted (pos n))) 0) e)
            h)

  -- The same as for the index that sorts by distance: at most as many as asked for, none of them the
  -- book itself, and each with every property that the active books of the list have.
  pub search_similar-Offers :
      (books : List Book) (book : Book) (n : ℕ)
      → All (λ b. b.status ≡ active → P b.id) books
      → Offers book.id n (search_similar floats graph book (pos n) (build floats graph books))
  unfolding search_similar build
  search_similar-Offers books book n h = elim (Bool-cases (is_empty (active_books books))) [
    | inl e ↦ rw (e, search_in) (omega arith, tt)
    | inr e ↦ rw e (
        search_in-Offers book n (map (λ b. b.id) (active_books books))
          (some (graph.add_points (map (embed_book floats) (active_books books))))
          (active_books-All books h))
  ]
