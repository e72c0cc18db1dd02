-- ===== src/Recommend/Shelf.antt =====
-- What is recommended.
use my_bookstore.Base.{
  subst, refl, ◌∙◌, sym, none, ◌||◌, inr, pos, inl, leb_ℤ, Bool-cases, Option-cases, [], ◌∷◌, arith,
  text_eq, ◌≤◌, length, some, true, All, ◌≡◌, ℤ, ◌==◌, List,
}
use my_bookstore.Recommend.{List, Book}
use my_bookstore.Model.{Book}
use my_bookstore.Recommend
use my_bookstore.Catalog.{BookClient, active}

-- The book is active, and the client finds it under some number.
abbrev pub IsOffered : {S : Type 0} → BookClient S → S → Book → Type 0
IsOffered client s book =
    (book.status == active ≡ true) × ((id : ℤ) × (client.find_book id s ≡ some book))

module _ {S I : Type 0} (client : BookClient S) (index : Recommend.BookIndex I) where
  collect-All :
      (ids : List ℤ) (s : S) → All (IsOffered client s) (Recommend.collect client index ids s)
  unfolding Recommend.collect
  collect-All [] s = tt
  collect-All (id ∷ ids) s = elim (Option-cases (client.find_book id s)) [
    | inl e ↦ rw (e, All) (collect-All ids s)
    | inr (book, e) ↦ elim (Bool-cases (book.status == active)) [
      | inl d ↦ rw (e, d, All) ((d, (id, e)), collect-All ids s)
      | inr d ↦ rw (e, d, All) (collect-All ids s)
    ]
  ]

  length-collect :
      (ids : List ℤ) (s : S) → length (Recommend.collect client index ids s) ≤ length ids
  unfolding Recommend.collect
  length-collect [] s = omega arith
  length-collect (id ∷ ids) s =
      let few = length-collect ids s in
      elim (Option-cases (client.find_book id s)) [
        | inl e ↦ rw (e, length) (omega (arith, few))
        | inr (book, e) ↦ elim (Bool-cases (book.status == active)) [
          | inl d ↦ rw (e, d, length) (omega (arith, few))
          | inr d ↦ rw (e, d, length) (omega (arith, few))
        ]
      ]

  -- Whatever the index proposes, each recommended book is active and found by the client, and there
  -- are no more of them than the index proposes.
  pub similar_books-IsOffered :
      (book : Book) (book_id limit : ℤ) (s : S) (i : I) (books : List Book)
      → client.find_book book_id s ≡ some book
      → Recommend.similar_books client index book_id limit s i ≡ some books
      → All (IsOffered client s) books × (length books ≤ length (index.search_similar book limit i))
  unfolding Recommend.similar_books Recommend.similar_to
  similar_books-IsOffered book book_id limit s i books found given =
      elim (Bool-cases (leb_ℤ book_id (pos 0) || leb_ℤ limit (pos 0))) [
        | inl e ↦ absurd (let x : none ≡ some books = sym (rw e refl) ∙ given in cc x)
        | inr e ↦ elim (Bool-cases (index.ready i)) [
          | inl d ↦
              let x : some (Recommend.collect client index (index.search_similar book limit i) s)
                  ≡ some books =
                sym (rw (e, found, d) refl) ∙ given in
              let same : Recommend.collect client index (index.search_similar book limit i) s
                  ≡ books =
                cc x in
              subst
                (λ l.
                  All (IsOffered client s) l
                  × (length l ≤ length (index.search_similar book limit i)))
                same
                (
                  collect-All (index.search_similar book limit i) s,
                  length-collect (index.search_similar book limit i) s,
                )
          | inr d ↦
              let x : some [] ≡ some books = sym (rw (e, found, d) refl) ∙ given in
              let same : [] ≡ books = cc x in
              subst
                (λ l.
                  All (IsOffered client s) l
                  × (length l ≤ length (index.search_similar book limit i)))
                same (tt, omega arith)
        ]
      ]
