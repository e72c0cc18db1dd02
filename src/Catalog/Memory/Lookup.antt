-- ===== src/Catalog/Memory/Lookup.antt =====
-- The in-memory catalogue as a map from ids to books: what lookups find after a creation and after
-- an update.
use my_bookstore.Base.{
  Option-cases, ap, is_empty, negsuc, ◌∙◌, ◌≤◌, inr, subst, inl, int_eq_iff, is_some, refl, ℤ_eq,
  ◌+◌, Bool-cases, [], pos_part, ◌==◌, arith, false, if◌then◌else◌, none, some, ◌-◌, ◌∷◌, All,
  leb_ℤ, ◌++◌, ◌^◌, ◌≡◌, ◌≤ℤ◌, pos, ℕ, ◌+ℤ◌, ◌<ℤ◌, wrap32, ℤ,
}
use my_bookstore.Model.{BookUpdate, Book}
use my_bookstore.Catalog.Memory.{
  with_status, is_incomplete, apply_update, BookUpdate, update_book, find_book, create_book, Books,
  update_first, next_id_from, next_book_id,
}
use mathlib.Core.Option

-- An id below the largest `int`, so that the next one exists.
abbrev pub HasSmallId : Book → Type 0
HasSmallId book = book.id <ℤ pos (2 ^ 31 - 1)

wrap32-succ :
    (a : ℤ) (n : ℕ)
    → pos n ≤ℤ a
    → a <ℤ pos (2 ^ 31 - 1)
    → wrap32 (a +ℤ pos 1) ≡ pos (pos_part a + 1)
unfolding wrap32 ◌+ℤ◌
wrap32-succ a n h k = ground arith

abbrev Above : ℤ → Books → Type 0
Above next = All (λ book. book.id <ℤ next)

abbrev Covers : ℕ → Books → ℤ → Type 0
Covers n s r = (pos n ≤ℤ r) × Above r s

Covers-cons :
    (n m : ℕ) (book : Book) (s : Books) (r : ℤ)
    → n ≤ m
    → book.id <ℤ pos m
    → Covers m s r
    → Covers n (book ∷ s) r
Covers-cons n m book s (pos r) h k c = (omega (arith, c.0), (omega (arith, c.0), c.1))
Covers-cons n m book s (negsuc r) h k c = absurd (omega (arith, c.0))

next_id_from-Covers : (n : ℕ) (s : Books) → All HasSmallId s → Covers n s (next_id_from (pos n) s)
unfolding next_id_from
next_id_from-Covers n [] h = (omega arith, tt)
next_id_from-Covers n (book ∷ rest) h = elim (Bool-cases (leb_ℤ (pos n) book.id)) [
  | inl e ↦
      subst (Covers n (book ∷ rest)) (rw (e, wrap32-succ book.id n (ground (arith, e)) h.0) refl) (
        Covers-cons n (pos_part book.id + 1) book rest
          (next_id_from (pos (pos_part book.id + 1)) rest) (ground (arith, e)) (ground arith)
          (next_id_from-Covers (pos_part book.id + 1) rest h.1))
  | inr e ↦ subst (Covers n (book ∷ rest)) (rw e refl) (
      Covers-cons n n book rest (next_id_from (pos n) rest) (omega arith) (ground (arith, e))
        (next_id_from-Covers n rest h.1))
]

find_book_none : (id : ℤ) (s : Books) → Above id s → find_book id s ≡ none
unfolding find_book
find_book_none id [] h = refl
find_book_none id (book ∷ rest) h = ground (arith, find_book_none id rest)

-- While no id is the largest `int`, the next id is in no book.
pub find_book-next_book_id : (s : Books) → All HasSmallId s → find_book (next_book_id s) s ≡ none
unfolding next_book_id
find_book-next_book_id s h = find_book_none (next_id_from (pos 1) s) s (next_id_from-Covers 1 s h).1

find_book-append :
    (id : ℤ) (s : Books) (book : Book)
    → find_book id (s ++ book ∷ []) ≡ (
        if is_some (find_book id s)
        then find_book id s
        else if book.id == id
        then some book
        else none)
unfolding find_book
find_book-append id [] book = refl
find_book-append id (b ∷ s) book = ground (arith, find_book-append id s book)

with_status_id : (book : Book) → (with_status book).id ≡ book.id
unfolding with_status
with_status_id book = elim (Bool-cases (is_empty book.status)) [
  | inl e ↦ rw e refl
  | inr e ↦ rw e refl
]

-- What the new book does to lookups.
append-find_book :
    (created : Book) (s : Books) (id : ℤ)
    → find_book created.id s ≡ none
    → find_book id (s ++ created ∷ []) ≡ (if created.id == id then some created else find_book id s)
append-find_book created s id n = elim (Bool-cases (created.id == id)) [
  | inl e ↦ rw e (
      find_book-append id s created
      ∙ rw (subst (λ x. find_book x s ≡ none) ((int_eq_iff created.id id).0 e) n, e) refl)
  | inr e ↦ rw e (
      find_book-append id s created
      ∙ rw e (elim (Option-cases (find_book id s)) [ inl k ↦ rw k refl | inr (b, k) ↦ rw k refl ]))
]

-- While no id is the largest `int`, creating a complete book returns a book whose id finds it
-- afterwards; each other id finds what it found.
pub create_book-find_book :
    (book : Book) (s : Books) (id : ℤ)
    → is_incomplete book ≡ false
    → All HasSmallId s
    → (created : Book) × ((create_book book s).0 ≡ some created)
      × (find_book id (create_book book s).1
          ≡ (if created.id == id then some created else find_book id s))
unfolding create_book
create_book-find_book book s id b h =
    let created = with_status (record book { id = next_book_id s }) in
    rw b (
      created,
      refl,
      append-find_book created s id (
          ap (λ i. find_book i s) (with_status_id (record book { id = next_book_id s }))
          ∙ find_book-next_book_id s h),
    )

update_first-find_book :
    (book_id : ℤ) (update : BookUpdate) (s : Books) (id : ℤ)
    → find_book id (update_first book_id update s).1
      ≡ (if book_id == id then (update_first book_id update s).0 else find_book id s)
unfolding update_first find_book apply_update
update_first-find_book book_id update [] id = ground arith
update_first-find_book book_id update (book ∷ rest) id = ground (
  arith,
  int_eq_iff book.id book_id,
  int_eq_iff book.id id,
  int_eq_iff book_id id,
  update_first-find_book book_id update rest id,
)

update_first-map :
    (book_id : ℤ) (update : BookUpdate) (s : Books)
    → (update_first book_id update s).0 ≡ Option.map (apply_update update) (find_book book_id s)
unfolding update_first find_book
update_first-map book_id update [] = refl
update_first-map book_id update (book ∷ rest) = ground (arith, update_first-map book_id update rest)

positive : (id : ℤ) → pos 0 <ℤ id → leb_ℤ id (pos 0) ≡ false
positive id h = ground arith

-- An update with a positive id returns the changed book, if there is one of that id, which its id
-- finds afterwards; each other id finds what it found.
pub update_book-find_book :
    (book_id : ℤ) (update : BookUpdate) (s : Books) (id : ℤ)
    → pos 0 <ℤ book_id
    → ((update_book book_id update s).0 ≡ Option.map (apply_update update) (find_book book_id s))
      × (find_book id (update_book book_id update s).1
          ≡ (if book_id == id then (update_book book_id update s).0 else find_book id s))
unfolding update_book
update_book-find_book book_id update s id h =
    rw (positive book_id h)
      (update_first-map book_id update s, update_first-find_book book_id update s id)
