-- ===== src/Inventory/Memory/Batch.antt =====
-- The batch reservation of the in-memory repository: it checks every item against the same counts
-- before it takes any, which is right only when no book is listed twice.
use mathlib.Core.List.{append_assoc, append-nil}
use my_bookstore.Base.{
  ==_refl, ltb_ℤ, leb_ℤ, int_laws, ◌-ℤ◌, ℤ_eq, ◌+ℤ◌, arith, ◌∙◌, ◌≤ℤ◌, Bool-cases, inr, ◌<ℤ◌, inl,
  pos, refl, ==_ne, IsInt, Option-cases, ◌++◌, ◌⊎◌, [], false, lookup-insert, some, true, ◌≢◌, All,
  lookup, ◌∷◌, ◌≡◌, List, Text, ℤ,
}
use my_bookstore.Model.{InventoryMutation}
use my_bookstore.Inventory.Laws.{left_in_range, IsStocked, Took}
use my_bookstore.Inventory.Memory.{
  available_stock, ℤ, Text, List, Stock, take_from, all_available, take_all, reserve_all,
}
use my_bookstore.Inventory.Memory.Stock.{lookup-take_from, covered-Took}
use my_bookstore.Inventory.Reserved.{Reserved, Reserved-nil, concat-Reserved}

abbrev pub Avoids : ℤ → List InventoryMutation → Type 0
Avoids b = All (λ item. b ≢ item.book_id)

-- No book stands twice in the batch.
abbrev pub IsDistinct : List InventoryMutation → Type 0
IsDistinct [] = Unit
IsDistinct (item ∷ rest) = Avoids item.book_id rest × IsDistinct rest

all_available-take_from :
    (b q : ℤ) (items : List InventoryMutation) (s : Stock)
    → Avoids b items
    → all_available items (take_from b q s) ≡ all_available items s
unfolding all_available take_from
all_available-take_from b q [] s h = refl
all_available-take_from b q (item ∷ rest) s h =
    rw
      (
        lookup-insert b item.book_id _ s,
        ==_ne b item.book_id h.0,
        all_available-take_from b q rest s h.1,
      )
      refl

-- The first loop's test of one item, read back.
available-Took :
    (item : InventoryMutation) (rest : List InventoryMutation) (s : Stock)
    → IsStocked available_stock s
    → all_available (item ∷ rest) s ≡ true
    → Took available_stock item.book_id item.quantity s (take_from item.book_id item.quantity s)
      × (all_available rest s ≡ true)
unfolding all_available
available-Took item rest s h e = elim (Option-cases (lookup item.book_id s)) [
  | inl missing ↦ absurd (ground arith)
  | inr (v, found) ↦ (
    covered-Took item.book_id item.quantity v s h (ground arith) found (ground arith),
    ground arith,
  )
]

take_all-Reserved :
    (items done : List InventoryMutation) (s t : Stock)
    → Reserved available_stock done s t
    → IsDistinct items
    → all_available items t ≡ true
    → Reserved available_stock (done ++ items) s (take_all items t)
unfolding take_all
take_all-Reserved [] done s t h d e = rw (append-nil done) h
take_all-Reserved (item ∷ rest) done s t h d e =
    let (took, more) = available-Took item rest t h.remains e in
    rw (append_assoc done (item ∷ []) rest) at (
      take_all-Reserved rest (done ++ item ∷ []) s _ (concat-Reserved available_stock item h took)
        d.1 (all_available-take_from item.book_id item.quantity rest t d.0 ∙ more))

-- On counts in range and a batch that names no book twice, the batch reservation of the in-memory
-- repository takes everything or leaves the counts as they were.
pub reserve_all-distinct :
    (id : Text) (items : List InventoryMutation) (s : Stock)
    → IsStocked available_stock s
    → IsDistinct items
    → let (taken, t) = reserve_all id items s in
      ((taken ≡ false) × (t ≡ s)) ⊎ ((taken ≡ true) × Reserved available_stock items s t)
unfolding reserve_all
reserve_all-distinct id [] s h d = inl (refl, refl)
reserve_all-distinct id (item ∷ rest) s h d = elim (Bool-cases (all_available (item ∷ rest) s)) [
  | inl e ↦
      rw e
        (inr (refl, take_all-Reserved (item ∷ rest) [] s s (Reserved-nil available_stock s h) d e))
  | inr e ↦ rw e (inl (refl, refl))
]

twice_in_range : (v q : ℤ) → pos 0 <ℤ q → q ≤ℤ v → IsInt v → IsInt (v -ℤ q -ℤ q)
unfolding ◌-ℤ◌
twice_in_range v q p h i = ground (arith, i.below, i.above)

module _ (b q v : ℤ) (s : Stock) (found : lookup b s ≡ some v) (i : IsInt v) (positive : pos 0 <ℤ q)
    (covered : q ≤ℤ v) where
  twice_available :
      let item : InventoryMutation = record { book_id = b; quantity = q } in
      all_available (item ∷ item ∷ []) s ≡ true
  unfolding all_available
  twice_available =
      let high : leb_ℤ q (pos 0) ≡ false = ground arith in
      let long : ltb_ℤ v q ≡ false = ground arith in rw (high, found, long) refl

  taken_twice : v <ℤ q +ℤ q → lookup b (take_from b q (take_from b q s)) ≡ some (v -ℤ q -ℤ q)
  taken_twice over =
      rw
        (
          lookup-take_from b q (v -ℤ q) (take_from b q s) b
              (rw
                (
                  lookup-take_from b q v s b found (left_in_range v q positive covered i).1,
                  ==_refl b,
                )
                refl)
              (twice_in_range v q positive covered i),
          ==_refl b,
        )
        refl

-- A batch that names one book twice is granted when each part alone is covered: whenever a
-- positive part is covered by a count in range and the two parts together exceed it, the count
-- goes below zero.
pub reserve_all-oversells :
    (id : Text) (b q v : ℤ) (s : Stock)
    → lookup b s ≡ some v
    → IsInt v
    → pos 0 <ℤ q
    → q ≤ℤ v
    → v <ℤ q +ℤ q
    → let item : InventoryMutation = record { book_id = b; quantity = q } in
      let (taken, t) = reserve_all id (item ∷ item ∷ []) s in
      (taken ≡ true) × (w : ℤ) × (lookup b t ≡ some w) × (w <ℤ pos 0)
unfolding reserve_all take_all
reserve_all-oversells id b q v s e i p covered over =
    rw (twice_available b q v s e i p covered)
      (refl, v -ℤ q -ℤ q, taken_twice b q v s e i p covered over, omega int_laws)
