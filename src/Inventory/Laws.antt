-- ===== src/Inventory/Laws.antt =====
-- What the single-book calls of an inventory promise, in terms of `available_stock` alone, and the
-- effect of a batch on the stock.
use my_bookstore.Base.{
  Bool, arith, ℤ, pos, ◌+ℤ◌, ◌-ℤ◌, ◌≤ℤ◌, ◌<ℤ◌, IsInt, ◌≡◌, ◌⊎◌, true, false, Option, none, some,
  List, [], ◌∷◌, if◌then◌else◌, ◌==◌, ℤ_eq,
}
use my_bookstore.Model.{InventoryMutation}
use my_bookstore.Inventory.{InventoryRepository}

-- How many copies of a book a batch asks for.
abbrev pub demand : ℤ → List InventoryMutation → ℤ
demand b [] = pos 0
demand b (item ∷ rest) = (if item.book_id == b then item.quantity else pos 0) +ℤ demand b rest

abbrev pub plus : ℤ → Option ℤ → Option ℤ
plus d none = none
plus d (some v) = some (v +ℤ d)

-- What is left after a covered reservation is in range and not negative.
pub left_in_range : (v q : ℤ) → pos 0 <ℤ q → q ≤ℤ v → IsInt v → (pos 0 ≤ℤ v -ℤ q) × IsInt (v -ℤ q)
unfolding ◌-ℤ◌
left_in_range v q p h i = ground (arith, i.below, i.above)

-- A sum of two counts is in range when it lies below a count that is.
pub sum_in_range :
    (w q d v : ℤ)
    → pos 0 ≤ℤ w
    → pos 0 <ℤ q
    → pos 0 ≤ℤ d
    → v ≡ w +ℤ (q +ℤ d)
    → IsInt v
    → IsInt (w +ℤ q)
unfolding ◌+ℤ◌
sum_in_range w q d v hw hq hd e i = ground (arith, i.below, i.above)

module _ {S : Type 0} (stock : ℤ → S → Option ℤ) where
  -- No count is negative, and each fits `int`.
  abbrev pub IsStocked : S → Type 0
  IsStocked s = (b v : ℤ) → stock b s ≡ some v → (pos 0 ≤ℤ v) × IsInt v

  -- A reservation of `q` copies of `b` was made: only that count changed, and it covered `q`.
  pub record Took (b q : ℤ) (s s' : S) : Type 0 where
    pub had : ℤ
    pub positive : pos 0 <ℤ q
    pub enough : q ≤ℤ had
    pub before : stock b s ≡ some had
    pub after : (j : ℤ) → stock j s' ≡ (if b == j then some (had -ℤ q) else stock j s)

  -- A call that reserves copies of one book changes no count, or takes exactly those copies.
  abbrev pub Reserves : (ℤ → ℤ → S → Bool × S) → Type 0
  Reserves reserve =
      (b q : ℤ) (s : S)
      → IsStocked s
      → let (taken, s') = reserve b q s in
        ((taken ≡ false) × ((j : ℤ) → stock j s' ≡ stock j s)) ⊎ ((taken ≡ true) × Took b q s s')

  -- A call that releases copies of a known book adds exactly those copies.
  abbrev pub Releases : (ℤ → ℤ → S → S) → Type 0
  Releases release =
      (b q w : ℤ) (s : S)
      → pos 0 <ℤ q
      → stock b s ≡ some w
      → IsInt (w +ℤ q)
      → (j : ℤ) → stock j (release b q s) ≡ (if b == j then some (w +ℤ q) else stock j s)

pub record IsLawful {S : Type 0} (r : InventoryRepository S) : Type 0 where
  pub reserve : Reserves r.available_stock r.reserve_stock
  pub release : Releases r.available_stock r.release_stock
