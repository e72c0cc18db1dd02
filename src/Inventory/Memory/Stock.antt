-- ===== src/Inventory/Memory/Stock.antt =====
-- The single-book calls of the in-memory repository keep the promises of `IsLawful`.
use my_bookstore.Base.{
  refl, ltb_ℤ, Option-cases, lookup-insert, inr, wrap32_id, inl, ◌==◌, Bool-cases, if◌then◌else◌,
  leb_ℤ, ℤ_eq, arith, true, ◌+ℤ◌, IsInt, ◌≤ℤ◌, ◌⊎◌, false, some, ◌<ℤ◌, pos, ◌≡◌, lookup, ℤ, ◌-ℤ◌,
}
use my_bookstore.Inventory.Laws.{IsStocked, Took, IsLawful, left_in_range}
use my_bookstore.Inventory.Memory.{
  Stock, memory, available_stock, add_to, take_from, reserve_stock, release_stock,
}

pub lookup-add_to :
    (b q v : ℤ) (s : Stock) (j : ℤ)
    → lookup b s ≡ some v
    → IsInt (v +ℤ q)
    → lookup j (add_to b q s) ≡ (if b == j then some (v +ℤ q) else lookup j s)
unfolding add_to
lookup-add_to b q v s j e h = rw (e, wrap32_id (v +ℤ q) h) (lookup-insert b j (v +ℤ q) s)

pub lookup-take_from :
    (b q v : ℤ) (s : Stock) (j : ℤ)
    → lookup b s ≡ some v
    → IsInt (v -ℤ q)
    → lookup j (take_from b q s) ≡ (if b == j then some (v -ℤ q) else lookup j s)
unfolding take_from
lookup-take_from b q v s j e h = rw (e, wrap32_id (v -ℤ q) h) (lookup-insert b j (v -ℤ q) s)

pub covered-Took :
    (b q v : ℤ) (s : Stock)
    → IsStocked available_stock s
    → leb_ℤ q (pos 0) ≡ false
    → lookup b s ≡ some v
    → ltb_ℤ v q ≡ false
    → Took available_stock b q s (take_from b q s)
unfolding available_stock
covered-Took b q v s h high e covered =
    let p : pos 0 <ℤ q = ground arith in
    let enough : q ≤ℤ v = ground arith in
    record {
      had = v;
      positive = p;
      enough = enough;
      before = e;
      after = λ j. lookup-take_from b q v s j e (left_in_range v q p enough (h b v e).1).1;
    }

reserve_stock-cases :
    (b q : ℤ) (s : Stock)
    → IsStocked available_stock s
    → let (taken, s') = reserve_stock b q s in
      ((taken ≡ false) × ((j : ℤ) → lookup j s' ≡ lookup j s))
      ⊎ ((taken ≡ true) × Took available_stock b q s s')
unfolding reserve_stock available_stock
reserve_stock-cases b q s h = elim (Bool-cases (leb_ℤ q (pos 0))) [
  | inl low ↦ rw low (inl (refl, λ j. refl))
  | inr high ↦ elim (Option-cases (lookup b s)) [
    | inl missing ↦ rw (high, missing) (inl (refl, λ j. refl))
    | inr (v, e) ↦ elim (Bool-cases (ltb_ℤ v q)) [
      | inl short ↦ rw (high, e, short) (inl (refl, λ j. refl))
      | inr covered ↦ rw (high, e, covered) (inr (refl, covered-Took b q v s h high e covered))
    ]
  ]
]

-- The in-memory repository is a lawful inventory.
pub memory-IsLawful : IsLawful memory
unfolding available_stock release_stock
memory-IsLawful = record {
  reserve = reserve_stock-cases;
  release = λ b q w s p e i j.
      let high : leb_ℤ q (pos 0) ≡ false = ground arith in rw high (lookup-add_to b q w s j e i);
}
