-- ===== src/BlockQueue/Ring.antt =====
-- The ring of cells: what its indices satisfy, and the arithmetic of an index modulo its size.
use my_bookstore.Base.{
  ◌∙◌, inr, ◌-◌, arith, inl, pos_part, get_elem?, ◌≢◌, ◌⊎◌, ◌%◌, ◌+◌, ◌≡◌, ◌≤◌, length, pos, ◌<◌,
  List, ℕ, ℤ, ◌+ℤ◌,
}
use native.Mathlib.Nat.{mod-lt, mod-eq_of_lt, mod-eq-sub-mod}
use native.Mathlib.Decide.{dec_lt}
use my_bookstore.BlockQueue.{◌+ℤ◌, ℤ, ℕ, List, Queue, next_index}

-- An index that runs once round the ring.
pub index_cases :
    (m s i : ℕ)
    → s < m
    → i ≤ m
    → (((s + i) % m ≡ s + i) × (s + i < m)) ⊎ (((s + i) % m + m ≡ s + i) × (m ≤ s + i))
index_cases m s i h k = elim (dec_lt (s + i) m) [
  | yes p ↦ inl (mod-eq_of_lt p, p)
  | no p ↦
      let over : m ≤ s + i = omega arith in
      let less : (s + i) - m < m = omega arith in
      inr (omega (arith, mod-eq-sub-mod over ∙ mod-eq_of_lt less), over)
]

pub index_ne : (m s i j : ℕ) → s < m → i < j → j < m → (s + i) % m ≢ (s + j) % m
index_ne m s i j h ij jm e =
    omega (arith, index_cases m s i h (omega arith), index_cases m s j h (omega arith))

pub next_index-lt : (i : ℤ) (m : ℕ) → 0 < m → next_index i m < m
unfolding next_index
next_index-lt i m h = mod-lt (pos_part (i +ℤ pos 1)) h

pub next_index-pos : (n m : ℕ) → next_index (pos n) m ≡ (n + 1) % m
unfolding next_index ◌+ℤ◌
next_index-pos n m = ground arith

module _ {T : Type 0} where
  abbrev pub start : Queue T → ℕ
  start q = next_index q.front q.max_size

  -- The ring holds the items `xs`, oldest first.
  pub record Holds (q : Queue T) (xs : List T) : Type 0 where
    pub cells : length q.array ≡ q.max_size
    pub positive : 0 < q.max_size
    pub count : length xs ≡ q.size
    pub bounded : q.size ≤ q.max_size
    pub tail : (start q + q.size) % q.max_size ≡ next_index q.back q.max_size
    pub items :
        (i : ℕ) → i < q.size → get_elem? q.array ((start q + i) % q.max_size) ≡ get_elem? xs i
