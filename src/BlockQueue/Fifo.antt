-- ===== src/BlockQueue/Fifo.antt =====
-- The ring implements a bounded first-in first-out list.
use native.Mathlib.Decide.{dec_lt}
use my_bookstore.Base.{
  ◌-◌, sym, length-append, length-replicate, ◌∙◌, leb_ℤ, length-set, leb, ◌+ℤ◌, ap, zero, refl, suc,
  [], arith, false, some, true, ◌%◌, ◌∷◌, length, pos, set, ◌++◌, ◌+◌, ◌≡◌, get_elem?, ◌<◌, ◌≢◌,
  ◌≤◌, List, ℕ,
}
use native.Mathlib.Numerals.{add-one}
use native.Mathlib.Nat.{mod-eq_of_lt, mod-add-mod}
use my_bookstore.BlockQueue.{fresh, ℕ, List, Queue, next_index, init, push, take_front}
use my_bookstore.BlockQueue.Ring.{index_ne, next_index-lt, next_index-pos, start, Holds}

get_elem?-set_self :
    {T : Type 0} (xs : List T) (i : ℕ) (v : T) → i < length xs → get_elem? (set xs i v) i ≡ some v
get_elem?-set_self [] i v h = absurd (omega arith)
get_elem?-set_self (x ∷ xs) zero v h = refl
get_elem?-set_self (x ∷ xs) (suc i) v h = get_elem?-set_self xs i v (omega arith)

get_elem?-set_ne :
    {T : Type 0} (xs : List T) (i j : ℕ) (v : T) → i ≢ j → get_elem? (set xs i v) j ≡ get_elem? xs j
get_elem?-set_ne [] i j v h = refl
get_elem?-set_ne (x ∷ xs) zero zero v h = absurd (h refl)
get_elem?-set_ne (x ∷ xs) zero (suc j) v h = refl
get_elem?-set_ne (x ∷ xs) (suc i) zero v h = refl
get_elem?-set_ne (x ∷ xs) (suc i) (suc j) v h = get_elem?-set_ne xs i j v (λ e. h (ap suc e))

get_elem?-concat_lt :
    {T : Type 0} (xs : List T) (x : T) (i : ℕ)
    → i < length xs
    → get_elem? (xs ++ x ∷ []) i ≡ get_elem? xs i
get_elem?-concat_lt [] x i h = absurd (omega arith)
get_elem?-concat_lt (y ∷ xs) x zero h = refl
get_elem?-concat_lt (y ∷ xs) x (suc i) h = get_elem?-concat_lt xs x i (omega arith)

get_elem?-concat_last :
    {T : Type 0} (xs : List T) (x : T) → get_elem? (xs ++ x ∷ []) (length xs) ≡ some x
get_elem?-concat_last [] x = refl
get_elem?-concat_last (y ∷ xs) x = get_elem?-concat_last xs x

next_tail : (a m : ℕ) {b : ℕ} → a % m ≡ b → (a + 1) % m ≡ next_index (pos b) m
next_tail a m {b} e = sym (next_index-pos b m ∙ ap (λ c. (c + 1) % m) (sym e) ∙ mod-add-mod a m 1)

shifted : (s i m : ℕ) → (next_index (pos s) m + i) % m ≡ (s + (i + 1)) % m
shifted s i m =
    ap (λ n. (n + i) % m) (next_index-pos s m)
    ∙ mod-add-mod (s + 1) m i
    ∙ ap (λ n. n % m) (omega arith)

next_item : {T : Type 0} (x : T) (xs : List T) (i : ℕ) → get_elem? (x ∷ xs) (i + 1) ≡ get_elem? xs i
next_item x xs i = rw add-one refl

module _ {T : Type 0} where
  -- A new queue holds nothing.
  pub init-Holds :
      (d : T) (m : ℕ)
      → 0 < m
      → (q : Queue T) × (init d (pos m) ≡ some q) × Holds q [] × (q.max_size ≡ m)
  unfolding init next_index ◌+ℤ◌
  init-Holds d m h =
      let positive : leb_ℤ (pos m) (pos 0) ≡ false = ground arith in
      (
        fresh d m,
        rw positive refl,
        record {
          cells = length-replicate m d;
          positive = h;
          count = refl;
          bounded = omega arith;
          tail = mod-add-mod 0 m 0;
          items = λ i hi. absurd (omega arith);
        },
        refl,
      )

  module _ {q : Queue T} {xs : List T} (h : Holds q xs) where
    start_lt : start q < q.max_size
    start_lt = next_index-lt q.front q.max_size h.positive

    -- The item goes in behind the others, unless the queue is full.
    pub push-full : q.max_size ≤ q.size → (item : T) → push item q ≡ (false, q)
    unfolding push
    push-full f item = ground arith

    push-items :
        (item : T) (i : ℕ)
        → q.size < q.max_size
        → i < q.size + 1
        → get_elem? (set q.array (next_index q.back q.max_size) item) ((start q + i) % q.max_size)
          ≡ get_elem? (xs ++ item ∷ []) i
    push-items item i room hi = elim (dec_lt i q.size) [
      | yes p ↦
          get_elem?-set_ne q.array _ _ item
            (λ e. index_ne q.max_size (start q) i q.size start_lt p room (sym (h.tail ∙ e)))
          ∙ h.items i p
          ∙ sym (get_elem?-concat_lt xs item i (omega (arith, h.count)))
      | no p ↦
          let last : i ≡ q.size = omega arith in
          rw (last, h.tail)
            (get_elem?-set_self q.array _ item
                (rw h.cells (next_index-lt q.back q.max_size h.positive))
              ∙ sym (rw h.count at (get_elem?-concat_last xs item)))
    ]

    -- On a ring that holds some items and is not full, `push` succeeds and the ring then holds
    -- them with the new item at the end.
    pub push-Holds :
        (item : T)
        → q.size < q.max_size
        → ((push item q).0 ≡ true) × Holds (push item q).1 (xs ++ item ∷ [])
    unfolding push
    push-Holds item room = rw roomy (refl, after)
      where
        roomy : leb q.max_size q.size ≡ false
        roomy = ground arith

        after :
            Holds
              (record q {
                back = pos (next_index q.back q.max_size);
                array = set q.array (next_index q.back q.max_size) item;
                size = q.size + 1;
              })
              (xs ++ item ∷ [])
        after = record {
          cells = length-set q.array _ item ∙ h.cells;
          positive = h.positive;
          count = length-append xs (item ∷ []) ∙ omega (arith, h.count);
          bounded = omega arith;
          tail =
              ap (λ n. n % q.max_size) (omega arith)
              ∙ next_tail (start q + q.size) q.max_size h.tail;
          items = λ i hi. push-items item i room hi;
        }

  -- The oldest item comes out.
  pub take_front-Holds :
      {q : Queue T} (x : T) (xs : List T)
      → Holds q (x ∷ xs)
      → ((take_front q).0 ≡ some x) × Holds (take_front q).1 xs
  unfolding take_front
  take_front-Holds {q} x xs h =
      let positive : 0 < q.size = omega (arith, h.count) in
      let at_start : (start q + 0) % q.max_size ≡ start q =
        ap (λ n. n % q.max_size) (omega arith)
        ∙ mod-eq_of_lt (next_index-lt q.front q.max_size h.positive) in
      (
        rw at_start at (h.items 0 positive),
        record {
          cells = h.cells;
          positive = h.positive;
          count = omega (arith, h.count);
          bounded = omega (arith, h.bounded);
          tail =
              shifted (start q) (q.size - 1) q.max_size
              ∙ ap (λ n. (start q + n) % q.max_size) (omega arith)
              ∙ h.tail;
          items = λ i hi.
              rw (shifted (start q) i q.max_size)
                (h.items (i + 1) (omega arith) ∙ next_item x xs i);
        },
      )
