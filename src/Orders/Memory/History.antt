-- ===== src/Orders/Memory/History.antt =====
-- The in-memory order repository numbers its orders upwards and changes one order at a time.
use my_bookstore.Base.{
  int_laws, All-append, wrap32_id, ◌+ℤ◌, IsInt, ◌≤ℤ◌, list_eq_iff, int_eq_iff, is_empty, [], arith,
  refl, text_eq, ℤ_eq, ◌||◌, if◌then◌else◌, inr, pos, ◌++◌, ◌<ℤ◌, ◌∷◌, All, inl, leb_ℤ, none, some,
  ◌==◌, Bool-cases, List, Option-cases, ℤ, ◌≡◌,
}
use my_bookstore.Model.{Order, OrderItem}
use my_bookstore.Orders.{ℤ, cancelled_status}
use my_bookstore.Orders.Laws.{
  as_cancelled, Creates, refused, recorded, Cancels, missing, stopped, IsHistory,
}
use my_bookstore.Orders.Memory.{
  Store, memory, create_order, find_in, find_order, cancelled, cancel_first, cancel_order,
}

abbrev pub IdsBelow : ℤ → List Order → Type 0
IdsBelow n = All (λ order. order.id <ℤ n)

-- The next id is positive, and every id that was given out lies below it.
abbrev pub IsNumbered : Store → Type 0
IsNumbered s = (pos 0 <ℤ s.next_order_id) × IdsBelow s.next_order_id s.orders

find_in_fresh : (n : ℤ) (orders : List Order) → IdsBelow n orders → find_in n orders ≡ none
unfolding find_in
find_in_fresh n [] h = refl
find_in_fresh n (order ∷ rest) h = ground (arith, find_in_fresh n rest h.1)

find_in-concat :
    (j : ℤ) (orders : List Order) (order : Order)
    → find_in order.id orders ≡ none
    → find_in j (orders ++ order ∷ []) ≡ (if order.id == j then some order else find_in j orders)
unfolding find_in
find_in-concat j [] order h = refl
find_in-concat j (x ∷ rest) order h =
    ground (arith, find_in-concat j rest order, int_eq_iff x.id j, int_eq_iff order.id j)

create_order-Creates :
    (user_id : ℤ) (items : List OrderItem) (total : ℤ) (s : Store)
    → IsNumbered s
    → let (out, s') = create_order user_id items total s in
      Creates memory user_id items total s out s'
unfolding create_order find_order
create_order-Creates user_id items total s h =
    elim (Bool-cases (leb_ℤ user_id (pos 0) || is_empty items)) [
      | inl e ↦ rw e (refused refl refl)
      | inr e ↦ rw e (
          recorded _ refl
            (record { user_is = refl; items_are = refl; total_is = refl; status_is = refl }) h.0
            (find_in_fresh s.next_order_id s.orders h.1)
            (λ j. find_in-concat j s.orders _ (find_in_fresh s.next_order_id s.orders h.1)))
    ]

cancelled_lem : (order : Order) → cancelled order ≡ as_cancelled order
unfolding cancelled
cancelled_lem order = elim (Bool-cases (order.status == cancelled_status)) [
  | inl e ↦ rw e (λ i. record order { status = (list_eq_iff order.status cancelled_status).0 e i })
  | inr e ↦ rw e refl
]

cancel_first_missing :
    (id : ℤ) (orders : List Order)
    → find_in id orders ≡ none
    → cancel_first id orders ≡ (none, orders)
unfolding cancel_first find_in
cancel_first_missing id [] e = refl
cancel_first_missing id (order ∷ rest) e = ground (arith, cancel_first_missing id rest)

cancel_first_found :
    (id : ℤ) (orders : List Order) (order : Order)
    → find_in id orders ≡ some order
    → (cancel_first id orders).0 ≡ some (as_cancelled order)
unfolding cancel_first find_in
cancel_first_found id [] order e = cc
cancel_first_found id (x ∷ rest) order e =
    ground (arith, cancelled_lem x, cancel_first_found id rest order)

find_in-cancel_first :
    (id : ℤ) (orders : List Order) (order : Order) (j : ℤ)
    → find_in id orders ≡ some order
    → find_in j (cancel_first id orders).1
      ≡ (if id == j then some (as_cancelled order) else find_in j orders)
unfolding cancel_first find_in
find_in-cancel_first id [] order j e = cc
find_in-cancel_first id (x ∷ rest) order j e = ground (
  arith,
  cancelled_lem x,
  int_eq_iff x.id id,
  int_eq_iff x.id j,
  int_eq_iff id j,
  find_in-cancel_first id rest order j,
)

cancel_order-Cancels :
    (id : ℤ) (s : Store) → let (out, s') = cancel_order id s in Cancels memory id s out s'
unfolding cancel_order find_order
cancel_order-Cancels id s = elim (Option-cases (find_in id s.orders)) [
  | inl e ↦ rw (cancel_first_missing id s.orders e) (missing refl e refl)
  | inr (order, e) ↦
      stopped order e (cancel_first_found id s.orders order e)
        (λ j. find_in-cancel_first id s.orders order j e)
]

-- The in-memory order repository is a history of orders.
pub memory-IsHistory : IsHistory IsNumbered memory
memory-IsHistory = record {
  create = create_order-Creates;
  cancel = λ id s h. cancel_order-Cancels id s;
}

IdsBelow-mono : (m n : ℤ) (orders : List Order) → m ≤ℤ n → IdsBelow m orders → IdsBelow n orders
IdsBelow-mono m n [] h b = tt
IdsBelow-mono m n (order ∷ rest) h b = (omega (arith, b.0), IdsBelow-mono m n rest h b.1)

-- If every id on record lies below the positive counter and the counter plus one fits in an
-- `int`, this holds again after the in-memory `create_order`, whatever its arguments.
pub create_order-IsNumbered :
    (user_id : ℤ) (items : List OrderItem) (total : ℤ) (s : Store)
    → IsNumbered s
    → IsInt (s.next_order_id +ℤ pos 1)
    → IsNumbered (create_order user_id items total s).1
unfolding create_order
create_order-IsNumbered user_id items total s h room =
    elim (Bool-cases (leb_ℤ user_id (pos 0) || is_empty items)) [
      | inl e ↦ rw e h
      | inr e ↦
          rw (e, wrap32_id (s.next_order_id +ℤ pos 1) room)
            (
              omega (int_laws, h.0),
              All-append _ s.orders _
                  (IdsBelow-mono s.next_order_id (s.next_order_id +ℤ pos 1) s.orders
                    (omega int_laws) h.1)
                  (omega int_laws, tt),
            )
    ]

cancel_first-IdsBelow :
    (n id : ℤ) (orders : List Order) → IdsBelow n orders → IdsBelow n (cancel_first id orders).1
unfolding cancel_first
cancel_first-IdsBelow n id [] h = tt
cancel_first-IdsBelow n id (order ∷ rest) h =
    ground (arith, cancelled_lem order, cancel_first-IdsBelow n id rest h.1)

-- Cancelling keeps the numbering.
pub cancel_order-IsNumbered : (id : ℤ) (s : Store) → IsNumbered s → IsNumbered (cancel_order id s).1
unfolding cancel_order
cancel_order-IsNumbered id s h = (h.0, cancel_first-IdsBelow s.next_order_id id s.orders h.1)
