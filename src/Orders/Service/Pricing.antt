-- ===== src/Orders/Service/Pricing.antt =====
-- The first loop of `create_order`: which items it makes, and that its `int` total is the exact sum.
use mathlib.Core.List.{append-nil, append_assoc}
use my_bookstore.Base.{
  sym, refl, subst, wrap32_id, IsInt-le, int_laws, *ℤ_nonneg, inr, inl, Option-cases, ◌∙◌, IsInt,
  arith, wrap32, [], ◌++◌, ◌+ℤ◌, ◌≤ℤ◌, some, ◌*ℤ◌, ◌<ℤ◌, ◌∷◌, ◌≡◌, List, pos, ℤ,
}
use my_bookstore.Model.{Book, OrderItem, OrderItemRequest}
use my_bookstore.Catalog.{BookClient}
use my_bookstore.Orders.Service.{ℤ, pos, List, price_items}

abbrev item_of : OrderItemRequest → Book → OrderItem
item_of request book = record {
  book_id = request.book_id;
  quantity = request.quantity;
  unit_price_cents = book.price_cents;
}

-- The exact cost of the items.
abbrev pub cost : List OrderItem → ℤ
cost [] = pos 0
cost (item ∷ rest) = item.unit_price_cents *ℤ item.quantity +ℤ cost rest

-- Neither the product nor the sum of a round wraps when the final sum is in range.
round_exact :
    (p q c total : ℤ)
    → pos 0 ≤ℤ p
    → pos 0 <ℤ q
    → pos 0 ≤ℤ c
    → pos 0 ≤ℤ total
    → IsInt (total +ℤ (p *ℤ q +ℤ c))
    → (wrap32 (total +ℤ wrap32 (p *ℤ q)) ≡ total +ℤ p *ℤ q) × (pos 0 ≤ℤ total +ℤ p *ℤ q)
round_exact p q c total hp hq hc ht i =
    let product : pos 0 ≤ℤ p *ℤ q = *ℤ_nonneg p q hp (omega arith) in
    let sum : pos 0 ≤ℤ total +ℤ p *ℤ q = omega int_laws in
    let inner : IsInt (p *ℤ q) = IsInt-le (p *ℤ q) _ product (omega int_laws) i in
    let outer : IsInt (total +ℤ p *ℤ q) = IsInt-le (total +ℤ p *ℤ q) _ sum (omega int_laws) i in
    (rw (wrap32_id (p *ℤ q) inner) (wrap32_id (total +ℤ p *ℤ q) outer), sum)

module _ {B : Type 0} (books : BookClient B) (b : B) where
  -- The item that a request stands for, at the price of the catalogue.
  abbrev pub IsPriced : OrderItemRequest → OrderItem → Type 0
  IsPriced request item =
      (pos 0 <ℤ request.quantity)
      × (book : Book) × (books.find_book request.book_id b ≡ some book)
      × (item ≡ record {
        book_id = request.book_id;
        quantity = request.quantity;
        unit_price_cents = book.price_cents;
      })

  -- The items answer the requests, one by one and in order.
  abbrev pub AllPriced : List OrderItemRequest → List OrderItem → Type 0
  AllPriced [] [] = Unit
  AllPriced [] (item ∷ items) = ⊥
  AllPriced (request ∷ requests) [] = ⊥
  AllPriced (request ∷ requests) (item ∷ items) = IsPriced request item × AllPriced requests items

  -- No book has a negative price.
  abbrev pub PricesNonneg : Type 0
  PricesNonneg =
      (id : ℤ) (book : Book) → books.find_book id b ≡ some book → pos 0 ≤ℤ book.price_cents

  -- One round of the loop that was not cut short.
  price_round :
      (request : OrderItemRequest) (rest : List OrderItemRequest) (done : List OrderItem)
      (total : ℤ) (out : List OrderItem × ℤ)
      → price_items books (request ∷ rest) b done total ≡ some out
      → (book : Book) × (pos 0 <ℤ request.quantity)
        × (books.find_book request.book_id b ≡ some book)
        × (price_items books rest b
              (done ++ item_of request book ∷ [])
              (wrap32 (total +ℤ wrap32 (book.price_cents *ℤ request.quantity)))
            ≡ some out)
  unfolding price_items
  price_round request rest done total out e =
      elim (Option-cases (books.find_book request.book_id b)) [
        | inl missing ↦ absurd (ground arith)
        | inr (book, found) ↦ (book, ground arith, found, ground arith)
      ]

  cost_nonneg :
      PricesNonneg
      → (requests : List OrderItemRequest) (items : List OrderItem) → AllPriced requests items
      → pos 0 ≤ℤ cost items
  cost_nonneg h [] [] a = omega arith
  cost_nonneg h [] (item ∷ items) a = absurd a
  cost_nonneg h (request ∷ requests) [] a = absurd a
  cost_nonneg h (request ∷ requests) (item ∷ items) ((q, book, found, e), a) =
      let first : pos 0 ≤ℤ item.unit_price_cents *ℤ item.quantity = rw e (
        *ℤ_nonneg book.price_cents request.quantity (h request.book_id book found) (omega arith)) in
      omega (int_laws, first, cost_nonneg h requests items a)

  price_items_done :
      (done out : List OrderItem) (total total' : ℤ)
      → price_items books [] b done total ≡ some (out, total')
      → (out ≡ done) × (total' ≡ total)
  unfolding price_items
  price_items_done done out total total' e = ground arith

  -- What a successful run adds to the items and to the total.
  price_items-AllPriced :
      (requests : List OrderItemRequest) (done out : List OrderItem) (total total' : ℤ)
      → price_items books requests b done total ≡ some (out, total')
      → (items : List OrderItem) × (out ≡ done ++ items)
        × AllPriced requests items
        × (PricesNonneg
            → pos 0 ≤ℤ total
            → IsInt (total +ℤ cost items)
            → total' ≡ total +ℤ cost items)
  price_items-AllPriced [] done out total total' e =
      let (same, kept) = price_items_done done out total total' e in
      ([], rw append-nil same, tt, λ h nonneg i. rw kept (omega int_laws))
  price_items-AllPriced (request ∷ rest) done out total total' e =
      let (book, q, found, e') = price_round request rest done total (out, total') e in
      let (items, same, priced, exact) =
        price_items-AllPriced rest (done ++ item_of request book ∷ []) out
          (wrap32 (total +ℤ wrap32 (book.price_cents *ℤ request.quantity))) total' e' in
      (
        item_of request book ∷ items,
        same ∙ append_assoc done (item_of request book ∷ []) items,
        ((q, book, found, refl), priced),
        λ h nonneg i.
            let (sum, nonneg') =
              round_exact book.price_cents request.quantity (cost items) total
                (h request.book_id book found) q (cost_nonneg h rest items priced) nonneg i in
            let i' : IsInt (total +ℤ book.price_cents *ℤ request.quantity +ℤ cost items) =
              subst IsInt (omega int_laws) i in
            exact h (rw sum nonneg') (rw sum i') ∙ rw sum (omega int_laws),
      )

  -- A successful run has made one item for each request, in order, at the price of the catalogue, and
  -- every quantity was positive.
  pub price_items-priced :
      (requests : List OrderItemRequest) (items : List OrderItem) (total : ℤ)
      → price_items books requests b [] (pos 0) ≡ some (items, total)
      → AllPriced requests items
  price_items-priced requests items total e =
      let (items', same, priced, exact) = price_items-AllPriced requests [] items (pos 0) total e in
      subst (AllPriced requests) (sym same) priced

  -- The total of a successful run is the exact cost of its items, if no price is negative and the
  -- cost fits in an `int`.
  pub price_items-total :
      (requests : List OrderItemRequest) (items : List OrderItem) (total : ℤ)
      → PricesNonneg
      → price_items books requests b [] (pos 0) ≡ some (items, total)
      → IsInt (cost items)
      → total ≡ cost items
  price_items-total requests items total h e i =
      let (items', same, priced, exact) = price_items-AllPriced requests [] items (pos 0) total e in
      let z : pos 0 +ℤ cost items' ≡ cost items' = omega int_laws in
      rw same (rw z at (exact h (omega arith) (rw z (subst (λ l. IsInt (cost l)) same i))))
