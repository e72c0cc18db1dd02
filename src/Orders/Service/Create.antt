-- ===== src/Orders/Service/Create.antt =====
-- `create_order` places the whole order or leaves stock and orders as they were.
use my_bookstore.Base.{
  ◌∙◌, arith, [], Option-cases, is_empty, ◌||◌, leb_ℤ, Bool-cases, ℕ, refl, inr, inl, IsInt, ℤ_eq,
  ◌<ℤ◌, ◌==◌, if◌then◌else◌, pos, none, some, ◌⊎◌, List, Text, ◌≡◌, Option, ℤ,
}
use my_bookstore.Model.{Order, OrderItem, OrderItemRequest, InventoryMutation}
use my_bookstore.Catalog.{BookClient}
use my_bookstore.Inventory.{InventoryClient}
use my_bookstore.Inventory.Laws.{IsStocked}
use my_bookstore.Inventory.Reserved.{Reserved, IsAtomic}
use my_bookstore.Orders.{ℤ, Option, OrderRepository}
use my_bookstore.Orders.Laws.{IsNew, refused, recorded, IsHistory}
use my_bookstore.Orders.Service.{
  price_items, create_order, State, reservation_id, mutations, record_order, reserve_and_record,
}
use my_bookstore.Orders.Service.Pricing.{
  price_items-total, price_items-priced, cost, AllPriced, PricesNonneg,
}

module _ {B I O : Type 0} (books : BookClient B) (inventory : InventoryClient I)
    (orders : OrderRepository O) where
  abbrev SameStock : State B I O → State B I O → Type 0
  SameStock st st' =
      (b : ℤ) → inventory.available_stock b st'.inventory ≡ inventory.available_stock b st.inventory

  -- An order of `items` was recorded for `user_id`, and `reserved` was taken from the stock.
  pub record Records (user_id : ℤ) (reserved : List InventoryMutation) (items : List OrderItem)
      (total : ℤ) (st : State B I O) (order : Order) (st' : State B I O) : Type 0 where
    pub new : IsNew user_id items total order
    pub stock : Reserved inventory.available_stock reserved st.inventory st'.inventory
    pub id_positive : pos 0 <ℤ order.id
    pub fresh : orders.find_order order.id st.orders ≡ none
    pub found :
        (j : ℤ)
        → orders.find_order j st'.orders
          ≡ (if order.id == j then some order else orders.find_order j st.orders)
    pub catalogue : st'.books ≡ st.books

  -- The call returned no order and changed neither the stock nor the orders nor the catalogue.
  pub record Refuses (st : State B I O) (out : Option Order) (st' : State B I O) : Type 0 where
    pub no_order : out ≡ none
    pub stock : SameStock st st'
    pub history : st'.orders ≡ st.orders
    pub catalogue : st'.books ≡ st.books

  -- The order answers the requests at the prices of the catalogue, with the loop's total.
  pub record Places (user_id : ℤ) (requests : List OrderItemRequest) (st : State B I O)
      (out : Option Order) (st' : State B I O) : Type 0 where
    pub order : Order
    pub some_order : out ≡ some order
    pub items : List OrderItem
    pub total : ℤ
    pub positive : pos 0 <ℤ user_id
    pub records : Records user_id (mutations requests) items total st order st'
    pub priced : AllPriced books st.books requests items
    pub computed : price_items books requests st.books [] (pos 0) ≡ some (items, total)

  module _ {valid : O → Type 0} (atomic : IsAtomic inventory)
      (history : IsHistory valid orders) where
    record_order-cases :
        (user_id : ℤ) (id : Text) (reserved : List InventoryMutation) (items : List OrderItem)
        (total : ℤ) (s : I) (n : ℕ) (st : State B I O)
        → valid st.orders
        → Reserved inventory.available_stock reserved s st.inventory
        → let (out, st') = record_order books inventory orders user_id id reserved items total st in
          let before = record st { inventory = s; next_reservation = n } in
          Refuses before out st'
          ⊎ ((order : Order) × (out ≡ some order)
              × Records user_id reserved items total before order st')
    unfolding record_order
    record_order-cases user_id id reserved items total s n st ok held =
        elim (history.create user_id items total st.orders ok) [
          | refused e same ↦ rw e (
              inl (record {
                no_order = refl;
                stock = λ b. atomic.release id reserved s st.inventory held b;
                history = same;
                catalogue = refl;
              }))
          | recorded order e new up fresh found ↦ rw e (
              inr (
                order,
                refl,
                record {
                  new = new;
                  stock = held;
                  id_positive = up;
                  fresh = fresh;
                  found = found;
                  catalogue = refl;
                },
              ))
        ]

    untouched : (st : State B I O) → Refuses st none st
    untouched st = record { no_order = refl; stock = λ b. refl; history = refl; catalogue = refl }

    reserve_and_record-cases :
        (user_id : ℤ) (reserved : List InventoryMutation) (items : List OrderItem) (total : ℤ)
        (st : State B I O)
        → valid st.orders
        → IsStocked inventory.available_stock st.inventory
        → let (out, st') =
            reserve_and_record books inventory orders user_id reserved items total st in
          Refuses st out st'
          ⊎ ((order : Order) × (out ≡ some order)
              × Records user_id reserved items total st order st')
    unfolding reserve_and_record
    reserve_and_record-cases user_id reserved items total st ok full =
        let id = reservation_id user_id st.next_reservation in
        elim (atomic.reserve id reserved st.inventory full) [
          | inl (e, same) ↦
              rw e
                (inl (record { no_order = refl; stock = same; history = refl; catalogue = refl }))
          | inr (e, held) ↦ rw e (
              record_order-cases user_id id reserved items total st.inventory st.next_reservation _
                ok held)
        ]

    -- Over an atomic inventory client and an order repository that keeps a history, from a valid state
    -- of the orders and a stock in range: either the call returns no order and leaves every count,
    -- the orders and the catalogue alone, or it returns one new order that is recorded under an unused
    -- id, answers the requests one by one at the catalogue's prices, and whose copies left the stock.
    pub create_order-cases :
        (user_id : ℤ) (requests : List OrderItemRequest) (st : State B I O)
        → valid st.orders
        → IsStocked inventory.available_stock st.inventory
        → let (out, st') = create_order books inventory orders user_id requests st in
          Refuses st out st' ⊎ Places user_id requests st out st'
    unfolding create_order
    create_order-cases user_id requests st ok full =
        elim (Bool-cases (leb_ℤ user_id (pos 0) || is_empty requests)) [
          | inl bad ↦ rw bad (inl (untouched st))
          | inr good ↦ elim (Option-cases (price_items books requests st.books [] (pos 0))) [
            | inl unpriced ↦ rw (good, unpriced) (inl (untouched st))
            | inr ((items, total), e) ↦
                rw (good, e)
                  (elim (reserve_and_record-cases user_id (mutations requests) items total st ok
                    full) [
                      | inl refusal ↦ inl refusal
                      | inr (order, made, records) ↦
                          let priced = price_items-priced books st.books requests items total e in
                          inr (record {
                            order = order;
                            some_order = made;
                            items = items;
                            total = total;
                            positive = ground (arith, good);
                            records = records;
                            priced = priced;
                            computed = e;
                          })
                    ])
          ]
        ]

  -- The total of an order that was placed is the exact cost of its items, if no price is negative and
  -- the cost fits in an `int`.
  pub Places-total :
      (user_id : ℤ) (requests : List OrderItemRequest) (st st' : State B I O) (out : Option Order)
      → (placed : Places user_id requests st out st') → PricesNonneg books st.books
      → IsInt (cost placed.items)
      → placed.order.total_cents ≡ cost placed.items
  Places-total user_id requests st st' out placed h i =
      placed.records.new.total_is
      ∙ price_items-total books st.books requests placed.items placed.total h placed.computed i
