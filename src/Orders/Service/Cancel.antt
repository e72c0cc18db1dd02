-- ===== src/Orders/Service/Cancel.antt =====
-- `cancel_order` gives the copies of an order back, once.
pub mod Cases
use my_bookstore.Orders.Service.Create.{Places}
use my_bookstore.Inventory.Reserved.{IsAtomic}
use my_bookstore.Base.{
  ==_refl, ap, ◌∙◌, sym, text_eq, ==_ne, arith, ℤ_eq, false, refl, ◌==◌, [], if◌then◌else◌, leb_ℤ,
  ◌≢◌, some, ◌<ℤ◌, ◌∷◌, Option, map, pos, ◌≡◌, List, ℤ,
}
use my_bookstore.Model.{Order, OrderItem, OrderItemRequest, InventoryMutation}
use my_bookstore.Catalog.{BookClient}
use my_bookstore.Inventory.{InventoryClient}
use my_bookstore.Inventory.Rollback.{give_back-restores, give_back}
use my_bookstore.Orders.{created_status, ℤ, List, OrderRepository, cancelled_status}
use my_bookstore.Orders.Laws.{as_cancelled, missing, stopped, IsHistory}
use my_bookstore.Orders.Service.{State, mutations, release_items, cancel_found, cancel_order}
use my_bookstore.Orders.Service.Pricing.{AllPriced}

abbrev pub item_mutation : OrderItem → InventoryMutation
item_mutation item = record { book_id = item.book_id; quantity = item.quantity }

priced-mutations :
    {B : Type 0} (books : BookClient B) (b : B) (requests : List OrderItemRequest)
    (items : List OrderItem)
    → AllPriced books b requests items
    → map item_mutation items ≡ mutations requests
unfolding mutations
priced-mutations books b [] [] a = refl
priced-mutations books b [] (item ∷ items) a = absurd a
priced-mutations books b (request ∷ requests) [] a = absurd a
priced-mutations books b (request ∷ requests) (item ∷ items) ((q, book, found, e), a) =
    rw (e, priced-mutations books b requests items a) refl

module _ {B I O : Type 0} (books : BookClient B) (inventory : InventoryClient I)
    (orders : OrderRepository O) where
  pub release_items-eq-give_back :
      (items : List OrderItem) (s : I)
      → release_items books inventory orders items s
        ≡ give_back inventory.available_stock inventory.release_stock (map item_mutation items) s
  unfolding release_items give_back
  release_items-eq-give_back [] s = refl
  release_items-eq-give_back (item ∷ rest) s = release_items-eq-give_back rest _

  module _ {valid : O → Type 0} (history : IsHistory valid orders) where
    -- What one call of `cancel_order` did to an order that is on record.
    pub record Stops (id : ℤ) (order : Order) (st : State B I O) (out : Option Order)
        (st' : State B I O) : Type 0 where
      pub returned : out ≡ some (as_cancelled order)
      pub released : st'.inventory ≡ release_items books inventory orders order.items st.inventory
      pub found :
          (j : ℤ)
          → orders.find_order j st'.orders
            ≡ (if id == j then some (as_cancelled order) else orders.find_order j st.orders)
      pub catalogue : st'.books ≡ st.books

    cancel_found-Stops :
        (id : ℤ) (order : Order) (st : State B I O)
        → valid st.orders
        → orders.find_order id st.orders ≡ some order
        → let (out, st') = cancel_found books inventory orders id st in Stops id order st out st'
    unfolding cancel_found
    cancel_found-Stops id order st ok e = elim (history.cancel id st.orders ok) [
      | missing _ none_there _ ↦ absurd (cc (e, none_there))
      | stopped order' e' out found ↦
          let same : order' ≡ order = cc (e, e') in
          rw (out, cancel_found)
            (record {
              returned = ap (λ o. some (as_cancelled o)) same;
              released =
                  ap (λ (o : Order). release_items books inventory orders o.items st.inventory)
                    same;
              found = rw same at found;
              catalogue = refl;
            })
    ]

    -- Over an order repository that keeps a history, in a valid state: cancelling an order with a
    -- positive id that is on record and not cancelled returns it as cancelled, releases each of
    -- its items in order, and changes what is found under its id only.
    pub cancel_order-Stops :
        (id : ℤ) (order : Order) (st : State B I O)
        → valid st.orders
        → pos 0 <ℤ id
        → orders.find_order id st.orders ≡ some order
        → order.status ≢ cancelled_status
        → let (out, st') = cancel_order books inventory orders id st in Stops id order st out st'
    unfolding cancel_order
    cancel_order-Stops id order st ok p e open_still =
        let positive : leb_ℤ id (pos 0) ≡ false = ground arith in
        let status : (order.status == cancelled_status) ≡ false =
          ==_ne order.status cancelled_status open_still in
        rw (positive, e, status) (cancel_found-Stops id order st ok e)

    -- Cancelling an order with a positive id that is cancelled already returns it and changes
    -- nothing.
    pub cancel_order_twice :
        (id : ℤ) (order : Order) (st : State B I O)
        → pos 0 <ℤ id
        → orders.find_order id st.orders ≡ some order
        → order.status ≡ cancelled_status
        → cancel_order books inventory orders id st ≡ (some order, st)
    unfolding cancel_order
    cancel_order_twice id order st p e done =
        let positive : leb_ℤ id (pos 0) ≡ false = ground arith in rw (positive, e, done) refl

    created_open : created_status ≢ cancelled_status
    created_open e = cc e

    -- Over an atomic inventory client and an order repository that keeps a history, in a valid
    -- state: cancelling the order that a call has placed, before anything else happens, returns
    -- it as cancelled and restores every count of the stock.
    pub cancel_order-create_order :
        (user_id : ℤ) (requests : List OrderItemRequest) {st : State B I O} {out : Option Order}
        {st' : State B I O}
        → IsAtomic inventory
        → valid st'.orders
        → (placed : Places books inventory orders user_id requests st out st')
        → let (again, st'') = cancel_order books inventory orders placed.order.id st' in
          (again ≡ some (as_cancelled placed.order))
          × ((b : ℤ)
              → inventory.available_stock b st''.inventory
                ≡ inventory.available_stock b st.inventory)
    cancel_order-create_order user_id requests {st} {st' = st'} atomic ok placed =
        let order = placed.order in
        let records = placed.records in
        let stored : orders.find_order order.id st'.orders ≡ some order =
          records.found order.id ∙ rw (==_refl order.id) refl in
        let stops =
          cancel_order-Stops order.id order st' ok records.id_positive stored
            (λ e. created_open (sym records.new.status_is ∙ e)) in
        (
          stops.returned,
          λ b.
              ap (inventory.available_stock b) stops.released
              ∙ ap
                  (λ l.
                    inventory.available_stock b
                      (release_items books inventory orders l st'.inventory))
                  records.new.items_are
              ∙ ap (inventory.available_stock b)
                  (release_items-eq-give_back placed.items st'.inventory)
              ∙ ap
                  (λ l.
                    inventory.available_stock b
                      (give_back inventory.available_stock inventory.release_stock l st'.inventory))
                  (priced-mutations books st.books requests placed.items placed.priced)
              ∙ give_back-restores inventory.available_stock inventory.release_stock
                  (mutations requests) atomic.release_one records.stock b,
        )
