-- ===== src/Orders/Service/Cancel/Cases.antt =====
-- Everything that `cancel_order` of src/app/service/order_service.h can come to.
use my_bookstore.Base.{
  list_eq_iff, ◌∙◌, Bool-cases, Option-cases, inl, inr, ◌⊎◌, none, text_eq, arith, ℤ_eq, ap, refl,
  ◌==◌, if◌then◌else◌, leb_ℤ, ◌≢◌, some, ◌<ℤ◌, ◌≤ℤ◌, Option, map, pos, ◌≡◌, ℤ,
}
use my_bookstore.Model.{Order}
use my_bookstore.Catalog.{BookClient}
use my_bookstore.Inventory.{InventoryClient}
use my_bookstore.Inventory.Laws.{demand, plus, Releases}
use my_bookstore.Inventory.Returned.{IsReturnable, give_back-exact}
use my_bookstore.Orders.{OrderRepository, cancelled_status}
use my_bookstore.Orders.Laws.{as_cancelled, IsHistory}
use my_bookstore.Orders.Service.{State, cancel_order}
use my_bookstore.Orders.Service.Cancel.{
  item_mutation, release_items-eq-give_back, cancel_order-Stops,
}

module _ {B I O : Type 0} (books : BookClient B) (inventory : InventoryClient I)
    (orders : OrderRepository O) where
  -- There is no such order, and nothing changed.
  abbrev pub Missing : ℤ → State B I O → Option Order → State B I O → Type 0
  Missing id st out st' =
      ((id ≤ℤ pos 0) ⊎ (orders.find_order id st.orders ≡ none)) × ((out ≡ none) × (st' ≡ st))

  -- The order was cancelled before; it is returned, and nothing changed.
  abbrev pub Before : ℤ → State B I O → Option Order → State B I O → Type 0
  Before id st out st' =
      (order : Order) × ((orders.find_order id st.orders ≡ some order)
        × ((order.status ≡ cancelled_status) × ((out ≡ some order) × (st' ≡ st))))

  -- The order is cancelled by this call.
  pub record Ends (id : ℤ) (st : State B I O) (out : Option Order) (st' : State B I O)
      : Type 0 where
    pub order : Order
    pub on_record : orders.find_order id st.orders ≡ some order
    pub not_yet : order.status ≢ cancelled_status
    pub returned : out ≡ some (as_cancelled order)
    pub stock :
        (b : ℤ)
        → inventory.available_stock b st'.inventory
          ≡ plus
              (demand b (map item_mutation order.items))
              (inventory.available_stock b st.inventory)
    pub found :
        (j : ℤ)
        → orders.find_order j st'.orders
          ≡ (if id == j then some (as_cancelled order) else orders.find_order j st.orders)
    pub catalogue : st'.books ≡ st.books

  module _ {valid : O → Type 0} (history : IsHistory valid orders)
      (releases : Releases inventory.available_stock inventory.release_stock) where
    stopped-Ends :
        (id : ℤ) (order : Order) (st : State B I O)
        → valid st.orders
        → pos 0 <ℤ id
        → orders.find_order id st.orders ≡ some order
        → order.status ≢ cancelled_status
        → IsReturnable inventory.available_stock (map item_mutation order.items) st.inventory
        → let (out, st') = cancel_order books inventory orders id st in Ends id st out st'
    stopped-Ends id order st ok p e open_still room =
        let stops =
          cancel_order-Stops books inventory orders history id order st ok p e open_still in
        record {
          order = order;
          on_record = e;
          not_yet = open_still;
          returned = stops.returned;
          stock = λ b.
              ap (inventory.available_stock b) (
                stops.released
                ∙ release_items-eq-give_back books inventory orders order.items st.inventory)
              ∙ give_back-exact inventory.available_stock inventory.release_stock
                  (map item_mutation order.items) releases room b;
          found = stops.found;
          catalogue = stops.catalogue;
        }

    -- Over an inventory client whose calls for one book add what they release and an order repository
    -- that keeps a history, in a valid state where the stock has room for the copies of the order if
    -- there is one that is not cancelled: `cancel_order` returns nothing and changes nothing, as the id
    -- is not positive or no order has it; or returns the order and changes nothing, as it was cancelled
    -- before; or the order was not, and then it is returned as cancelled, the count of every book rises
    -- by exactly the copies of it in the order, the order is found as cancelled and every other id as
    -- before, and the catalogue is unchanged.
    pub cancel_order-cases :
        (id : ℤ) (st : State B I O)
        → valid st.orders
        → ((order : Order)
            → orders.find_order id st.orders ≡ some order
            → order.status ≢ cancelled_status
            → IsReturnable inventory.available_stock (map item_mutation order.items) st.inventory)
        → let (out, st') = cancel_order books inventory orders id st in
          Missing id st out st' ⊎ (Before id st out st' ⊎ Ends id st out st')
    unfolding cancel_order
    cancel_order-cases id st ok room = elim (Bool-cases (leb_ℤ id (pos 0))) [
      | inl e ↦ rw e (inl (inl (ground (arith, e)), (refl, refl)))
      | inr e ↦ elim (Option-cases (orders.find_order id st.orders)) [
        | inl f ↦ rw (e, f) (inl (inr refl, (refl, refl)))
        | inr (order, f) ↦ elim (Bool-cases (order.status == cancelled_status)) [
          | inl c ↦ rw (e, f, c) (inr (inl (order, (refl, ((list_eq_iff _ _).0 c, (refl, refl))))))
          | inr c ↦
              let not_yet : order.status ≢ cancelled_status = λ s. cc (s, c) in
              inr (
                inr (
                  stopped-Ends id order st ok (ground (arith, e)) f not_yet (room order f not_yet)))
        ]
      ]
    ]
