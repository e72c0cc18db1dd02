-- ===== src/Orders/Laws.antt =====
-- What the order service relies on in an order repository, in terms of `find_order`.
use my_bookstore.Base.{◌<ℤ◌, pos, ℤ_eq, ◌==◌, if◌then◌else◌, some, none, ◌≡◌, List, Option, ℤ}
use my_bookstore.Model.{Order, OrderItem}
use my_bookstore.Orders.{ℤ, OrderRepository, created_status, cancelled_status}

-- An order as it is recorded.
pub record IsNew (user_id : ℤ) (items : List OrderItem) (total : ℤ) (order : Order) : Type 0 where
  pub user_is : order.user_id ≡ user_id
  pub items_are : order.items ≡ items
  pub total_is : order.total_cents ≡ total
  pub status_is : order.status ≡ created_status

abbrev pub as_cancelled : Order → Order
as_cancelled order = record order { status = cancelled_status }

-- The call was refused and changed nothing, or recorded one new order under an unused id.
pub data Creates {O : Type 0} (r : OrderRepository O) (user_id : ℤ) (items : List OrderItem)
    (total : ℤ) (s : O) (out : Option Order) (s' : O) : Type 0 where
  refused : out ≡ none → s' ≡ s → Creates r user_id items total s out s'
  recorded :
      (order : Order)
      → out ≡ some order
      → IsNew user_id items total order
      → pos 0 <ℤ order.id
      → r.find_order order.id s ≡ none
      → ((j : ℤ) → r.find_order j s' ≡ (if order.id == j then some order else r.find_order j s))
      → Creates r user_id items total s out s'

-- There is no such order, or exactly that order is cancelled now.
pub data Cancels {O : Type 0} (r : OrderRepository O) (id : ℤ) (s : O) (out : Option Order) (s' : O)
    : Type 0 where
  missing : out ≡ none → r.find_order id s ≡ none → s' ≡ s → Cancels r id s out s'
  stopped :
      (order : Order)
      → r.find_order id s ≡ some order
      → out ≡ some (as_cancelled order)
      → ((j : ℤ)
          → r.find_order j s' ≡ (if id == j then some (as_cancelled order) else r.find_order j s))
      → Cancels r id s out s'

pub record IsHistory {O : Type 0} (valid : O → Type 0) (r : OrderRepository O) : Type 0 where
  pub create :
      (user_id : ℤ) (items : List OrderItem) (total : ℤ) (s : O)
      → valid s
      → let (out, s') = r.create_order user_id items total s in
        Creates r user_id items total s out s'
  pub cancel :
      (id : ℤ) (s : O) → valid s → let (out, s') = r.cancel_order id s in Cancels r id s out s'
