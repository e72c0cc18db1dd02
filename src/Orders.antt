-- ===== src/Orders.antt =====
-- Orders: src/app/repository/order_repository.h, src/app/client/order_client.h, and in the children
-- the in-memory repository and the service that prices, reserves and records an order.
pub mod Laws
pub mod Memory
pub mod Service
use my_bookstore.Base.{Option, List, codes, Text, ℤ}
use my_bookstore.Model.{Order, OrderItem, OrderItemRequest}

pub record OrderRepository (S : Type 0) : Type 0 where
  pub create_order : ℤ → List OrderItem → ℤ → S → Option Order × S
  pub list_orders : S → List Order
  pub find_order : ℤ → S → Option Order
  pub cancel_order : ℤ → S → Option Order × S

pub record OrderClient (S : Type 0) : Type 0 where
  pub create_order : ℤ → List OrderItemRequest → S → Option Order × S
  pub list_orders : S → List Order
  pub find_order : ℤ → S → Option Order
  pub cancel_order : ℤ → S → Option Order × S

abbrev pub created_status : Text
created_status = codes "created"

abbrev pub cancelled_status : Text
cancelled_status = codes "cancelled"
