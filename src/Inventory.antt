-- ===== src/Inventory.antt =====
-- The stock of books: src/app/repository/inventory_repository.h, src/app/client/inventory_client.h,
-- and in the children the in-memory repository, the service over a repository and the local client.
-- Both interfaces are records of operations on a state type; a mutating call returns its result and
-- the new state. The mutex of the source makes each call one step.
pub mod Laws
pub mod Reserved
pub mod Rollback
pub mod Returned
pub mod Memory
pub mod Service
pub mod Local
use my_bookstore.Base.{ℤ, Bool, Text, Option, List}
use my_bookstore.Model.{InventoryMutation}

pub record InventoryRepository (S : Type 0) : Type 0 where
  pub available_stock : ℤ → S → Option ℤ
  pub add_stock : ℤ → ℤ → S → Option ℤ × S
  pub reserve_stock : ℤ → ℤ → S → Bool × S
  pub release_stock : ℤ → ℤ → S → S
  pub reserve_all : Text → List InventoryMutation → S → Bool × S
  pub release_all : Text → List InventoryMutation → S → S

pub record InventoryClient (S : Type 0) : Type 0 where
  pub available_stock : ℤ → S → Option ℤ
  pub add_stock : ℤ → ℤ → S → Option ℤ × S
  pub reserve_stock : ℤ → ℤ → S → Bool × S
  pub release_stock : ℤ → ℤ → S → S
  pub reserve_all : Text → List InventoryMutation → S → Bool × S
  pub release_all : Text → List InventoryMutation → S → S
