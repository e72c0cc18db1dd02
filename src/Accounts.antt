-- ===== src/Accounts.antt =====
-- Accounts: src/app/repository/user_repository.h, src/app/client/user_client.h, and in
-- the children the in-memory repository, the service and the local client.
pub mod Memory
pub mod Service
pub mod Login
use my_bookstore.Base.{Option, Text}
use my_bookstore.Model.{User}

pub record UserRepository (S : Type 0) : Type 0 where
  pub create_user : Text → Text → S → Option User × S
  pub authenticate : Text → Text → S → Option User

pub record UserClient (S : Type 0) : Type 0 where
  pub register_user : Text → Text → S → Option User × S
  pub authenticate : Text → Text → S → Option User
