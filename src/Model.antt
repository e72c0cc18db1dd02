-- ===== src/Model.antt =====
-- The data of src/app/model.
use my_bookstore.Base.{ℤ, Text, List, Option}

pub record Book : Type 0 where
  pub id : ℤ
  pub title : Text
  pub author : Text
  pub price_cents : ℤ
  pub stock : ℤ
  pub status : Text

pub record BookUpdate : Type 0 where
  pub title : Option Text
  pub author : Option Text
  pub price_cents : Option ℤ
  pub stock : Option ℤ
  pub status : Option Text

pub record InventoryItem : Type 0 where
  pub book_id : ℤ
  pub available : ℤ

pub record InventoryMutation : Type 0 where
  pub book_id : ℤ
  pub quantity : ℤ

pub record OrderItemRequest : Type 0 where
  pub book_id : ℤ
  pub quantity : ℤ

pub record OrderItem : Type 0 where
  pub book_id : ℤ
  pub quantity : ℤ
  pub unit_price_cents : ℤ

pub record Order : Type 0 where
  pub id : ℤ
  pub user_id : ℤ
  pub items : List OrderItem
  pub total_cents : ℤ
  pub status : Text

pub record User : Type 0 where
  pub id : ℤ
  pub username : Text
