-- ===== src/Mysql/Rows.antt =====
-- Rows of src/app/repository/mysql/mysql_repositories.cpp: numbers and texts of their columns. A column
-- behind the row's end, which the source's SELECTs never read, is a NULL here.
use my_bookstore.Base.{none, get_or, pos, some, Text, ℤ, Option, [], ℕ}
use my_bookstore.Controllers.{atoi}
use my_bookstore.Model.{Book, OrderItem, InventoryMutation, Order, User}
use my_bookstore.Mysql.{ℕ, Option, Row}

-- `row[i] ? std::atoi(row[i]) : 0`
unfoldable pub int_or_zero : Option Text → ℤ
int_or_zero none = pos 0
int_or_zero (some s) = atoi s

-- `row[i] ? row[i] : ""`
unfoldable pub text_or_empty : Option Text → Text
text_or_empty none = []
text_or_empty (some s) = s

abbrev pub int_at : ℕ → Row → ℤ
int_at i row = int_or_zero (get_or row i none)

abbrev pub text_at : ℕ → Row → Text
text_at i row = text_or_empty (get_or row i none)

unfoldable pub book_from_row : Row → Book
book_from_row row = record {
  id = int_at 0 row;
  title = text_at 1 row;
  author = text_at 2 row;
  price_cents = int_at 3 row;
  stock = int_at 4 row;
  status = text_at 5 row;
}

unfoldable pub user_from_row : Row → User
user_from_row row = record { id = int_at 0 row; username = text_at 1 row }

unfoldable pub item_from_row : Row → OrderItem
item_from_row row = record {
  book_id = int_at 0 row;
  quantity = int_at 1 row;
  unit_price_cents = int_at 2 row;
}

-- The items follow in a SELECT of their own.
unfoldable pub order_from_row : Row → Order
order_from_row row = record {
  id = int_at 0 row;
  user_id = int_at 1 row;
  items = [];
  total_cents = int_at 3 row;
  status = text_at 2 row;
}

unfoldable pub mutation_from_row : Row → InventoryMutation
mutation_from_row row = record { book_id = int_at 0 row; quantity = int_at 1 row }
