-- ===== src/Mysql/Transaction/Names.antt =====
-- The table `inventory_reservations`, which src/app/repository/mysql/mysql_repositories.cpp keeps the
-- names of reservations in, and what the batch `reserve_stock` comes to.
use my_bookstore.Base.{◌∷◌, ◌⊎◌, List, false, Text, true, ◌≡◌, Option, ℤ, Bool, ℕ, some, none, []}
use my_bookstore.Model.{InventoryMutation}
use my_bookstore.Inventory.Reserved.{Reserved}
use my_bookstore.Mysql.{ℕ, Client, Row}
use my_bookstore.Mysql.Inventory.{
  reserved, take_available_sql, insert_item_sql, insert_reservation_sql, find_reservation_sql,
}
use my_bookstore.Mysql.Rows.{text_at}

-- What a batch for the name `id` that returned did to what is stored. Where it returned false:
-- nothing. Where it returned true: nothing, and the name was reserved before, or the name is new, it
-- is reserved now, and the amounts fell by just what the batch names.
abbrev pub Outcome :
    {V : Type 0}
    → (ℤ → V → Option ℤ)
    → (Text → V → Option Text)
    → Text
    → List InventoryMutation
    → V
    → Bool
    → V
    → Type 0
Outcome amount reservation id items v taken v' =
    ((taken ≡ false) × (v' ≡ v))
    ⊎ ((taken ≡ true)
        × (((reservation id v ≡ some reserved) × (v' ≡ v))
            ⊎ ((reservation id v ≡ none)
                × ((reservation id v' ≡ some reserved) × Reserved amount items v v'))))

-- The status in the rows of a SELECT by the name, which is the key of its table.
abbrev pub status_in : List Row → Option Text
status_in [] = none
status_in (row ∷ rows) = some (text_at 0 row)

-- The server's SELECT, INSERTs and UPDATE of a reservation of the name `id`, in a transaction:
-- `reservation` is the status that the table has for a name.
pub record KeepsNames {D V : Type 0} (client : Client D) (con : ℕ) (current : D → V)
    (open_on : D → Bool) (reservation : Text → V → Option Text) (id : Text) : Type 0 where
  pub finds :
      {d d1 d2 : D} {rows : List Row}
      → open_on d ≡ true
      → client.query con (find_reservation_sql (client.escape con) id) d ≡ (true, d1)
      → client.store_result con d1 ≡ (some rows, d2)
      → status_in rows ≡ reservation id (current d)
  pub adds :
      {d d' : D}
      → open_on d ≡ true
      → client.query con (insert_reservation_sql (client.escape con) id) d ≡ (true, d')
      → reservation id (current d') ≡ some reserved
  pub stays_taken :
      {d d' : D} (b q : ℤ)
      → open_on d ≡ true
      → client.query con (take_available_sql b q) d ≡ (true, d')
      → reservation id (current d') ≡ reservation id (current d)
  pub stays_listed :
      {d d' : D} (item : InventoryMutation)
      → open_on d ≡ true
      → client.query con (insert_item_sql (client.escape con) id item) d ≡ (true, d')
      → reservation id (current d') ≡ reservation id (current d)
