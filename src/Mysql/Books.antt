-- ===== src/Mysql/Books.antt =====
-- `MysqlBookRepository` of src/app/repository/mysql/mysql_repositories.cpp. `pool` says that `pool_` is
-- not null. `create_book` and `update_book` end with `find_book`, which takes a second connection while
-- the first is held.
use my_bookstore.Base.{
  ltb_ℤ, pos, leb_ℤ, nat_eq, to_string, wrap32, ◌∷◌, false, is_empty, map, none, some, true, ◌++◌,
  ◌||◌, Option, [], codes, if◌then◌else◌, not, ℕ, Bool, List, Text, ℤ,
}
use my_bookstore.Controllers.{with_commas}
use my_bookstore.Model.{Book, BookUpdate}
use my_bookstore.Mysql.{
  Text, List, Bool, Session, Client, Method, done, read, write, or_return, or_no_result, insert_id,
  talk, with_connection, return, Row, or_roll_back, start_transaction, commit, affected_rows, run,
}
use my_bookstore.Mysql.Rows.{book_from_row}

abbrev list_books_sql : Text
list_books_sql =
    codes "SELECT b.id,b.title,b.author,b.price_cents,COALESCE(i.available,b.stock),b.status "
    ++ codes "FROM books b LEFT JOIN inventory i ON i.book_id=b.id "
    ++ codes "WHERE b.status='active' ORDER BY b.id"

unfoldable pub select_books : Session (List Book)
unfolding or_return or_no_result
select_books =
    or_return (read list_books_sql) []
      (or_no_result (done []) (λ rows. done (map book_from_row rows)))

unfoldable pub find_book_sql : ℤ → Text
find_book_sql book_id =
    codes "SELECT b.id,b.title,b.author,b.price_cents,COALESCE(i.available,b.stock),b.status "
    ++ codes "FROM books b LEFT JOIN inventory i ON i.book_id=b.id WHERE b.id="
    ++ to_string book_id
    ++ codes " LIMIT 1"

unfoldable pub first_book : List Row → Session (Option Book)
first_book [] = done none
first_book (row ∷ rows) = done (some (book_from_row row))

unfoldable pub select_book : ℤ → Session (Option Book)
unfolding or_return or_no_result first_book
select_book book_id =
    or_return (read (find_book_sql book_id)) none (or_no_result (done none) first_book)

abbrev pub or_active : Text → Text
or_active status = if is_empty status then codes "active" else status

unfoldable pub insert_inventory_sql : ℤ → ℤ → Text
insert_inventory_sql book_id stock =
    codes "INSERT INTO inventory(book_id,available) VALUES("
    ++ to_string book_id
    ++ codes ", "
    ++ to_string stock
    ++ codes ")"

module _ (escape : Text → Text) where
  unfoldable pub insert_book_sql : Book → Text
  insert_book_sql book =
      codes "INSERT INTO books(title,author,price_cents,stock,status) VALUES('"
      ++ escape book.title
      ++ codes "', '"
      ++ escape book.author
      ++ codes "', "
      ++ to_string book.price_cents
      ++ codes ", "
      ++ to_string book.stock
      ++ codes ", '"
      ++ escape (or_active book.status)
      ++ codes "')"

  -- The transaction of `create_book`, with the new book's number.
  unfoldable pub insert_book : Book → Session (Option ℤ)
  unfolding or_return or_roll_back
  insert_book book = or_return start_transaction none (
      or_roll_back (write (insert_book_sql book)) none (
        insert_id (λ id.
          or_roll_back (write (insert_inventory_sql (wrap32 (pos id)) book.stock)) none
            (or_roll_back commit none (done (some (wrap32 (pos id))))))))

  -- `if (value.has_value()) assignments.push_back(...)`
  abbrev part : {A : Type 0} → (A → Text) → Option A → List Text
  part f none = []
  part f (some value) = f value ∷ []

  unfoldable pub assignments : BookUpdate → List Text
  assignments update =
      part (λ s. codes "title='" ++ escape s ++ codes "'") update.title
      ++ part (λ s. codes "author='" ++ escape s ++ codes "'") update.author
      ++ part (λ n. codes "price_cents=" ++ to_string n) update.price_cents
      ++ part (λ n. codes "stock=" ++ to_string n) update.stock
      ++ part (λ s. codes "status='" ++ escape s ++ codes "'") update.status

unfoldable pub update_books_sql : ℤ → List Text → Text
unfolding with_commas
update_books_sql book_id parts =
    codes "UPDATE books SET " ++ with_commas parts ++ codes " WHERE id=" ++ to_string book_id

unfoldable pub set_inventory_sql : ℤ → ℤ → Text
set_inventory_sql book_id stock =
    codes "INSERT INTO inventory(book_id,available) VALUES("
    ++ to_string book_id
    ++ codes ", "
    ++ to_string stock
    ++ codes ") ON DUPLICATE KEY UPDATE available=VALUES(available)"

-- The second statement of `update_book`.
unfoldable pub set_inventory : ℤ → Option ℤ → Session Bool
unfolding or_return
set_inventory book_id none = done true
set_inventory book_id (some stock) =
    or_return (write (set_inventory_sql book_id stock)) false (done true)

-- The statements of `update_book`; false where it returns `nullopt` behind one of them.
unfoldable pub change_book : ℤ → List Text → Option ℤ → Session Bool
unfolding or_return set_inventory
change_book book_id parts stock =
    or_return (write (update_books_sql book_id parts)) false
      (affected_rows (λ n. if nat_eq n 0 then done false else set_inventory book_id stock))

module _ {D : Type 0} (client : Client D) (pool : Bool) where
  unfoldable pub list_books : Method D (List Book)
  unfolding with_connection talk select_books
  list_books =
      if not pool then return [] else with_connection [] (λ con. talk client con select_books)

  unfoldable pub find_book : ℤ → Method D (Option Book)
  unfolding with_connection talk select_book
  find_book book_id =
      if not pool || leb_ℤ book_id (pos 0)
      then return none
      else with_connection none (λ con. talk client con (select_book book_id))

  -- `return find_book(book_id);`
  unfoldable pub found_again : Option ℤ → Method D (Option Book)
  unfolding find_book
  found_again none = return none
  found_again (some book_id) = find_book book_id

  abbrev pub is_refused : Book → Bool
  is_refused book =
      not pool
      || is_empty book.title
      || is_empty book.author
      || leb_ℤ book.price_cents (pos 0)
      || ltb_ℤ book.stock (pos 0)

  -- `create_book` behind its guards, on a connection.
  unfoldable pub create_on : Book → ℕ → Method D (Option Book)
  unfolding run insert_book found_again
  create_on book con p d =
      let (created, d') = run client con (insert_book (client.escape con) book) d in
      found_again created p d'

  unfoldable pub create_book : Book → Method D (Option Book)
  unfolding with_connection create_on
  create_book book = if is_refused book then return none else with_connection none (create_on book)

  -- `update_book` behind its guards, on a connection.
  unfoldable pub update_on : ℤ → BookUpdate → ℕ → Method D (Option Book)
  unfolding run change_book find_book assignments
  update_on book_id update con p d =
      let parts = assignments (client.escape con) update in
      let (changed, d') = run client con (change_book book_id parts update.stock) d in
      if is_empty parts
      then find_book book_id p d
      else if changed
      then find_book book_id p d'
      else some (none, (p, d'))

  unfoldable pub update_book : ℤ → BookUpdate → Method D (Option Book)
  unfolding with_connection update_on
  update_book book_id update =
      if not pool || leb_ℤ book_id (pos 0)
      then return none
      else with_connection none (update_on book_id update)
