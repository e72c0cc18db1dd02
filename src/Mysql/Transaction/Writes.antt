-- ===== src/Mysql/Transaction/Writes.antt =====
-- The methods of src/app/repository/mysql/mysql_repositories.cpp that write in one transaction: `create_book`,
-- `create_order`, `add_stock` and the batches of the inventory.
use my_bookstore.Mysql.Rows.{mutation_from_row}
use my_bookstore.Base.{
  ap, map, pos, wrap32, nat_eq, [], is_some, refl, true, false, none, ◌∷◌, ◌≡◌, Bool, List, Option,
  Text, ℕ, ℤ,
}
use my_bookstore.Model.{Book, Order, OrderItem, InventoryMutation}
use my_bookstore.Mysql.{ℕ, Text, Option, List, Bool, Row, Session, Client, run, commit, done, query}
use my_bookstore.Mysql.Books.{insert_book, insert_book_sql, insert_inventory_sql}
use my_bookstore.Mysql.Orders.{insert_order, insert_items, insert_order_sql, insert_order_item_sql}
use my_bookstore.Mysql.Inventory.{
  insert_item_sql, available_sql, take_available_sql, reserved_items_sql, mark_released_sql,
  insert_reservation_sql, find_reservation_sql, add_book_stock_sql, add_both, commit_available,
  reserve_batch, reserve_found, take_each, release_batch, release_found, release_reserved,
  release_each, add_available_sql,
}
use my_bookstore.Mysql.Transaction.{
  After, Follows-if, next, Mode, idle, inside, broken, committed, Follows, Promises, Holds,
  run-Follows, Follows-write, Follows-read, Follows-commit, Follows-or_return, Follows-roll_back,
  Follows-or_no_result,
}

-- `none` exactly where the transaction was not committed.
unfoldable pub Whole : {A : Type 0} → Mode → Option A → Type 0
Whole idle r = r ≡ none
Whole committed r = is_some r ≡ true
Whole m r = ⊥

pub insert_book-Follows :
    (escape : Text → Text) (book : Book) → Follows Whole idle (insert_book escape book)
unfolding insert_book Follows Whole insert_book_sql insert_inventory_sql
insert_book-Follows escape book = Follows-or_return Whole none _ refl (
    Follows-write Whole (insert_book_sql escape book) none _ refl refl (λ id.
      Follows-write Whole (insert_inventory_sql (wrap32 (pos id)) book.stock) none _ refl refl
        (Follows-commit Whole none _ refl refl)))

insert_items-Follows :
    (order : Order) (items : List OrderItem) → Follows Whole inside (insert_items order items)
unfolding insert_items Whole insert_order_item_sql
insert_items-Follows order [] = Follows-commit Whole none _ refl refl
insert_items-Follows order (item ∷ rest) =
    Follows-write Whole (insert_order_item_sql order.id item) none _ refl refl
      (insert_items-Follows order rest)

pub insert_order-Follows :
    (user_id : ℤ) (items : List OrderItem) (total_cents : ℤ)
    → Follows Whole idle (insert_order user_id items total_cents)
unfolding insert_order Follows Whole insert_order_sql
insert_order-Follows user_id items total_cents = Follows-or_return Whole none _ refl (
    Follows-write Whole (insert_order_sql user_id total_cents) none _ refl refl
      (λ id. insert_items-Follows _ items))

commit_available-Follows : (rows : List Row) → Follows Whole inside (commit_available rows)
unfolding commit_available Whole
commit_available-Follows [] = Follows-roll_back Whole none refl
commit_available-Follows (row ∷ rows) = Follows-commit Whole none _ refl refl

pub add_both-Follows : (book_id quantity : ℤ) → Follows Whole idle (add_both book_id quantity)
unfolding add_both Follows Whole add_available_sql add_book_stock_sql available_sql
add_both-Follows book_id quantity = Follows-or_return Whole none _ refl (
    Follows-write Whole (add_available_sql book_id quantity) none _ refl refl (λ n.
      Follows-if Whole inside (nat_eq n 1) _ _
        (Follows-write Whole (add_book_stock_sql book_id quantity) none _ refl refl (
          Follows-read Whole (available_sql book_id) none _ refl refl (
            Follows-or_no_result Whole _ _ (Follows-roll_back Whole none refl)
              commit_available-Follows)))
        (Follows-roll_back Whole none refl)))

-- The end of a batch `reserve_stock`: true, or false behind a rollback. A COMMIT of a reservation that
-- was there before is not checked.
unfoldable pub Answered : Mode → Bool → Type 0
Answered idle taken = taken ≡ false
Answered inside taken = ⊥
Answered broken taken = taken ≡ true
Answered committed taken = taken ≡ true

-- The same for a batch `release_stock`, which returns nothing.
unfoldable pub Ended : Mode → Unit {0} → Type 0
Ended inside u = ⊥
Ended m u = Unit {0}

module _ (escape : Text → Text) (id : Text) where
  take_each-Follows :
      (items : List InventoryMutation) → Follows Answered inside (take_each escape id items)
  unfolding take_each Follows Answered take_available_sql insert_item_sql
  take_each-Follows [] = Follows-commit Answered false _ refl refl
  take_each-Follows (item ∷ rest) =
      Follows-write Answered (take_available_sql item.book_id item.quantity) false _ refl refl (λ n.
        Follows-if Answered inside (nat_eq n 1) _ _
          (Follows-write Answered (insert_item_sql escape id item) false _ refl refl
            (take_each-Follows rest))
          (Follows-roll_back Answered false refl))

  commit_answer : (ok : Bool) → After (next inside commit ok) (λ m. Answered m true)
  unfolding Answered next
  commit_answer true = refl
  commit_answer false = refl

  commit-Follows : Follows Answered inside (query commit (λ ok. done true))
  unfolding Follows Answered next
  commit-Follows = (tt, λ ok. commit_answer ok)

  reserve_found-Follows :
      (items : List InventoryMutation) (rows : List Row)
      → Follows Answered inside (reserve_found escape id items rows)
  unfolding reserve_found Answered insert_reservation_sql
  reserve_found-Follows items [] =
      Follows-write Answered (insert_reservation_sql escape id) false _ refl refl
        (take_each-Follows items)
  reserve_found-Follows items (row ∷ rows) =
      Follows-if Answered inside _ _ _ commit-Follows (Follows-roll_back Answered false refl)

  pub reserve_batch-Follows :
      (items : List InventoryMutation) → Follows Answered idle (reserve_batch escape id items)
  unfolding reserve_batch Answered find_reservation_sql
  reserve_batch-Follows items = Follows-or_return Answered false _ refl (
      Follows-read Answered (find_reservation_sql escape id) false _ refl refl (
        Follows-or_no_result Answered _ _ (Follows-roll_back Answered false refl)
          (reserve_found-Follows items)))

  release_each-Follows :
      (items : List InventoryMutation) → Follows Ended inside (release_each escape id items)
  unfolding release_each Ended mark_released_sql add_available_sql
  release_each-Follows [] =
      Follows-write Ended (mark_released_sql escape id) tt _ refl tt
        (Follows-commit Ended tt tt tt tt)
  release_each-Follows (item ∷ rest) =
      Follows-if Ended inside _ _ _ (Follows-roll_back Ended tt tt) (
        Follows-write Ended (add_available_sql item.book_id item.quantity) tt _ refl tt
          (release_each-Follows rest))

  silent_commit : (ok : Bool) → After (next inside commit ok) (λ m. Ended m tt)
  unfolding Ended next
  silent_commit true = tt
  silent_commit false = tt

  silent-Follows : Follows Ended inside (query commit (λ ok. done tt))
  unfolding Follows Ended next
  silent-Follows = (tt, λ ok. silent_commit ok)

  release_found-Follows : (rows : List Row) → Follows Ended inside (release_found escape id rows)
  unfolding release_found release_reserved Ended reserved_items_sql
  release_found-Follows [] = Follows-roll_back Ended tt tt
  release_found-Follows (row ∷ rows) = Follows-if Ended inside _ _ _ silent-Follows (
      Follows-if Ended inside _ _ _ (Follows-roll_back Ended tt tt) (
        Follows-read Ended (reserved_items_sql escape id) tt _ refl tt (
          Follows-or_no_result Ended _ _ (Follows-roll_back Ended tt tt)
            (λ found. release_each-Follows (map mutation_from_row found)))))

  pub release_batch-Follows : Follows Ended idle (release_batch escape id)
  unfolding release_batch Ended find_reservation_sql
  release_batch-Follows = Follows-or_return Ended tt _ tt (
      Follows-read Ended (find_reservation_sql escape id) tt _ refl tt
        (Follows-or_no_result Ended _ _ (Follows-roll_back Ended tt tt) release_found-Follows))

module _ {D V : Type 0} (client : Client D) (con : ℕ) (stored : D → V) (current : D → V)
    (open_on : D → Bool) (promises : Promises client con stored current open_on) where
  clash : {b : Bool} → b ≡ false → b ≡ true → ⊥
  clash f t = cc (f, t)

  ending :
      {A : Type 0} {r : Option A} {d d' : D} (m : Mode)
      → Holds client con stored current open_on m d d'
      → Whole m r
      → (open_on d' ≡ false) × (r ≡ none → stored d' ≡ stored d)
  unfolding Whole Holds
  ending idle h w = (h.1, λ g. h.0)
  ending inside h w = absurd w
  ending broken h w = absurd w
  ending committed h w = (h, λ g. absurd (clash (ap is_some g) w))

  -- Behind the session no transaction is left open, and `none` means that nothing was committed.
  pub run-Whole :
      {A : Type 0} (s : Session (Option A)) (d : D)
      → Follows Whole idle s
      → open_on d ≡ false
      → let (r, d') = run client con s d in (open_on d' ≡ false) × (r ≡ none → stored d' ≡ stored d)
  unfolding Holds
  run-Whole s d f e =
      let (m, (h, w)) =
        run-Follows client con stored current open_on promises Whole idle s d d (refl, e) f in
      ending m h w
