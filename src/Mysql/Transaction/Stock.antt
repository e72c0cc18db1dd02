-- ===== src/Mysql/Transaction/Stock.antt =====
-- What the batch `reserve_stock` of `MysqlInventoryRepository`, in
-- src/app/repository/mysql/mysql_repositories.cpp, does to the amounts that the server stores.
use my_bookstore.Mysql.Transaction.Names.{KeepsNames}
use my_bookstore.Base.{
  some, All, IsInt, nat_eq_iff, nat_eq, arith, ◌∙◌, [], ◌∷◌, ap, subst, refl, sym, ◌++◌, List,
  false, if◌then◌else◌, ◌<ℤ◌, Text, pos, true, ◌≡◌, ◌≢◌, Option, ℤ, Bool, ℕ,
}
use my_bookstore.Model.{InventoryMutation}
use my_bookstore.Inventory.Laws.{IsStocked, Took}
use my_bookstore.Inventory.Reserved.{Reserved, concat-Reserved, Reserved-same}
use my_bookstore.Mysql.{
  ℕ, Client, Session, Statement, run, sql, write, commit, or_roll_back, roll_back, done,
}
use my_bookstore.Mysql.Inventory.{
  reserved, take_each, take_available_sql, insert_item_sql, insert_reservation_sql, all_positive,
}
use my_bookstore.Mysql.Transaction.{Promises}
use mathlib.Core.List.{append_assoc, append-nil}

-- The numbers of a batch fit `int`.
abbrev pub AreInts : List InventoryMutation → Type 0
AreInts = All (λ item. IsInt item.book_id × IsInt item.quantity)

pub true_not_false : true ≢ false
true_not_false e = cc e

module _ {D V : Type 0} (client : Client D) (con : ℕ) (stored current : D → V) (open_on : D → Bool)
    (amount : ℤ → V → Option ℤ) where
  -- The server's UPDATE and INSERTs of a reservation, in a transaction: an UPDATE that changed one row
  -- took the copies from it, and the tables of reservations hold no amounts.
  pub record KeepsAmounts : Type 0 where
    pub takes :
        {d d' : D} (b q : ℤ)
        → (pos 0 <ℤ b) × IsInt b
        → (pos 0 <ℤ q) × IsInt q
        → open_on d ≡ true
        → IsStocked amount (current d)
        → client.query con (take_available_sql b q) d ≡ (true, d')
        → client.affected_rows con d' ≡ 1
        → Took amount b q (current d) (current d')
    pub reserves :
        {d d' : D} (id : Text)
        → open_on d ≡ true
        → client.query con (insert_reservation_sql (client.escape con) id) d ≡ (true, d')
        → (b : ℤ) → amount b (current d') ≡ amount b (current d)
    pub lists :
        {d d' : D} (id : Text) (item : InventoryMutation)
        → open_on d ≡ true
        → client.query con (insert_item_sql (client.escape con) id item) d ≡ (true, d')
        → (b : ℤ) → amount b (current d') ≡ amount b (current d)

  module _ {A : Type 0} where
    -- A session that returns something else than `failed` passed the statement.
    abbrev pub Passed : Statement → Session A → D → A → D → Type 0
    Passed statement next d a d' =
        (d1 : D) × ((client.query con (sql statement) d ≡ (true, d1))
          × (run client con next d1 ≡ (a, d')))

    passed :
        (statement : Statement) (failed : A) (next : Session A) (d : D) {a : A} {d' : D} (ok : Bool)
        (d1 : D)
        → a ≢ failed
        → client.query con (sql statement) d ≡ (ok, d1)
        → run client con (if ok then next else roll_back failed) d1 ≡ (a, d')
        → Passed statement next d a d'
    unfolding run roll_back sql
    passed statement failed next d true d1 n e r = (d1, (e, r))
    passed statement failed next d false d1 n e r = absurd (n (sym (ap (λ x. x.0) r)))

    pub or_roll_back-Passed :
        (statement : Statement) (failed : A) (next : Session A) (d : D) {a : A} {d' : D}
        → a ≢ failed
        → run client con (or_roll_back statement failed next) d ≡ (a, d')
        → Passed statement next d a d'
    unfolding run or_roll_back
    or_roll_back-Passed statement failed next d n r =
        let (ok, d1) = client.query con (sql statement) d in
        passed statement failed next d ok d1 n refl r

  one_row :
      (b : Bool) (next : Session Bool) (d d' : D)
      → run client con (if b then next else roll_back false) d ≡ (true, d')
      → (b ≡ true) × (run client con next d ≡ (true, d'))
  unfolding run roll_back
  one_row true next d d' r = (refl, r)
  one_row false next d d' r = absurd (true_not_false (sym (ap (λ x. x.0) r)))

  head_positive :
      (item : InventoryMutation) (rest : List InventoryMutation)
      → all_positive (item ∷ rest) ≡ true
      → (pos 0 <ℤ item.book_id) × ((pos 0 <ℤ item.quantity) × (all_positive rest ≡ true))
  unfolding all_positive
  head_positive item rest p = (ground (arith, p), (ground (arith, p), ground (arith, p)))

  module _ (promises : Promises client con stored current open_on) (amounts : KeepsAmounts)
      (reservation : Text → V → Option Text) (id : Text)
      (names : KeepsNames client con current open_on reservation id) where
    -- The copies of `items` were taken for the name, and committed.
    abbrev pub Committed : List InventoryMutation → V → D → Type 0
    Committed items v d' =
        (d1 : D) × (Reserved amount items v (current d1)
          × ((reservation id (current d1) ≡ some reserved) × (stored d' ≡ current d1)))

    pub take_each-Committed :
        (items before : List InventoryMutation) (v : V) (d d' : D)
        → open_on d ≡ true
        → all_positive items ≡ true
        → AreInts items
        → Reserved amount before v (current d)
        → reservation id (current d) ≡ some reserved
        → run client con (take_each (client.escape con) id items) d ≡ (true, d')
        → Committed (before ++ items) v d'
    unfolding take_each run sql take_available_sql insert_item_sql
    take_each-Committed [] before v d d' o p i h kept r =
        let (d1, (q, e)) = or_roll_back-Passed commit false (done true) d true_not_false r in
        (
          d,
          (
            subst (λ l. Reserved amount l v (current d)) (sym (append-nil before)) h,
            (kept, ap (λ x. stored x.1) (sym e) ∙ ((promises.commits q o).0 refl).1),
          ),
        )
    take_each-Committed (item ∷ rest) before v d d' o p i h kept r =
        let taken = take_available_sql item.book_id item.quantity in
        let listed = insert_item_sql (client.escape con) id item in
        let (d1, (q, e)) = or_roll_back-Passed (write taken) false _ d true_not_false r in
        let (one, e') = one_row (nat_eq (client.affected_rows con d1) 1) _ d1 d' e in
        let (d2, (q2, e2)) = or_roll_back-Passed (write listed) false _ d1 true_not_false e' in
        let o1 = (promises.writes taken refl q o).1 refl in
        let o2 = (promises.writes listed refl q2 o1).1 refl in
        let (book_id, (quantity, p')) = head_positive item rest p in
        let took =
          amounts.takes item.book_id item.quantity (book_id, i.0.0) (quantity, i.0.1) o h.remains q
            ((nat_eq_iff (client.affected_rows con d1) 1).0 one) in
        subst (λ l. Committed l v d') (append_assoc before (item ∷ []) rest)
          (take_each-Committed rest (before ++ item ∷ []) v d2 d' o2 p' i.1
            (Reserved-same amount (amounts.lists id item o1 q2)
              (concat-Reserved amount item h took))
            (names.stays_listed item o1 q2
              ∙ names.stays_taken item.book_id item.quantity o q
              ∙ kept)
            e2)
