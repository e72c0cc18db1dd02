-- ===== src/Mysql/Transaction/Reserve.antt =====
-- The batch `reserve_stock` of `MysqlInventoryRepository`, in
-- src/app/repository/mysql/mysql_repositories.cpp, from START TRANSACTION to what it returns.
use my_bookstore.Mysql.Rows.{text_at}
use my_bookstore.Mysql.Transaction.Names.{status_in, KeepsNames}
use my_bookstore.Base.{
  list_eq_iff, ◌==◌, text_eq, arith, [], ◌∷◌, inl, inr, refl, some, subst, ap, none, sym, true, ◌∙◌,
  ◌⊎◌, List, false, if◌then◌else◌, ◌≡◌, Text, Option, ℤ, Bool, ℕ,
}
use my_bookstore.Model.{InventoryMutation}
use my_bookstore.Inventory.Laws.{IsStocked}
use my_bookstore.Inventory.Reserved.{Reserved, Reserved-nil, Reserved-same}
use my_bookstore.Mysql.{
  talk, with_connection, return, ℕ, Client, Session, Row, run, sql, write, read, or_return,
  or_no_result, roll_back, start_transaction, query, done, commit,
}
use my_bookstore.Mysql.Inventory.{
  reserved, reserve_found, reserve_batch, insert_reservation_sql, find_reservation_sql,
  all_positive,
}
use my_bookstore.Mysql.Transaction.{
  Promises, run-Follows, Mode, idle, inside, broken, committed, Holds,
}
use my_bookstore.Mysql.Transaction.Writes.{Answered, reserve_batch-Follows}
use my_bookstore.Mysql.Transaction.Stock.{
  AreInts, KeepsAmounts, or_roll_back-Passed, take_each-Committed, true_not_false,
}
use my_bookstore.Mysql.Transaction.Names.{Outcome}
use my_bookstore.ConnectionPool.{Pool}
use my_bookstore.Mysql.Inventory.{reserve_all}
use my_bookstore.Mysql.Transaction.Methods.{with_connection-Talked}

module _ {D V : Type 0} (client : Client D) (con : ℕ) (stored current : D → V) (open_on : D → Bool)
    (amount : ℤ → V → Option ℤ) (promises : Promises client con stored current open_on)
    (amounts : KeepsAmounts client con stored current open_on amount)
    (reservation : Text → V → Option Text) (id : Text)
    (names : KeepsNames client con current open_on reservation id) where
  -- A transaction that has only read.
  record Begun (v : V) (d : D) : Type 0 where
    opened : open_on d ≡ true
    same : stored d ≡ v
    seen : current d ≡ v

  started :
      (next : Session Bool) (d d' : D) (ok : Bool) (d1 : D)
      → open_on d ≡ false
      → client.query con (sql start_transaction) d ≡ (ok, d1)
      → run client con (if ok then next else done false) d1 ≡ (true, d')
      → (d2 : D) × (Begun (stored d) d2 × (run client con next d2 ≡ (true, d')))
  unfolding run
  started next d d' true d1 o e r =
      let p = promises.starts e o in
      (d1, (record { opened = p.1.0; same = p.0; seen = p.1.1 refl }, r))
  started next d d' false d1 o e r = absurd (true_not_false (sym (ap (λ x. x.0) r)))

  fetched :
      (next : List Row → Session Bool) (v : V) (d d' : D) (result : Option (List Row)) (d1 : D)
      → Begun v d
      → client.store_result con d ≡ (result, d1)
      → run client con (elim result [ none ↦ roll_back false | some rows ↦ next rows ]) d1
        ≡ (true, d')
      → (rows : List Row) × ((d2 : D) × (Begun v d2
            × ((client.store_result con d ≡ (some rows, d2))
                × (run client con (next rows) d2 ≡ (true, d')))))
  unfolding run roll_back
  fetched next v d d' none d1 b e r = absurd (true_not_false (sym (ap (λ x. x.0) r)))
  fetched next v d d' (some rows) d1 b e r =
      let p = promises.results e in
      (
        rows,
        (
          d1,
          (
            record { opened = p.1.0 ∙ b.opened; same = p.0 ∙ b.same; seen = p.1.1 ∙ b.seen },
            (e, r),
          ),
        ),
      )

  -- The COMMIT of a reservation that was there before.
  unchanged :
      (v : V) (d d' : D) (ok : Bool)
      → Begun v d
      → client.query con (sql commit) d ≡ (ok, d')
      → stored d' ≡ v
  unchanged v d d' true b e = ((promises.commits e b.opened).0 refl).1 ∙ b.seen
  unchanged v d d' false b e = (promises.commits e b.opened).1 refl ∙ b.same

  old_reservation :
      (test : Bool) (v : V) (d d' : D)
      → Begun v d
      → run client con (if test then query commit (λ ok. done true) else roll_back false) d
        ≡ (true, d')
      → (test ≡ true) × (stored d' ≡ v)
  unfolding run roll_back
  old_reservation true v d d' b r =
      let (ok, d1) = client.query con (sql commit) d in
      (refl, ap (λ x. stored x.1) (sym r) ∙ unchanged v d d1 ok b refl)
  old_reservation false v d d' b r = absurd (true_not_false (sym (ap (λ x. x.0) r)))

  Taken : List InventoryMutation → V → D → Type 0
  Taken items v d' =
      ((reservation id v ≡ some reserved) × (stored d' ≡ v))
      ⊎ ((reservation id v ≡ none)
          × ((reservation id (stored d') ≡ some reserved) × Reserved amount items v (stored d')))

  reserve_found-Taken :
      (items : List InventoryMutation) (rows : List Row) (v : V) (d d' : D)
      → all_positive items ≡ true
      → AreInts items
      → IsStocked amount v
      → Begun v d
      → status_in rows ≡ reservation id v
      → run client con (reserve_found (client.escape con) id items rows) d ≡ (true, d')
      → Taken items v d'
  unfolding reserve_found Taken sql insert_reservation_sql
  reserve_found-Taken items [] v d d' p i k b s r =
      let text = insert_reservation_sql (client.escape con) id in
      let (d1, (q, r')) =
        or_roll_back-Passed client con stored current open_on amount (write text) false _ d
          true_not_false r in
      let o = (promises.writes text refl q b.opened).1 refl in
      let (d2, (h, (known, e))) =
        take_each-Committed client con stored current open_on amount promises amounts reservation id
          names items [] v d1 d' o p i
          (Reserved-same amount (λ j. amounts.reserves id b.opened q j ∙ ap (amount j) b.seen)
            (Reserved-nil amount v k))
          (names.adds b.opened q) r' in
      inr (sym s, (ap (reservation id) e ∙ known, subst (Reserved amount items v) (sym e) h))
  reserve_found-Taken items (row ∷ rows) v d d' p i k b s r =
      let (test, same) = old_reservation (text_at 0 row == reserved) v d d' b r in
      inl (sym s ∙ ap some ((list_eq_iff _ _).0 test), same)

  reserve_batch-Taken :
      (items : List InventoryMutation) (d d' : D)
      → all_positive items ≡ true
      → AreInts items
      → IsStocked amount (stored d)
      → open_on d ≡ false
      → run client con (reserve_batch (client.escape con) id items) d ≡ (true, d')
      → Taken items (stored d) d'
  unfolding reserve_batch run or_return or_no_result sql find_reservation_sql
  reserve_batch-Taken items d d' p i k o r =
      let text = find_reservation_sql (client.escape con) id in
      let (ok, d1) = client.query con (sql start_transaction) d in
      let (d2, (b, r2)) = started _ d d' ok d1 o refl r in
      let (d3, (q, r3)) =
        or_roll_back-Passed client con stored current open_on amount (read text) false _ d2
          true_not_false r2 in
      let kept = promises.reads text refl q in
      let b3 : Begun (stored d) d3 = record {
        opened = (kept.1.1 b.opened refl).0;
        same = kept.0 ∙ b.same;
        seen = (kept.1.1 b.opened refl).1 ∙ b.seen;
      } in
      let (result, d4) = client.store_result con d3 in
      let (rows, (d5, (b5, (e5, r5)))) = fetched _ (stored d) d3 d' result d4 b3 refl r3 in
      reserve_found-Taken items rows (stored d) d5 d' p i k b5
        (names.finds b.opened q e5 ∙ ap (reservation id) b.seen) r5

  not_taken :
      {d d' : D} (m : Mode)
      → Holds client con stored current open_on m d d'
      → Answered m false
      → stored d' ≡ stored d
  unfolding Holds Answered
  not_taken idle h a = h.0
  not_taken inside h a = absurd a
  not_taken broken h a = absurd (true_not_false (sym a))
  not_taken committed h a = absurd (true_not_false (sym a))

  reserve_batch-not_taken :
      (items : List InventoryMutation) (d d' : D)
      → open_on d ≡ false
      → run client con (reserve_batch (client.escape con) id items) d ≡ (false, d')
      → stored d' ≡ stored d
  unfolding Holds
  reserve_batch-not_taken items d d' o r =
      let (m, (h, a)) =
        run-Follows client con stored current open_on promises Answered idle
          (reserve_batch (client.escape con) id items) d d (refl, o)
          (reserve_batch-Follows (client.escape con) id items) in
      ap (λ x. stored x.1) (sym r) ∙ not_taken m h (subst (Answered m) (ap (λ x. x.0) r) a)

  pub reserve_batch-Outcome :
      (items : List InventoryMutation) (d d' : D) (taken : Bool)
      → all_positive items ≡ true
      → AreInts items
      → IsStocked amount (stored d)
      → open_on d ≡ false
      → run client con (reserve_batch (client.escape con) id items) d ≡ (taken, d')
      → Outcome amount reservation id items (stored d) taken (stored d')
  unfolding Taken
  reserve_batch-Outcome items d d' false p i k o r =
      inl (refl, reserve_batch-not_taken items d d' o r)
  reserve_batch-Outcome items d d' true p i k o r =
      inr (refl, reserve_batch-Taken items d d' p i k o r)

module _ {D V : Type 0} (client : Client D) (pool : Bool) (stored current : D → V)
    (open_on : ℕ → D → Bool) (amount : ℤ → V → Option ℤ)
    (reservation : Text → V → Option Text) where
  guarded-Outcome :
      (b : Bool) (id : Text) (items : List InventoryMutation) (p p' : Pool) (d d' : D)
      (taken : Bool)
      → (b ≡ false → all_positive items ≡ true)
      → AreInts items
      → ((con : ℕ) → Promises client con stored current (open_on con))
      → ((con : ℕ) → KeepsAmounts client con stored current (open_on con) amount)
      → ((con : ℕ) → KeepsNames client con current (open_on con) reservation id)
      → ((con : ℕ) → open_on con d ≡ false)
      → IsStocked amount (stored d)
      → (if b
            then return false
            else with_connection false
                (λ con. talk client con (reserve_batch (client.escape con) id items)))
          p d
        ≡ some (taken, (p', d'))
      → Outcome amount reservation id items (stored d) taken (stored d')
  guarded-Outcome true id items p p' d d' taken f i promises amounts names o k e =
      inl ((cc e), ap stored (sym (cc e)))
  guarded-Outcome false id items p p' d d' taken f i promises amounts names o k e =
      elim (with_connection-Talked client false (λ con. reserve_batch (client.escape con) id items)
        p p' e) [
          | inl (a, g) ↦ inl (a, ap stored g)
          | inr (con, r) ↦
              reserve_batch-Outcome client con stored current (open_on con) amount (promises con)
                (amounts con) reservation id (names con) items d d' taken (f refl) i k (o con) r
        ]

  -- If the server keeps its promises about transactions, about the tables of the inventory and about
  -- the reservations of the name, no connection has a transaction, every stored amount is in range and
  -- the batch's numbers fit `int`: a call of the batch `reserve_stock` that returns false leaves what is
  -- stored as it was. One that returns true either found the name stored as reserved, and leaves what
  -- is stored as it was, or the name had no reservation, and then it is stored as reserved and exactly
  -- the copies that the batch names are taken.
  pub reserve_all-Outcome :
      (id : Text) (items : List InventoryMutation) (p p' : Pool) (d d' : D) (taken : Bool)
      → AreInts items
      → ((con : ℕ) → Promises client con stored current (open_on con))
      → ((con : ℕ) → KeepsAmounts client con stored current (open_on con) amount)
      → ((con : ℕ) → KeepsNames client con current (open_on con) reservation id)
      → ((con : ℕ) → open_on con d ≡ false)
      → IsStocked amount (stored d)
      → reserve_all client pool id items p d ≡ some (taken, (p', d'))
      → Outcome amount reservation id items (stored d) taken (stored d')
  unfolding reserve_all
  reserve_all-Outcome id items p p' d d' taken i promises amounts names o k e =
      guarded-Outcome _ id items p p' d d' taken (λ g. ground (arith, g)) i promises amounts names o
        k e
