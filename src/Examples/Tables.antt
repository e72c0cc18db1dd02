-- ===== src/Examples/Tables.antt =====
-- What the server of `Server` does with its tables.
use my_bookstore.Examples.Server.{
  Db, server, query, change, taken, select, named, amount, reservation, rows_of,
}
use my_bookstore.Mysql.Rows.{text_or_empty}
use my_bookstore.Mysql.Transaction.Names.{status_in, KeepsNames}
use my_bookstore.Inventory.Laws.{Took, IsStocked}
use my_bookstore.Base.{
  lookup-insert, none, lookup, Option, insert, ==_refl, list_eq_iff, arith, ◌∷◌, digits, drop, ◌∙◌,
  inr, sym, IsInt, ap, false, inl, text_eq, to_string, Bool-cases, refl, subst, ◌++◌, ◌<ℤ◌, ◌==◌,
  [], codes, if◌then◌else◌, pos, true, ◌≡◌, Bool, Text, some, ℕ, ℤ,
}
use my_bookstore.Inventory.Memory.{available_stock, reserve_stock}
use my_bookstore.Inventory.Memory.Stock.{memory-IsLawful}
use my_bookstore.Json.{read_int, skip_spaces}
use my_bookstore.Json.Ints.{read_int-to_string}
use my_bookstore.Mysql.Inventory.{
  find_reservation_sql, insert_item_sql, insert_reservation_sql, take_available_sql,
}
use my_bookstore.Mysql.Transaction.{is_select, is_change}
use my_bookstore.Mysql.Transaction.Stock.{KeepsAmounts}

-- The statement tells the numbers that it was made of.
quantity_read :
    (b q : ℤ)
    → (pos 0 <ℤ q) × IsInt q
    → read_int (skip_spaces (drop 41 (take_available_sql b q))) ≡ some q
unfolding take_available_sql
quantity_read b q i =
    let tail = codes " WHERE book_id=" ++ to_string b ++ codes " AND available>=" ++ to_string q in
    ap (λ s. read_int (skip_spaces s)) (four (to_string q) _ _ _ _)
    ∙ read_int-to_string q tail (i.1.below) (ground (arith, i)) refl
  where
    four : (a b c d e : Text) → a ++ b ++ c ++ d ++ e ≡ a ++ (b ++ c ++ d ++ e)
    four [] b c d e = refl
    four (x ∷ a) b c d e = ap (λ s. x ∷ s) (four a b c d e)

book_read :
    (b : ℤ)
    → (pos 0 <ℤ b) × IsInt b
    → read_int (skip_spaces (drop 57 (take_available_sql b (pos 2)))) ≡ some b
unfolding take_available_sql to_string digits
book_read b i =
    ap (λ s. read_int (skip_spaces s)) (three (to_string b) _ _)
    ∙ read_int-to_string b (codes " AND available>=2") (i.1.below) (ground (arith, i)) refl
  where
    three : (a b c : Text) → a ++ b ++ c ≡ a ++ (b ++ c)
    three [] b c = refl
    three (x ∷ a) b c = ap (λ s. x ∷ s) (three a b c)

some_same : {A : Type 0} {x y : A} → some x ≡ some y → x ≡ y
some_same e = cc e

numbers_of :
    (b q : ℤ)
    → (pos 0 <ℤ b) × IsInt b
    → (pos 0 <ℤ q) × IsInt q
    → take_available_sql b q ≡ take_available_sql (pos 1) (pos 2)
    → (b ≡ pos 1) × (q ≡ pos 2)
numbers_of b q ib iq e =
    let q2 : q ≡ pos 2 = some_same (
      sym (quantity_read b q iq)
      ∙ ap (λ s. read_int (skip_spaces (drop 41 s))) e
      ∙ quantity_read (pos 1) (pos 2)
          (omega arith, record { below = omega arith; above = omega arith })) in
    let e2 = subst (λ x. take_available_sql b x ≡ take_available_sql (pos 1) (pos 2)) q2 e in
    (
      some_same (
          sym (book_read b ib)
          ∙ ap (λ s. read_int (skip_spaces (drop 57 s))) e2
          ∙ book_read (pos 1) (omega arith, record { below = omega arith; above = omega arith })),
      q2,
    )

updated :
    (con : ℕ) (b q : ℤ) (d : Db)
    → (query con (take_available_sql b q) d).1 ≡ change (take_available_sql b q) d
unfolding query take_available_sql
updated con b q d = refl

first_taken :
    (d : Db)
    → change (take_available_sql (pos 1) (pos 2)) d
      ≡ taken (reserve_stock (pos 1) (pos 2) d.current.stock) d
unfolding change
first_taken d = rw (==_refl (take_available_sql (pos 1) (pos 2))) refl

took :
    (d : Db)
    → IsStocked amount d.current
    → (taken (reserve_stock (pos 1) (pos 2) d.current.stock) d).changed ≡ 1
    → Took amount
        (pos 1)
        (pos 2)
        d.current
        (taken (reserve_stock (pos 1) (pos 2) d.current.stock) d).current
unfolding taken
took d k n = elim (memory-IsLawful.reserve (pos 1) (pos 2) d.current.stock k) [
  | inl (f, h) ↦
      let none_taken : ◌≡◌ {A = ℕ} 0 1 = subst (λ b. ◌≡◌ {A = ℕ} (if b then 1 else 0) 1) f n in
      absurd (omega (arith, none_taken))
  | inr (t, h) ↦ record {
    had = h.had;
    positive = h.positive;
    enough = h.enough;
    before = h.before;
    after = h.after;
  }
]

not_first :
    (s : Text) (d : Db)
    → (s == take_available_sql (pos 1) (pos 2)) ≡ false
    → (s == insert_reservation_sql (λ t. t) (codes "r")) ≡ false
    → (change s d).changed ≡ 0
unfolding change
not_first s d e n = rw (e, n) refl

taken_not_named :
    (b q : ℤ) → (take_available_sql b q == insert_reservation_sql (λ t. t) (codes "r")) ≡ false
unfolding take_available_sql insert_reservation_sql
taken_not_named b q = refl

module _ (con : ℕ) where
  server-takes :
      (d d' : Db) (b q : ℤ)
      → (pos 0 <ℤ b) × IsInt b
      → (pos 0 <ℤ q) × IsInt q
      → IsStocked amount d.current
      → query con (take_available_sql b q) d ≡ (true, d')
      → d'.changed ≡ 1
      → Took amount b q d.current d'.current
  server-takes d d' b q hb hq k e n =
      let same : change (take_available_sql b q) d ≡ d' =
        sym (updated con b q d) ∙ ap (λ r. r.1) e in
      elim (Bool-cases (take_available_sql b q == take_available_sql (pos 1) (pos 2))) [
        | inl t ↦
            let text = (list_eq_iff _ _).0 t in
            let (b1, q2) = numbers_of b q hb hq text in
            let same' : taken (reserve_stock (pos 1) (pos 2) d.current.stock) d ≡ d' =
              sym (first_taken d) ∙ sym (ap (λ s. change s d) text) ∙ same in
            subst (λ x. Took amount x q d.current d'.current) (sym b1)
              (subst (λ y. Took amount (pos 1) y d.current d'.current) (sym q2)
                (subst (λ x. Took amount (pos 1) (pos 2) d.current x.current) same'
                  (took d k (ap (λ x. x.changed) same' ∙ n))))
        | inr f ↦
            let zero_one : 0 ≡ 1 =
              sym (not_first _ d f (taken_not_named b q)) ∙ ap (λ x. x.changed) same ∙ n in
            absurd (omega (arith, zero_one))
      ]

  -- Another statement than the UPDATE of the stock.
  stock_same :
      (s : Text) (d d' : Db)
      → is_select s ≡ false
      → is_change s ≡ true
      → (s == take_available_sql (pos 1) (pos 2)) ≡ false
      → query con s d ≡ (true, d')
      → d'.current.stock ≡ d.current.stock
  unfolding query change named
  stock_same s d d' i j t e =
      subst (λ (r : Bool × Db). r.1.current.stock ≡ d.current.stock) e
        (elim (Bool-cases (s == insert_reservation_sql (λ t. t) (codes "r"))) [
          | inl n ↦ rw (i, j, t, n) refl
          | inr n ↦ rw (i, j, t, n) refl
        ])

  pub server-KeepsAmounts :
      KeepsAmounts server con (λ d. d.stored) (λ d. d.current) (λ d. d.opened) amount
  unfolding insert_reservation_sql insert_item_sql take_available_sql
  server-KeepsAmounts = record {
    takes = λ {d} {d'} b q hb hq o k e n. server-takes d d' b q hb hq k e n;
    reserves = λ {d} {d'} id o e b. ap (available_stock b) (stock_same _ d d' refl refl refl e);
    lists = λ {d} {d'} id item o e b. ap (available_stock b) (stock_same _ d d' refl refl refl e);
  }

  -- Another change than the INSERT of the reservation.
  names_same :
      (s : Text) (d d' : Db)
      → is_select s ≡ false
      → is_change s ≡ true
      → (s == insert_reservation_sql (λ t. t) (codes "r")) ≡ false
      → query con s d ≡ (true, d')
      → d'.current.names ≡ d.current.names
  unfolding query change taken
  names_same s d d' i j n e =
      subst (λ (r : Bool × Db). r.1.current.names ≡ d.current.names) e
        (elim (Bool-cases (s == take_available_sql (pos 1) (pos 2))) [
          | inl t ↦ rw (i, j, t) refl
          | inr t ↦ rw (i, j, t, n) refl
        ])

  told : (o : Option Text) → status_in (rows_of o) ≡ o
  unfolding text_or_empty
  told none = refl
  told (some status) = refl

  finds_r :
      (d : Db)
      → (query con (find_reservation_sql (λ t. t) (codes "r")) d).1.found
        ≡ rows_of (lookup (codes "r") d.current.names)
  unfolding query select find_reservation_sql
  finds_r d = refl

  adds_r :
      (d : Db)
      → (query con (insert_reservation_sql (λ t. t) (codes "r")) d).1.current.names
        ≡ insert (codes "r") (codes "reserved") d.current.names
  unfolding query change named take_available_sql insert_reservation_sql
  adds_r d = refl

  pub server-KeepsNames :
      KeepsNames server con (λ d. d.current) (λ d. d.opened) reservation (codes "r")
  unfolding insert_item_sql insert_reservation_sql take_available_sql
  server-KeepsNames = record {
    finds = λ {d} {d1} {d2} {rows} o q e.
        let found : rows ≡ d1.found = cc e in
        ap status_in (found ∙ sym (ap (λ (r : Bool × Db). r.1.found) q) ∙ finds_r d)
        ∙ told (lookup (codes "r") d.current.names);
    adds = λ {d} {d'} o q.
        ap (lookup (codes "r")) (sym (ap (λ (r : Bool × Db). r.1.current.names) q) ∙ adds_r d)
        ∙ lookup-insert (codes "r") (codes "r") (codes "reserved") d.current.names;
    stays_taken = λ {d} {d'} b q o e. ap (lookup (codes "r")) (names_same _ d d' refl refl refl e);
    stays_listed =
        λ {d} {d'} item o e. ap (lookup (codes "r")) (names_same _ d d' refl refl refl e);
  }
