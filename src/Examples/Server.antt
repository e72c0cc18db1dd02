-- ===== src/Examples/Server.antt =====
-- A server for the repositories of src/app/repository/mysql/mysql_repositories.cpp: it knows the
-- transactions, holds the amounts of the inventory and the reservations, takes two copies of the first
-- book where it is told to, knows the statements for the reservation `r`, and has no table for the
-- items of orders.
use my_bookstore.Base.{
  none, lookup, Dict, List, Option, insert, starts_with, not, ◌∷◌, ◌∙◌, inr, sym, ap, false, inl,
  text_eq, to_string, Bool-cases, refl, subst, ◌++◌, ◌==◌, [], codes, if◌then◌else◌, pos, true, ◌≡◌,
  Bool, Text, some, ℕ, ℤ,
}
use my_bookstore.Inventory.Memory.{Stock, available_stock, reserve_stock}
use my_bookstore.Mysql.{Row, sql, Client}
use my_bookstore.Mysql.Inventory.{find_reservation_sql, insert_reservation_sql, take_available_sql}
use my_bookstore.Mysql.Transaction.{Promises, is_select, is_change}

-- The amounts of the inventory, and the names and states of the reservations.
pub record Tables : Type 0 where
  pub stock : Stock
  pub names : Dict Text Text

pub record Db : Type 0 where
  pub stored : Tables
  pub current : Tables
  pub opened : Bool
  pub changed : ℕ
  pub found : List Row

abbrev pub amount : ℤ → Tables → Option ℤ
amount b v = available_stock b v.stock

abbrev pub reservation : Text → Tables → Option Text
reservation name v = lookup name v.names

-- What the UPDATE does in a transaction.
unfoldable pub taken : Bool × Stock → Db → Db
taken (took, stock) d = record d {
  current = record (d.current) { stock = stock };
  changed = if took then 1 else 0;
}

unfoldable pub named : Db → Db
named d = record d {
  current = record (d.current) { names = insert (codes "r") (codes "reserved") d.current.names };
  changed = 1;
}

unfoldable pub change : Text → Db → Db
unfolding taken named
change s d =
    if s == take_available_sql (pos 1) (pos 2)
    then taken (reserve_stock (pos 1) (pos 2) d.current.stock) d
    else if s == insert_reservation_sql (λ t. t) (codes "r")
    then named d
    else record d { changed = 0 }

abbrev pub rows_of : Option Text → List Row
rows_of none = []
rows_of (some status) = (some status ∷ []) ∷ []

unfoldable pub select : Text → Db → Db
select s d =
    if s == find_reservation_sql (λ t. t) (codes "r")
    then record d { found = rows_of (lookup (codes "r") d.current.names) }
    else record d { found = [] }

unfoldable pub frame : Text → Db → Db
frame s d =
    if s == codes "START TRANSACTION"
    then record d { current = d.stored; opened = true }
    else if s == codes "COMMIT"
    then record d { stored = d.current; opened = false }
    else record d { opened = false }

unfoldable pub query : ℕ → Text → Db → Bool × Db
unfolding change frame select
query con s d = (
  not (starts_with (codes "INSERT INTO order_items") s),
  if is_select s then select s d else if is_change s then change s d else frame s d,
)

abbrev pub server : Client Db
server = record {
  escape = λ con s. s;
  query = query;
  store_result = λ con d. (some d.found, d);
  insert_id = λ con d. 7;
  affected_rows = λ con d. d.changed;
}

after_prefix : (b q : ℤ) → Text
after_prefix b q = codes " WHERE book_id=" ++ to_string b ++ codes " AND available>=" ++ to_string q

change-keeps :
    (s : Text) (d : Db) → ((change s d).stored ≡ d.stored) × ((change s d).opened ≡ d.opened)
unfolding change taken named
change-keeps s d = elim (Bool-cases (s == take_available_sql (pos 1) (pos 2))) [
  | inl e ↦ rw e (refl, refl)
  | inr e ↦ elim (Bool-cases (s == insert_reservation_sql (λ t. t) (codes "r"))) [
    | inl n ↦ rw (e, n) (refl, refl)
    | inr n ↦ rw (e, n) (refl, refl)
  ]
]

-- A SELECT changes nothing but the rows that were found.
abbrev Seen : Db → Db → Type 0
Seen d' d = (d'.stored ≡ d.stored) × ((d'.opened ≡ d.opened) × (d'.current ≡ d.current))

select-Seen : (s : Text) (d : Db) → Seen (select s d) d
unfolding select
select-Seen s d = elim (Bool-cases (s == find_reservation_sql (λ t. t) (codes "r"))) [
  | inl e ↦ rw e (refl, (refl, refl))
  | inr e ↦ rw e (refl, (refl, refl))
]

plain-keeps :
    (con : ℕ) (s : Text) (d : Db)
    → is_change s ≡ true
    → ((query con s d).1.stored ≡ d.stored) × ((query con s d).1.opened ≡ d.opened)
unfolding query
plain-keeps con s d i = elim (Bool-cases (is_select s)) [
  | inl e ↦ rw e (let kept = select-Seen s d in (kept.0, kept.1.0))
  | inr e ↦ rw (e, i) (change-keeps s d)
]

selected : (con : ℕ) (s : Text) (d : Db) → is_select s ≡ true → Seen (query con s d).1 d
unfolding query
selected con s d i = rw i (select-Seen s d)

module _ (con : ℕ) where
  pub server-Promises : Promises server con (λ d. d.stored) (λ d. d.current) (λ d. d.opened)
  unfolding query frame sql
  server-Promises = record {
    starts = λ {d} e o.
        subst
          (λ r.
            (r.1.stored ≡ d.stored) × ((r.1.opened ≡ r.0) × (r.0 ≡ true → r.1.current ≡ d.stored)))
          e (refl, (refl, λ t. refl));
    reads = λ {d} {d'} s i e.
        let (kept, (opened, seen)) : Seen d' d =
          subst (λ (r : Bool × Db). Seen r.1 d) e (selected con s d i) in
        (kept, ((λ o. opened ∙ o), (λ o t. (opened ∙ o, seen))));
    writes = λ {d} {d'} s i e o.
        let same : (query con s d).1 ≡ d' = ap (λ r. r.1) e in
        let kept = plain-keeps con s d i in
        (ap (λ x. x.stored) (sym same) ∙ kept.0, (λ t. ap (λ x. x.opened) (sym same) ∙ kept.1 ∙ o));
    commits = λ {d} e o.
        subst
          (λ r.
            (r.0 ≡ true → (r.1.opened ≡ false) × (r.1.stored ≡ d.current))
            × (r.0 ≡ false → r.1.stored ≡ d.stored))
          e ((λ t. (refl, refl)), (λ f. cc f));
    rolls_back =
        λ {d} e. subst (λ r. (r.1.opened ≡ false) × (r.1.stored ≡ d.stored)) e (refl, refl);
    results = λ {d} {d'} e.
        let same : d ≡ d' = cc e in
        (
          ap (λ x. x.stored) (sym same),
          (ap (λ x. x.opened) (sym same), ap (λ x. x.current) (sym same)),
        );
  }
