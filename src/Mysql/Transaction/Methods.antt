-- ===== src/Mysql/Transaction/Methods.antt =====
-- What the server stores behind a method of src/app/repository/mysql/mysql_repositories.cpp that takes one
-- connection.
use my_bookstore.Model.{OrderItem}
use my_bookstore.Mysql.Orders.{create_order, insert_order}
use my_bookstore.Mysql.Inventory.{add_stock, add_both}
use my_bookstore.Mysql.Transaction.Writes.{insert_order-Follows, add_both-Follows, run-Whole, Whole}
use my_bookstore.Mysql.Transaction.{idle, Follows, Promises}
use my_bookstore.Base.{
  refl, List, ℤ, ◌∙◌, sym, ap, false, true, if◌then◌else◌, Bool, inr, inl, none, some, ◌⊎◌, Option,
  ◌≡◌, ℕ,
}
use my_bookstore.Mysql.{return, ℕ, Client, Session, run, with_connection, talk, give_back}
use my_bookstore.ConnectionPool.{Pool, Got, waits, refused, got, get_connection}

module _ {D A : Type 0} (client : Client D) where
  -- A method that returned either took no connection or held its session on one.
  abbrev pub Talked : A → (ℕ → Session A) → D → A → D → Type 0
  Talked failed s d a d' =
      ((a ≡ failed) × (d' ≡ d)) ⊎ ((con : ℕ) × (run client con (s con) d ≡ (a, d')))

  talked :
      (failed : A) (s : ℕ → Session A) (d : D) (g : Got) (p p' : Pool) {a : A} {d' : D}
      → Path
          (Option (A × (Pool × D)))
          (elim g [
            | waits ↦ none
            | refused ↦ some (failed, (p, d))
            | got con q ↦ give_back con (talk client con (s con) q d)
          ])
          (some (a, (p', d')))
      → Talked failed s d a d'
  unfolding give_back talk
  talked failed s d waits p p' e = cc e
  talked failed s d refused p p' e = inl ((cc e), (cc e))
  talked failed s d (got con q) p p' e = inr (con, cc e)

  pub with_connection-Talked :
      (failed : A) (s : ℕ → Session A) (p p' : Pool) {d d' : D} {a : A}
      → with_connection failed (λ con. talk client con (s con)) p d ≡ some (a, (p', d'))
      → Talked failed s d a d'
  unfolding with_connection
  with_connection-Talked failed s p p' {d} e = talked failed s d (get_connection p) p p' e

  -- The same behind the guards.
  pub guarded-Talked :
      (b : Bool) (failed : A) (s : ℕ → Session A) (p p' : Pool) {d d' : D} {a : A}
      → (if b then return failed else with_connection failed (λ con. talk client con (s con))) p d
        ≡ some (a, (p', d'))
      → Talked failed s d a d'
  guarded-Talked true failed s p p' e = inl ((cc e), (cc e))
  guarded-Talked false failed s p p' e = with_connection-Talked failed s p p' e

module _ {D V : Type 0} (client : Client D) (pool : Bool) (stored current : D → V)
    (open_on : ℕ → D → Bool)
    (promises : (con : ℕ) → Promises client con stored current (open_on con)) where
  -- Behind a method that returned: `none` means that nothing was committed.
  Talked-Whole :
      {A : Type 0} (s : ℕ → Session (Option A)) {d d' : D} {a : Option A}
      → ((con : ℕ) → Follows Whole idle (s con))
      → ((con : ℕ) → open_on con d ≡ false)
      → Talked client none s d a d'
      → a ≡ none
      → stored d' ≡ stored d
  Talked-Whole s f o (inl (e, g)) n = ap stored g
  Talked-Whole s {d} {d'} {a} f o (inr (con, e)) n =
      ap (λ r. stored r.1) (sym e)
      ∙ (run-Whole client con stored current (open_on con) (promises con) (s con) d (f con)
            (o con)).1
          (ap (λ r. r.0) e ∙ n)

  -- A call of `create_order` that returns `nullopt`, from a state in which no connection has a
  -- transaction, leaves what the server stores as it was, whatever the server answers, if the server
  -- keeps its promises about transactions.
  pub create_order-none :
      (user_id : ℤ) (items : List OrderItem) (total_cents : ℤ) (p p' : Pool) (d d' : D)
      → ((con : ℕ) → open_on con d ≡ false)
      → create_order client pool user_id items total_cents p d ≡ some (none, (p', d'))
      → stored d' ≡ stored d
  unfolding create_order
  create_order-none user_id items total_cents p p' d d' o e =
      Talked-Whole (λ con. insert_order user_id items total_cents)
        (λ con. insert_order-Follows user_id items total_cents) o
        (guarded-Talked client _ none (λ con. insert_order user_id items total_cents) p p' e) refl

  -- The same for `add_stock`.
  pub add_stock-none :
      (book_id quantity : ℤ) (p p' : Pool) (d d' : D)
      → ((con : ℕ) → open_on con d ≡ false)
      → add_stock client pool book_id quantity p d ≡ some (none, (p', d'))
      → stored d' ≡ stored d
  unfolding add_stock
  add_stock-none book_id quantity p p' d d' o e =
      Talked-Whole (λ con. add_both book_id quantity) (λ con. add_both-Follows book_id quantity) o
        (guarded-Talked client _ none (λ con. add_both book_id quantity) p p' e) refl
