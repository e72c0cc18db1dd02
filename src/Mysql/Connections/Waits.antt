-- ===== src/Mysql/Connections/Waits.antt =====
-- When `create_book` of src/app/repository/mysql/mysql_repositories.cpp waits for a connection of the pool of
-- src/db/sql_connection_pool.cpp.
use my_bookstore.Base.{
  leb_ℤ, ◌||◌, arith, not, ◌∙◌, ap, is_some, ◌<ℤ◌, pos, suc, ◌^◌, ◌<◌, length, [], false, refl, ◌∷◌,
  none, some, true, Option, if◌then◌else◌, ℤ, ◌≡◌, Bool, List, ℕ,
}
use my_bookstore.Model.{Book}
use my_bookstore.ConnectionPool.{take_connection, Pool, waits, refused, got, get_connection}
use my_bookstore.ConnectionPool.Counters.{
  get_connection-running, get_connection-waits, Reach-Conserves, Reach, continues, takes,
}
use my_bookstore.Mysql.{
  ℕ, return, List, Bool, Client, Method, run, with_connection, talk, give_back,
}
use my_bookstore.Mysql.Books.{
  create_on, create_book, find_book, is_refused, insert_book, found_again, select_book,
}

module _ {D A : Type 0} (failed : A) (body : ℕ → Method D A) (p : Pool) (d : D) where
  with_connection-got :
      (p1 : Pool) (con : ℕ)
      → get_connection p ≡ got con p1
      → with_connection failed body p d ≡ give_back con (body con p1 d)
  unfolding with_connection
  with_connection-got p1 con g =
      ap
        (λ x. elim x as (λ y. Option (A × (Pool × D))) [
          | waits ↦ none
          | refused ↦ some (failed, (p, d))
          | got c q ↦ give_back c (body c q d)
        ])
        g

  with_connection-waits : get_connection p ≡ waits → with_connection failed body p d ≡ none
  unfolding with_connection
  with_connection-waits g =
      ap
        (λ x. elim x as (λ y. Option (A × (Pool × D))) [
          | waits ↦ none
          | refused ↦ some (failed, (p, d))
          | got c q ↦ give_back c (body c q d)
        ])
        g

  give_back-returns :
      (con : ℕ) (o : Option (A × (Pool × D))) → is_some o ≡ true → is_some (give_back con o) ≡ true
  unfolding give_back
  give_back-returns con none e = e
  give_back-returns con (some x) e = refl

  with_connection-returns :
      (p1 : Pool) (con : ℕ)
      → get_connection p ≡ got con p1
      → is_some (body con p1 d) ≡ true
      → is_some (with_connection failed body p d) ≡ true
  with_connection-returns p1 con g e =
      ap is_some (with_connection-got p1 con g) ∙ give_back-returns con (body con p1 d) e

  guarded-returns :
      (b : Bool)
      → is_some (with_connection failed body p d) ≡ true
      → is_some ((if b then return failed else with_connection failed body) p d) ≡ true
  guarded-returns true e = refl
  guarded-returns false e = e

module _ {D : Type 0} (client : Client D) (opened : List ℕ) where
  first_taken :
      (l : List ℕ) (p : Pool)
      → 0 < length l
      → (con : ℕ) × ((p1 : Pool) × (take_connection l p ≡ got con p1))
  unfolding take_connection
  first_taken [] p h = absurd (omega arith)
  first_taken (con ∷ l) p h = (con, (_, refl))

  -- A free connection is handed out.
  handed_out :
      (used : List ℕ) (p : Pool)
      → length opened < 2 ^ 31
      → Reach opened used p
      → length used < length opened
      → (con : ℕ) × ((p1 : Pool) × (get_connection p ≡ got con p1))
  handed_out used p h r l =
      let c = Reach-Conserves opened used p h r in
      let (con, (p1, e)) = first_taken p.conn_list p (omega (arith, c.total, l)) in
      (con, (p1, get_connection-running p c.running ∙ e))

  -- In a pool, of fewer than 2^31 connections, of which the threads hold all but one: a call of
  -- `create_book` whose transaction is committed, with a positive number for the book, waits for a
  -- second connection.
  pub create_book-waits :
      (used : List ℕ) (p p1 : Pool) (con : ℕ) (book : Book) (d d1 : D) (id : ℤ)
      → length opened < 2 ^ 31
      → Reach opened used p
      → length opened ≡ suc (length used)
      → get_connection p ≡ got con p1
      → is_refused client true book ≡ false
      → run client con (insert_book (client.escape con) book) d ≡ (some id, d1)
      → pos 0 <ℤ id
      → create_book client true book p d ≡ none
  unfolding create_book create_on found_again find_book
  create_book-waits used p p1 con book d d1 id h r l g n e k =
      let empty =
        (get_connection-waits opened (con ∷ used) p1 h (continues r (takes used p p1 con g))).1
          (omega (arith, l)) in
      let positive : leb_ℤ id (pos 0) ≡ false = ground (arith, k) in
      ap (λ b. (if b then return none else with_connection none (create_on client true book)) p d) n
      ∙ with_connection-got none (create_on client true book) p d p1 con g
      ∙ ap (λ x. give_back con (found_again client true x.0 p1 x.1)) e
      ∙ ap
          (λ b. give_back con (
            (if b then return none else with_connection none (λ c. talk client c (select_book id)))
              p1 d1))
          positive
      ∙ ap (give_back con)
          (with_connection-waits none (λ c. talk client c (select_book id)) p1 d1 empty)

  found_again-returns :
      (pool : Bool) (used : List ℕ) (p : Pool) (d : D) (id : Option ℤ)
      → length opened < 2 ^ 31
      → Reach opened used p
      → length used < length opened
      → is_some (found_again client pool id p d) ≡ true
  unfolding found_again find_book talk
  found_again-returns pool used p d none h r l = refl
  found_again-returns pool used p d (some id) h r l =
      let (con, (p1, g)) = handed_out used p h r l in
      guarded-returns none (λ c. talk client c (select_book id)) p d (not pool || leb_ℤ id (pos 0))
        (with_connection-returns none (λ c. talk client c (select_book id)) p d p1 con g refl)

  -- With two connections to take, of fewer than 2^31, `create_book` returns.
  pub create_book-returns :
      (pool : Bool) (used : List ℕ) (p : Pool) (book : Book) (d : D)
      → length opened < 2 ^ 31
      → Reach opened used p
      → suc (length used) < length opened
      → is_some (create_book client pool book p d) ≡ true
  unfolding create_book create_on
  create_book-returns pool used p book d h r l =
      let (con, (p1, g)) = handed_out used p h r (omega (arith, l)) in
      let (created, d1) = run client con (insert_book (client.escape con) book) d in
      guarded-returns none (create_on client pool book) p d (is_refused client pool book) (
        with_connection-returns none (create_on client pool book) p d p1 con g (
          found_again-returns pool (con ∷ used) p1 d1 created h
            (continues r (takes used p p1 con g)) (omega (arith, l))))
