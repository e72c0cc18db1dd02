-- ===== src/Mysql/Connections.antt =====
-- The connections that the methods of src/app/repository/mysql/mysql_repositories.cpp take from the pool of
-- src/db/sql_connection_pool.cpp. `create_book`, `update_book` and `cancel_order` hold one while
-- `find_book` or `find_order` takes another.
pub mod Waits
use my_bookstore.Base.{
  leb_ℤ, ◌||◌, arith, not, ◌∙◌, ap, is_some, ◌<ℤ◌, pos, ◌≢◌, suc, ◌^◌, ◌<◌, length, inr, inl,
  is_empty, Bool-cases, [], false, refl, ◌∷◌, none, some, true, Option, if◌then◌else◌, subst, ℤ,
  ◌≡◌, Bool, List, ℕ,
}
use my_bookstore.Model.{Book, BookUpdate}
use my_bookstore.ConnectionPool.{
  take_connection, Pool, Got, waits, refused, got, get_connection, release_connection,
}
use my_bookstore.Mysql.Orders.{find_order, cancel_order, select_order, mark_cancelled}
use my_bookstore.ConnectionPool.Counters.{
  get_connection-running, get_connection-waits, Reach-Conserves, Reach, continues, takes, gives,
}
use my_bookstore.Mysql.{
  ℕ, return, List, Bool, Client, Session, Method, run, with_connection, talk, give_back,
}
use my_bookstore.Mysql.Books.{
  create_on, change_book, assignments, create_book, update_book, find_book, is_refused, insert_book,
  found_again, update_on, select_book,
}

-- A method that returns has given back what it took.
abbrev pub GivesBack : {D A : Type 0} → Method D A → Type 0
GivesBack {D} {A} m =
    (opened used : List ℕ) (p p' : Pool) (d d' : D) (a : A)
    → Reach opened used p
    → m p d ≡ some (a, (p', d'))
    → Reach opened used p'

module _ {D A : Type 0} where
  return-GivesBack : (a : A) → GivesBack {D = D} (return a)
  return-GivesBack a opened used p p' d d' b r e = subst (Reach opened used) (cc e) r

  talk-GivesBack : (client : Client D) (con : ℕ) (s : Session A) → GivesBack (talk client con s)
  unfolding talk
  talk-GivesBack client con s opened used p p' d d' b r e = subst (Reach opened used) (cc e) r

  returned :
      (con : ℕ) (o : Option (A × (Pool × D))) {a : A} {p' : Pool} {d' : D}
      → give_back con o ≡ some (a, (p', d'))
      → (q : Pool) × ((o ≡ some (a, (q, d'))) × ((release_connection (some con) q).1 ≡ p'))
  unfolding give_back
  returned con none e = cc e
  returned con (some (b, (q, d))) e = (q, ((cc e), (cc e)))

  taken :
      (failed : A) (body : ℕ → Method D A) (p p' : Pool) (d d' : D) (a : A) (opened used : List ℕ)
      (g : Got)
      → ((con : ℕ) → GivesBack (body con))
      → Reach opened used p
      → get_connection p ≡ g
      → Path
          (Option (A × (Pool × D)))
          (elim g [
            | waits ↦ none
            | refused ↦ some (failed, (p, d))
            | got con q ↦ give_back con (body con q d)
          ])
          (some (a, (p', d')))
      → Reach opened used p'
  taken failed body p p' d d' a opened used waits f r g e = cc e
  taken failed body p p' d d' a opened used refused f r g e = subst (Reach opened used) (cc e) r
  taken failed body p p' d d' a opened used (got con q) f r g e =
      let (q', (e', back)) = returned con (body con q d) e in
      let r' = f con opened (con ∷ used) q q' d d' a (continues r (takes used p q con g)) e' in
      subst (Reach opened used) back (continues r' (gives [] used q' con))

  pub with_connection-GivesBack :
      (failed : A) (body : ℕ → Method D A)
      → ((con : ℕ) → GivesBack (body con))
      → GivesBack (with_connection failed body)
  unfolding with_connection
  with_connection-GivesBack failed body f opened used p p' d d' a r e =
      taken failed body p p' d d' a opened used (get_connection p) f r refl e

  pub guarded-GivesBack :
      (b : Bool) (failed : A) (body : ℕ → Method D A)
      → ((con : ℕ) → GivesBack (body con))
      → GivesBack (if b then return failed else with_connection failed body)
  guarded-GivesBack true failed body f = return-GivesBack failed
  guarded-GivesBack false failed body f = with_connection-GivesBack failed body f

module _ {D : Type 0} (client : Client D) (pool : Bool) where
  find_book-GivesBack : (book_id : ℤ) → GivesBack (find_book client pool book_id)
  unfolding find_book
  find_book-GivesBack book_id =
      guarded-GivesBack _ none (λ con. talk client con (select_book book_id))
        (λ con. talk-GivesBack client con (select_book book_id))

  found_again-GivesBack : (id : Option ℤ) → GivesBack (found_again client pool id)
  unfolding found_again
  found_again-GivesBack none = return-GivesBack none
  found_again-GivesBack (some id) = find_book-GivesBack id

  -- A call of `create_book` that returns, from a pool that the threads can reach with some connections
  -- in use, leaves one that they can reach with the same connections in use.
  pub create_book-GivesBack :
      (book : Book) (opened used : List ℕ) (p p' : Pool) (d d' : D) (a : Option Book)
      → Reach opened used p
      → create_book client pool book p d ≡ some (a, (p', d'))
      → Reach opened used p'
  unfolding create_book create_on
  create_book-GivesBack book =
      guarded-GivesBack (is_refused client pool book) none (create_on client pool book)
        (λ con opened used p p' d d' a r e.
          found_again-GivesBack (run client con (insert_book (client.escape con) book) d).0 opened
            used p p' (run client con (insert_book (client.escape con) book) d).1 d' a r e)

  -- The end of `update_book` and of `cancel_order`.
  ends-GivesBack :
      {A : Type 0} (b : Bool) (m : Method D (Option A)) (opened used : List ℕ) (p p' : Pool)
      (d d' : D) (a : Option A)
      → GivesBack m
      → Reach opened used p
      → (if b then m p d else some (none, (p, d))) ≡ some (a, (p', d'))
      → Reach opened used p'
  ends-GivesBack true m opened used p p' d d' a f r e = f opened used p p' d d' a r e
  ends-GivesBack false m opened used p p' d d' a f r e = subst (Reach opened used) (cc e) r

  -- The branches of `update_book`.
  branches :
      {B R : Type 0} (b : Bool) (x y z : B)
      → (x ≡ z → R)
      → (y ≡ z → R)
      → (if b then x else y) ≡ z
      → R
  branches true x y z f g e = f e
  branches false x y z f g e = g e

  update_on-GivesBack :
      (book_id : ℤ) (update : BookUpdate) (con : ℕ)
      → GivesBack (update_on client pool book_id update con)
  unfolding update_on
  update_on-GivesBack book_id update con opened used p p' d d' a r e =
      let parts = assignments (client.escape con) update in
      let (changed, d1) = run client con (change_book book_id parts update.stock) d in
      branches (is_empty parts) _ _ _ (find_book-GivesBack book_id opened used p p' d d' a r)
        (ends-GivesBack changed (find_book client pool book_id) opened used p p' d1 d' a
          (find_book-GivesBack book_id) r)
        e

  -- The same for `update_book`.
  pub update_book-GivesBack :
      (book_id : ℤ) (update : BookUpdate) → GivesBack (update_book client pool book_id update)
  unfolding update_book
  update_book-GivesBack book_id update =
      guarded-GivesBack _ none _ (update_on-GivesBack book_id update)

  find_order-GivesBack : (order_id : ℤ) → GivesBack (find_order client pool order_id)
  unfolding find_order
  find_order-GivesBack order_id =
      guarded-GivesBack _ none (λ con. talk client con (select_order order_id))
        (λ con. talk-GivesBack client con (select_order order_id))

  -- The same for `cancel_order`.
  pub cancel_order-GivesBack : (order_id : ℤ) → GivesBack (cancel_order client pool order_id)
  unfolding cancel_order
  cancel_order-GivesBack order_id = guarded-GivesBack _ none _ (λ con opened used p p' d d' a r e.
      let (changed, d1) = run client con (mark_cancelled order_id) d in
      ends-GivesBack changed (find_order client pool order_id) opened used p p' d1 d' a
        (find_order-GivesBack order_id) r e)
