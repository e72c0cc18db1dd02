-- ===== src/ConnectionPool/Counters.antt =====
-- The counters of the connection pool: no connection is lost or handed out twice, and
-- `m_FreeConn` and `m_CurConn` count the free ones and the ones in use.
use mathlib.Core.List.{append_assoc, append-nil}
use my_bookstore.Base.{
  wrap32-difference, wrap32-sum, length-append, refl, sym, ◌↔◌, ◌∙◌, ap, false, none, subst, arith,
  nat_eq, negsuc, pos, ◌^◌, [], if◌then◌else◌, some, suc, ◌+◌, ◌<◌, ◌≡◌, length, ◌++◌, ◌+ℤ◌, ◌-ℤ◌,
  ◌∷◌, List, wrap32, ℕ,
}
use my_bookstore.ConnectionPool.{
  waits, refused, got, fresh, init, destroy_pool, add_connection, Pool, take_connection,
  release_connection, get_connection, add_connections,
}

abbrev pub count : ℕ → List ℕ → ℕ
count c [] = 0
count c (x ∷ xs) = (if nat_eq x c then 1 else 0) + count c xs

count-append : (c : ℕ) (xs ys : List ℕ) → count c (xs ++ ys) ≡ count c xs + count c ys
count-append c [] ys = omega arith
count-append c (x ∷ xs) ys = omega (arith, count-append c xs ys)

-- What the threads hold, and the pool: `used` is the list of connections handed out.
pub record Conserves (opened used : List ℕ) (p : Pool) : Type 0 where
  pub counts : (c : ℕ) → count c p.conn_list + count c used ≡ count c opened
  pub total : length p.conn_list + length used ≡ length opened
  pub free : p.free_conn ≡ pos (length p.conn_list)
  pub current : p.cur_conn ≡ pos (length used)
  pub most : p.max_conn ≡ pos (length opened)
  pub running : p.shutdown ≡ false

-- A call of a thread: it takes a connection, gives one of those in use back, or gives `nullptr`.
pub data Step : List ℕ → Pool → List ℕ → Pool → Type 0 where
  takes :
      (used : List ℕ) (p p' : Pool) (con : ℕ)
      → get_connection p ≡ got con p'
      → Step used p (con ∷ used) p'
  gives :
      (before after : List ℕ) (p : Pool) (con : ℕ)
      → Step (before ++ con ∷ after) p (before ++ after) (release_connection (some con) p).1
  gives_null : (used : List ℕ) (p : Pool) → Step used p used (release_connection none p).1

pub data Reach (opened : List ℕ) : List ℕ → Pool → Type 0 where
  starts : Reach opened [] (init opened fresh)
  continues :
      {used used' : List ℕ} {p p' : Pool}
      → Reach opened used p
      → Step used p used' p'
      → Reach opened used' p'

abbrev Small : List ℕ → Type 0
Small opened = length opened < 2 ^ 31

-- The loop of `init` behind some rounds.
record Filled (opened : List ℕ) (p : Pool) : Type 0 where
  list : p.conn_list ≡ opened
  number : p.free_conn ≡ pos (length opened)
  unused : p.cur_conn ≡ pos 0
  up : p.shutdown ≡ false

add_connections-Filled :
    (rest opened : List ℕ) (p : Pool)
    → length opened + length rest < 2 ^ 31
    → Filled opened p
    → Filled (opened ++ rest) (add_connections rest p)
unfolding add_connections add_connection
add_connections-Filled [] opened p h f = subst (λ l. Filled l p) (sym (append-nil opened)) f
add_connections-Filled (con ∷ rest) opened p h f =
    subst (λ l. Filled l (add_connections rest (add_connection p con)))
      (append_assoc opened (con ∷ []) rest)
      (add_connections-Filled rest (opened ++ con ∷ []) (add_connection p con)
        (omega (arith, length-append opened (con ∷ [])))
        (record {
          list = ap (λ l. l ++ con ∷ []) f.list;
          number =
              ap (λ n. wrap32 (n +ℤ pos 1)) f.number
              ∙ wrap32-sum (length opened) 1 (omega arith)
              ∙ ap pos (omega (arith, length-append opened (con ∷ [])));
          unused = f.unused;
          up = f.up;
        }))

init-Conserves : (opened : List ℕ) → Small opened → Conserves opened [] (init opened fresh)
unfolding init
init-Conserves opened h =
    let f =
      add_connections-Filled opened [] fresh (omega (arith, h))
        (record { list = refl; number = refl; unused = refl; up = refl }) in
    record {
      counts = λ c. omega (arith, ap (count c) f.list);
      total = omega (arith, ap length f.list);
      free = f.number ∙ ap (λ l. pos (length l)) (sym f.list);
      current = f.unused;
      most = f.number;
      running = f.up;
    }

-- The pool behind the removal of its first connection.
abbrev taken : Pool → List ℕ → Pool
taken p l = record p {
  conn_list = l;
  free_conn = wrap32 (p.free_conn -ℤ pos 1);
  cur_conn = wrap32 (p.cur_conn +ℤ pos 1);
}

wrap32_down : (n : ℕ) → suc n < 2 ^ 31 → wrap32 (pos (suc n) -ℤ pos 1) ≡ pos n
wrap32_down n h = wrap32-difference (suc n) 1 (omega arith) h ∙ ap pos (omega arith)

taken-Conserves :
    (opened used l : List ℕ) (p : Pool) (con : ℕ)
    → Small opened
    → Conserves opened used p
    → p.conn_list ≡ con ∷ l
    → Conserves opened (con ∷ used) (taken p l)
taken-Conserves opened used l p con h c e =
    let n = ap length e in
    record {
      counts = λ x. omega (arith, c.counts x, ap (count x) e);
      total = omega (arith, c.total, n);
      free =
          ap (λ m. wrap32 (m -ℤ pos 1)) (c.free ∙ ap pos n)
          ∙ wrap32_down (length l) (omega (arith, c.total, n));
      current =
          ap (λ m. wrap32 (m +ℤ pos 1)) c.current
          ∙ wrap32-sum (length used) 1 (omega (arith, c.total, n))
          ∙ ap pos (omega arith);
      most = c.most;
      running = c.running;
    }

released-Conserves :
    (opened before after : List ℕ) (p : Pool) (con : ℕ)
    → Small opened
    → Conserves opened (before ++ con ∷ after) p
    → Conserves opened (before ++ after) (release_connection (some con) p).1
unfolding release_connection
released-Conserves opened before after p con h c =
    let n = length-append p.conn_list (con ∷ []) in
    let m = length-append before (con ∷ after) in
    let k = length-append before after in
    let used : length (before ++ con ∷ after) ≡ suc (length (before ++ after)) =
      omega (arith, m, k) in
    record {
      counts = λ x. omega (
        arith,
        c.counts x,
        count-append x p.conn_list (con ∷ []),
        count-append x before (con ∷ after),
        count-append x before after,
      );
      total = omega (arith, c.total, n, used);
      free =
          ap (λ a. wrap32 (a +ℤ pos 1)) c.free
          ∙ wrap32-sum (length p.conn_list) 1 (omega (arith, c.total, used))
          ∙ ap pos (omega (arith, n));
      current =
          ap (λ a. wrap32 (a -ℤ pos 1)) (c.current ∙ ap pos used)
          ∙ wrap32_down (length (before ++ after)) (omega (arith, c.total, used));
      most = c.most;
      running = c.running;
    }

take_connection-Conserves :
    (opened used l : List ℕ) (p p' : Pool) (con : ℕ)
    → Small opened
    → Conserves opened used p
    → p.conn_list ≡ l
    → take_connection l p ≡ got con p'
    → Conserves opened (con ∷ used) p'
unfolding take_connection
take_connection-Conserves opened used [] p p' con h c e g = cc g
take_connection-Conserves opened used (x ∷ l) p p' con h c e g =
    let first : x ≡ con = cc g in
    let same : taken p l ≡ p' = cc g in
    subst (Conserves opened (con ∷ used)) same
      (taken-Conserves opened used l p con h c (e ∙ ap (λ y. y ∷ l) first))

pub get_connection-running :
    (p : Pool) → p.shutdown ≡ false → get_connection p ≡ take_connection p.conn_list p
unfolding get_connection
get_connection-running p e = rw e refl

Step-Conserves :
    (opened used used' : List ℕ) (p p' : Pool)
    → Small opened
    → Conserves opened used p
    → Step used p used' p'
    → Conserves opened used' p'
unfolding release_connection
Step-Conserves opened used used' p p' h c (takes _ _ _ con g) =
    take_connection-Conserves opened used p.conn_list p p' con h c refl
      (sym (get_connection-running p c.running) ∙ g)
Step-Conserves opened used used' p p' h c (gives before after _ con) =
    released-Conserves opened before after p con h c
Step-Conserves opened used used' p p' h c (gives_null _ _) = c

-- In each state that the threads can reach by taking connections and giving back those they hold,
-- of a pool of fewer than 2^31 connections: each connection is free or in use as often as it was
-- opened, both counters are right, and the pool is not shut down.
pub Reach-Conserves :
    (opened used : List ℕ) (p : Pool)
    → length opened < 2 ^ 31
    → Reach opened used p
    → Conserves opened used p
Reach-Conserves opened used p h starts = init-Conserves opened h
Reach-Conserves opened used p h (continues {used = v} {p = q} r s) =
    Step-Conserves opened v used q p h (Reach-Conserves opened v q h r) s

take_connection_waits : (l : List ℕ) (p : Pool) → (take_connection l p ≡ waits) ↔ (l ≡ [])
unfolding take_connection
take_connection_waits [] p = ((λ e. refl), (λ e. refl))
take_connection_waits (con ∷ l) p = ((λ e. cc e), (λ e. cc e))

no_elements : (l : List ℕ) → length l ≡ 0 → l ≡ []
no_elements [] e = refl
no_elements (x ∷ l) e = absurd (omega (arith, e))

-- In a state that the threads can reach, of a pool of fewer than 2^31 connections,
-- `GetConnection` waits exactly if all connections are in use.
pub get_connection-waits :
    (opened used : List ℕ) (p : Pool)
    → length opened < 2 ^ 31
    → Reach opened used p
    → (get_connection p ≡ waits) ↔ (length used ≡ length opened)
get_connection-waits opened used p h r =
    let c = Reach-Conserves opened used p h r in
    let (there, back) = take_connection_waits p.conn_list p in
    (
      (λ e.
          omega (arith, c.total, ap length (there (sym (get_connection-running p c.running) ∙ e)))),
      (λ e.
          get_connection-running p c.running
          ∙ back (no_elements p.conn_list (omega (arith, c.total, e)))),
    )

-- A connection given back after `DestroyPool`, by `connectionRAII` of a thread that still runs, makes
-- the number of connections in use -1, and stands in the list of the pool that was shut down.
pub release_connection-destroy_pool :
    (p : Pool) (con : ℕ)
    → let p' = (release_connection (some con) (destroy_pool p)).1 in
      (p'.cur_conn ≡ negsuc 0) × (p'.conn_list ≡ con ∷ []) × (get_connection p' ≡ refused)
unfolding release_connection destroy_pool get_connection wrap32 ◌-ℤ◌
release_connection-destroy_pool p con = (refl, refl, refl)
