-- ===== src/Mysql/Transaction.antt =====
-- Transactions of src/app/repository/mysql/mysql_repositories.cpp: where a session stands between
-- START TRANSACTION and COMMIT or ROLLBACK, and what the server is relied on for.
pub mod Writes
pub mod Methods
pub mod Names
pub mod Stock
pub mod Reserve
use my_bookstore.Base.{
  ◌||◌, codes, starts_with, if◌then◌else◌, refl, false, none, some, true, ◌∙◌, ◌≡◌, Bool, List,
  Option, Text, ℕ,
}
use my_bookstore.Mysql.{
  Row, ℕ, Text, Option, List, Bool, Session, Client, Statement, done, query, store_result,
  insert_id, affected_rows, run, sql, start_transaction, commit, rollback, read, write, or_return,
  or_roll_back, or_no_result, roll_back,
}

-- Behind no transaction or one that was rolled back, in one, in one with a failed statement, and behind
-- a COMMIT.
pub data Mode : Type 0 where
  idle : Mode
  inside : Mode
  broken : Mode
  committed : Mode

-- Where a statement leads, if it may stand there; true is success.
unfoldable pub next : Mode → Statement → Bool → Option Mode
next idle start_transaction true = some inside
next idle start_transaction false = some idle
next idle (read s) ok = some idle
next inside (read s) true = some inside
next inside (read s) false = some broken
next inside (write s) true = some inside
next inside (write s) false = some broken
next inside commit true = some committed
next inside commit false = some broken
next inside rollback ok = some idle
next broken rollback ok = some idle
next m statement ok = none

-- A statement that is none of the three that frame a transaction.
abbrev pub is_select : Text → Bool
is_select s = starts_with (codes "SELECT ") s

abbrev pub is_change : Text → Bool
is_change s = starts_with (codes "INSERT ") s || starts_with (codes "UPDATE ") s

abbrev pub IsPlain : Statement → Type 0
IsPlain (read s) = is_select s ≡ true
IsPlain (write s) = is_change s ≡ true
IsPlain statement = Unit

abbrev pub After : Option Mode → (Mode → Type 0) → Type 0
After none f = ⊥
After (some m) f = f m

module _ {A : Type 0} (Post : Mode → A → Type 0) where
  -- For every answer of the server, the statements stand where they may and the session ends with `Post`.
  unfoldable pub Follows : Mode → Session A → Type 0
  unfolding next
  Follows m (done a) = Post m a
  Follows m (query statement k) =
      IsPlain statement × ((ok : Bool) → After (next m statement ok) (λ m'. Follows m' (k ok)))
  Follows m (store_result k) = (r : _) → Follows m (k r)
  Follows m (insert_id k) = (n : ℕ) → Follows m (k n)
  Follows m (affected_rows k) = (n : ℕ) → Follows m (k n)

  pub Follows-roll_back : (failed : A) → Post idle failed → Follows inside (roll_back failed)
  unfolding Follows roll_back next
  Follows-roll_back failed h = (tt, λ ok. h)

  -- What follows a statement that succeeded, and one that did not.
  answers :
      (P : Bool → Session A → Type 0) (s t : Session A)
      → P true s
      → P false t
      → (ok : Bool) → P ok (if ok then s else t)
  answers P s t f g true = f
  answers P s t f g false = g

  pub Follows-or_return :
      (failed : A) (k : Session A)
      → Post idle failed
      → Follows inside k
      → Follows idle (or_return start_transaction failed k)
  unfolding Follows or_return next
  Follows-or_return failed k h g = (
    tt,
    answers (λ ok s. After (next idle start_transaction ok) (λ m. Follows m s)) k (done failed) g h,
  )

  pub Follows-write :
      (s : Text) (failed : A) (k : Session A)
      → is_change s ≡ true
      → Post idle failed
      → Follows inside k
      → Follows inside (or_roll_back (write s) failed k)
  unfolding Follows or_roll_back roll_back next
  Follows-write s failed k e h g = (
    e,
    answers (λ ok t. After (next inside (write s) ok) (λ m. Follows m t)) k (roll_back failed) g
        (tt, λ ok. h),
  )

  pub Follows-read :
      (s : Text) (failed : A) (k : Session A)
      → is_select s ≡ true
      → Post idle failed
      → Follows inside k
      → Follows inside (or_roll_back (read s) failed k)
  unfolding Follows or_roll_back roll_back next
  Follows-read s failed k e h g = (
    e,
    answers (λ ok t. After (next inside (read s) ok) (λ m. Follows m t)) k (roll_back failed) g
        (tt, λ ok. h),
  )

  pub Follows-commit :
      (failed a : A)
      → Post idle failed
      → Post committed a
      → Follows inside (or_roll_back commit failed (done a))
  unfolding Follows or_roll_back roll_back next
  Follows-commit failed a h g = (
    tt,
    answers (λ ok t. After (next inside commit ok) (λ m. Follows m t)) (done a) (roll_back failed) g
        (tt, λ ok. h),
  )

  pub Follows-if :
      (m : Mode) (b : Bool) (s t : Session A)
      → Follows m s
      → Follows m t
      → Follows m (if b then s else t)
  Follows-if m true s t f g = f
  Follows-if m false s t f g = g

  pub Follows-or_no_result :
      (failed : Session A) (k : List Row → Session A)
      → Follows inside failed
      → ((rows : List Row) → Follows inside (k rows))
      → Follows inside (or_no_result failed k)
  unfolding Follows or_no_result
  Follows-or_no_result failed k h g none = h
  Follows-or_no_result failed k h g (some rows) = g rows

module _ {D V : Type 0} (client : Client D) (con : ℕ) (stored : D → V) (current : D → V)
    (open_on : D → Bool) where
  -- What the server promises for a connection, as long as no other one writes: `stored` is what is
  -- committed, `current` what the connection's transaction sees, and `open_on` says whether it has one.
  -- A statement that fails may end the transaction.
  pub record Promises : Type 0 where
    pub starts :
        {d d' : D} {ok : Bool}
        → client.query con (sql start_transaction) d ≡ (ok, d')
        → open_on d ≡ false
        → (stored d' ≡ stored d) × ((open_on d' ≡ ok) × (ok ≡ true → current d' ≡ stored d))
    pub reads :
        {d d' : D} {ok : Bool} (s : Text)
        → is_select s ≡ true
        → client.query con s d ≡ (ok, d')
        → (stored d' ≡ stored d)
          × ((open_on d ≡ false → open_on d' ≡ false)
              × (open_on d ≡ true → ok ≡ true → (open_on d' ≡ true) × (current d' ≡ current d)))
    pub writes :
        {d d' : D} {ok : Bool} (s : Text)
        → is_change s ≡ true
        → client.query con s d ≡ (ok, d')
        → open_on d ≡ true
        → (stored d' ≡ stored d) × (ok ≡ true → open_on d' ≡ true)
    pub commits :
        {d d' : D} {ok : Bool}
        → client.query con (sql commit) d ≡ (ok, d')
        → open_on d ≡ true
        → (ok ≡ true → (open_on d' ≡ false) × (stored d' ≡ current d))
          × (ok ≡ false → stored d' ≡ stored d)
    pub rolls_back :
        {d d' : D} {ok : Bool}
        → client.query con (sql rollback) d ≡ (ok, d')
        → (open_on d' ≡ false) × (stored d' ≡ stored d)
    pub results :
        {d d' : D} {r : Option (List Row)}
        → client.store_result con d ≡ (r, d')
        → (stored d' ≡ stored d) × ((open_on d' ≡ open_on d) × (current d' ≡ current d))

  -- The server's state `d` of a session that began in `d0`.
  unfoldable pub Holds : Mode → D → D → Type 0
  Holds idle d0 d = (stored d ≡ stored d0) × (open_on d ≡ false)
  Holds inside d0 d = (stored d ≡ stored d0) × (open_on d ≡ true)
  Holds broken d0 d = stored d ≡ stored d0
  Holds committed d0 d = open_on d ≡ false

  module _ (promises : Promises) where
    query-Holds :
        (F : Mode → Type 0) (m : Mode) (statement : Statement) (d0 d : D) (ok : Bool) (d' : D)
        → client.query con (sql statement) d ≡ (ok, d')
        → Holds m d0 d
        → IsPlain statement
        → After (next m statement ok) F
        → (m' : Mode) × (Holds m' d0 d' × F m')
    unfolding Holds next sql
    query-Holds F idle start_transaction d0 d true d' e h i f =
        let p = promises.starts e h.1 in (inside, ((p.0 ∙ h.0, p.1.0), f))
    query-Holds F idle start_transaction d0 d false d' e h i f =
        let p = promises.starts e h.1 in (idle, ((p.0 ∙ h.0, p.1.0), f))
    query-Holds F idle (read s) d0 d ok d' e h i f =
        let p = promises.reads s i e in (idle, ((p.0 ∙ h.0, p.1.0 h.1), f))
    query-Holds F inside (read s) d0 d true d' e h i f =
        let p = promises.reads s i e in (inside, ((p.0 ∙ h.0, (p.1.1 h.1 refl).0), f))
    query-Holds F inside (read s) d0 d false d' e h i f =
        let p = promises.reads s i e in (broken, (p.0 ∙ h.0, f))
    query-Holds F inside (write s) d0 d true d' e h i f =
        let p = promises.writes s i e h.1 in (inside, ((p.0 ∙ h.0, p.1 refl), f))
    query-Holds F inside (write s) d0 d false d' e h i f =
        let p = promises.writes s i e h.1 in (broken, (p.0 ∙ h.0, f))
    query-Holds F inside commit d0 d true d' e h i f =
        let p = promises.commits e h.1 in (committed, ((p.0 refl).0, f))
    query-Holds F inside commit d0 d false d' e h i f =
        let p = promises.commits e h.1 in (broken, (p.1 refl ∙ h.0, f))
    query-Holds F inside rollback d0 d ok d' e h i f =
        let p = promises.rolls_back e in (idle, ((p.1 ∙ h.0, p.0), f))
    query-Holds F broken rollback d0 d ok d' e h i f =
        let p = promises.rolls_back e in (idle, ((p.1 ∙ h, p.0), f))
    query-Holds F idle commit d0 d ok d' e h i f = absurd f
    query-Holds F idle rollback d0 d ok d' e h i f = absurd f
    query-Holds F idle (write s) d0 d ok d' e h i f = absurd f
    query-Holds F inside start_transaction d0 d ok d' e h i f = absurd f
    query-Holds F broken start_transaction d0 d ok d' e h i f = absurd f
    query-Holds F broken commit d0 d ok d' e h i f = absurd f
    query-Holds F broken (read s) d0 d ok d' e h i f = absurd f
    query-Holds F broken (write s) d0 d ok d' e h i f = absurd f
    query-Holds F committed statement d0 d ok d' e h i f = absurd f

    results-Holds :
        (m : Mode) (d0 d : D) (r : Option (List Row)) (d' : D)
        → client.store_result con d ≡ (r, d')
        → Holds m d0 d
        → Holds m d0 d'
    unfolding Holds
    results-Holds idle d0 d r d' e h = let p = promises.results e in (p.0 ∙ h.0, p.1.0 ∙ h.1)
    results-Holds inside d0 d r d' e h = let p = promises.results e in (p.0 ∙ h.0, p.1.0 ∙ h.1)
    results-Holds broken d0 d r d' e h = (promises.results e).0 ∙ h
    results-Holds committed d0 d r d' e h = (promises.results e).1.0 ∙ h

    -- A session that follows the rules leaves the server in a state that fits how it ended.
    pub run-Follows :
        {A : Type 0} (Post : Mode → A → Type 0) (m : Mode) (s : Session A) (d0 d : D)
        → Holds m d0 d
        → Follows Post m s
        → let (a, d') = run client con s d in (m' : Mode) × (Holds m' d0 d' × Post m' a)
    unfolding run Follows sql
    run-Follows Post m (done a) d0 d h f = (m, (h, f))
    run-Follows Post m (query statement k) d0 d h f =
        let (ok, d') = client.query con (sql statement) d in
        let (m', (h', f')) =
          query-Holds (λ m'. Follows Post m' (k ok)) m statement d0 d ok d' refl h f.0 (f.1 ok) in
        run-Follows Post m' (k ok) d0 d' h' f'
    run-Follows Post m (store_result k) d0 d h f =
        let (r, d') = client.store_result con d in
        run-Follows Post m (k r) d0 d' (results-Holds m d0 d r d' refl h) (f r)
    run-Follows Post m (insert_id k) d0 d h f =
        let n = client.insert_id con d in run-Follows Post m (k n) d0 d h (f n)
    run-Follows Post m (affected_rows k) d0 d h f =
        let n = client.affected_rows con d in run-Follows Post m (k n) d0 d h (f n)
