-- ===== src/BlockQueue/Schedule.antt =====
-- The blocking calls, and every order in which producers and consumers may take the mutex.
use mathlib.Core.List.{append_assoc}
use native.Mathlib.Decide.{dec_lt}
use my_bookstore.Base.{
  pos, ◌<◌, ℕ, ◌&&◌, Bool, ap, ◌∙◌, refl, ltb, arith, nat_eq, inr, none, sym, true, false, inl,
  some, Bool-cases, [], ◌++◌, ◌∷◌, ◌≡◌, List, Option, if◌then◌else◌,
}
use my_bookstore.BlockQueue.{
  init, if◌then◌else◌, Option, List, Queue, push, pop, close, Popped, waits, fails, gives,
}
use my_bookstore.BlockQueue.Ring.{Holds}
use my_bookstore.BlockQueue.Fifo.{init-Holds, push-full, push-Holds, take_front-Holds}

and_false : (b : Bool) → (b && false) ≡ false
and_false true = refl
and_false false = refl

module _ {T : Type 0} where
  -- A queue that holds the items gives the oldest one, also when it is closed; an empty queue fails
  -- when it is closed, and makes its caller wait otherwise.
  abbrev pub Answers : Queue T → List T → Popped T → Type 0
  Answers q [] waits = q.closed ≡ false
  Answers q [] fails = q.closed ≡ true
  Answers q [] (gives o q') = ⊥
  Answers q (x ∷ xs) waits = ⊥
  Answers q (x ∷ xs) fails = ⊥
  Answers q (x ∷ xs) (gives o q') = (o ≡ some x) × Holds q' xs

  -- What `pop` does on a ring that holds some items, closed or not: it returns the oldest and
  -- leaves the others; without items it fails if the queue is closed, and waits if not.
  pub pop-Answers : (q : Queue T) (xs : List T) → Holds q xs → Answers q xs (pop q)
  unfolding pop
  pop-Answers q [] h = elim (Bool-cases q.closed) [
    | inl shut ↦ rw (sym h.count, shut) refl
    | inr still ↦ rw (sym h.count, still) refl
  ]
  pop-Answers q (x ∷ xs) h =
      let some_left : nat_eq q.size 0 ≡ false = ground (arith, h.count) in
      let ready : ltb 0 q.size ≡ true = ground (arith, h.count) in
      rw (ready, some_left, and_false q.closed) (take_front-Holds x xs h)

pub data Call (T : Type 0) : Type 0 where
  pushes : T → Call T
  pops : Call T
  closes : Call T

-- The queue, the items that were accepted so far and the items that were handed out.
pub record Trace (T : Type 0) : Type 0 where
  pub queue : Queue T
  pub sent : List T
  pub received : List T

abbrev to_list : {T : Type 0} → Option T → List T
to_list none = []
to_list (some x) = x ∷ []

module _ {T : Type 0} where
  -- A caller that waits, or that is told that the queue is closed, changes nothing.
  unfoldable pub after_pop : Trace T → Popped T → Trace T
  after_pop t waits = t
  after_pop t fails = t
  after_pop t (gives o q) = record t { queue = q; received = t.received ++ to_list o }

  unfoldable pub step : Trace T → Call T → Trace T
  unfolding after_pop
  step t (pushes x) =
      let (done, q) = push x t.queue in
      record t { queue = q; sent = if done then t.sent ++ x ∷ [] else t.sent }
  step t pops = after_pop t (pop t.queue)
  step t closes = record t { queue = close t.queue }

  unfoldable pub run : Trace T → List (Call T) → Trace T
  run t [] = t
  run t (c ∷ cs) = run (step t c) cs

  -- What was accepted is what was handed out, then what the queue still holds, in that order.
  abbrev pub IsFifo : Trace T → Type 0
  IsFifo t = (xs : List T) × Holds t.queue xs × (t.sent ≡ t.received ++ xs)

  after_pop-IsFifo :
      (t : Trace T) (xs : List T) (p : Popped T)
      → Answers t.queue xs p
      → Holds t.queue xs
      → t.sent ≡ t.received ++ xs
      → IsFifo (after_pop t p)
  unfolding after_pop
  after_pop-IsFifo t xs waits a h e = (xs, h, e)
  after_pop-IsFifo t xs fails a h e = (xs, h, e)
  after_pop-IsFifo t [] (gives o q) a h e = absurd a
  after_pop-IsFifo t (x ∷ xs) (gives o q) (out, left) h e =
      (xs, left, rw out (e ∙ sym (append_assoc t.received (x ∷ []) xs)))

  step-IsFifo : (t : Trace T) (c : Call T) → IsFifo t → IsFifo (step t c)
  unfolding step close
  step-IsFifo t (pushes x) (xs, h, e) = elim (dec_lt t.queue.size t.queue.max_size) [
    | yes room ↦
        let (done, after) = push-Holds h x room in
        (
          xs ++ x ∷ [],
          after,
          rw done (ap (λ l. l ++ x ∷ []) e ∙ append_assoc t.received xs (x ∷ [])),
        )
    | no over ↦ rw (push-full h (omega arith) x) (xs, h, e)
  ]
  step-IsFifo t pops (xs, h, e) = after_pop-IsFifo t xs (pop t.queue) (pop-Answers t.queue xs h) h e
  step-IsFifo t closes (xs, h, e) = (
    xs,
    record {
      cells = h.cells;
      positive = h.positive;
      count = h.count;
      bounded = h.bounded;
      tail = h.tail;
      items = h.items;
    },
    e,
  )

  -- Whatever the order of `push`, `pop` and `close` calls: if the items accepted so far are those
  -- handed out followed by those in the ring, in order, then this holds after the calls.
  pub run-IsFifo : (t : Trace T) (cs : List (Call T)) → IsFifo t → IsFifo (run t cs)
  unfolding run
  run-IsFifo t [] h = h
  run-IsFifo t (c ∷ cs) h = run-IsFifo (step t c) cs (step-IsFifo t c h)

  -- A queue made by the constructor for a positive number of cells: whatever the order of `push`,
  -- `pop` and `close` calls, the items that were accepted are those handed out followed by those in
  -- the ring, in order.
  pub init-run :
      (default : T) (cells : ℕ)
      → 0 < cells
      → (cs : List (Call T))
      → (q : Queue T) × (init default (pos cells) ≡ some q)
        × IsFifo (run (record { queue = q; sent = []; received = [] }) cs)
  init-run default cells h cs =
      let (q, made, held, same) = init-Holds default cells h in
      (q, made, run-IsFifo (record { queue = q; sent = []; received = [] }) cs ([], held, refl))
