-- ===== src/ThreadPool/Workers.antt =====
-- The pool under any order of calls: what was accepted, what the workers took, and what a pool that
-- was shut down still does.
-- The next thing that happens: a call of the reactor, a round of a worker, or the destructor.
use mathlib.Core.List.{append-nil, append_assoc}
use my_bookstore.Base.{
  none, ◌||◌, leb_ℤ, pos_part, some, subst, length-append, ◌<◌, false, sym, ap, arith, pos, refl,
  ◌≤◌, inr, int_eq, length, ◌∙◌, [], if◌then◌else◌, inl, leb, ltb, true, ◌++◌, Bool-cases, ℤ, ◌∷◌,
  ◌≡◌, Bool, List, ℕ,
}
use my_bookstore.ThreadPool.{
  init, Request, waits, update, leaves, takes, dispatch_proactor, round, dispatch_reactor, Round,
  Pool, take_request, shut_down, dispatch, append_p, append,
}

pub data Event : Type 0 where
  appends : ℕ → ℤ → Event
  appends_p : ℕ → Event
  works : Bool → Event
  stops : Event

-- The pool with what was accepted and what was taken so far.
pub record History : Type 0 where
  pub pool : Pool
  pub accepted : List ℕ
  pub handled : List ℕ

abbrev log_append : ℕ → Bool × Pool → History → History
log_append request (ok, p) h = record h {
  pool = p;
  accepted = if ok then h.accepted ++ request ∷ [] else h.accepted;
}

abbrev log_round : Bool → Bool → Round → History → History
log_round reactor ok waits h = h
log_round reactor ok leaves h = h
log_round reactor ok (takes request p) h = record h {
  pool = dispatch reactor ok request p;
  handled = h.handled ++ request ∷ [];
}

unfoldable pub happen : Bool → Event → History → History
happen reactor (appends request state) h = log_append request (append request state h.pool) h
happen reactor (appends_p request) h = log_append request (append_p request h.pool) h
happen reactor (works ok) h = log_round reactor ok (round h.pool) h
happen reactor stops h = record h { pool = shut_down h.pool }

unfoldable pub happen_all : Bool → List Event → History → History
happen_all reactor [] h = h
happen_all reactor (event ∷ rest) h = happen_all reactor rest (happen reactor event h)

-- Each accepted request was taken once, in the order of acceptance, or waits in the queue, which is
-- within its bound.
pub record IsOrdered (bound : ℕ) (h : History) : Type 0 where
  pub order : h.accepted ≡ h.handled ++ h.pool.workqueue
  pub bounded : length h.pool.workqueue ≤ bound
  pub same_bound : h.pool.max_requests ≡ bound

dispatch-queue :
    (reactor ok : Bool) (request : ℕ) (p : Pool)
    → ((dispatch reactor ok request p).workqueue ≡ p.workqueue)
      × ((dispatch reactor ok request p).max_requests ≡ p.max_requests)
      × ((dispatch reactor ok request p).stop ≡ p.stop)
unfolding dispatch dispatch_reactor dispatch_proactor
dispatch-queue false ok request p = (refl, refl, refl)
dispatch-queue true ok request p = elim (Bool-cases (int_eq (p.requests request).state (pos 0))) [
  | inl e ↦ elim (Bool-cases ok) [
    | inl k ↦ rw (e, k) (refl, refl, refl)
    | inr k ↦ rw (e, k) (refl, refl, refl)
  ]
  | inr e ↦ elim (Bool-cases ok) [
    | inl k ↦ rw (e, k) (refl, refl, refl)
    | inr k ↦ rw (e, k) (refl, refl, refl)
  ]
]

less : (m n : ℕ) → ltb m n ≡ true → m < n
less m n h = ground (arith, h)

-- A queue that is not full takes one more.
added-IsOrdered :
    (bound request : ℕ) (h : History) (p : Pool)
    → IsOrdered bound h
    → ltb (length h.pool.workqueue) h.pool.max_requests ≡ true
    → p.workqueue ≡ h.pool.workqueue ++ request ∷ []
    → p.max_requests ≡ h.pool.max_requests
    → IsOrdered bound (record h { pool = p; accepted = h.accepted ++ request ∷ [] })
added-IsOrdered bound request h p i k q m = record {
  order =
      ap (λ l. l ++ request ∷ []) i.order
      ∙ append_assoc h.handled h.pool.workqueue (request ∷ [])
      ∙ ap (λ l. h.handled ++ l) (sym q);
  bounded = omega (
    arith,
    ap length q,
    length-append h.pool.workqueue (request ∷ []),
    i.same_bound,
    less (length h.pool.workqueue) h.pool.max_requests k,
  );
  same_bound = m ∙ i.same_bound;
}

log_append-append :
    (bound request : ℕ) (state : ℤ) (h : History)
    → IsOrdered bound h
    → IsOrdered bound (log_append request (append request state h.pool) h)
unfolding append
log_append-append bound request state h i =
    elim (Bool-cases (leb h.pool.max_requests (length h.pool.workqueue))) [
      | inl e ↦ rw e i
      | inr e ↦ rw e (
          added-IsOrdered bound request h
            (record h.pool {
              requests = update h.pool.requests request (λ r. record r { state = state });
              workqueue = h.pool.workqueue ++ request ∷ [];
            })
            i (ground (arith, e)) refl refl)
    ]

log_append-append_p :
    (bound request : ℕ) (h : History)
    → IsOrdered bound h
    → IsOrdered bound (log_append request (append_p request h.pool) h)
unfolding append_p
log_append-append_p bound request h i =
    elim (Bool-cases (leb h.pool.max_requests (length h.pool.workqueue))) [
      | inl e ↦ rw e i
      | inr e ↦ rw e (
          added-IsOrdered bound request h
            (record h.pool { workqueue = h.pool.workqueue ++ request ∷ [] }) i (ground (arith, e))
            refl refl)
    ]

handled-IsOrdered :
    (bound request : ℕ) (rest : List ℕ) (h : History) (p : Pool)
    → IsOrdered bound h
    → h.pool.workqueue ≡ request ∷ rest
    → p.workqueue ≡ rest
    → p.max_requests ≡ h.pool.max_requests
    → IsOrdered bound (record h { pool = p; handled = h.handled ++ request ∷ [] })
handled-IsOrdered bound request rest h p i e q m = record {
  order =
      i.order
      ∙ ap (λ l. h.handled ++ l) (e ∙ ap (λ l. request ∷ l) (sym q))
      ∙ sym (append_assoc h.handled (request ∷ []) p.workqueue);
  bounded = omega (arith, i.bounded, ap length e, ap length q);
  same_bound = m ∙ i.same_bound;
}

log_round-empty :
    (reactor ok stop : Bool) (h : History)
    → log_round reactor ok (if stop then leaves else waits) h ≡ h
log_round-empty reactor ok true h = refl
log_round-empty reactor ok false h = refl

log_round-take_request :
    (bound : ℕ) (reactor ok : Bool) (queue : List ℕ) (h : History)
    → IsOrdered bound h
    → h.pool.workqueue ≡ queue
    → IsOrdered bound (log_round reactor ok (take_request queue h.pool) h)
unfolding take_request
log_round-take_request bound reactor ok [] h i e =
    subst (IsOrdered bound) (sym (log_round-empty reactor ok h.pool.stop h)) i
log_round-take_request bound reactor ok (request ∷ rest) h i e =
    let (q, m, s) = dispatch-queue reactor ok request (record h.pool { workqueue = rest }) in
    handled-IsOrdered bound request rest h
      (dispatch reactor ok request (record h.pool { workqueue = rest })) i e q m

happen-IsOrdered :
    (bound : ℕ) (reactor : Bool) (event : Event) (h : History)
    → IsOrdered bound h
    → IsOrdered bound (happen reactor event h)
unfolding happen round shut_down
happen-IsOrdered bound reactor (appends request state) h i =
    log_append-append bound request state h i
happen-IsOrdered bound reactor (appends_p request) h i = log_append-append_p bound request h i
happen-IsOrdered bound reactor (works ok) h i =
    log_round-take_request bound reactor ok h.pool.workqueue h i refl
happen-IsOrdered bound reactor stops h i = record {
  order = i.order;
  bounded = i.bounded;
  same_bound = i.same_bound;
}

happen_all-IsOrdered :
    (bound : ℕ) (reactor : Bool) (events : List Event) (h : History)
    → IsOrdered bound h
    → IsOrdered bound (happen_all reactor events h)
unfolding happen_all
happen_all-IsOrdered bound reactor [] h i = i
happen_all-IsOrdered bound reactor (event ∷ rest) h i =
    happen_all-IsOrdered bound reactor rest (happen reactor event h)
      (happen-IsOrdered bound reactor event h i)

-- Nothing accepted, nothing taken.
abbrev pub start : Pool → History
start p = record { pool = p; accepted = []; handled = [] }

init-IsOrdered :
    (threads max_requests : ℤ) (requests : ℕ → Request) (p : Pool)
    → init threads max_requests requests ≡ some p
    → IsOrdered (pos_part max_requests) (start p)
unfolding init
init-IsOrdered threads max_requests requests p e =
    let made : Pool = record {
      max_requests = pos_part max_requests;
      workqueue = [];
      stop = false;
      requests = requests;
      calls = [];
    } in
    elim (Bool-cases (leb_ℤ threads (pos 0) || leb_ℤ max_requests (pos 0))) [
      | inl k ↦ cc (subst (λ b. (if b then none else some made) ≡ some p) k e)
      | inr k ↦
          let same : made ≡ p = cc (subst (λ b. (if b then none else some made) ≡ some p) k e) in
          subst (λ q. IsOrdered (pos_part max_requests) (start q)) same
            (record { order = refl; bounded = omega arith; same_bound = refl })
    ]

-- Whatever happens in whatever order to a pool that was constructed, in both actor models: each
-- request that `append` or `append_p` accepted has been taken once, in the order of acceptance, or
-- waits in the queue, which never holds more than `max_requests`.
pub init-happen_all :
    (threads max_requests : ℤ) (requests : ℕ → Request) (p : Pool) (reactor : Bool)
    (events : List Event)
    → init threads max_requests requests ≡ some p
    → IsOrdered (pos_part max_requests) (happen_all reactor events (start p))
init-happen_all threads max_requests requests p reactor events e =
    happen_all-IsOrdered (pos_part max_requests) reactor events (start p)
      (init-IsOrdered threads max_requests requests p e)

-- As many rounds as the queue is long, each with the same result of the request's call.
abbrev pub rounds : {A : Type 0} → List A → Bool → List Event
rounds [] ok = []
rounds (request ∷ rest) ok = works ok ∷ rounds rest ok

leaves-empty :
    (queue : List ℕ) (p : Pool) → queue ≡ [] → p.stop ≡ true → take_request queue p ≡ leaves
unfolding take_request
leaves-empty [] p e s = rw s refl
leaves-empty (request ∷ rest) p e s = cc e

-- One round of a worker while a request waits.
abbrev after_round : Bool → Bool → ℕ → List ℕ → History → History
after_round reactor ok request rest h = record h {
  pool = dispatch reactor ok request (record h.pool { workqueue = rest });
  handled = h.handled ++ request ∷ [];
}

happen-works :
    (reactor ok : Bool) (request : ℕ) (rest : List ℕ) (h : History)
    → h.pool.workqueue ≡ request ∷ rest
    → happen reactor (works ok) h ≡ after_round reactor ok request rest h
unfolding happen round take_request
happen-works reactor ok request rest h q =
    ap (λ l. log_round reactor ok (take_request l h.pool) h) q

abbrev Drained : List ℕ → History → Type 0
Drained all h = (h.handled ≡ all) × (round h.pool ≡ leaves)

drain :
    (reactor ok : Bool) (queue : List ℕ) (h : History)
    → h.pool.workqueue ≡ queue
    → h.pool.stop ≡ true
    → Drained (h.handled ++ queue) (happen_all reactor (rounds queue ok) h)
unfolding happen_all round
drain reactor ok [] h q s = (sym (append-nil h.handled), leaves-empty h.pool.workqueue h.pool q s)
drain reactor ok (request ∷ rest) h q s =
    let (w, m, t) = dispatch-queue reactor ok request (record h.pool { workqueue = rest }) in
    subst (λ l. Drained l (happen_all reactor (works ok ∷ rounds rest ok) h))
      (append_assoc h.handled (request ∷ []) rest)
      (subst
        (λ x. Drained ((h.handled ++ request ∷ []) ++ rest) (happen_all reactor (rounds rest ok) x))
        (sym (happen-works reactor ok request rest h q))
        (drain reactor ok rest (after_round reactor ok request rest h) w (t ∙ s)))

-- After the destructor's signal, the workers still take every request that waits, in order, and leave
-- the loop when the queue is empty.
pub happen_all-shut_down :
    (reactor ok : Bool) (h : History)
    → let last = happen_all reactor (stops ∷ rounds h.pool.workqueue ok) h in
      (last.handled ≡ h.handled ++ h.pool.workqueue) × (round last.pool ≡ leaves)
unfolding happen_all happen shut_down
happen_all-shut_down reactor ok h =
    drain reactor ok h.pool.workqueue (record h { pool = shut_down h.pool }) refl refl
