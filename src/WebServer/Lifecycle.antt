-- ===== src/WebServer/Lifecycle.antt =====
-- The proactor serves each open connection with one live timer.
use my_bookstore.WebServer.Expiry.{timer_handler-Served}
use my_bookstore.WebServer.Changes.{timer-Served, deal_timer-Served, adjust_timer-Served}
use my_bookstore.WebServer.Owners.{live_count, count_fd}
use my_bookstore.Base.{
  ◌∙◌, refl, sym, subst, inr, ◌<◌, inl, length, true, Bool-cases, [], arith, none, pos, Bool, false,
  leb_ℤ, ◌∷◌, ◌≡◌, List, Option, ℕ,
}
use my_bookstore.WebServer.Served.{Served}
use my_bookstore.WebServer.{ℕ, some, Server, Option, List}
use my_bookstore.WebServer

-- What `epoll_wait` and `accept` can report: accepted sockets are not open yet, and the other events
-- are about open ones.
abbrev pub AreUnopened : List (Option ℕ) → List ℕ → Type 0
AreUnopened [] opened = Unit
AreUnopened (none ∷ rest) opened = Unit
AreUnopened (some fd ∷ rest) opened = (count_fd fd opened ≡ 0) × AreUnopened rest (fd ∷ opened)

abbrev pub IsPossible : WebServer.Event → WebServer.State → Type 0
IsPossible (WebServer.connects none) st = Unit
IsPossible (WebServer.connects (some fd)) st = count_fd fd st.server.opened ≡ 0
IsPossible (WebServer.connects_et fds) st = AreUnopened fds st.server.opened
IsPossible (WebServer.hangs_up fd) st = count_fd fd st.server.opened ≡ 1
IsPossible (WebServer.readable fd done) st = count_fd fd st.server.opened ≡ 1
IsPossible (WebServer.writable fd done) st = count_fd fd st.server.opened ≡ 1
IsPossible WebServer.alarms st = Unit

not_full :
    (st : WebServer.State)
    → Served st
    → leb_ℤ (pos WebServer.max_fd) st.server.user_count ≡ false
    → length st.server.opened < WebServer.max_fd
not_full st s e =
    let e' = subst (λ u. leb_ℤ (pos WebServer.max_fd) u ≡ false) s.counted e in ground (arith, e')

accept_one-Served :
    (st : WebServer.State) (now fd : ℕ)
    → Served st
    → count_fd fd st.server.opened ≡ 0
    → Served (WebServer.accept_one now (some fd) st)
unfolding WebServer.accept_one
accept_one-Served st now fd s closed =
    elim (Bool-cases (leb_ℤ (pos WebServer.max_fd) st.server.user_count)) [
      | inl e ↦ rw e s
      | inr e ↦ rw e (timer-Served st now fd s closed (not_full st s e))
    ]

accept_loop-Served :
    (fds : List (Option ℕ)) (st : WebServer.State) (now : ℕ)
    → Served st
    → AreUnopened fds st.server.opened
    → Served (WebServer.accept_loop now fds st)
unfolding WebServer.accept_loop WebServer.timer
accept_loop-Served [] st now s u = s
accept_loop-Served (none ∷ rest) st now s u = s
accept_loop-Served (some fd ∷ rest) st now s u =
    elim (Bool-cases (leb_ℤ (pos WebServer.max_fd) st.server.user_count)) [
      | inl e ↦ rw e s
      | inr e ↦ rw e (
          accept_loop-Served rest (WebServer.timer now fd st) now
            (timer-Served st now fd s u.0 (not_full st s e)) u.1)
    ]

-- The event is handled, and leaves a state of this kind.
abbrev Handles : Option WebServer.State → Type 0
Handles o = (st : WebServer.State) × ((o ≡ some st) × Served st)

proactor-Served :
    (st : WebServer.State) (now id fd : ℕ) (done : Bool)
    → Served st
    → WebServer.timer_of fd st.users_timer ≡ some id
    → count_fd fd st.server.opened ≡ 1
    → Served (WebServer.proactor now id fd done st)
unfolding WebServer.proactor
proactor-Served st now id fd true s n o = adjust_timer-Served st id fd s n o now
proactor-Served st now id fd false s n o = deal_timer-Served st id fd s n o

with_timer-Handles :
    (st : WebServer.State) (fd : ℕ) (without : Option WebServer.State)
    (f : ℕ → WebServer.State → WebServer.State)
    → Served st
    → count_fd fd st.server.opened ≡ 1
    → ((id : ℕ) → WebServer.timer_of fd st.users_timer ≡ some id → Served (f id st))
    → Handles (WebServer.with_timer fd without f st)
with_timer-Handles st fd without f s o k =
    let (id, named) = s.named fd (omega (arith, o)) in
    subst (λ o. Handles (elim o [ none ↦ without | some i ↦ some (f i st) ])) (sym named)
      (f id st, (refl, k id named))

-- With the proactor, where each open socket has one live timer, each event about a socket that is
-- open, and each accepted socket that is not, is handled without a call through a null timer, and
-- leaves each open socket with one live timer, no other live timer, and a count of users that is the
-- number of open sockets.
pub handle-Served :
    (st : WebServer.State) (now : ℕ) (event : WebServer.Event)
    → Served st
    → IsPossible event st
    → (st' : WebServer.State) × ((WebServer.handle false now event st ≡ some st') × Served st')
unfolding WebServer.handle
handle-Served st now (WebServer.connects none) s p = (st, (refl, s))
handle-Served st now (WebServer.connects (some fd)) s p =
    (WebServer.accept_one now (some fd) st, (refl, accept_one-Served st now fd s p))
handle-Served st now (WebServer.connects_et fds) s p =
    (WebServer.accept_loop now fds st, (refl, accept_loop-Served fds st now s p))
handle-Served st now (WebServer.hangs_up fd) s p =
    with_timer-Handles st fd none (λ id. WebServer.deal_timer id fd) s p
      (λ id n. deal_timer-Served st id fd s n p)
handle-Served st now (WebServer.readable fd done) s p =
    with_timer-Handles st fd (WebServer.untimed done st) (λ id. WebServer.proactor now id fd done) s
      p (λ id n. proactor-Served st now id fd done s n p)
handle-Served st now (WebServer.writable fd done) s p =
    with_timer-Handles st fd (WebServer.untimed done st) (λ id. WebServer.proactor now id fd done) s
      p (λ id n. proactor-Served st now id fd done s n p)
handle-Served st now WebServer.alarms s p =
    (WebServer.timer_handler now st, (refl, timer_handler-Served st now s))

-- What the server can come to from its start, event by event, at any times.
pub data Reach : WebServer.State → Type 0 where
  starts : Reach WebServer.started
  handles :
      (st st' : WebServer.State) (now : ℕ) (event : WebServer.Event)
      → Reach st
      → IsPossible event st
      → WebServer.handle false now event st ≡ some st'
      → Reach st'

started-Served : Served WebServer.started
unfolding live_count count_fd WebServer.timer_of
started-Served = record {
  live = λ i f. refl;
  once = λ f. omega arith;
  fresh = λ f i h. absurd (cc h);
  distinct = λ f g i h k. absurd (cc h);
  named = λ f h. absurd (omega arith);
  counted = refl;
  bounded = omega arith;
}

some_injective : {a b : WebServer.State} → some a ≡ some b → a ≡ b
some_injective e = cc e

-- In every state that the proactor comes to, each open socket has one live timer, there is no other
-- live timer, and the count of users is the number of open sockets.
pub Reach-Served : (st : WebServer.State) → Reach st → Served st
Reach-Served _ starts = started-Served
Reach-Served _ (handles st st' now event r p e) =
    let (st'', (e', s)) = handle-Served st now event (Reach-Served st r) p in
    subst Served (some_injective (sym e' ∙ e)) s
