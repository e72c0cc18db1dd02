-- ===== src/WebServer/Changes.antt =====
-- The changes of a timer, and connections that are accepted.
use my_bookstore.WebServer.Owners.{
  live_count-insert_node, live_count-purge_if_many, is_node, live_count-extend, flag,
  live_count-cancel, live_count-cancelled, live_count, count_fd,
}
use my_bookstore.Base.{
  wrap32-sum, pos, ◌+ℤ◌, wrap32, ◌&&◌, ◌<◌, Bool, arith, length, none, ◌+◌, ap, List, Option, true,
  inr, refl, sym, if◌then◌else◌, nat_eq_iff, subst, inl, ◌∙◌, Bool-cases, false, nat_eq, some, ◌≡◌,
  ℕ,
}
use my_bookstore.WebServer.{ℕ}
use my_bookstore.Timer
use my_bookstore.WebServer
use my_bookstore.WebServer.Served.{none_owned, renew-IsServed, close-IsServed, Served, names}

pub names-some : (o : Option ℕ) (i : ℕ) → names o i ≡ true → o ≡ some i
names-some none i h = cc h
names-some (some j) i h = ap some ((nat_eq_iff j i).0 h)

and_same : (b c : Bool) → c ≡ true → flag (b && c) ≡ flag b
and_same true c e = ap flag e
and_same false c e = refl

pub and_none : (b c : Bool) → c ≡ false → flag (b && c) ≡ 0
and_none true c e = ap flag e
and_none false c e = refl

-- The new timer is counted for its own socket only.
new_here :
    (st : WebServer.State) (now fd i n : ℕ)
    → n ≡ 0
    → flag (is_node i fd (WebServer.new_timer now fd st)) + n ≡ flag (nat_eq st.next i)
new_here st now fd i n e =
    let self : nat_eq fd fd ≡ true = (nat_eq_iff fd fd).1 refl in
    let mine = and_same (nat_eq st.next i) (nat_eq fd fd) self in omega (arith, e, mine)

new_elsewhere :
    (st : WebServer.State) (now fd i f n k : ℕ)
    → nat_eq fd f ≡ false
    → n ≡ k
    → flag (is_node i f (WebServer.new_timer now fd st)) + n ≡ k
new_elsewhere st now fd i f n k d e =
    let other = and_none (nat_eq st.next i) (nat_eq fd f) d in omega (arith, e, other)

-- A timer of an open socket, and no other live timer of the socket.
module _ (st : WebServer.State) (id fd : ℕ) (s : Served st)
    (named : WebServer.timer_of fd st.users_timer ≡ some id)
    (is_open : count_fd fd st.server.opened ≡ 1) where
  -- Another number is not live for the socket.
  other-live : (i : ℕ) → nat_eq id i ≡ false → live_count i fd st.timers.heap ≡ 0
  other-live i e =
      s.live i fd
      ∙ subst (λ o. (if names o i then count_fd fd st.server.opened else 0) ≡ 0) (sym named)
          (rw e refl)

  -- The number is not live for another socket.
  elsewhere-live : (f : ℕ) → nat_eq fd f ≡ false → live_count id f st.timers.heap ≡ 0
  elsewhere-live f e = elim (Bool-cases (names (WebServer.timer_of f st.users_timer) id)) [
    | inl n ↦ absurd (
        let same =
          s.distinct fd f id named (names-some (WebServer.timer_of f st.users_timer) id n) in
        let is : nat_eq fd f ≡ true = (nat_eq_iff fd f).1 same in cc (is, e))
    | inr n ↦ s.live id f ∙ rw n refl
  ]

  module _ (heap : List Timer.Node)
      (same : (i f : ℕ) → live_count i f heap ≡ live_count i f st.timers.heap) where
    cancelled_here : (i : ℕ) → live_count i fd (Timer.change_node Timer.cancel id heap) ≡ 0
    cancelled_here i = elim (Bool-cases (nat_eq id i)) [
      | inl e ↦
          subst (λ j. live_count j fd (Timer.change_node Timer.cancel id heap) ≡ 0)
            ((nat_eq_iff id i).0 e) (live_count-cancelled fd id heap)
      | inr e ↦ live_count-cancel i fd id heap e ∙ same i fd ∙ other-live i e
    ]

    cancelled_elsewhere :
        (i f : ℕ)
        → nat_eq fd f ≡ false
        → live_count i f (Timer.change_node Timer.cancel id heap) ≡ live_count i f st.timers.heap
    cancelled_elsewhere i f d = elim (Bool-cases (nat_eq id i)) [
      | inl e ↦
          subst
            (λ j.
              live_count j f (Timer.change_node Timer.cancel id heap)
              ≡ live_count j f st.timers.heap)
            ((nat_eq_iff id i).0 e) (live_count-cancelled f id heap ∙ sym (elsewhere-live f d))
      | inr e ↦ live_count-cancel i f id heap e ∙ same i f
    ]

  pub deal_timer-Served : Served (WebServer.deal_timer id fd st)
  unfolding WebServer.deal_timer Timer.del_timer
  deal_timer-Served =
      close-IsServed st.timers.heap (Timer.change_node Timer.cancel id st.timers.heap) st.server
        st.users_timer st.next fd s is_open (cancelled_here st.timers.heap (λ i f. refl))
        (cancelled_elsewhere st.timers.heap (λ i f. refl))

  -- The heap of `adjust_timer` in front of the purge.
  renewed :
      (now i f : ℕ)
      → live_count i f (WebServer.adjust_timer now id fd st).timers.heap
        ≡ flag (is_node i f (WebServer.new_timer now fd st))
          + live_count i f (
              Timer.change_node Timer.cancel id
                (Timer.change_node (WebServer.extend now) id st.timers.heap))
  unfolding WebServer.adjust_timer Timer.adjust_timer Timer.add_timer Timer.del_timer
  renewed now i f =
      live_count-purge_if_many i f _ ∙ live_count-insert_node i f (WebServer.new_timer now fd st) _

  pub adjust_timer-Served : (now : ℕ) → Served (WebServer.adjust_timer now id fd st)
  unfolding WebServer.adjust_timer
  adjust_timer-Served now =
      let extended = λ (i f : ℕ). live_count-extend i f now id st.timers.heap in
      renew-IsServed st.timers.heap (WebServer.adjust_timer now id fd st).timers.heap st.server
        st.server st.users_timer st.next fd s is_open (λ f e. refl) s.counted s.bounded
        (λ i. renewed now i fd ∙ new_here st now fd i _ (cancelled_here _ extended i))
        (λ i f e.
          renewed now i f
          ∙ new_elsewhere st now fd i f _ _ e (cancelled_elsewhere _ extended i f e))

-- A connection that is accepted.
pub timer-Served :
    (st : WebServer.State) (now fd : ℕ)
    → Served st
    → count_fd fd st.server.opened ≡ 0
    → length st.server.opened < WebServer.max_fd
    → Served (WebServer.timer now fd st)
unfolding WebServer.timer Timer.add_timer count_fd
timer-Served st now fd s closed small =
    let self : flag (nat_eq fd fd) ≡ 1 = ap flag ((nat_eq_iff fd fd).1 refl) in
    let one : flag (nat_eq fd fd) + count_fd fd st.server.opened ≡ 1 =
      omega (arith, self, closed) in
    renew-IsServed st.timers.heap (Timer.insert_node (WebServer.new_timer now fd st) st.timers.heap)
      st.server (WebServer.timer now fd st).server st.users_timer st.next fd s one
      (λ f e. rw e (omega arith))
      (ap (λ u. wrap32 (u +ℤ pos 1)) s.counted
        ∙ wrap32-sum (length st.server.opened) 1 (omega arith)
        ∙ ap pos (omega arith))
      (omega arith)
      (λ i.
        live_count-insert_node i fd (WebServer.new_timer now fd st) st.timers.heap
        ∙ new_here st now fd i _
            (s.live i fd ∙ none_owned (names (WebServer.timer_of fd st.users_timer) i) _ closed))
      (λ i f e.
        live_count-insert_node i f (WebServer.new_timer now fd st) st.timers.heap
        ∙ new_elsewhere st now fd i f _ _ e refl)
