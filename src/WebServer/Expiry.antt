-- ===== src/WebServer/Expiry.antt =====
-- `tick` closes sockets that are open.
use my_bookstore.WebServer.Changes.{names-some, and_none}
use my_bookstore.WebServer.Owners.{live_count-purge_if_many, is_node, flag, live_count, count_fd}
use my_bookstore.Base.{
  is_empty, ◌≤◌, suc, [], pos, ◌-ℤ◌, ltb, wrap32, ◌∷◌, Bool, arith, ℤ, List, true, inr, refl, sym,
  if◌then◌else◌, nat_eq_iff, subst, inl, ◌∙◌, Bool-cases, false, nat_eq, ◌≡◌, ℕ,
}
use my_bookstore.WebServer.{ℕ}
use my_bookstore.Timer
use my_bookstore.WebServer
use my_bookstore.WebServer.Served.{owned, IsServed, close-IsServed, Served, names}

-- A heap with the same live timers.
pub keep-IsServed :
    (heap heap' : List Timer.Node) (server : WebServer.Server) (ut : List (ℕ × ℕ)) (next : ℕ)
    → IsServed heap server ut next
    → ((i f : ℕ) → live_count i f heap' ≡ live_count i f heap)
    → IsServed heap' server ut next
keep-IsServed heap heap' server ut next s same = record {
  live = λ i f. same i f ∙ s.live i f;
  once = s.once;
  fresh = s.fresh;
  distinct = s.distinct;
  named = s.named;
  counted = s.counted;
  bounded = s.bounded;
}

owned_once :
    (b : Bool) (c k : ℕ) → suc k ≡ (if b then c else 0) → c ≤ 1 → (b ≡ true) × (c ≡ 1) × (k ≡ 0)
owned_once true c k e h = (refl, omega (arith, e, h), omega (arith, e, h))
owned_once false c k e h = absurd (omega (arith, e))

dropped :
    (n : Timer.Node) (rest : List Timer.Node) (i f : ℕ)
    → n.cancelled ≡ true
    → live_count i f rest ≡ live_count i f (n ∷ rest)
unfolding live_count
dropped n rest i f d =
    let none_here : flag (is_node i f n) ≡ 0 = rw d refl in omega (arith, none_here)

-- The first node of the heap is live.
module _ (n : Timer.Node) (rest : List Timer.Node) (server : WebServer.Server) (ut : List (ℕ × ℕ))
    (next : ℕ) (s : IsServed (n ∷ rest) server ut next) (live : n.cancelled ≡ false) where
  fired :
      (names (WebServer.timer_of n.sockfd ut) n.id ≡ true)
      × (count_fd n.sockfd server.opened ≡ 1)
      × (live_count n.id n.sockfd rest ≡ 0)
  unfolding live_count
  fired =
      let is : flag (is_node n.id n.sockfd n) ≡ 1 =
        rw (live, (nat_eq_iff n.id n.id).1 refl, (nat_eq_iff n.sockfd n.sockfd).1 refl) refl in
      let held = s.live n.id n.sockfd in
      owned_once _ _ _ (omega (arith, is) ∙ held) (s.once n.sockfd)

  gone : (i : ℕ) → live_count i n.sockfd rest ≡ 0
  unfolding live_count
  gone i = elim (Bool-cases (nat_eq n.id i)) [
    | inl e ↦ subst (λ j. live_count j n.sockfd rest ≡ 0) ((nat_eq_iff n.id i).0 e) fired.2
    | inr e ↦
        let named = names-some (WebServer.timer_of n.sockfd ut) n.id fired.0 in
        let none_left : owned ut server.opened i n.sockfd ≡ 0 =
          subst (λ o. (if names o i then count_fd n.sockfd server.opened else 0) ≡ 0) (sym named)
            (rw e refl) in
        let all = s.live i n.sockfd in omega (arith, all, none_left)
  ]

  kept_elsewhere :
      (i f : ℕ) → nat_eq n.sockfd f ≡ false → live_count i f rest ≡ live_count i f (n ∷ rest)
  unfolding live_count
  kept_elsewhere i f e =
      let other : flag (is_node i f n) ≡ 0 =
        rw live (and_none (nat_eq n.id i) (nat_eq n.sockfd f) e) in
      omega (arith, other)

-- The loop of `tick` closes the sockets of live timers only, each of which is open.
pub tick_loop-Served :
    (cur : ℕ) (heap : List Timer.Node) (count : ℤ) (server : WebServer.Server) (ut : List (ℕ × ℕ))
    (next : ℕ)
    → IsServed heap server ut next
    → IsServed
        (Timer.tick_loop WebServer.cb_func cur heap count server).0.heap
        (Timer.tick_loop WebServer.cb_func cur heap count server).1
        ut
        next
unfolding Timer.tick_loop
tick_loop-Served cur [] count server ut next s = s
tick_loop-Served cur (n ∷ rest) count server ut next s = elim (Bool-cases (ltb cur n.expire)) [
  | inl e ↦ rw e s
  | inr e ↦ elim (Bool-cases n.cancelled) [
    | inl d ↦
        rw (e, d)
          (tick_loop-Served cur rest (wrap32 (count -ℤ pos 1)) server ut next
            (keep-IsServed (n ∷ rest) rest server ut next s (λ i f. dropped n rest i f d)))
    | inr d ↦
        rw (e, d)
          (tick_loop-Served cur rest count (WebServer.cb_func n.sockfd server) ut next (
            close-IsServed (n ∷ rest) rest server ut next n.sockfd s
              (fired n rest server ut next s d).1 (gone n rest server ut next s d)
              (kept_elsewhere n rest server ut next s d)))
  ]
]

pub timer_handler-Served :
    (st : WebServer.State) (now : ℕ) → Served st → Served (WebServer.timer_handler now st)
unfolding WebServer.timer_handler Timer.tick
timer_handler-Served st now s = elim (Bool-cases (is_empty st.timers.heap)) [
  | inl e ↦ rw e s
  | inr e ↦ rw e (
      keep-IsServed _ _ _ st.users_timer st.next
        (tick_loop-Served now st.timers.heap st.timers.cancelled_count st.server st.users_timer
          st.next s)
        (λ i f. live_count-purge_if_many i f _))
]
