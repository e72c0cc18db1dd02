-- ===== src/WebServer/Served.antt =====
-- Each open connection has one live timer.
use my_bookstore.WebServer.Owners.{
  length-remove_fd, count_fd-remove_fd, count_fd-remove_fd_other, flag, live_count, count_fd,
}
use my_bookstore.Base.{
  wrap32-difference, ◌-ℤ◌, wrap32, ap, nat_eq_iff, refl, ◌⊎◌, subst, sym, true, arith, ◌+◌, ◌∙◌,
  ◌∷◌, inr, inl, length, Bool-cases, none, pos, ◌<◌, nat_eq, some, ◌≤◌, false, ◌≡◌, Bool,
  if◌then◌else◌, ℕ, List, Option,
}
use my_bookstore.WebServer.{Option, List}
use my_bookstore.Timer
use my_bookstore.WebServer

-- The pointer names the node of this number.
abbrev pub names : Option ℕ → ℕ → Bool
names none i = false
names (some j) i = nat_eq j i

-- Whether `users_timer` gives this timer to this socket, and the socket is open.
abbrev pub owned : List (ℕ × ℕ) → List ℕ → ℕ → ℕ → ℕ
owned ut opened i f = if names (WebServer.timer_of f ut) i then count_fd f opened else 0

-- The live timers of the heap are those that `users_timer` names for the open sockets, one for each;
-- no timer is named twice, and the count of users is that of the open sockets.
pub record IsServed (heap : List Timer.Node) (server : WebServer.Server) (ut : List (ℕ × ℕ))
    (next : ℕ) : Type 0 where
  pub live : (i f : ℕ) → live_count i f heap ≡ owned ut server.opened i f
  pub once : (f : ℕ) → count_fd f server.opened ≤ 1
  pub fresh : (f i : ℕ) → WebServer.timer_of f ut ≡ some i → i < next
  pub distinct :
      (f g i : ℕ) → WebServer.timer_of f ut ≡ some i → WebServer.timer_of g ut ≡ some i → f ≡ g
  pub named : (f : ℕ) → 0 < count_fd f server.opened → (i : ℕ) × (WebServer.timer_of f ut ≡ some i)
  pub counted : server.user_count ≡ pos (length server.opened)
  pub bounded : length server.opened ≤ WebServer.max_fd

abbrev pub Served : WebServer.State → Type 0
Served st = IsServed st.timers.heap st.server st.users_timer st.next

pub none_owned : (b : Bool) (n : ℕ) → n ≡ 0 → (if b then n else 0) ≡ 0
none_owned true n e = e
none_owned false n e = refl

if-flag : (b : Bool) (n : ℕ) → n ≡ 1 → flag b ≡ (if b then n else 0)
if-flag true n e = sym e
if-flag false n e = refl

some_same : (m n : ℕ) → some m ≡ some n → m ≡ n
some_same m n h = cc h

-- Whose timer it is, after the newest entry.
newest :
    (b : Bool) (next i : ℕ) (o : Option ℕ)
    → (if b then some next else o) ≡ some i
    → ((b ≡ true) × (next ≡ i)) ⊎ ((b ≡ false) × (o ≡ some i))
newest true next i o h = inl (refl, some_same next i h)
newest false next i o h = inr (refl, h)

-- A socket is closed, and its timer is not live any more.
pub close-IsServed :
    (heap heap' : List Timer.Node) (server : WebServer.Server) (ut : List (ℕ × ℕ)) (next fd : ℕ)
    → IsServed heap server ut next
    → count_fd fd server.opened ≡ 1
    → ((i : ℕ) → live_count i fd heap' ≡ 0)
    → ((i f : ℕ) → nat_eq fd f ≡ false → live_count i f heap' ≡ live_count i f heap)
    → IsServed heap' (WebServer.cb_func fd server) ut next
unfolding WebServer.cb_func
close-IsServed heap heap' server ut next fd s open_fd gone kept = record {
  live = λ i f. elim (Bool-cases (nat_eq fd f)) [
    | inl e ↦
        let closed = count_fd-remove_fd fd server.opened in
        let no_more : count_fd fd (WebServer.remove_fd fd server.opened) ≡ 0 =
          omega (arith, closed) in
        let at_fd = gone i ∙ sym (none_owned (names (WebServer.timer_of fd ut) i) _ no_more) in
        subst (λ g. live_count i g heap' ≡ owned ut (WebServer.remove_fd fd server.opened) i g)
          ((nat_eq_iff fd f).0 e) at_fd
    | inr e ↦
        let other = count_fd-remove_fd_other fd f server.opened e in
        rw other (kept i f e ∙ s.live i f)
  ];
  once = λ f. elim (Bool-cases (nat_eq fd f)) [
    | inl e ↦
        let closed = count_fd-remove_fd fd server.opened in
        let at_fd : count_fd fd (WebServer.remove_fd fd server.opened) ≤ 1 =
          omega (arith, closed) in
        subst (λ g. count_fd g (WebServer.remove_fd fd server.opened) ≤ 1) ((nat_eq_iff fd f).0 e)
          at_fd
    | inr e ↦ let k = count_fd-remove_fd_other fd f server.opened e in let o = s.once f in rw k o
  ];
  fresh = s.fresh;
  distinct = s.distinct;
  named = λ f h. elim (Bool-cases (nat_eq fd f)) [
    | inl e ↦
        let closed = count_fd-remove_fd fd server.opened in
        absurd (
          let h' : 0 < count_fd fd (WebServer.remove_fd fd server.opened) =
            subst (λ g. 0 < count_fd g (WebServer.remove_fd fd server.opened))
              (sym ((nat_eq_iff fd f).0 e)) h in
          omega (arith, h', closed, open_fd))
    | inr e ↦ s.named f (subst (λ k. 0 < k) (count_fd-remove_fd_other fd f server.opened e) h)
  ];
  counted =
      let l = length-remove_fd fd server.opened (omega arith) in
      let b = s.bounded in
      ap (λ u. wrap32 (u -ℤ pos 1)) s.counted
      ∙ wrap32-difference (length server.opened) 1 (omega (arith, l)) (omega (arith, b))
      ∙ ap pos (omega (arith, l));
  bounded =
      let l = length-remove_fd fd server.opened (omega arith) in
      let b = s.bounded in omega (arith, l, b);
}

-- A socket is open, and has a new timer.
pub renew-IsServed :
    (heap heap' : List Timer.Node) (server server' : WebServer.Server) (ut : List (ℕ × ℕ))
    (next fd : ℕ)
    → IsServed heap server ut next
    → count_fd fd server'.opened ≡ 1
    → ((f : ℕ) → nat_eq fd f ≡ false → count_fd f server'.opened ≡ count_fd f server.opened)
    → server'.user_count ≡ pos (length server'.opened)
    → length server'.opened ≤ WebServer.max_fd
    → ((i : ℕ) → live_count i fd heap' ≡ flag (nat_eq next i))
    → ((i f : ℕ) → nat_eq fd f ≡ false → live_count i f heap' ≡ live_count i f heap)
    → IsServed heap' server' ((fd, next) ∷ ut) (next + 1)
unfolding WebServer.timer_of
renew-IsServed heap heap' server server' ut next fd s one same count bound new kept = record {
  live = λ i f. elim (Bool-cases (nat_eq fd f)) [
    | inl e ↦ rw e (
        subst (λ g. live_count i g heap' ≡ (if nat_eq next i then count_fd g server'.opened else 0))
          ((nat_eq_iff fd f).0 e)
          (new i ∙ if-flag (nat_eq next i) (count_fd fd server'.opened) one))
    | inr e ↦ rw (e, same f e) (kept i f e ∙ s.live i f)
  ];
  once = λ f. elim (Bool-cases (nat_eq fd f)) [
    | inl e ↦
        subst (λ g. count_fd g server'.opened ≤ 1) ((nat_eq_iff fd f).0 e) (omega (arith, one))
    | inr e ↦ let o = s.once f in rw (same f e) o
  ];
  fresh = λ f i h. elim (newest (nat_eq fd f) next i (WebServer.timer_of f ut) h) [
    | inl (e, p) ↦ omega (arith, p)
    | inr (e, p) ↦ let old = s.fresh f i p in omega (arith, old)
  ];
  distinct = λ f g i h k. elim (newest (nat_eq fd f) next i (WebServer.timer_of f ut) h) [
    | inl (e, p) ↦ elim (newest (nat_eq fd g) next i (WebServer.timer_of g ut) k) [
      | inl (d, q) ↦ sym ((nat_eq_iff fd f).0 e) ∙ (nat_eq_iff fd g).0 d
      | inr (d, q) ↦ absurd (let old = s.fresh g i q in omega (arith, old, p))
    ]
    | inr (e, p) ↦ elim (newest (nat_eq fd g) next i (WebServer.timer_of g ut) k) [
      | inl (d, q) ↦ absurd (let old = s.fresh f i p in omega (arith, old, q))
      | inr (d, q) ↦ s.distinct f g i p q
    ]
  ];
  named = λ f h. elim (Bool-cases (nat_eq fd f)) [
    | inl e ↦ (next, rw e refl)
    | inr e ↦ let old = s.named f (subst (λ k. 0 < k) (same f e) h) in (old.0, rw e old.1)
  ];
  counted = count;
  bounded = bound;
}
