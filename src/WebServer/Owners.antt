-- ===== src/WebServer/Owners.antt =====
-- Counts of the timers that are not cancelled, and of the sockets that are open.
use my_bookstore.Base.{
  nat_eq_iff, sym, ap, subst, ◌∙◌, arith, inr, pos, [], inl, leb_ℤ, length, ltb, refl, ◌&&◌,
  Bool-cases, false, nat_eq, true, ◌+◌, ◌-◌, ◌<◌, ◌∷◌, List, if◌then◌else◌, ◌≡◌, Bool, ℕ,
}
use my_bookstore.WebServer.{extend, remove_fd}
use my_bookstore.Timer

abbrev pub flag : Bool → ℕ
flag b = if b then 1 else 0

-- The node is live, and has this number and this socket.
abbrev pub is_node : ℕ → ℕ → Timer.Node → Bool
is_node i f n = if n.cancelled then false else nat_eq n.id i && nat_eq n.sockfd f

unfoldable pub live_count : ℕ → ℕ → List Timer.Node → ℕ
live_count i f [] = 0
live_count i f (n ∷ rest) = flag (is_node i f n) + live_count i f rest

pub live_count-insert_node :
    (i f : ℕ) (n : Timer.Node) (l : List Timer.Node)
    → live_count i f (Timer.insert_node n l) ≡ flag (is_node i f n) + live_count i f l
unfolding live_count Timer.insert_node
live_count-insert_node i f n [] = refl
live_count-insert_node i f n (m ∷ rest) = elim (Bool-cases (ltb n.expire m.expire)) [
  | inl e ↦ rw e refl
  | inr e ↦ rw e (let ih = live_count-insert_node i f n rest in omega (arith, ih))
]

if-is_node :
    (b : Bool) (i f : ℕ) (m n : Timer.Node)
    → is_node i f m ≡ is_node i f n
    → is_node i f (if b then m else n) ≡ is_node i f n
if-is_node true i f m n e = e
if-is_node false i f m n e = refl

pub live_count-extend :
    (i f now id : ℕ) (l : List Timer.Node)
    → live_count i f (Timer.change_node (extend now) id l) ≡ live_count i f l
unfolding live_count Timer.change_node
live_count-extend i f now id [] = refl
live_count-extend i f now id (n ∷ rest) =
    let first = if-is_node (nat_eq n.id id) i f (extend now n) n refl in
    rw (first, live_count-extend i f now id rest) refl

pub nat_eq_moves : (x f g : ℕ) → nat_eq x f ≡ true → nat_eq f g ≡ false → nat_eq x g ≡ false
nat_eq_moves x f g e h = subst (λ k. nat_eq k g ≡ false) (sym ((nat_eq_iff x f).0 e)) h

pub is_node_other : (i f : ℕ) (n : Timer.Node) → nat_eq n.id i ≡ false → is_node i f n ≡ false
is_node_other i f n h = elim (Bool-cases n.cancelled) [ inl e ↦ rw e refl | inr e ↦ rw (e, h) refl ]

-- A cancelled number is live nowhere.
pub live_count-cancelled :
    (f id : ℕ) (l : List Timer.Node) → live_count id f (Timer.change_node Timer.cancel id l) ≡ 0
unfolding live_count Timer.change_node
live_count-cancelled f id [] = refl
live_count-cancelled f id (n ∷ rest) = elim (Bool-cases (nat_eq n.id id)) [
  | inl e ↦ rw (e, live_count-cancelled f id rest) refl
  | inr e ↦ rw (e, live_count-cancelled f id rest) (ap (λ b. flag b + 0) (is_node_other id f n e))
]

pub live_count-cancel :
    (i f id : ℕ) (l : List Timer.Node)
    → nat_eq id i ≡ false
    → live_count i f (Timer.change_node Timer.cancel id l) ≡ live_count i f l
unfolding live_count Timer.change_node
live_count-cancel i f id [] h = refl
live_count-cancel i f id (n ∷ rest) h = elim (Bool-cases (nat_eq n.id id)) [
  | inl e ↦
      rw (e, live_count-cancel i f id rest h)
        (ap (λ b. flag b + live_count i f rest)
          (sym (is_node_other i f n (nat_eq_moves n.id id i e h))))
  | inr e ↦ rw (e, live_count-cancel i f id rest h) refl
]

kept_or_dropped :
    (i f : ℕ) (n : Timer.Node) (live : List Timer.Node) (b : Bool)
    → n.cancelled ≡ b
    → live_count i f (if b then live else Timer.insert_node n live)
      ≡ flag (is_node i f n) + live_count i f live
kept_or_dropped i f n live true e =
    let gone : is_node i f n ≡ false = rw e refl in rw gone (omega arith)
kept_or_dropped i f n live false e = live_count-insert_node i f n live

pub live_count-push_live :
    (i f : ℕ) (l : List Timer.Node) → live_count i f (Timer.push_live l) ≡ live_count i f l
unfolding live_count Timer.push_live
live_count-push_live i f [] = refl
live_count-push_live i f (n ∷ rest) =
    kept_or_dropped i f n (Timer.push_live rest) n.cancelled refl
    ∙ ap (λ k. flag (is_node i f n) + k) (live_count-push_live i f rest)

pub live_count-purge_if_many :
    (i f : ℕ) (l : Timer.TimerList)
    → live_count i f (Timer.purge_if_many l).heap ≡ live_count i f l.heap
unfolding Timer.purge_if_many Timer.purge
live_count-purge_if_many i f l = elim (Bool-cases (leb_ℤ (pos 512) l.cancelled_count)) [
  | inl e ↦ rw e (live_count-push_live i f l.heap)
  | inr e ↦ rw e refl
]

unfoldable pub count_fd : ℕ → List ℕ → ℕ
count_fd f [] = 0
count_fd f (x ∷ rest) = flag (nat_eq x f) + count_fd f rest

pub count_fd-remove_fd : (f : ℕ) (l : List ℕ) → count_fd f (remove_fd f l) ≡ count_fd f l - 1
unfolding count_fd remove_fd
count_fd-remove_fd f [] = refl
count_fd-remove_fd f (x ∷ rest) = elim (Bool-cases (nat_eq x f)) [
  | inl e ↦ rw e (omega arith)
  | inr e ↦ rw (e, e) (let ih = count_fd-remove_fd f rest in omega (arith, ih))
]

pub count_fd-remove_fd_other :
    (f g : ℕ) (l : List ℕ) → nat_eq f g ≡ false → count_fd g (remove_fd f l) ≡ count_fd g l
unfolding count_fd remove_fd
count_fd-remove_fd_other f g [] h = refl
count_fd-remove_fd_other f g (x ∷ rest) h = elim (Bool-cases (nat_eq x f)) [
  | inl e ↦ let other = nat_eq_moves x f g e h in rw (e, other) (omega arith)
  | inr e ↦ rw (e, count_fd-remove_fd_other f g rest h) refl
]

pub length-remove_fd :
    (f : ℕ) (l : List ℕ) → 0 < count_fd f l → length (remove_fd f l) + 1 ≡ length l
unfolding count_fd remove_fd
length-remove_fd f [] = λ h. absurd (omega arith)
length-remove_fd f (x ∷ rest) = elim (Bool-cases (nat_eq x f)) [
  | inl e ↦ rw e (λ h. omega arith)
  | inr e ↦ rw e (λ h. let ih = length-remove_fd f rest (omega (arith, h)) in omega (arith, ih))
]
