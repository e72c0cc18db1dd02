-- ===== src/Timer.antt =====
-- `sort_timer_lst` of src/timer/lst_timer.cpp.
-- A `util_timer`. Nodes are shared by pointer, so a node has the number of its allocation; its
-- callback is always `cb_func`, and `user_data` is named by its socket.
use my_bookstore.Base.{
  [], ltb, nat_eq, ◌+ℤ◌, ◌-ℤ◌, Bool, is_empty, leb_ℤ, wrap32, ℤ, ◌∷◌, List, if◌then◌else◌, pos,
  true, ℕ,
}

pub record Node : Type 0 where
  pub id : ℕ
  pub expire : ℕ
  pub sockfd : ℕ
  pub cancelled : Bool

-- `m_heap` lists its nodes in the order in which `top` and `pop` give them. A node whose `expire` is
-- changed through a pointer stays at its place.
pub record TimerList : Type 0 where
  pub heap : List Node
  pub cancelled_count : ℤ

-- `m_heap.push`
unfoldable pub insert_node : Node → List Node → List Node
insert_node n [] = n ∷ []
insert_node n (m ∷ rest) =
    let later = insert_node n rest in if ltb n.expire m.expire then n ∷ m ∷ rest else m ∷ later

unfoldable pub add_timer : Node → TimerList → TimerList
unfolding insert_node
add_timer n l = record l { heap = insert_node n l.heap }

-- A change of the node behind a pointer.
unfoldable pub change_node : (Node → Node) → ℕ → List Node → List Node
change_node f id [] = []
change_node f id (n ∷ rest) = (if nat_eq n.id id then f n else n) ∷ change_node f id rest

abbrev pub cancel : Node → Node
cancel n = record n { cancelled = true }

-- The loops of `purge`.
unfoldable pub push_live : List Node → List Node
unfolding insert_node
push_live [] = []
push_live (n ∷ rest) = let live = push_live rest in if n.cancelled then live else insert_node n live

unfoldable pub purge : TimerList → TimerList
unfolding push_live
purge l = record { heap = push_live l.heap; cancelled_count = pos 0 }

-- `if (m_cancelled_count >= 512) purge();`
unfoldable pub purge_if_many : TimerList → TimerList
unfolding purge
purge_if_many l = if leb_ℤ (pos 512) l.cancelled_count then purge l else l

-- `timer->cancelled = true; ++m_cancelled_count;`
unfoldable pub del_timer : ℕ → TimerList → TimerList
unfolding change_node
del_timer id l = record {
  heap = change_node cancel id l.heap;
  cancelled_count = wrap32 (l.cancelled_count +ℤ pos 1);
}

-- `adjust_timer`: the old node is cancelled, and a copy `fresh` of it is added. Its `user_data` is the
-- entry of the socket that the old node was made for.
unfoldable pub adjust_timer : ℕ → Node → TimerList → TimerList
unfolding del_timer add_timer purge_if_many
adjust_timer id fresh l = purge_if_many (add_timer fresh (del_timer id l))

-- The loop of `tick`; `cb_func` acts on the state of the server.
module _ {S : Type 0} (cb_func : ℕ → S → S) where
  unfoldable pub tick_loop : ℕ → List Node → ℤ → S → TimerList × S
  tick_loop cur [] count s = (record { heap = []; cancelled_count = count }, s)
  tick_loop cur (n ∷ rest) count s =
      let dropped = tick_loop cur rest (wrap32 (count -ℤ pos 1)) s in
      let fired = tick_loop cur rest count (cb_func n.sockfd s) in
      if ltb cur n.expire
      then (record { heap = n ∷ rest; cancelled_count = count }, s)
      else if n.cancelled
      then dropped
      else fired

  unfoldable pub tick : ℕ → TimerList → S → TimerList × S
  unfolding tick_loop purge_if_many
  tick cur l s =
      let (l', s') = tick_loop cur l.heap l.cancelled_count s in
      if is_empty l.heap then (l, s) else (purge_if_many l', s')
