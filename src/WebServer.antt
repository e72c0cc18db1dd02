-- ===== src/WebServer.antt =====
-- The connections and their timers in `WebServer` of src/core/webserver.cpp.
pub mod Owners
pub mod Served
pub mod Changes
pub mod Expiry
pub mod Lifecycle
pub mod Reactor
use my_bookstore.Base.{
  [], false, pos, leb_ℤ, nat_eq, true, ◌*◌, ◌+ℤ◌, ◌-ℤ◌, if◌then◌else◌, none, some, wrap32, ℤ, ◌+◌,
  ◌∷◌, Bool, List, Option, ℕ,
}
use my_bookstore.Timer

-- `users` and `users_timer` as far as the timers go: the sockets that are open and registered, the
-- timer that `users_timer[sockfd]` names, and `HttpConn::user_count`. Times are in seconds.
pub record Server : Type 0 where
  pub opened : List ℕ
  pub user_count : ℤ

-- `users_timer` is a list in place of the array of MAX_FD entries; descriptors of MAX_FD or more, which
-- the source does not handle, are not excluded.
pub record State : Type 0 where
  pub server : Server
  pub timers : Timer.TimerList
  pub users_timer : List (ℕ × ℕ)
  -- The next allocation of a timer.
  pub next : ℕ

-- The server before the first event.
abbrev pub started : State
started = record {
  server = record { opened = []; user_count = pos 0 };
  timers = record { heap = []; cancelled_count = pos 0 };
  users_timer = [];
  next = 0;
}

abbrev pub max_fd : ℕ
max_fd = 65536

abbrev pub timeslot : ℕ
timeslot = 5

unfoldable pub remove_fd : ℕ → List ℕ → List ℕ
remove_fd fd [] = []
remove_fd fd (x ∷ rest) = let later = remove_fd fd rest in if nat_eq x fd then rest else x ∷ later

-- `cb_func` of src/timer/lst_timer.cpp: the socket is closed, and the count goes down.
unfoldable pub cb_func : ℕ → Server → Server
unfolding remove_fd
cb_func fd s = record {
  opened = remove_fd fd s.opened;
  user_count = wrap32 (s.user_count -ℤ pos 1);
}

-- The timer of a socket; `none` is the null pointer from the start.
unfoldable pub timer_of : ℕ → List (ℕ × ℕ) → Option ℕ
timer_of fd [] = none
timer_of fd ((k, id) ∷ rest) =
    let later = timer_of fd rest in if nat_eq k fd then some id else later

-- A new node for a socket.
abbrev pub new_timer : ℕ → ℕ → State → Timer.Node
new_timer now fd st = record {
  id = st.next;
  expire = now + 3 * timeslot;
  sockfd = fd;
  cancelled = false;
}

-- `timer`, with `HttpConn::init`.
unfoldable pub timer : ℕ → ℕ → State → State
unfolding Timer.add_timer
timer now fd st = record {
  server = record {
    opened = fd ∷ st.server.opened;
    user_count = wrap32 (st.server.user_count +ℤ pos 1);
  };
  timers = Timer.add_timer (new_timer now fd st) st.timers;
  users_timer = (fd, st.next) ∷ st.users_timer;
  next = st.next + 1;
}

-- `timer->expire = cur + 3 * TIMESLOT` in place.
abbrev pub extend : ℕ → Timer.Node → Timer.Node
extend now n = record n { expire = now + 3 * timeslot }

-- `adjust_timer`
unfoldable pub adjust_timer : ℕ → ℕ → ℕ → State → State
unfolding Timer.adjust_timer Timer.change_node
adjust_timer now id fd st = record st {
  timers =
      Timer.adjust_timer id (new_timer now fd st)
        (record st.timers { heap = Timer.change_node (extend now) id st.timers.heap });
  users_timer = (fd, st.next) ∷ st.users_timer;
  next = st.next + 1;
}

-- `deal_timer`
unfoldable pub deal_timer : ℕ → ℕ → State → State
unfolding cb_func Timer.del_timer
deal_timer id fd st = record st {
  server = cb_func fd st.server;
  timers = Timer.del_timer id st.timers;
}

-- The branches of the proactor: the main thread has read or written, with this result.
unfoldable pub proactor : ℕ → ℕ → ℕ → Bool → State → State
unfolding adjust_timer deal_timer
proactor now id fd done st = if done then adjust_timer now id fd st else deal_timer id fd st

-- `wait_improv`, where the worker has set `timer_flag` if it failed.
unfoldable pub wait_improv : ℕ → ℕ → Bool → State → State
unfolding deal_timer
wait_improv id fd done st = if done then st else deal_timer id fd st

-- The branches of the reactor: the timer is extended in front of the work, and `wait_improv` gets
-- the old one.
unfoldable pub reactor : ℕ → ℕ → ℕ → Bool → State → State
unfolding adjust_timer wait_improv
reactor now id fd done st = wait_improv id fd done (adjust_timer now id fd st)

abbrev pub deal_with : Bool → ℕ → ℕ → ℕ → Bool → State → State
deal_with true now id fd done st = reactor now id fd done st
deal_with false now id fd done st = proactor now id fd done st

-- `dealclientdata`, over the results of `accept`. With too many users the socket is closed again.
unfoldable pub accept_loop : ℕ → List (Option ℕ) → State → State
unfolding timer
accept_loop now [] st = st
accept_loop now (none ∷ rest) st = st
accept_loop now (some fd ∷ rest) st =
    let more = accept_loop now rest (timer now fd st) in
    if leb_ℤ (pos max_fd) st.server.user_count then st else more

unfoldable pub accept_one : ℕ → Option ℕ → State → State
unfolding timer
accept_one now none st = st
accept_one now (some fd) st =
    if leb_ℤ (pos max_fd) st.server.user_count then st else timer now fd st

-- What `epoll_wait` reports, with the results of the calls that its handling makes; `alarms` is the
-- signal that ends in `timer_handler`.
pub data Event : Type 0 where
  connects : Option ℕ → Event
  connects_et : List (Option ℕ) → Event
  hangs_up : ℕ → Event
  readable writable : ℕ → Bool → Event
  alarms : Event

-- What runs with the timer of the socket, and what without one.
abbrev pub with_timer : ℕ → Option State → (ℕ → State → State) → State → Option State
with_timer fd without f st = elim (timer_of fd st.users_timer) [
  | none ↦ without
  | some id ↦ some (f id st)
]

-- Without a timer nothing is extended, and `deal_timer` has nothing to call.
abbrev pub untimed : Bool → State → Option State
untimed done st = if done then some st else none

-- `timer_handler`
unfoldable pub timer_handler : ℕ → State → State
unfolding Timer.tick cb_func
timer_handler now st =
    let (timers, server) = Timer.tick cb_func now st.timers st.server in
    record st { timers = timers; server = server }

-- A round of `eventLoop` on one event; `none` is the call through a null pointer.
unfoldable pub handle : Bool → ℕ → Event → State → Option State
unfolding accept_one accept_loop deal_timer proactor reactor timer_of timer_handler
handle is_reactor now (connects fd) st = some (accept_one now fd st)
handle is_reactor now (connects_et fds) st = some (accept_loop now fds st)
handle is_reactor now (hangs_up fd) st = with_timer fd none (λ id. deal_timer id fd) st
handle is_reactor now (readable fd done) st =
    with_timer fd (untimed done st) (λ id. deal_with is_reactor now id fd done) st
handle is_reactor now (writable fd done) st =
    with_timer fd (untimed done st) (λ id. deal_with is_reactor now id fd done) st
handle is_reactor now alarms st = some (timer_handler now st)
