-- ===== src/WebServer/Reactor.antt =====
-- The reactor keeps a live timer for a connection that it has closed.
use my_bookstore.WebServer.Changes.{adjust_timer-Served}
use my_bookstore.WebServer.Served.{Served}
use my_bookstore.WebServer.Owners.{count_fd-remove_fd, live_count-cancel, live_count, count_fd}
use my_bookstore.Base.{refl, nat_eq_iff, true, arith, nat_eq, ◌∙◌, false, some, ◌≡◌, ℕ}
use my_bookstore.WebServer.{Server, ℕ}
use my_bookstore.Timer
use my_bookstore.WebServer

-- With the reactor, when a worker fails on an open socket with one live timer, the socket is closed
-- with its old timer, and the new timer that it got in front of the work is still live.
pub reactor-live :
    (st : WebServer.State) (now id fd : ℕ)
    → Served st
    → WebServer.timer_of fd st.users_timer ≡ some id
    → count_fd fd st.server.opened ≡ 1
    → (count_fd fd (WebServer.reactor now id fd false st).server.opened ≡ 0)
      × (live_count st.next fd (WebServer.reactor now id fd false st).timers.heap ≡ 1)
unfolding WebServer.timer_of WebServer.adjust_timer WebServer.reactor WebServer.wait_improv
    WebServer.deal_timer Timer.del_timer WebServer.cb_func
reactor-live st now id fd s named is_open =
    let served = adjust_timer-Served st id fd s named is_open now in
    let old = s.fresh fd id named in
    let closed = count_fd-remove_fd fd st.server.opened in
    let other : nat_eq id st.next ≡ false = ground (arith, old) in
    let self_fd : nat_eq fd fd ≡ true = (nat_eq_iff fd fd).1 refl in
    let self_id : nat_eq st.next st.next ≡ true = (nat_eq_iff st.next st.next).1 refl in
    (
      omega (arith, closed, is_open),
      live_count-cancel st.next fd id (WebServer.adjust_timer now id fd st).timers.heap other
          ∙ served.live st.next fd
          ∙ rw self_fd (rw self_id is_open),
    )
