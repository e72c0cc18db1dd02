-- ===== src/Examples/Connections.antt =====
-- Events of the server.
use my_bookstore.WebServer.Reactor.{reactor-live}
use my_bookstore.WebServer.Lifecycle.{starts, handles, handle-Served, Reach, Reach-Served}
use my_bookstore.Base.{refl, true, ◌≡◌, false, some}
use my_bookstore.WebServer.Served.{Served}
use my_bookstore.WebServer.Owners.{live_count, count_fd}
use my_bookstore.WebServer.{Server}
use my_bookstore.WebServer

-- A connection on socket 4, accepted at time 100.
abbrev one_user : WebServer.State
one_user = WebServer.accept_one 100 (some 4) WebServer.started

Reach-one : Reach one_user
unfolding WebServer.handle count_fd
Reach-one = handles WebServer.started one_user 100 (WebServer.connects (some 4)) starts refl refl

one_open : count_fd 4 one_user.server.opened ≡ 1
unfolding WebServer.accept_one count_fd
one_open = refl

slot_zero : WebServer.timer_of 4 one_user.users_timer ≡ some 0
unfolding WebServer.accept_one WebServer.timer_of
slot_zero = refl

Reach-Served_example : Served one_user
Reach-Served_example = Reach-Served one_user Reach-one

handle-Served_example :
    (st' : WebServer.State) × ((WebServer.handle false 110 (WebServer.readable 4 true) one_user
        ≡ some st')
      × Served st')
handle-Served_example =
    handle-Served one_user 110 (WebServer.readable 4 true) (Reach-Served one_user Reach-one)
      one_open

reactor-live_example :
    (count_fd 4 (WebServer.reactor 110 0 4 false one_user).server.opened ≡ 0)
    × (live_count 1 4 (WebServer.reactor 110 0 4 false one_user).timers.heap ≡ 1)
unfolding WebServer.accept_one
reactor-live_example =
    reactor-live one_user 110 0 4 (Reach-Served one_user Reach-one) slot_zero one_open
