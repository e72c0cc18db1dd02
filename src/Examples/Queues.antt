-- ===== src/Examples/Queues.antt =====
-- Runs of the block queue, the thread pool and the connection pool.
use my_bookstore.ThreadPool.{leaves, round, Request}
use my_bookstore.BlockQueue.Ring.{Holds}
use my_bookstore.Base.{
  subst, arith, refl, ◌++◌, false, some, true, wrap32, ◌-ℤ◌, ◌∷◌, ◌≡◌, List, [], pos, ℕ, ◌+ℤ◌,
}
use my_bookstore.ThreadPool.Workers.{
  happen_all-shut_down, rounds, init-happen_all, stops, works, appends_p, appends, Event,
  happen_all, IsOrdered,
}
use my_bookstore.ConnectionPool.Counters.{
  takes, release_connection-destroy_pool, starts, get_connection-waits, Reach-Conserves, continues,
  Reach, Conserves,
}
use my_bookstore.ConnectionPool.{refused, got, destroy_pool, release_connection, get_connection}
use my_bookstore.BlockQueue.Schedule.{
  init-run, run-IsFifo, pop-Answers, run, Trace, IsFifo, Answers,
}
use my_bookstore.BlockQueue.{gives, pop, push, next_index}
use my_bookstore.BlockQueue
use my_bookstore.BlockQueue.Schedule
use my_bookstore.ThreadPool
use my_bookstore.ThreadPool.Workers
use my_bookstore.ConnectionPool
use my_bookstore.ConnectionPool.Counters

-- A block queue of two cells.
abbrev two_cells : BlockQueue.Queue ℕ
two_cells = BlockQueue.fresh 0 2

two_cells-Holds : Holds two_cells []
unfolding next_index ◌+ℤ◌
two_cells-Holds = record {
  cells = refl;
  positive = omega arith;
  count = refl;
  bounded = omega arith;
  tail = refl;
  items = λ i h. absurd (omega arith);
}

abbrev calls : List (Schedule.Call ℕ)
calls =
    Schedule.pushes 7
    ∷ Schedule.pushes 8
    ∷ Schedule.pushes 9
    ∷ Schedule.pops
    ∷ Schedule.closes
    ∷ Schedule.pops
    ∷ Schedule.pops
    ∷ []

init-run_example :
    (q : BlockQueue.Queue ℕ) × (BlockQueue.init 0 (pos 2) ≡ some q)
    × IsFifo (run (record { queue = q; sent = []; received = [] }) calls)
init-run_example = init-run 0 2 (omega arith) calls

abbrev idle : ℕ → Request
idle i = record { state = pos 0; improv = false; timer_flag = false }

abbrev small_pool : ThreadPool.Pool
small_pool = record { max_requests = 2; workqueue = []; stop = false; requests = idle; calls = [] }

small_pool-init : ThreadPool.init (pos 8) (pos 2) idle ≡ some small_pool
unfolding ThreadPool.init
small_pool-init = refl

abbrev events : List Event
events =
    appends 5 (pos 0)
    ∷ appends_p 6
    ∷ appends 7 (pos 1)
    ∷ works true
    ∷ stops
    ∷ works false
    ∷ works true
    ∷ []

init-happen_all_example : IsOrdered 2 (happen_all true events (Workers.start small_pool))
init-happen_all_example =
    init-happen_all (pos 8) (pos 2) idle small_pool true events small_pool-init

happen_all-shut_down_example :
    let h = happen_all true (appends_p 6 ∷ appends_p 7 ∷ []) (Workers.start small_pool) in
    let last = happen_all true (stops ∷ rounds h.pool.workqueue true) h in
    (last.handled ≡ h.handled ++ h.pool.workqueue) × (round last.pool ≡ leaves)
happen_all-shut_down_example =
    happen_all-shut_down true true
      (happen_all true (appends_p 6 ∷ appends_p 7 ∷ []) (Workers.start small_pool))

-- Two connections; a thread takes the first, one takes the second, and the first comes back.
abbrev two : List ℕ
two = 1 ∷ 2 ∷ []

abbrev filled : ConnectionPool.Pool
filled = record {
  max_conn = pos 2;
  cur_conn = pos 0;
  free_conn = pos 2;
  shutdown = false;
  conn_list = two;
}

filled-init : ConnectionPool.init two ConnectionPool.fresh ≡ filled
unfolding ConnectionPool.init ◌+ℤ◌ wrap32
filled-init = refl

abbrev one_used : ConnectionPool.Pool
one_used = record {
  max_conn = pos 2;
  cur_conn = pos 1;
  free_conn = pos 1;
  shutdown = false;
  conn_list = 2 ∷ [];
}

first_taken : get_connection filled ≡ got 1 one_used
unfolding get_connection ◌+ℤ◌ ◌-ℤ◌ wrap32
first_taken = refl

abbrev both_used : ConnectionPool.Pool
both_used = record {
  max_conn = pos 2;
  cur_conn = pos 2;
  free_conn = pos 0;
  shutdown = false;
  conn_list = [];
}

second_taken : get_connection one_used ≡ got 2 both_used
unfolding get_connection ◌+ℤ◌ ◌-ℤ◌ wrap32
second_taken = refl

Reach-both : Reach two (2 ∷ 1 ∷ []) both_used
Reach-both =
    continues
      (continues (subst (Reach two []) filled-init starts) (takes [] filled one_used 1 first_taken))
      (takes (1 ∷ []) one_used both_used 2 second_taken)

Reach-Conserves_example : Conserves two ((2 ∷ []) ++ []) (release_connection (some 1) both_used).1
Reach-Conserves_example =
    Reach-Conserves two ((2 ∷ []) ++ []) (release_connection (some 1) both_used).1 (omega arith)
      (continues Reach-both (Counters.gives (2 ∷ []) [] both_used 1))
