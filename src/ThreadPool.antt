-- ===== src/ThreadPool.antt =====
-- `threadpool` of src/pool/threadpool.h: the bounded queue between the reactor and the workers, and
-- the dispatcher of both actor models. A request is a number that stands for a pointer, not null.
pub mod Workers
-- `http_conn` as far as the pool uses it: `m_state`, `improv`, `timer_flag`.
use my_bookstore.Base.{
  pos_part, some, none, false, ◌||◌, [], length, pos, int_eq, leb, leb_ℤ, nat_eq, ◌++◌, ◌∷◌, Bool,
  Option, if◌then◌else◌, List, true, ℕ, ℤ,
}

pub record Request : Type 0 where
  pub state : ℤ
  pub improv : Bool
  pub timer_flag : Bool

-- The calls on `http_conn` and on the connection pool that the dispatcher makes, in order.
pub data Call : Type 0 where
  read_once write process acquire release : ℕ → Call

-- `requests` is the heap of requests; `calls` is what the dispatcher did so far.
pub record Pool : Type 0 where
  pub max_requests : ℕ
  pub workqueue : List ℕ
  pub stop : Bool
  pub requests : ℕ → Request
  pub calls : List Call

-- The constructor's guard; `none` is the exception.
unfoldable pub init : ℤ → ℤ → (ℕ → Request) → Option Pool
init thread_number max_requests requests =
    if leb_ℤ thread_number (pos 0) || leb_ℤ max_requests (pos 0)
    then none
    else some (record {
      max_requests = pos_part max_requests;
      workqueue = [];
      stop = false;
      requests = requests;
      calls = [];
    })

unfoldable pub update : (ℕ → Request) → ℕ → (Request → Request) → ℕ → Request
update requests r f i = if nat_eq i r then f (requests i) else requests i

unfoldable pub append : ℕ → ℤ → Pool → Bool × Pool
unfolding update
append request state p = if leb p.max_requests (length p.workqueue) then (false, p) else (
  true,
  record p {
    requests = update p.requests request (λ r. record r { state = state });
    workqueue = p.workqueue ++ request ∷ [];
  },
)

unfoldable pub append_p : ℕ → Pool → Bool × Pool
append_p request p =
    if leb p.max_requests (length p.workqueue)
    then (false, p)
    else (true, record p { workqueue = p.workqueue ++ request ∷ [] })

abbrev with_improv : Request → Request
with_improv r = record r { improv = true }

abbrev with_failure : Request → Request
with_failure r = record r { improv = true; timer_flag = true }

-- `m_dispatcher` of the reactor mode; `ok` is what the request's `read_once` or `write` returns.
unfoldable pub dispatch_reactor : Bool → ℕ → Pool → Pool
unfolding update
dispatch_reactor ok request p =
    if int_eq (p.requests request).state (pos 0)
    then if ok
      then record p {
        requests = update p.requests request with_improv;
        calls =
            p.calls ++ read_once request ∷ acquire request ∷ process request ∷ release request ∷ [];
      }
      else record p {
        requests = update p.requests request with_failure;
        calls = p.calls ++ read_once request ∷ [];
      }
    else if ok
    then record p {
      requests = update p.requests request with_improv;
      calls = p.calls ++ write request ∷ [];
    }
    else record p {
      requests = update p.requests request with_failure;
      calls = p.calls ++ write request ∷ [];
    }

-- `m_dispatcher` of the proactor mode.
unfoldable pub dispatch_proactor : ℕ → Pool → Pool
dispatch_proactor request p = record p {
  calls = p.calls ++ acquire request ∷ process request ∷ release request ∷ [];
}

unfoldable pub dispatch : Bool → Bool → ℕ → Pool → Pool
unfolding dispatch_reactor dispatch_proactor
dispatch reactor ok request p =
    if reactor then dispatch_reactor ok request p else dispatch_proactor request p

-- A round of `run`: the worker waits, leaves the loop, or takes a request.
pub data Round : Type 0 where
  waits leaves : Round
  takes : ℕ → Pool → Round

-- Under the lock, from the queue.
unfoldable pub take_request : List ℕ → Pool → Round
take_request [] p = if p.stop then leaves else waits
take_request (request ∷ rest) p = takes request (record p { workqueue = rest })

unfoldable pub round : Pool → Round
unfolding take_request
round p = take_request p.workqueue p

-- The destructor before it joins the workers.
unfoldable pub shut_down : Pool → Pool
shut_down p = record p { stop = true }
