-- ===== src/BlockQueue.antt =====
-- The bounded blocking queue of the log, src/log/block_queue.h: a ring over an array of `max_size`
-- cells. `front` and `back` are `int`s that start at -1; `front` is the cell of the last `pop`.
-- Each call holds the mutex, so it is one step; a `pop` that has to wait is a step that is not
-- enabled yet.
pub mod Ring
pub mod Fifo
pub mod Schedule
use my_bookstore.Base.{
  replicate, ◌%◌, ◌+◌, set, some, ◌+ℤ◌, ◌-◌, false, none, pos, pos_part, ◌||◌, get_elem?, leb,
  leb_ℤ, ltb, nat_eq, ℕ, ◌&&◌, Bool, List, Option, if◌then◌else◌, negsuc, true, ℤ,
}

pub record Queue (T : Type 0) : Type 0 where
  pub array : List T
  pub size : ℕ
  pub max_size : ℕ
  pub front : ℤ
  pub back : ℤ
  pub closed : Bool

-- `(i + 1) % m_max_size`, for an index that is -1 or more.
unfoldable pub next_index : ℤ → ℕ → ℕ
next_index i max_size = pos_part (i +ℤ pos 1) % max_size

module _ {T : Type 0} where
  -- `new T[max_size]` fills the cells with default values.
  abbrev pub fresh : T → ℕ → Queue T
  fresh default max_size = record {
    array = replicate max_size default;
    size = 0;
    max_size = max_size;
    front = negsuc 0;
    back = negsuc 0;
    closed = false;
  }

  -- The constructor; `none` is the exception.
  unfoldable pub init : T → ℤ → Option (Queue T)
  init default max_size =
      if leb_ℤ max_size (pos 0) then none else some (fresh default (pos_part max_size))

  unfoldable pub clear : Queue T → Queue T
  clear q = record q { size = 0; front = negsuc 0; back = negsuc 0 }

  unfoldable pub close : Queue T → Queue T
  close q = record q { closed = true }

  unfoldable pub full : Queue T → Bool
  full q = leb q.max_size q.size

  unfoldable pub empty : Queue T → Bool
  empty q = nat_eq q.size 0

  -- `none` is the result `false`, with the reference left alone.
  unfoldable pub front : Queue T → Option T
  front q = if nat_eq q.size 0 then none else get_elem? q.array (next_index q.front q.max_size)

  unfoldable pub back : Queue T → Option T
  back q = if nat_eq q.size 0 then none else get_elem? q.array (pos_part q.back)

  unfoldable pub push : T → Queue T → Bool × Queue T
  push item q =
      if leb q.max_size q.size
      then (false, q)
      else let b = next_index q.back q.max_size in
        (true, record q { back = pos b; array = set q.array b item; size = q.size + 1 })

  -- The part of both `pop`s below the wait; the option is what goes through `item`.
  unfoldable pub take_front : Queue T → Option T × Queue T
  take_front q =
      let f = next_index q.front q.max_size in
      (get_elem? q.array f, record q { front = pos f; size = q.size - 1 })

  -- The condition of the wait.
  unfoldable pub is_ready : Queue T → Bool
  is_ready q = ltb 0 q.size || q.closed

-- What a blocking `pop` does in a state: it waits, returns `false`, or returns an item.
pub data Popped (T : Type 0) : Type 0 where
  waits : Popped T
  fails : Popped T
  gives : Option T → Queue T → Popped T

module _ {T : Type 0} where
  abbrev given : Option T × Queue T → Popped T
  given (item, q) = gives item q

  unfoldable pub pop : Queue T → Popped T
  unfolding is_ready take_front
  pop q =
      if is_ready q
      then if q.closed && nat_eq q.size 0 then fails else given (take_front q)
      else waits

  -- The `pop` with a timeout; `expired` says that the time ran out while the condition was false.
  unfoldable pub pop_for : Bool → Queue T → Popped T
  unfolding is_ready take_front
  pop_for expired q =
      if is_ready q
      then if q.closed && nat_eq q.size 0 then fails else given (take_front q)
      else if expired
      then fails
      else waits
