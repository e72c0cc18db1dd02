-- ===== src/Http/Conn/Read.antt =====
-- The loop of `process_read` up to the call of `do_request`, which is the code `get_request`.
pub mod Lines
pub mod Keeps
pub mod Fuel
pub mod Pass
pub mod Longer
pub mod Resume
pub mod Whole
pub mod Body
use my_bookstore.Http.Conn.Request.{parse_content, parse_headers, parse_request_line}
use my_bookstore.Base.{
  ◌*◌, zero, false, suc, none, true, ◌&&◌, ◌+◌, Bool, Text, if◌then◌else◌, length, some, Option, ℕ,
}
use my_bookstore.Http.Conn.{
  header, request_line, get_request, content, bad_request, no_request, open_, ok, parse_line,
  get_line, LineStatus, HttpCode, Conn, CheckState,
}

abbrev pub is_content : CheckState → Bool
is_content content = true
is_content _ = false

abbrev pub is_ok : LineStatus → Bool
is_ok ok = true
is_ok _ = false

-- `text = get_line(); line_start_ = checked_idx_;`
abbrev pub start_line : Conn → Conn
start_line c = record c { line_start = length c.before }

-- What a round does in the end: it returns, throws, or goes on with a line status.
pub data Round : Type 0 where
  returns : HttpCode → Conn → Round
  throws : Round
  goes_on : LineStatus → Conn → Round

abbrev pub after_request_line : HttpCode × Conn → Round
after_request_line (bad_request, c) = returns bad_request c
after_request_line (code, c) = goes_on ok c

abbrev pub after_headers : Option (HttpCode × Conn) → Round
after_headers none = throws
after_headers (some (bad_request, c)) = returns bad_request c
after_headers (some (get_request, c)) = returns get_request c
after_headers (some (code, c)) = goes_on ok c

abbrev pub after_content : HttpCode × Conn → Round
after_content (get_request, c) = returns get_request c
after_content (code, c) = goes_on open_ c

-- The switch.
abbrev pub dispatch_state : CheckState → Text → Conn → Round
dispatch_state request_line text c = after_request_line (parse_request_line text c)
dispatch_state header text c = after_headers (parse_headers text c)
dispatch_state content text c = after_content (parse_content c)

-- The body of the loop.
unfoldable pub round : Conn → Round
unfolding get_line parse_request_line parse_headers parse_content
round c = dispatch_state c.check_state (get_line c) (start_line c)

-- The condition of the loop: the line status, and the state behind `parse_line` where it is called.
unfoldable pub next_line : LineStatus → Conn → LineStatus × Conn
unfolding parse_line
next_line status c = if is_content c.check_state && is_ok status then (ok, c) else parse_line c

-- What the loop comes to on fuel: the fuel is used up, or the loop with `none` where it threw.
pub data Ran : Type 0 where
  out_of_fuel : Ran
  ended_with : Option (HttpCode × Conn) → Ran

abbrev pub after_round : (LineStatus → Conn → Ran) → Round → Ran
after_round again (returns code c) = ended_with (some (code, c))
after_round again throws = ended_with none
after_round again (goes_on status c) = again status c

-- A round with the condition in front, where `again` is the rest of the loop.
abbrev pub loop_step : (LineStatus → Conn → Ran) → LineStatus × Conn → Ran
loop_step again (ok, c) = after_round again (round c)
loop_step again (status, c) = ended_with (some (no_request, c))

-- The loop on fuel. A round takes a byte at least, but for one on the content.
unfoldable pub read_loop : ℕ → LineStatus → Conn → Ran
unfolding next_line round
read_loop zero status c = out_of_fuel
read_loop (suc fuel) status c = loop_step (read_loop fuel) (next_line status c)

abbrev pub result : Ran → Option (HttpCode × Conn)
result out_of_fuel = none
result (ended_with r) = r

unfoldable pub process_read : Conn → Option (HttpCode × Conn)
unfolding read_loop
process_read c = result (read_loop (2 * length c.rest + 2) ok c)
