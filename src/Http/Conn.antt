-- ===== src/Http/Conn.antt =====
-- `HttpConn` of src/net/http/http_conn.cpp: the parser of requests on its buffer.
pub mod Request
pub mod Read
pub mod Answer
pub mod Reply
pub mod Send
pub mod Process
use my_bookstore.Base.{
  List, take, true, is_empty, some, none, drop_last, ◌+◌, last_is, length, nat_eq, pos, ℤ, Bool,
  drop, false, if◌then◌else◌, ◌++◌, ◌-◌, ◌∷◌, Option, Text, [], ℕ,
}

pub data Method : Type 0 where
  get post : Method

pub data CheckState : Type 0 where
  request_line header content : CheckState

pub data HttpCode : Type 0 where
  no_request get_request bad_request no_resource : HttpCode
  forbidden_request file_request api_response internal_error closed_connection : HttpCode

pub data LineStatus : Type 0 where
  ok bad open_ : LineStatus

-- The members that the parser uses. `before` are the bytes of `read_buf_` in front of
-- `checked_idx_`, and `rest` those from there to `read_idx_`. What `read_all` puts there keeps to the
-- size of `read_buf_`; the record has no bound.
pub record Conn : Type 0 where
  pub before : Text
  pub rest : Text
  pub line_start : ℕ
  pub check_state : CheckState
  pub method : Method
  pub linger : Bool
  pub url : Text
  pub host : Text
  pub content_length : ℤ
  pub request_body : Text

-- `reset_state`
abbrev pub reset_state : Conn
reset_state = record {
  before = [];
  rest = [];
  line_start = 0;
  check_state = request_line;
  method = get;
  linger = false;
  url = [];
  host = [];
  content_length = pos 0;
  request_body = [];
}

abbrev pub read_buf_size : ℕ
read_buf_size = 2048

-- The room left in `read_buf_`.
abbrev pub room : Conn → ℕ
room c = read_buf_size - (length c.before + length c.rest)

-- Bytes that `recv` appended; it gets the room as its limit.
abbrev pub append_bytes : Text → Conn → Conn
append_bytes bytes c = record c { rest = c.rest ++ bytes }

-- `read_once` of the level-triggered mode, where `received` is what `recv` has: `none` is a failure
-- or the end of the stream.
unfoldable pub read_once : Option Text → Conn → Bool × Conn
read_once received c = if nat_eq (room c) 0 then (false, c) else elim received [
  | none ↦ (false, c)
  | some bytes ↦ if is_empty bytes then (false, c) else (true, append_bytes (take (room c) bytes) c)
]

-- A result of `recv` in the edge-triggered mode: bytes, `EAGAIN`, or a failure or the end of the
-- stream.
pub data Received : Type 0 where
  bytes : Text → Received
  would_block ended : Received

-- The loop of `read_once` in the edge-triggered mode, over the results of `recv`. With no room left
-- `recv` is called for no bytes and gives zero, as at the end of the stream.
unfoldable pub read_all : List Received → Conn → Bool × Conn
read_all [] c = (true, c)
read_all (would_block ∷ events) c = (true, c)
read_all (ended ∷ events) c = (false, c)
read_all (bytes s ∷ events) c =
    let more = read_all events (append_bytes (take (room c) s) c) in
    if is_empty (take (room c) s) then (false, c) else more

-- `read_once` of the edge-triggered mode.
unfoldable pub read_once_et : List Received → Conn → Bool × Conn
unfolding read_all
read_once_et events c = if nat_eq (room c) 0 then (false, c) else read_all events c

-- `get_line`
unfoldable pub get_line : Conn → Text
get_line c = drop c.line_start c.before

-- `parse_line` at a carriage return: the status, and both parts of the buffer.
abbrev pub at_return : Text → Text → LineStatus × Text × Text
at_return b [] = (open_, b, 13 ∷ [])
at_return b (d ∷ s) = if nat_eq d 10 then (ok, b ++ 0 ∷ 0 ∷ [], s) else (bad, b, 13 ∷ d ∷ s)

-- `parse_line` at a newline.
abbrev pub at_newline : Text → Text → LineStatus × Text × Text
at_newline b s = if last_is 13 b then (ok, drop_last b ++ 0 ∷ 0 ∷ [], s) else (bad, b, 10 ∷ s)

-- The loop of `parse_line`.
unfoldable pub scan_line : Text → Text → LineStatus × Text × Text
scan_line b [] = (open_, b, [])
scan_line b (c ∷ s) =
    let more = scan_line (b ++ c ∷ []) s in
    if nat_eq c 13 then at_return b s else if nat_eq c 10 then at_newline b s else more

unfoldable pub parse_line : Conn → LineStatus × Conn
unfolding scan_line
parse_line c =
    let (status, before, rest) = scan_line c.before c.rest in
    (status, record c { before = before; rest = rest })
