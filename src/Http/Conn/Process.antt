-- ===== src/Http/Conn/Process.antt =====
-- `process`: from the bytes in the buffer to the reply.
pub mod Files
-- What `process` asks of the event loop: to wait for input, to wait for output with a reply, or
-- nothing as the connection was closed.
use my_bookstore.Http.Conn.Read.{process_read}
use my_bookstore.Http.Conn.Reply.{process_write, Out}
use my_bookstore.Http.Conn.Answer.{do_request, File, Gateway, Answer}
use my_bookstore.Base.{none, some, false, Text, [], true, Bool, Option}
use my_bookstore.Http.Conn.{get_request, no_request, HttpCode, Conn}

pub data Processed : Type 0 where
  wants_input : Conn → Processed
  wants_output : Conn → Out → Processed
  closed : Processed

abbrev pub replied : Conn → Bool × Out → Processed
replied c (true, out) = wants_output c out
replied c (false, out) = closed

-- A code without an answer behind it.
abbrev pub plain_answer : HttpCode → Answer
plain_answer code = record { code = code; api_text = []; real_file = []; file = [] }

module _ {S : Type 0} (gateway : Option (Gateway S)) (files : Text → File) (root : Text) where
  -- `none` is the exception of `std::stol`.
  abbrev answer_read : S → Option (HttpCode × Conn) → Option (Processed × S)
  answer_read s none = none
  answer_read s (some (no_request, c)) = some (wants_input c, s)
  answer_read s (some (get_request, c)) =
      let (a, s') = do_request gateway files root c s in
      some (replied c (process_write c.linger a), s')
  answer_read s (some (code, c)) = some (replied c (process_write c.linger (plain_answer code)), s)

  unfoldable pub process : Conn → S → Option (Processed × S)
  unfolding process_read do_request process_write
  process c s = answer_read s (process_read c)
