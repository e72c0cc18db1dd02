-- ===== src/Http/Conn/Send.antt =====
-- `write`: the reply leaves in the pieces that `writev` takes.
pub mod Pieces
pub mod Lost
-- What a call of `writev` gives: a count of bytes, `EAGAIN`, or another error.
use my_bookstore.Http.Conn.{reset_state, Conn}
use my_bookstore.Base.{
  zero, suc, ◌∷◌, length, pos_part, drop, pos, false, int_eq, leb, leb_ℤ, replicate, take, ◌+ℤ◌,
  ◌-ℤ◌, ◌-◌, [], if◌then◌else◌, true, wrap32, ◌++◌, Bool, List, Text, ℕ,
}
use my_bookstore.Http.Conn.Reply.{
  no_reply, in_api, write_buf_size, in_write, in_file, Source, IoVec, Out,
}

pub data Event : Type 0 where
  sent : ℕ → Event
  again failed : Event

-- The bytes that a piece names; the write buffer has zero bytes behind what was written.
abbrev memory : Out → Source → Text
memory o in_write = o.write_buf ++ replicate (write_buf_size - length o.write_buf) 0
memory o in_file = o.file
memory o in_api = o.api_text

abbrev pub bytes_of : Out → IoVec → Text
bytes_of o v = take v.len (drop (pos_part v.offset) (memory o v.source))

-- What `writev` may take from.
unfoldable pub gather : Out → Text
gather o = if leb o.iv_count 1 then bytes_of o o.iv0 else bytes_of o o.iv0 ++ bytes_of o o.iv1

-- `bytes_sent_ += n; bytes_to_send_ -= n;`
abbrev pub count_sent : ℕ → Out → Out
count_sent n o = record o {
  bytes_sent = wrap32 (o.bytes_sent +ℤ pos n);
  bytes_to_send = wrap32 (o.bytes_to_send -ℤ pos n);
}

abbrev pub only_file : Out → Out
only_file o = record o {
  iv0 = record o.iv0 { len = 0 };
  iv1 = record {
    source = in_file;
    offset = o.bytes_sent -ℤ pos (length o.write_buf);
    len = pos_part o.bytes_to_send;
  };
}

abbrev pub later_head : ℕ → Out → Out
later_head n o = record o {
  iv0 = record { source = in_write; offset = o.bytes_sent; len = o.iv0.len - n };
}

-- The pointers behind a part of the bytes.
unfoldable pub adjust : ℕ → Out → Out
adjust n o = if leb_ℤ (pos o.iv0.len) o.bytes_sent then only_file o else later_head n o

-- How a call of `write` ends: all is sent, it waits for the socket, it failed, or it goes on with
-- `writev`.
pub data Ending : Type 0 where
  all_sent waits fails running : Ending

pub record Sent : Type 0 where
  pub ending : Ending
  pub out : Out
  pub wire : Text
  -- What `writev` gives to later calls.
  pub later : List Event

abbrev pub prepend : Text → Sent → Sent
prepend bytes s = record s { wire = bytes ++ s.wire }

-- The loop of `write`, over what the calls of `writev` give.
unfoldable pub send_loop : List Event → Out → Sent
unfolding gather adjust
send_loop [] o = record { ending = running; out = o; wire = []; later = [] }
send_loop (again ∷ events) o = record { ending = waits; out = o; wire = []; later = events }
send_loop (failed ∷ events) o = record { ending = fails; out = o; wire = []; later = events }
send_loop (sent n ∷ events) o =
    let o' = count_sent n o in
    let bytes = take n (gather o) in
    let more = prepend bytes (send_loop events (adjust n o')) in
    if leb_ℤ o'.bytes_to_send (pos 0)
    then record { ending = all_sent; out = o'; wire = bytes; later = events }
    else more

-- `mmap_file_.release()`
abbrev pub release : Sent → Sent
release s = record s { out = record s.out { file = [] } }

-- `reset_state`
abbrev pub reset : Sent → Sent
reset s = record s { out = no_reply }

-- The end of `write`: its result, the connection and what was sent.
abbrev pub end_write : Ending → Conn → Sent → Bool × Conn × Sent
end_write all_sent c s = if c.linger then (true, reset_state, reset s) else (false, c, release s)
end_write waits c s = (true, c, s)
end_write fails c s = (false, c, release s)
end_write running c s = (true, c, s)

unfoldable pub write : List Event → Conn → Out → Bool × Conn × Sent
unfolding send_loop
write events c o =
    if int_eq o.bytes_to_send (pos 0)
    then (
      true,
      reset_state,
      record { ending = all_sent; out = no_reply; wire = []; later = events },
    )
    else let s = send_loop events o in end_write s.ending c s

abbrev and_later : (List Event → Out → Sent) → Ending → Sent → Sent
and_later rest waits s = prepend s.wire (rest s.later s.out)
and_later rest _ s = s

-- The calls of `write` until the reply is done, where each one that waited is followed by the next;
-- the fuel is their number.
unfoldable pub send_all : ℕ → List Event → Out → Sent
unfolding send_loop
send_all zero events o = record { ending = running; out = o; wire = []; later = events }
send_all (suc calls) events o = let s = send_loop events o in and_later (send_all calls) s.ending s
