-- ===== src/Http/Conn/Process/Files.antt =====
-- `process` on a request for a file.
use my_bookstore.Http.Conn.Read.Pass.{line_done}
use my_bookstore.Http.Conn.Send.Pieces.{process_write-send_all, Delivers, Past, Fits}
use my_bookstore.Http.Conn.Request.{is_blank}
use my_bookstore.Http.Conn.Read.Whole.{
  process_read-get_request, with_host, get_request_text, IsWord,
}
use my_bookstore.Http.Conn.Read.Lines.{IsPlain}
use my_bookstore.Http.Conn.Send.{send_all, Event}
use my_bookstore.Http.Conn.Process.{wants_output, process}
use my_bookstore.Http.Conn.Answer.{mapped, file_answer, do_request, File, Gateway, Answer}
use my_bookstore.Base.{
  some, ◌^◌, ◌+◌, ◌++◌, codes, starts_with, refl, ◌∷◌, List, arith, true, ◌≡◌, false, length, ℕ, [],
  ◌<◌, Option, Text,
}
use my_bookstore.Http.Conn.Reply.{file_head, write_for, process_write}
use my_bookstore.Http.Conn.{Text, Option}
use my_bookstore.Http.Conn

-- The answer for a file that was mapped.
abbrev pub served : Text → Text → Answer
served path content = record {
  code = Conn.file_request;
  api_text = [];
  real_file = path;
  file = content;
}

process_write-served :
    (path content : Text)
    → 0 < length content
    → process_write false (served path content)
      ≡ (true, (process_write false (served path content)).1)
unfolding process_write write_for
process_write-served path [] h = absurd (omega arith)
process_write-served path (x ∷ content) h = refl

module _ {S : Type 0} (gateway : Option (Gateway S)) (files : Text → File) (root : Text) (c : ℕ)
    (u : Text) (d : ℕ) (h more content : Text) where
  -- A complete `GET` request with a host line, as the first bytes of a connection, for a path outside
  -- of `/api/` where a readable file that is not empty lies, is answered: `process` asks for output,
  -- and over any calls of `write`, where the first bytes that leave take the whole head of the reply
  -- and the reply is shorter than 2^31 bytes, what leaves is a beginning of the status line and
  -- headers followed by the file, and all of it when the reply is done.
  pub process-get_file :
      (s : S) (calls : ℕ) (events : List Event)
      → IsPlain (c ∷ u)
      → IsWord (c ∷ u)
      → IsPlain (d ∷ h)
      → is_blank d ≡ false
      → starts_with (codes "/api/") (b'/' ∷ c ∷ u) ≡ false
      → files (root ++ b'/' ∷ c ∷ u) ≡ mapped content
      → 0 < length content
      → length (file_head false (served (root ++ b'/' ∷ c ∷ u) content)) + length content < 2 ^ 31
      → Fits
          (length (file_head false (served (root ++ b'/' ∷ c ∷ u) content)) + length content)
          events
      → Past (file_head false (served (root ++ b'/' ∷ c ∷ u) content)) content 0 events
      → (process gateway files root
            (Conn.append_bytes (get_request_text (b'/' ∷ c ∷ u) (d ∷ h) more) Conn.reset_state)
            s
          ≡ some (
            wants_output
                (line_done [] more (with_host (b'/' ∷ c ∷ u) (d ∷ h) []))
                (process_write false (served (root ++ b'/' ∷ c ∷ u) content)).1,
            s,
          ))
        × Delivers
            (file_head false (served (root ++ b'/' ∷ c ∷ u) content))
            content
            0
            (send_all calls events (process_write false (served (root ++ b'/' ∷ c ∷ u) content)).1)
  unfolding process do_request file_answer
  process-get_file s calls events pu wu ph bd not_api file ne small fits past =
      let read = process_read-get_request c u d h more pu wu ph bd in
      let path = root ++ b'/' ∷ c ∷ u in
      (
        rw (read, not_api, file, process_write-served path content ne) refl,
        process_write-send_all false (served path content) calls events refl ne small fits past,
      )
