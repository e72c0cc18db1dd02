-- ===== src/Examples/Requests.antt =====
-- Requests on a connection, and the replies.
use my_bookstore.Http.Conn.Read.Resume.{process_read-append_bytes}
use my_bookstore.Http.Conn.Read.Lines.{IsPlain}
use my_bookstore.Http.Conn.Process.{wants_output, process}
use my_bookstore.Http.Conn.Send.Lost.{process_write-api_part}
use my_bookstore.Http.Conn.Read.Pass.{line_done}
use my_bookstore.Http.Conn.Read.Body.{process_read-split_body, with_body, at_body, passed_over}
use my_bookstore.Http.Conn.Read.Fuel.{process_read_ends}
use my_bookstore.Http.Conn.Reply.{process_write, file_head}
use my_bookstore.Http.Conn.Read.Whole.{
  is_plain-IsPlain, is_plain, IsWord, process_read-get_request, with_host, get_request_text,
}
use my_bookstore.Base.{
  wrap32, to_string, split_at, lookup, digits, ◌+◌, length, refl, ◌++◌, arith, some, take, [],
  false, ◌≡◌, codes, none, pos, replicate, List, Text, ◌∷◌,
}
use my_bookstore.Http.Conn.Send.Pieces.{Fits, Delivers}
use my_bookstore.Http.Conn.Send.{again, sent, send_all, Event, send_loop}
use my_bookstore.Http.Conn.Read.{ended_with, read_loop, process_read}
use my_bookstore.Http.Conn.Process.Files.{served, process-get_file}
use my_bookstore.Http.Conn.Answer.{mapped, Answer}
use my_bookstore.Http.Conn
use my_bookstore.Http.Conn.Reply
use my_bookstore.Http.Conn.Send.{sent, again, Event}

abbrev fresh_conn : Text → Conn.Conn
fresh_conn s = Conn.append_bytes s Conn.reset_state

IsPlain-url : IsPlain (codes "a.html")
unfolding is_plain
IsPlain-url = is_plain-IsPlain (codes "a.html") refl

IsWord-url : IsWord (codes "a.html")
IsWord-url = (refl, (refl, (refl, (refl, (refl, (refl, tt))))))

IsPlain-host : IsPlain (codes "shop")
unfolding is_plain
IsPlain-host = is_plain-IsPlain (codes "shop") refl

IsPlain-ab : IsPlain (codes "ab")
unfolding is_plain
IsPlain-ab = is_plain-IsPlain (codes "ab") refl

IsPlain-cd : IsPlain (codes "cd")
unfolding is_plain
IsPlain-cd = is_plain-IsPlain (codes "cd") refl

-- The loop of `process_read` on a request in two parts.
process_read_ends_example :
    read_loop 99 Conn.ok (fresh_conn (codes "GET /a HTTP/1.1"))
    ≡ ended_with (process_read (fresh_conn (codes "GET /a HTTP/1.1")))
process_read_ends_example =
    process_read_ends (fresh_conn (codes "GET /a HTTP/1.1")) 99 (omega arith)

-- `GET /a.html` with a host line, and one byte of another request behind it.
process_read-get_request_example :
    process_read (fresh_conn (get_request_text (codes "/a.html") (codes "shop") (codes "G")))
    ≡ some
        (Conn.get_request, line_done [] (codes "G") (with_host (codes "/a.html") (codes "shop") []))
process_read-get_request_example =
    process_read-get_request b'a' (codes ".html") b's' (codes "hop") (codes "G") IsPlain-url
      IsWord-url IsPlain-host refl

-- A header that was read with a content length of four.
abbrev behind_header : Text → Conn.Conn
behind_header s = record (fresh_conn s) { check_state = Conn.header; content_length = pos 4 }

process_read-split_body_example :
    let c = behind_header (13 ∷ 10 ∷ codes "ab") in
    (process_read c ≡ some (Conn.no_request, passed_over (codes "ab") (at_body (codes "ab") c)))
    × (process_read
          (Conn.append_bytes (codes "cd") (passed_over (codes "ab") (at_body (codes "ab") c)))
        ≡ some (
          Conn.no_request,
          passed_over (codes "cd") (passed_over (codes "ab") (at_body (codes "ab") c)),
        ))
    × (process_read (Conn.append_bytes (codes "cd") c)
        ≡ some (Conn.get_request, with_body 4 (codes "abcd") c))
process_read-split_body_example =
    process_read-split_body (behind_header (13 ∷ 10 ∷ codes "ab")) 3 (codes "ab") (codes "cd") refl
      refl refl refl IsPlain-ab IsPlain-cd (omega arith) (omega arith) refl

-- A page of five bytes, whose reply leaves in two pieces.
abbrev page : Text
page = codes "hello"

abbrev two_calls : List Event
two_calls = sent 80 ∷ again ∷ sent 4 ∷ []

abbrev page_head : Text
page_head = file_head false (served (codes "/srv/a.html") page)

page_head-length : length page_head ≡ 79
unfolding Reply.start_file Reply.add_headers Reply.add_response digits lookup split_at to_string
    wrap32
page_head-length = refl

Fits-page : Fits (length page_head + length page) two_calls
Fits-page = rw page_head-length (omega arith, (omega arith, tt))

process-get_file_example :
    (process {S = Unit} none
        (λ path. mapped page)
        (codes "/srv")
        (fresh_conn (get_request_text (codes "/a.html") (codes "shop") []))
        tt
      ≡ some (
        wants_output
            (line_done [] [] (with_host (codes "/a.html") (codes "shop") []))
            (process_write false (served (codes "/srv/a.html") page)).1,
        tt,
      ))
    × Delivers page_head page 0
        (send_all 2 two_calls (process_write false (served (codes "/srv/a.html") page)).1)
process-get_file_example =
    process-get_file {S = Unit} none (λ path. mapped page) (codes "/srv") b'a' (codes ".html") b's'
      (codes "hop") [] page tt 2 two_calls IsPlain-url IsWord-url IsPlain-host refl refl refl
      (omega arith) (omega (arith, page_head-length)) Fits-page (omega (arith, page_head-length))

-- A reply of the gateway with 600 bytes, of which 500 leave at once.
abbrev api_reply : Answer
api_reply = record {
  code = Conn.api_response;
  api_text = replicate 600 b'x';
  real_file = [];
  file = [];
}

process_write-api_part_example :
    (send_loop (sent 500 ∷ sent 50 ∷ []) (process_write false api_reply).1).wire
    ≡ take 500 (replicate 600 b'x') ++ (replicate 50 0 ++ [])
process_write-api_part_example =
    process_write-api_part false api_reply 500 50 refl (omega arith) (omega arith) (omega arith)
      (omega arith)

-- The first bytes of a request line.
abbrev part_of_line : Conn.Conn
part_of_line = record (fresh_conn []) { before = codes "GET /a" }

asks_for_more : process_read (fresh_conn (codes "GET /a")) ≡ some (Conn.no_request, part_of_line)
unfolding process_read read_loop
asks_for_more = refl

process_read-append_bytes_example :
    process_read (Conn.append_bytes (codes ".html HTTP/1.1") part_of_line)
    ≡ process_read (Conn.append_bytes (codes ".html HTTP/1.1") (fresh_conn (codes "GET /a")))
process_read-append_bytes_example =
    process_read-append_bytes (fresh_conn (codes "GET /a")) part_of_line (codes ".html HTTP/1.1")
      asks_for_more refl
