-- ===== src/Http/Conn/Reply.antt =====
-- The write buffer and `process_write`.
use my_bookstore.Base.{
  ltb_ℤ, text_eq, digits, split_at, to_string, ◌-◌, [], false, is_empty, leb, lookup, nat_eq, ◌++◌,
  ◌+ℤ◌, codes, if◌then◌else◌, length, none, some, true, wrap32, ◌∷◌, Bool, List, Option, Text, pos,
  ℕ, ℤ,
}
use my_bookstore.Http.Conn.Answer.{Answer}
use my_bookstore.Http.Conn.{
  no_resource, forbidden_request, bad_request, internal_error, file_request, api_response, HttpCode,
}

abbrev pub write_buf_size : ℕ
write_buf_size = 1024

-- `add_response` of the formatted text; the buffer is the bytes of `write_buf_` up to `write_idx_`.
unfoldable pub add_response : Text → Text → Bool × Text
add_response text buf =
    if leb write_buf_size (length buf)
    then (false, buf)
    else if leb (write_buf_size - 1 - length buf) (length text)
    then (false, buf)
    else (true, buf ++ text)

-- `first && second`, on the same buffer.
abbrev and_then : Bool × Text → (Text → Bool × Text) → Bool × Text
and_then (true, buf) second = second buf
and_then (false, buf) second = (false, buf)

abbrev newline : Text
newline = 13 ∷ 10 ∷ []

unfoldable pub add_status_line : ℕ → Text → Text → Bool × Text
add_status_line status title =
    add_response (codes "HTTP/1.1 " ++ (digits status ++ 32 ∷ (title ++ newline)))

unfoldable pub add_content_length : ℤ → Text → Bool × Text
add_content_length n = add_response (codes "Content-Length:" ++ (to_string n ++ newline))

unfoldable pub add_linger : Bool → Text → Bool × Text
add_linger linger =
    add_response
      (codes "Connection:" ++ ((if linger then codes "keep-alive" else codes "close") ++ newline))

unfoldable pub add_headers : ℤ → Bool → Text → Bool × Text
unfolding add_content_length add_linger
add_headers n linger buf =
    and_then (and_then (add_content_length n buf) (add_linger linger)) (add_response newline)

abbrev pub mime_types : List (Text × Text)
mime_types =
    (codes ".html", codes "text/html")
    ∷ (codes ".htm", codes "text/html")
    ∷ (codes ".css", codes "text/css")
    ∷ (codes ".js", codes "application/javascript")
    ∷ (codes ".json", codes "application/json")
    ∷ (codes ".jpg", codes "image/jpeg")
    ∷ (codes ".jpeg", codes "image/jpeg")
    ∷ (codes ".png", codes "image/png")
    ∷ (codes ".gif", codes "image/gif")
    ∷ (codes ".ico", codes "image/x-icon")
    ∷ (codes ".svg", codes "image/svg+xml")
    ∷ (codes ".mp4", codes "video/mp4")
    ∷ (codes ".webm", codes "video/webm")
    ∷ (codes ".txt", codes "text/plain")
    ∷ (codes ".xml", codes "application/xml")
    ∷ (codes ".pdf", codes "application/pdf")
    ∷ []

abbrev or_else : Option Text → Option Text → Option Text
or_else none other = other
or_else (some s) other = some s

-- From the last dot, which `rfind` finds.
unfoldable pub from_last_dot : Text → Option Text
from_last_dot [] = none
from_last_dot (c ∷ s) =
    let later = from_last_dot s in or_else later (if nat_eq c b'.' then some (c ∷ s) else none)

abbrev default_type : Text
default_type = codes "application/octet-stream"

abbrev or_default : Option Text → Text
or_default none = default_type
or_default (some mime) = mime

-- The extension ends at a zero byte.
abbrev type_at : Option Text → Text
type_at none = default_type
type_at (some s) = or_default (lookup (split_at 0 s).0 mime_types)

unfoldable pub mime_type : Text → Text
unfolding from_last_dot
mime_type path = type_at (from_last_dot path)

unfoldable pub add_content_type : Text → Text → Bool × Text
unfolding mime_type
add_content_type path = add_response (codes "Content-Type:" ++ (mime_type path ++ newline))

-- Where a piece to send lies.
pub data Source : Type 0 where
  in_write in_file in_api : Source

-- `iovec`: the place of its first byte, and its length.
pub record IoVec : Type 0 where
  pub source : Source
  pub offset : ℤ
  pub len : ℕ

-- The members that `write` uses.
pub record Out : Type 0 where
  pub write_buf : Text
  pub api_text : Text
  pub file : Text
  pub iv0 : IoVec
  pub iv1 : IoVec
  pub iv_count : ℕ
  pub bytes_to_send : ℤ
  pub bytes_sent : ℤ

abbrev pub no_vec : IoVec
no_vec = record { source = in_write; offset = pos 0; len = 0 }

-- After `reset_state`.
abbrev pub no_reply : Out
no_reply = record {
  write_buf = [];
  api_text = [];
  file = [];
  iv0 = no_vec;
  iv1 = no_vec;
  iv_count = 0;
  bytes_to_send = pos 0;
  bytes_sent = pos 0;
}

abbrev pub whole : Source → Text → IoVec
whole source text = record { source = source; offset = pos 0; len = length text }

-- One piece; `bytes_to_send_` is an `int`.
abbrev pub one_piece : Source → Text → Answer → Text → Out
one_piece source piece a buf = record {
  write_buf = buf;
  api_text = a.api_text;
  file = a.file;
  iv0 = whole source piece;
  iv1 = no_vec;
  iv_count = 1;
  bytes_to_send = wrap32 (pos (length piece));
  bytes_sent = pos 0;
}

abbrev pub two_pieces : Answer → Text → Out
two_pieces a buf = record {
  write_buf = buf;
  api_text = a.api_text;
  file = a.file;
  iv0 = whole in_write buf;
  iv1 = whole in_file a.file;
  iv_count = 2;
  bytes_to_send = wrap32 (pos (length buf) +ℤ wrap32 (pos (length a.file)));
  bytes_sent = pos 0;
}

-- The label `finish` behind `add_content`.
abbrev finish : Answer → Bool × Text → Bool × Out
finish a (done, buf) = (done, one_piece in_write buf a buf)

-- The status line and the content type; the source looks at neither result.
unfoldable pub start_file : Text → Text
unfolding add_status_line add_content_type
start_file path = (add_content_type path (add_status_line 200 (codes "OK") []).1).1

abbrev pub int_of : Text → ℤ
int_of text = wrap32 (pos (length text))

abbrev pub file_head : Bool → Answer → Text
file_head linger a = (add_headers (int_of a.file) linger (start_file a.real_file)).1

abbrev empty_page : Text
empty_page = codes "<html><body></body></html>"

abbrev empty_reply : Bool → Answer → Bool × Text
empty_reply linger a =
    add_response empty_page
      (add_headers (int_of empty_page) linger
        (add_content_type a.real_file (start_file a.real_file)).1).1

-- A row of `kErrTable`.
abbrev error_reply : Bool → ℕ → Text → Text → Bool × Text
error_reply linger status title body =
    add_response body
      (add_headers (int_of body) linger
        (add_response (codes "Content-Type:text/html" ++ newline)
          (add_status_line status title []).1).1).1

abbrev body_500 : Text
body_500 = codes "There was an unusual problem serving the request file.\n"

abbrev body_400 : Text
body_400 = codes "Your request has bad syntax or is inherently impossible to satisfy.\n"

abbrev body_403 : Text
body_403 = codes "You do not have permission to get file from this server.\n"

abbrev body_404 : Text
body_404 = codes "The requested file was not found on this server.\n"

-- `process_write` with an empty write buffer, by the code.
unfoldable pub write_for : HttpCode → Bool → Answer → Bool × Out
unfolding start_file add_headers
write_for api_response linger a =
    (ltb_ℤ (pos 0) (int_of a.api_text), one_piece in_api a.api_text a [])
write_for file_request linger a =
    if is_empty a.file
    then finish a (empty_reply linger a)
    else (true, two_pieces a (file_head linger a))
write_for internal_error linger a =
    finish a (error_reply linger 500 (codes "Internal Error") body_500)
write_for bad_request linger a = finish a (error_reply linger 400 (codes "Bad Request") body_400)
write_for forbidden_request linger a =
    finish a (error_reply linger 403 (codes "Forbidden") body_403)
write_for no_resource linger a = finish a (error_reply linger 404 (codes "Not Found") body_404)
write_for _ linger a = (false, one_piece in_write [] a [])

unfoldable pub process_write : Bool → Answer → Bool × Out
unfolding write_for
process_write linger a = write_for a.code linger a
