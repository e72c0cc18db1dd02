-- ===== src/Http/Conn/Read/Keeps.antt =====
-- What a round of `process_read` keeps of the buffer when the loop goes on.
use my_bookstore.Http.Conn.Read.{
  throws, is_ok, goes_on, returns, dispatch_state, after_request_line, after_headers, after_content,
  Round, is_content,
}
use my_bookstore.Base.{
  starts_with_any_case, is_empty, not, codes, none, if◌then◌else◌, some, ℤ, Option, length, refl,
  ltb_ℤ, inr, int_eq, ◌||◌, inl, pos, ◌≡◌, leb_ℤ, Bool-cases, false, true, Text, Bool,
}
use my_bookstore.Http.Conn.Request.{
  method_after, stol, header_val, with_length, stored, request_line_parts, is_blank_line,
  field_code, parse_request_line, parse_headers, parse_content, header_field,
}
use my_bookstore.Http.Conn.{Method, header, request_line, content, Conn, CheckState}

abbrev pub Keeps : Bool → Conn → Round → Type 0
Keeps whole c (returns code d) = Unit
Keeps whole c throws = Unit
Keeps whole c (goes_on status d) =
    (d.rest ≡ c.rest) × (d.before ≡ c.before) × (whole ≡ true → is_ok status ≡ false)

stored-Keeps :
    (parts : Option (Method × Text)) (c : Conn)
    → Keeps false c (after_request_line (stored parts c))
stored-Keeps none c = tt
stored-Keeps (some (m, u)) c = (refl, refl, λ e. cc e)

request_line-Keeps :
    (text : Text) (c : Conn) → Keeps false c (after_request_line (parse_request_line text c))
unfolding parse_request_line
request_line-Keeps text c =
    stored-Keeps (request_line_parts text) (record c { method = method_after text c.method })

-- A header line leaves the buffer.
abbrev SameBuffer : Conn → Option Conn → Type 0
SameBuffer c none = Unit
SameBuffer c (some d) = (d.rest ≡ c.rest) × (d.before ≡ c.before)

with_length-SameBuffer : (n : Option ℤ) (c : Conn) → SameBuffer c (with_length n c)
with_length-SameBuffer none c = tt
with_length-SameBuffer (some n) c = (refl, refl)

if-SameBuffer :
    (t : Bool) (c : Conn) (a b : Option Conn)
    → SameBuffer c a
    → SameBuffer c b
    → SameBuffer c (if t then a else b)
if-SameBuffer true c a b h k = h
if-SameBuffer false c a b h k = k

field-SameBuffer : (text : Text) (c : Conn) → SameBuffer c (header_field text c)
unfolding header_field
field-SameBuffer text c =
    let connection = header_val (codes "Connection:") text in
    let length_text = header_val (codes "Content-length:") text in
    let host = header_val (codes "Host:") text in
    let host_set =
      if-SameBuffer (not (is_empty host)) c (some (record c { host = host })) (some c) (refl, refl)
        (refl, refl) in
    let length_set =
      if-SameBuffer (not (is_empty length_text)) c (with_length (stol length_text) c)
        (if not (is_empty host) then some (record c { host = host }) else some c)
        (with_length-SameBuffer (stol length_text) c) host_set in
    if-SameBuffer (not (is_empty connection)) c
      (some (record c { linger = starts_with_any_case (codes "keep-alive") connection }))
      (if not (is_empty length_text)
        then with_length (stol length_text) c
        else if not (is_empty host)
        then some (record c { host = host })
        else some c)
      (refl, refl) length_set

code-Keeps :
    (d : Option Conn) (c : Conn) → SameBuffer c d → Keeps false c (after_headers (field_code d))
code-Keeps none c h = tt
code-Keeps (some d) c h = (h.0, h.1, λ e. cc e)

field-Keeps :
    (text : Text) (c : Conn) → Keeps false c (after_headers (field_code (header_field text c)))
field-Keeps text c = code-Keeps (header_field text c) c (field-SameBuffer text c)

headers-Keeps : (text : Text) (c : Conn) → Keeps false c (after_headers (parse_headers text c))
unfolding parse_headers
headers-Keeps text c = elim (Bool-cases (is_blank_line text)) [
  | inl e ↦ elim (Bool-cases (int_eq c.content_length (pos 0))) [
    | inl d ↦ rw (e, d) tt
    | inr d ↦ rw (e, d) (refl, refl, λ f. cc f)
  ]
  | inr e ↦ rw e (field-Keeps text c)
]

content-Keeps : (c : Conn) → Keeps true c (after_content (parse_content c))
unfolding parse_content
content-Keeps c =
    elim (Bool-cases
      (leb_ℤ c.content_length (pos 0) || ltb_ℤ (pos (length c.rest)) c.content_length)) [
        | inl e ↦ rw e (refl, refl, λ f. refl)
        | inr e ↦ rw e tt
      ]

pub dispatch_state-Keeps :
    (state : CheckState) (text : Text) (c : Conn)
    → Keeps (is_content state) c (dispatch_state state text c)
dispatch_state-Keeps request_line text c = request_line-Keeps text c
dispatch_state-Keeps header text c = headers-Keeps text c
dispatch_state-Keeps content text c = content-Keeps c
