-- ===== src/Http/Conn/Read/Longer.antt =====
-- A round of `process_read` on a buffer with more bytes behind it.
use my_bookstore.Http.Conn.Read.{
  throws, goes_on, returns, dispatch_state, after_request_line, Round, is_content, after_headers,
}
use my_bookstore.Http.Conn.{
  header, request_line, no_request, HttpCode, content, append_bytes, Method, Conn, CheckState,
}
use my_bookstore.Base.{
  is_empty, not, ◌∙◌, ap, inr, pos, int_eq, codes, inl, refl, true, Bool-cases, false, none, some,
  ℤ, ◌≡◌, Bool, Option, Text,
}
use my_bookstore.Http.Conn.Request.{
  method_after, request_line_parts, stored, is_blank_line, header_val, with_length, stol,
  field_code, parse_request_line, parse_headers, header_field,
}

-- The round on a buffer with more bytes.
abbrev pub longer_round : Text → Round → Round
longer_round t (returns code d) = returns code (append_bytes t d)
longer_round t throws = throws
longer_round t (goes_on status d) = goes_on status (append_bytes t d)

longer_conn : Text → Option Conn → Option Conn
longer_conn t none = none
longer_conn t (some d) = some (append_bytes t d)

stored-append_bytes :
    (t : Text) (parts : Option (Method × Text)) (c : Conn)
    → after_request_line (stored parts (append_bytes t c))
      ≡ longer_round t (after_request_line (stored parts c))
stored-append_bytes t none c = refl
stored-append_bytes t (some (m, u)) c = refl

with_length-append_bytes :
    (t : Text) (n : Option ℤ) (c : Conn)
    → with_length n (append_bytes t c) ≡ longer_conn t (with_length n c)
unfolding longer_conn
with_length-append_bytes t none c = refl
with_length-append_bytes t (some n) c = refl

header_field-append_bytes :
    (t text : Text) (c : Conn)
    → header_field text (append_bytes t c) ≡ longer_conn t (header_field text c)
unfolding header_field longer_conn
header_field-append_bytes t text c =
    elim (Bool-cases (not (is_empty (header_val (codes "Connection:") text)))) [
      | inl e ↦ rw e refl
      | inr e ↦ elim (Bool-cases (not (is_empty (header_val (codes "Content-length:") text)))) [
        | inl f ↦
            rw (e, f)
              (with_length-append_bytes t (stol (header_val (codes "Content-length:") text)) c)
        | inr f ↦ elim (Bool-cases (not (is_empty (header_val (codes "Host:") text)))) [
          | inl g ↦ rw (e, f, g) refl
          | inr g ↦ rw (e, f, g) refl
        ]
      ]
    ]

field_code-longer :
    (t : Text) (d : Option Conn)
    → after_headers (field_code (longer_conn t d)) ≡ longer_round t (after_headers (field_code d))
unfolding longer_conn
field_code-longer t none = refl
field_code-longer t (some d) = refl

headers-append_bytes :
    (t text : Text) (c : Conn)
    → after_headers (parse_headers text (append_bytes t c))
      ≡ longer_round t (after_headers (parse_headers text c))
unfolding parse_headers
headers-append_bytes t text c = elim (Bool-cases (is_blank_line text)) [
  | inl e ↦ elim (Bool-cases (int_eq c.content_length (pos 0))) [
    | inl d ↦ rw (e, d) refl
    | inr d ↦ rw (e, d) refl
  ]
  | inr e ↦ rw e (
      ap (λ x. after_headers (field_code x)) (header_field-append_bytes t text c)
      ∙ field_code-longer t (header_field text c))
]

pub round-append_bytes :
    (t : Text) (state : CheckState) (text : Text) (c : Conn)
    → is_content state ≡ false
    → dispatch_state state text (append_bytes t c) ≡ longer_round t (dispatch_state state text c)
unfolding parse_request_line
round-append_bytes t request_line text c e =
    stored-append_bytes t (request_line_parts text)
      (record c { method = method_after text c.method })
round-append_bytes t header text c e = headers-append_bytes t text c
round-append_bytes t content text c e = absurd (cc e)

abbrev pub is_no_request : HttpCode → Bool
is_no_request no_request = true
is_no_request _ = false

-- A round that returns does not ask for more.
abbrev pub Answers : Round → Type 0
Answers (returns code d) = is_no_request code ≡ false
Answers throws = Unit
Answers (goes_on status d) = Unit

stored-Answers :
    (parts : Option (Method × Text)) (c : Conn) → Answers (after_request_line (stored parts c))
stored-Answers none c = refl
stored-Answers (some (m, u)) c = tt

field-Answers : (d : Option Conn) → Answers (after_headers (field_code d))
field-Answers none = tt
field-Answers (some d) = tt

headers-Answers : (text : Text) (c : Conn) → Answers (after_headers (parse_headers text c))
unfolding parse_headers
headers-Answers text c = elim (Bool-cases (is_blank_line text)) [
  | inl e ↦ elim (Bool-cases (int_eq c.content_length (pos 0))) [
    | inl d ↦ rw (e, d) refl
    | inr d ↦ rw (e, d) tt
  ]
  | inr e ↦ rw e (field-Answers (header_field text c))
]

pub dispatch-Answers :
    (state : CheckState) (text : Text) (c : Conn)
    → is_content state ≡ false
    → Answers (dispatch_state state text c)
unfolding parse_request_line
dispatch-Answers request_line text c e = stored-Answers (request_line_parts text) _
dispatch-Answers header text c e = headers-Answers text c
dispatch-Answers content text c e = absurd (cc e)
