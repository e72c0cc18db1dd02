-- ===== src/Http/Conn/Read/Body.antt =====
-- A request with a body, from the blank line behind the header on.
use my_bookstore.Http.Conn.Read.Lines.{scan_line_plain, IsPlain}
use my_bookstore.Http.Conn.Request.{parse_headers, parse_content}
use my_bookstore.Base.{
  ap, length-append, int_eq, leb_ℤ, arith, false, true, ltb_ℤ, sym, refl, take, ◌++◌, ◌+◌, ◌*◌, ◌∙◌,
  some, ◌<◌, ◌∷◌, length, ◌≤◌, suc, pos, ◌≡◌, [], ℕ, Text,
}
use my_bookstore.Http.Conn.Read.{
  result, ended_with, process_read, parse_headers, parse_content, round, next_line, read_loop,
}
use my_bookstore.Http.Conn.{
  append_bytes, no_request, get_request, ok, parse_line, header, content, Conn,
}
use my_bookstore.Http.Conn.Read.Fuel.{process_read_lem, process_read_ends}
use my_bookstore.Http.Conn.Read.Pass.{line_done, read_loop-line}

-- The blank line was read, and a body is expected.
abbrev pub at_body : Text → Conn → Conn
at_body r c = record (line_done [] r c) { check_state = content }

positive : (n : ℕ) → leb_ℤ (pos (suc n)) (pos 0) ≡ false
positive n = ground arith

not_zero : (n : ℕ) → int_eq (pos (suc n)) (pos 0) ≡ false
not_zero n = ground arith

enough : (m n : ℕ) → n ≤ m → ltb_ℤ (pos m) (pos n) ≡ false
enough m n h = ground arith

short : (m n : ℕ) → m < n → ltb_ℤ (pos m) (pos n) ≡ true
short m n h = ground arith

module _ (c : Conn) (n : ℕ) (s : Text) (at_header : c.check_state ≡ header)
    (expected : c.content_length ≡ pos (suc n)) (start : c.line_start ≡ length c.before)
    (behind : c.rest ≡ 13 ∷ 10 ∷ s) where
  pub blank_line : (k : ℕ) → read_loop (suc k) ok c ≡ read_loop k ok (at_body s c)
  unfolding parse_headers
  blank_line k =
      read_loop-line c [] s k tt (rw at_header refl) behind start
      ∙ rw (at_header, expected) (rw (not_zero n) refl)

  pub process_read-blank_line :
      ended_with (process_read c) ≡ read_loop (suc (suc (2 * length c.rest + 2))) ok (at_body s c)
  process_read-blank_line =
      sym (process_read_ends c (suc (suc (suc (2 * length c.rest + 2)))) (omega arith))
      ∙ blank_line _

-- A body that is there is taken.
content-whole :
    (c : Conn) (n k : ℕ)
    → c.check_state ≡ content
    → c.content_length ≡ pos (suc n)
    → suc n ≤ length c.rest
    → read_loop (suc k) ok c
      ≡ ended_with (
          some (
            get_request,
            record c { line_start = length c.before; request_body = take (suc n) c.rest },
          ))
unfolding read_loop next_line round parse_content
content-whole c n k state expected h =
    rw (state, expected) (rw (positive n, enough (length c.rest) (suc n) h) refl)

-- A body that is not there is not taken, and its plain bytes are passed over.
content-part :
    (c : Conn) (n k : ℕ)
    → c.check_state ≡ content
    → c.content_length ≡ pos (suc n)
    → length c.rest < suc n
    → IsPlain c.rest
    → read_loop (suc (suc k)) ok c
      ≡ ended_with (
          some (
            no_request,
            record c { before = c.before ++ c.rest; rest = []; line_start = length c.before },
          ))
unfolding read_loop next_line round parse_content parse_line
content-part c n k state expected h plain =
    rw (state, expected)
      (rw (positive n, short (length c.rest) (suc n) h)
        (rw (scan_line_plain c.rest c.before plain) refl))

-- The body was recognised.
abbrev pub with_body : ℕ → Text → Conn → Conn
with_body n s c = record (at_body s c) { request_body = take n s }

-- The bytes of a part of the body were passed over.
abbrev pub passed_over : Text → Conn → Conn
passed_over s c = record c {
  before = c.before ++ s;
  rest = [];
  line_start = length c.before;
  check_state = content;
}

module _ (c : Conn) (n : ℕ) (s : Text) (at_header : c.check_state ≡ header)
    (expected : c.content_length ≡ pos (suc n)) (start : c.line_start ≡ length c.before)
    (behind : c.rest ≡ 13 ∷ 10 ∷ s) where
  -- Behind a header with a content length above zero, a body that has arrived with the blank line is
  -- taken: the request is complete, and its body are the bytes that the length counts.
  pub process_read-whole_body :
      suc n ≤ length s → process_read c ≡ some (get_request, with_body (suc n) s c)
  process_read-whole_body h = ap result (
      process_read-blank_line c n s at_header expected start behind
      ∙ content-whole (at_body s c) n _ refl expected h)

-- Behind a header with a content length above zero, a body without line ends of exactly that length
-- that arrives in two parts, the first with the blank line, is recognised at neither part, as the
-- bytes of each are passed over, while the same bytes in one part are a request with that body.
pub process_read-split_body :
    (c : Conn) (n : ℕ) (s t : Text)
    → c.check_state ≡ header
    → c.content_length ≡ pos (suc n)
    → c.line_start ≡ length c.before
    → c.rest ≡ 13 ∷ 10 ∷ s
    → IsPlain s
    → IsPlain t
    → 0 < length s
    → 0 < length t
    → length s + length t ≡ suc n
    → (process_read c ≡ some (no_request, passed_over s (at_body s c)))
      × (process_read (append_bytes t (passed_over s (at_body s c)))
          ≡ some (no_request, passed_over t (passed_over s (at_body s c))))
      × (process_read (append_bytes t c) ≡ some (get_request, with_body (suc n) (s ++ t) c))
process_read-split_body c n s t at_header expected start behind ps pt ls lt total =
    let d = passed_over s (at_body s c) in
    let first =
      content-part (at_body s c) n (2 * length c.rest + 2) refl expected (omega arith) ps in
    let second =
      content-part (append_bytes t d) n (2 * length t + 2) refl expected (omega arith) pt in
    let all : suc n ≤ length (s ++ t) = omega (arith, length-append s t) in
    (
      ap result (process_read-blank_line c n s at_header expected start behind ∙ first),
      process_read_lem (append_bytes t d) (suc (suc (2 * length t + 2))) (omega arith) second,
      process_read-whole_body (append_bytes t c) n (s ++ t) at_header expected start
          (ap (λ x. x ++ t) behind) all,
    )
