-- ===== src/Http/Conn/Read/Pass.antt =====
-- One pass of the loop of `process_read` over a complete line.
use mathlib.Core.List.{append_assoc}
use my_bookstore.Http.Conn.{ok, get_line, parse_line, Conn}
use my_bookstore.Base.{refl, drop-append, suc, false, ◌≡◌, length, ℕ, [], ◌∷◌, ◌++◌, Text}
use my_bookstore.Http.Conn.Read.{
  dispatch_state, after_round, is_content, round, next_line, Conn, read_loop,
}
use my_bookstore.Http.Conn.Read.Lines.{IsPlain, scan_line-line}

-- What is left when the line `l` is complete.
abbrev pub line_done : Text → Text → Conn → Conn
line_done l r c = record c {
  before = (c.before ++ l) ++ 0 ∷ 0 ∷ [];
  rest = r;
  line_start = length ((c.before ++ l) ++ 0 ∷ 0 ∷ []);
}

pub read_loop-line :
    (c : Conn) (l r : Text) (n : ℕ)
    → IsPlain l
    → is_content c.check_state ≡ false
    → c.rest ≡ l ++ 13 ∷ 10 ∷ r
    → c.line_start ≡ length c.before
    → read_loop (suc n) ok c
      ≡ after_round (read_loop n) (dispatch_state c.check_state (l ++ 0 ∷ 0 ∷ []) (line_done l r c))
unfolding read_loop next_line parse_line round get_line
read_loop-line c l r n plain state rest start =
    rw
      (
        state,
        rest,
        scan_line-line l c.before r plain,
        start,
        append_assoc c.before l (0 ∷ 0 ∷ []),
        drop-append c.before (l ++ 0 ∷ 0 ∷ []),
      )
      refl
