-- ===== src/Gateway/Patch.antt =====
-- Requests with the method `PATCH`.
use my_bookstore.Http.Conn.Read.Fuel.{process_read_lem}
use my_bookstore.Http.Conn.Read.Pass.{read_loop-line, line_done}
use my_bookstore.Http.Conn.Read.{process_read}
use my_bookstore.Http.Conn.Read.Lines.{IsPlainByte, IsPlain}
use my_bookstore.Base.{
  arith, ◌+◌, length, ◌*◌, suc, All-append, refl, some, ◌∷◌, ◌≡◌, ◌++◌, codes, Text,
}
use my_bookstore.Http.Conn.Request.{
  method_of, until_blank, method_after, request_line_parts, parse_request_line,
}
use my_bookstore.Http.Conn

-- A first line that starts with `PATCH` and a blank gets the code for a bad request, whatever the rest
-- of the line, which has no line end in it, and the bytes behind it.
pub process_read-patch :
    (l more : Text)
    → IsPlain l
    → process_read (Conn.append_bytes ((codes "PATCH " ++ l) ++ 13 ∷ 10 ∷ more) Conn.reset_state)
      ≡ some (Conn.bad_request, line_done (codes "PATCH " ++ l) more Conn.reset_state)
unfolding parse_request_line request_line_parts method_after until_blank method_of
process_read-patch l more plain =
    let c = Conn.append_bytes ((codes "PATCH " ++ l) ++ 13 ∷ 10 ∷ more) Conn.reset_state in
    let plain_line =
      All-append IsPlainByte (codes "PATCH ") l
        (
          (refl, refl),
          ((refl, refl), ((refl, refl), ((refl, refl), ((refl, refl), ((refl, refl), tt))))),
        )
        plain in
    process_read_lem c (suc (2 * length c.rest + 2)) (omega arith)
      (read_loop-line c (codes "PATCH " ++ l) more _ plain_line refl refl refl)
