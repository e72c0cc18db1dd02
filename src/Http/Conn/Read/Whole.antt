-- ===== src/Http/Conn/Read/Whole.antt =====
-- A complete `GET` request in the buffer of a fresh connection.
use my_bookstore.Http.Conn.Read.Fuel.{process_read_lem}
use my_bookstore.Http.Conn.Read.{ended_with, read_loop, process_read}
use my_bookstore.Http.Conn.Read.Pass.{read_loop-line, line_done}
use my_bookstore.Http.Conn.Read.Lines.{IsPlainByte, IsPlain}
use mathlib.Core.List.{append_assoc}
use my_bookstore.Base.{
  inr, subst, inl, ◌||◌, nat_eq, ◌+◌, All-append, Bool-cases, if◌then◌else◌, ◌*◌, ◌∙◌, arith,
  starts_with_any_case, length, true, suc, ◌&&◌, Bool, ltb, false, refl, some, [], ◌≡◌, All, codes,
  ℕ, ◌++◌, ◌∷◌, Text,
}
use my_bookstore.Http.Conn.Request.{
  parse_request_line, parse_headers, header_val, header_field, is_blank, method_of, until_blank,
  strip_scheme, skip_blanks, request_line_parts, checked_url,
}
use my_bookstore.Http.Conn

-- Bytes with no blank among them.
abbrev pub IsWord : Text → Type 0
IsWord = All (λ c. is_blank c ≡ false)

-- A word ends at a space.
until_blank-word : (w s : Text) → IsWord w → until_blank (w ++ 32 ∷ s) ≡ (w, 32 ∷ s)
unfolding until_blank
until_blank-word [] s h = refl
until_blank-word (c ∷ w) s h = rw (h.0, until_blank-word w s h.1) refl

skip_blanks-word : (c : ℕ) (w : Text) → is_blank c ≡ false → skip_blanks (c ∷ w) ≡ c ∷ w
unfolding skip_blanks
skip_blanks-word c w h = rw h refl

and_false : (b : Bool) → b && false ≡ false
and_false true = refl
and_false false = refl

-- The path of a URL that has no scheme.
strip_scheme-path : (s : Text) → strip_scheme (b'/' ∷ s) ≡ some (b'/' ∷ s)
unfolding strip_scheme
strip_scheme-path s =
    rw (and_false (ltb 7 (suc (length s))), and_false (ltb 8 (suc (length s)))) refl

-- The line `GET /... HTTP/1.1`.
abbrev pub get_line_of : Text → Text
get_line_of url = codes "GET " ++ (url ++ codes " HTTP/1.1")

get_parts :
    (c : ℕ) (u : Text)
    → IsWord (c ∷ u)
    → request_line_parts (get_line_of (b'/' ∷ c ∷ u) ++ 0 ∷ 0 ∷ []) ≡ some (Conn.get, b'/' ∷ c ∷ u)
unfolding request_line_parts until_blank skip_blanks method_of checked_url
get_parts c u h =
    rw (append_assoc u (codes " HTTP/1.1") (0 ∷ 0 ∷ []), h.0)
      (rw (until_blank-word u (codes "HTTP/1.1" ++ 0 ∷ 0 ∷ []) h.1, strip_scheme-path (c ∷ u)) refl)

-- A line with another name.
header_val_other :
    (name text : Text) → starts_with_any_case name text ≡ false → header_val name text ≡ []
unfolding header_val
header_val_other name text e = rw (e, and_false (ltb (length name) (length text))) refl

host_val :
    (d : ℕ) (s : Text)
    → is_blank d ≡ false
    → header_val (codes "Host:") (codes "Host: " ++ d ∷ s) ≡ d ∷ s
unfolding header_val skip_blanks
host_val d s blank =
    let longer : ltb 5 (length (codes "Host: " ++ d ∷ s)) ≡ true = ground arith in
    rw (longer, blank) refl

-- A host line, which keeps the zero bytes that `parse_line` put in place of its end.
host_field :
    (d : ℕ) (s : Text) (c : Conn.Conn)
    → is_blank d ≡ false
    → header_field (codes "Host: " ++ d ∷ s) c ≡ some (record c { host = d ∷ s })
unfolding header_field
host_field d s c blank =
    rw
      (
        header_val_other (codes "Connection:") (codes "Host: " ++ d ∷ s) refl,
        header_val_other (codes "Content-length:") (codes "Host: " ++ d ∷ s) refl,
        host_val d s blank,
      )
      refl

-- A request for the URL with one header line, and bytes behind it.
abbrev pub get_request_text : Text → Text → Text → Text
get_request_text url host more =
    get_line_of url ++ (13 ∷ 10 ∷ ((codes "Host: " ++ host) ++ 13 ∷ 10 ∷ 13 ∷ 10 ∷ more))

-- The connection behind the request line, and behind the host line.
abbrev at_headers : Text → Text → Conn.Conn
at_headers url s = record (line_done (get_line_of url) s (Conn.append_bytes [] Conn.reset_state)) {
  url = url;
  check_state = Conn.header;
}

abbrev pub with_host : Text → Text → Text → Conn.Conn
with_host url host s = record (line_done (codes "Host: " ++ host) s (at_headers url [])) {
  host = host ++ 0 ∷ 0 ∷ [];
}

or_right : (a b : Bool) → b ≡ true → a || b ≡ true
or_right true b e = refl
or_right false b e = e

or_none : (a b : Bool) → a ≡ false → b ≡ false → a || b ≡ false
or_none a b d e = rw (d, e) refl

unfoldable pub is_plain : Text → Bool
is_plain [] = true
is_plain (c ∷ s) = if nat_eq c 13 || nat_eq c 10 then false else is_plain s

pub is_plain-IsPlain : (s : Text) → is_plain s ≡ true → IsPlain s
unfolding is_plain
is_plain-IsPlain [] e = tt
is_plain-IsPlain (c ∷ s) e = elim (Bool-cases (nat_eq c 13)) [
  | inl d ↦ absurd (
      let x : false ≡ true =
        subst (λ b. (if b || nat_eq c 10 then false else is_plain s) ≡ true) d e in
      cc x)
  | inr d ↦ elim (Bool-cases (nat_eq c 10)) [
    | inl k ↦ absurd (
        let x : false ≡ true =
          subst (λ b. (if b then false else is_plain s) ≡ true)
            (or_right (nat_eq c 13) (nat_eq c 10) k) e in
        cc x)
    | inr k ↦ (
      (d, k),
      is_plain-IsPlain s (
          subst (λ b. (if b then false else is_plain s) ≡ true)
            (or_none (nat_eq c 13) (nat_eq c 10) d k) e),
    )
  ]
]

request_line-pass :
    (c : ℕ) (u s : Text) (n : ℕ)
    → IsPlain (c ∷ u)
    → IsWord (c ∷ u)
    → read_loop
        (suc n)
        Conn.ok
        (Conn.append_bytes (get_line_of (b'/' ∷ c ∷ u) ++ 13 ∷ 10 ∷ s) Conn.reset_state)
      ≡ read_loop n Conn.ok (at_headers (b'/' ∷ c ∷ u) s)
unfolding parse_request_line is_plain
request_line-pass c u s n plain word =
    let plain_line : IsPlain (get_line_of (b'/' ∷ c ∷ u)) =
      All-append IsPlainByte (codes "GET /") (c ∷ u ++ codes " HTTP/1.1")
        (is_plain-IsPlain (codes "GET /") refl)
        (All-append IsPlainByte (c ∷ u) (codes " HTTP/1.1") plain
          (is_plain-IsPlain (codes " HTTP/1.1") refl)) in
    read_loop-line (Conn.append_bytes (get_line_of (b'/' ∷ c ∷ u) ++ 13 ∷ 10 ∷ s) Conn.reset_state)
      (get_line_of (b'/' ∷ c ∷ u)) s n plain_line refl refl refl
    ∙ rw (get_parts c u word) refl

host-pass :
    (url : Text) (d : ℕ) (h s : Text) (n : ℕ)
    → IsPlain (d ∷ h)
    → is_blank d ≡ false
    → read_loop (suc n) Conn.ok (at_headers url ((codes "Host: " ++ d ∷ h) ++ 13 ∷ 10 ∷ s))
      ≡ read_loop n Conn.ok (with_host url (d ∷ h) s)
unfolding parse_headers is_plain
host-pass url d h s n plain blank =
    let plain_line : IsPlain (codes "Host: " ++ d ∷ h) =
      All-append IsPlainByte (codes "Host: ") (d ∷ h) (is_plain-IsPlain (codes "Host: ") refl)
        plain in
    read_loop-line (at_headers url ((codes "Host: " ++ d ∷ h) ++ 13 ∷ 10 ∷ s))
      (codes "Host: " ++ d ∷ h) s n plain_line refl refl refl
    ∙ rw
        (host_field d (h ++ 0 ∷ 0 ∷ []) (line_done (codes "Host: " ++ d ∷ h) s (at_headers url []))
          blank)
        refl

last-pass :
    (url host more : Text) (n : ℕ)
    → read_loop (suc n) Conn.ok (with_host url host (13 ∷ 10 ∷ more))
      ≡ ended_with (some (Conn.get_request, line_done [] more (with_host url host [])))
unfolding parse_headers
last-pass url host more n =
    read_loop-line (with_host url host (13 ∷ 10 ∷ more)) [] more n tt refl refl refl ∙ refl

-- A complete request line and host line and the blank line, as the first bytes of a connection, are
-- a complete request for the URL, where this is `/` and a text of one byte at least without blanks
-- and line ends, and the host is a text without line ends that starts with no blank. The bytes
-- behind them stay in the buffer, and the host is followed by the two zero bytes that stand for its
-- line end.
pub process_read-get_request :
    (c : ℕ) (u : Text) (d : ℕ) (h more : Text)
    → IsPlain (c ∷ u)
    → IsWord (c ∷ u)
    → IsPlain (d ∷ h)
    → is_blank d ≡ false
    → process_read
        (Conn.append_bytes (get_request_text (b'/' ∷ c ∷ u) (d ∷ h) more) Conn.reset_state)
      ≡ some (Conn.get_request, line_done [] more (with_host (b'/' ∷ c ∷ u) (d ∷ h) []))
process_read-get_request c u d h more plain word plain_host blank =
    let url = b'/' ∷ c ∷ u in
    let s = (codes "Host: " ++ d ∷ h) ++ 13 ∷ 10 ∷ 13 ∷ 10 ∷ more in
    let start = Conn.append_bytes (get_request_text url (d ∷ h) more) Conn.reset_state in
    let k = 2 * length start.rest + 2 in
    process_read_lem start (suc (suc (suc k))) (omega arith) (
      request_line-pass c u s (suc (suc k)) plain word
      ∙ host-pass url d h (13 ∷ 10 ∷ more) (suc k) plain_host blank
      ∙ last-pass url (d ∷ h) more k)
