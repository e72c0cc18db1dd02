-- ===== src/Http/Conn/Request.antt =====
-- `parse_request_line`, `parse_headers` and `parse_content`.
use my_bookstore.Json.{skip_spaces}
use my_bookstore.Base.{
  text_eq, neg_part, is_digit, leb, take, ltb_ℤ, ◌-ℤ◌, ◌-◌, ◌^◌, is_empty, pos, pos_part, true,
  ◌&&◌, ◌+◌, ◌||◌, [], false, int_eq, leb_ℤ, length, ltb, nat_eq, not, starts_with_any_case,
  starts_with_digit, ◌*◌, ◌==◌, Bool, codes, drop, if◌then◌else◌, none, some, ◌∷◌, Option, Text, ℕ,
  ℤ,
}
use my_bookstore.Http.Conn.{
  content, post, get_request, header, get, no_request, bad_request, Method, HttpCode, Conn,
}

abbrev pub is_blank : ℕ → Bool
is_blank c = nat_eq c 32 || nat_eq c 9

-- The text in front of the first blank, and the text from there.
unfoldable pub until_blank : Text → Text × Text
until_blank [] = ([], [])
until_blank (c ∷ s) =
    let (word, rest) = until_blank s in if is_blank c then ([], c ∷ s) else (c ∷ word, rest)

-- From the first byte that is no blank.
unfoldable pub skip_blanks : Text → Text
skip_blanks [] = []
skip_blanks (c ∷ s) = if is_blank c then skip_blanks s else c ∷ s

-- `url_sv.find('/')`, and the text from there.
unfoldable pub from_slash : Text → Option Text
from_slash [] = none
from_slash (c ∷ s) = if nat_eq c b'/' then some (c ∷ s) else from_slash s

abbrev pub strip : Text → Text → Option Text
strip scheme url = from_slash (drop (length scheme) url)

abbrev pub has_scheme : Text → Text → Bool
has_scheme scheme url = ltb (length scheme) (length url) && starts_with_any_case scheme url

-- The scheme and the host are cut off.
unfoldable pub strip_scheme : Text → Option Text
unfolding from_slash
strip_scheme url =
    if has_scheme (codes "http://") url
    then strip (codes "http://") url
    else if has_scheme (codes "https://") url
    then strip (codes "https://") url
    else some url

-- The test of the URL, and the start page for `/`.
unfoldable pub checked_url : Text → Option Text
checked_url [] = none
checked_url (c ∷ s) =
    if nat_eq c b'/' then some (if is_empty s then codes "/judge.html" else c ∷ s) else none

unfoldable pub method_of : Text → Option Method
method_of word =
    if word == codes "GET" then some get else if word == codes "POST" then some post else none

infixl 5 ◌>>=◌
abbrev ◌>>=◌ {ℓ κ} : {A : Type ℓ} {B : Type κ} → Option A → (A → Option B) → Option B
none >>= f = none
some a >>= f = f a

-- `npos` for a text that ends.
abbrev pub not_end : Text → Option Text
not_end [] = none
not_end (c ∷ s) = some (c ∷ s)

-- The version. The zero bytes that the source cuts off play no part in the comparison, which reads
-- eight bytes of the buffer.
abbrev pub check_version : Text → Option (Unit {0})
check_version version = if starts_with_any_case (codes "HTTP/1.1") version then some tt else none

-- The method and the URL of a request line; `none` is `BadRequest`.
unfoldable pub request_line_parts : Text → Option (Method × Text)
unfolding until_blank skip_blanks strip_scheme checked_url method_of
request_line_parts text =
    let (word, after_word) = until_blank text in
    do
      gap ← not_end after_word
      method ← method_of word
      target ← not_end (skip_blanks gap)
      let (url, after_url) = until_blank target
      gap' ← not_end after_url
      version ← not_end (skip_blanks gap')
      _ ← check_version version
      path ← strip_scheme url
      url' ← checked_url path
      some (method, url')

abbrev or_method : Method → Option Method → Method
or_method m none = m
or_method m (some m') = m'

-- `method_`, which is set before the rest of the line is looked at.
unfoldable pub method_after : Text → Method → Method
unfolding until_blank method_of
method_after text m =
    let (word, after_word) = until_blank text in
    or_method m (not_end after_word >>= (λ gap. method_of word))

abbrev pub stored : Option (Method × Text) → Conn → HttpCode × Conn
stored none c = (bad_request, c)
stored (some (method, url)) c =
    (no_request, record c { method = method; url = url; check_state = header })

unfoldable pub parse_request_line : Text → Conn → HttpCode × Conn
unfolding request_line_parts method_after
parse_request_line text c =
    stored (request_line_parts text) (record c { method = method_after text c.method })

-- `header_val`; the empty text is the empty view.
unfoldable pub header_val : Text → Text → Text
unfolding skip_blanks
header_val prefix text =
    if ltb (length prefix) (length text) && starts_with_any_case prefix text
    then skip_blanks (drop (length prefix) text)
    else []

-- The number that the digits in front spell.
unfoldable pub digits_value : Text → ℕ → ℕ
digits_value [] n = n
digits_value (c ∷ s) n =
    let more = digits_value s (10 * n + (c - b'0')) in if is_digit c then more else n

-- The value is in the range of `long`.
abbrev pub in_long : ℤ → Bool
in_long a = ltb (pos_part a) (2 ^ 63) && leb (neg_part a) (2 ^ 63)

abbrev pub checked_long : ℤ → Option ℤ
checked_long a = if in_long a then some a else none

abbrev pub signed : Text → Bool → Option ℤ
signed s minus =
    if starts_with_digit s
    then checked_long (if minus then pos 0 -ℤ pos (digits_value s 0) else pos (digits_value s 0))
    else none

abbrev pub long_of : Text → Option ℤ
long_of [] = none
long_of (c ∷ s) =
    if nat_eq c b'-'
    then signed s true
    else if nat_eq c b'+'
    then signed s false
    else signed (c ∷ s) false

-- `std::stol`; `none` is an exception.
unfoldable pub stol : Text → Option ℤ
unfolding digits_value
stol s = long_of (skip_spaces s)

abbrev pub with_length : Option ℤ → Conn → Option Conn
with_length none c = none
with_length (some n) c = some (record c { content_length = n })

-- A line of the header that is not empty; `none` is the exception of `std::stol`.
unfoldable pub header_field : Text → Conn → Option Conn
unfolding header_val stol
header_field text c =
    let connection = header_val (codes "Connection:") text in
    let length_text = header_val (codes "Content-length:") text in
    let host = header_val (codes "Host:") text in
    if not (is_empty connection)
    then some (record c { linger = starts_with_any_case (codes "keep-alive") connection })
    else if not (is_empty length_text)
    then with_length (stol length_text) c
    else if not (is_empty host)
    then some (record c { host = host })
    else some c

abbrev pub field_code : Option Conn → Option (HttpCode × Conn)
field_code none = none
field_code (some c) = some (no_request, c)

-- `text[0] == '\0'`
abbrev pub is_blank_line : Text → Bool
is_blank_line [] = false
is_blank_line (c ∷ s) = nat_eq c 0

unfoldable pub parse_headers : Text → Conn → Option (HttpCode × Conn)
unfolding header_field
parse_headers text c =
    let field = field_code (header_field text c) in
    if is_blank_line text
    then if int_eq c.content_length (pos 0)
      then some (get_request, c)
      else some (no_request, record c { check_state = content })
    else field

-- `static_cast<int>(checked_idx_) + content_length_` is taken without a bound: it is the source's sum
-- while that fits `long`.
unfoldable pub parse_content : Conn → HttpCode × Conn
parse_content c =
    if leb_ℤ c.content_length (pos 0) || ltb_ℤ (pos (length c.rest)) c.content_length
    then (no_request, c)
    else (get_request, record c { request_body = take (pos_part c.content_length) c.rest })
