-- ===== src/Json.antt =====
-- The JSON helpers of src/app/util/json.h: escaping, and searches in a body that is not parsed.
-- A position in the body is the rest of the text from there.
pub mod Strings
pub mod Ints
use my_bookstore.Base.{
  starts_with_digit, ◌&&◌, leb, ◌-◌, drop, is_digit, length, zero, ◌+ℤ◌, ◌-ℤ◌, ◌||◌, [], codes,
  false, nat_eq, pos, suc, ◌*ℤ◌, ◌++◌, Bool, List, find_text, if◌then◌else◌, none, some, split_at,
  wrap32, ◌∷◌, Option, Text, ℕ, ℤ,
}
use my_bookstore.Model.{OrderItemRequest}

abbrev pub quote : ℕ
quote = 34

abbrev pub backslash : ℕ
backslash = 92

unfoldable pub escape_char : ℕ → Text
escape_char c =
    if nat_eq c backslash
    then backslash ∷ backslash ∷ []
    else if nat_eq c quote
    then backslash ∷ quote ∷ []
    else if nat_eq c 10
    then backslash ∷ b'n' ∷ []
    else if nat_eq c 13
    then backslash ∷ b'r' ∷ []
    else if nat_eq c 9
    then backslash ∷ b't' ∷ []
    else c ∷ []

unfoldable pub escape_json_string : Text → Text
unfolding escape_char
escape_json_string [] = []
escape_json_string (c ∷ value) = escape_char c ++ escape_json_string value

-- `"\"" + key + "\""`
abbrev pub quoted : Text → Text
quoted key = quote ∷ (key ++ quote ∷ [])

-- What follows the first `c`; `none` is `npos`.
abbrev pub after_char : ℕ → Text → Option Text
after_char c s = (split_at c s).1

abbrev pub prepend : ℕ → Option Text → Option Text
prepend c none = none
prepend c (some s) = some (c ∷ s)

-- The loop of `json_string_value` behind the opening quote.
unfoldable pub scan_string : Text → Option Text
scan_string [] = none
scan_string (c ∷ []) = if nat_eq c quote then some [] else none
scan_string (c ∷ d ∷ s) =
    let escaped = prepend d (scan_string s) in
    let plain = prepend c (scan_string (d ∷ s)) in
    if nat_eq c backslash then escaped else if nat_eq c quote then some [] else plain

infixl 5 ◌>>=◌
abbrev pub ◌>>=◌ {ℓ κ} : {A : Type ℓ} {B : Type κ} → Option A → (A → Option B) → Option B
none >>= f = none
some a >>= f = f a

unfoldable pub json_string_value : Text → Text → Option Text
unfolding scan_string
json_string_value body key = do
  from_key ← find_text (quoted key) body
  from_colon ← after_char b':' from_key
  from_quote ← after_char quote from_colon
  scan_string from_quote

-- `std::isspace` in the C locale.
abbrev pub is_space : ℕ → Bool
is_space c = nat_eq c 32 || (leb 9 c && leb c 13)

unfoldable pub skip_spaces : Text → Text
skip_spaces [] = []
skip_spaces (c ∷ s) = if is_space c then skip_spaces s else c ∷ s

-- `value = value * 10 + (body[pos] - '0')` while there are digits.
unfoldable pub read_digits : Text → ℤ → ℤ
read_digits [] value = value
read_digits (c ∷ s) value =
    let more = read_digits s (wrap32 (wrap32 (value *ℤ pos 10) +ℤ pos (c - b'0'))) in
    if is_digit c then more else value

abbrev pub negate : ℤ → ℤ
negate a = wrap32 (pos 0 -ℤ a)

-- The number behind the spaces, with its sign.
unfoldable pub read_int : Text → Option ℤ
unfolding read_digits
read_int [] = none
read_int (c ∷ s) =
    if nat_eq c b'-'
    then if starts_with_digit s then some (negate (read_digits s (pos 0))) else none
    else if is_digit c
    then some (read_digits (c ∷ s) (pos 0))
    else none

unfoldable pub json_int_value_from : Text → Text → Option ℤ
unfolding skip_spaces read_int
json_int_value_from body key = do
  from_key ← find_text (quoted key) body
  from_colon ← after_char b':' from_key
  read_int (skip_spaces from_colon)

unfoldable pub json_int_value : Text → Text → Option ℤ
unfolding json_int_value_from
json_int_value body key = json_int_value_from body key

-- One round of `json_order_items`: the item, and the text behind the start of its quantity key.
unfoldable pub next_item : Text → Option (OrderItemRequest × Text)
unfolding json_int_value_from
next_item body = do
  from_book ← find_text (quoted (codes "book_id")) body
  from_quantity ← find_text (quoted (codes "quantity")) from_book
  book_id ← json_int_value_from from_book (codes "book_id")
  quantity ← json_int_value_from from_quantity (codes "quantity")
  some (record { book_id = book_id; quantity = quantity }, drop 1 from_quantity)

-- The loop; a round leaves less text than it found.
unfoldable pub order_items_loop : ℕ → Text → List OrderItemRequest
unfolding next_item
order_items_loop zero body = []
order_items_loop (suc fuel) body = elim (next_item body) [
  | none ↦ []
  | some (item, rest) ↦ item ∷ order_items_loop fuel rest
]

unfoldable pub json_order_items : Text → List OrderItemRequest
unfolding order_items_loop
json_order_items body = order_items_loop (suc (length body)) body
