-- ===== src/Http/Url.antt =====
-- The functions of src/net/http/url_params.h. A `string_view` position is the rest of the text; a
-- loop that cuts at `&` runs on fuel, and a rest that is cut off is shorter.
pub mod Decode
pub mod Param
use my_bookstore.Base.{
  drop, ◌+◌, starts_with, text_eq, ◌-◌, ◌^◌, emplace, zero, ◌&&◌, ◌*◌, [], leb, ltb, nat_eq,
  split_at, suc, ◌++◌, Dict, if◌then◌else◌, length, none, some, ◌∷◌, Option, Text, ℕ,
}
use Prim.Native.Nat.{bit_or}

-- The test on one token of `get_param`, with `prefix` = key and `=`.
unfoldable pub value_after : Text → Text → Option Text
value_after prefix token =
    if ltb (length prefix) (length token) && starts_with prefix token
    then some (drop (length prefix) token)
    else none

abbrev or_else : {A : Type 0} → Option A → Option A → Option A
or_else none b = b
or_else (some a) b = some a

-- The loop of `get_param`.
unfoldable pub get_param_loop : ℕ → Text → Text → Option Text
get_param_loop zero prefix body = none
get_param_loop (suc fuel) prefix [] = none
get_param_loop (suc fuel) prefix (c ∷ body) =
    let (token, rest) = split_at b'&' (c ∷ body) in
    elim (value_after prefix token) [
      | some value ↦ some value
      | none ↦ elim rest [ none ↦ none | some body' ↦ get_param_loop fuel prefix body' ]
    ]

unfoldable pub get_param : Text → Text → Option Text
unfolding get_param_loop
get_param body key = get_param_loop (length body) (key ++ b'=' ∷ []) body

-- The lambda `hex_val`; `none` is -1.
unfoldable pub hex_val : ℕ → Option ℕ
hex_val c =
    if leb b'0' c && leb c b'9'
    then some (c - b'0')
    else if leb b'A' c && leb c b'F'
    then some (c - b'A' + 10)
    else if leb b'a' c && leb c b'f'
    then some (c - b'a' + 10)
    else none

-- `%` and two hexadecimal digits, as a byte.
unfoldable pub escape_value : ℕ → ℕ → ℕ → Option ℕ
unfolding hex_val
escape_value c h l =
    if nat_eq c b'%'
    then elim (hex_val h) [
      | none ↦ none
      | some hi ↦ elim (hex_val l) [ none ↦ none | some lo ↦ some (bit_or (hi * 2 ^ 4) lo) ]
    ]
    else none

unfoldable pub url_decode : Text → Text
unfolding escape_value
url_decode [] = []
url_decode (c ∷ []) = c ∷ []
url_decode (c ∷ d ∷ []) = c ∷ d ∷ []
url_decode (c ∷ h ∷ l ∷ s) = elim (escape_value c h l) [
  | some byte ↦ byte ∷ url_decode s
  | none ↦ c ∷ url_decode (h ∷ l ∷ s)
]

-- One token of `parse_query_string`.
unfoldable pub add_token : Text → Dict Text Text → Dict Text Text
add_token token params =
    let (name, value) = split_at b'=' token in
    elim value [ none ↦ params | some v ↦ emplace (url_decode name) (url_decode v) params ]

unfoldable pub parse_query_loop : ℕ → Text → Dict Text Text → Dict Text Text
unfolding add_token
parse_query_loop zero query params = params
parse_query_loop (suc fuel) [] params = params
parse_query_loop (suc fuel) (c ∷ query) params =
    let (token, rest) = split_at b'&' (c ∷ query) in
    elim rest [
      | none ↦ add_token token params
      | some query' ↦ parse_query_loop fuel query' (add_token token params)
    ]

unfoldable pub parse_query_string : Text → Dict Text Text
unfolding parse_query_loop
parse_query_string query = parse_query_loop (length query) query []

-- The path and the parameters that go through the references.
unfoldable pub split_path_and_query : Text → Text × Dict Text Text
split_path_and_query url =
    let (path, query) = split_at b'?' url in
    elim query [ none ↦ (path, []) | some q ↦ (path, parse_query_string q) ]
