-- ===== src/Controllers.antt =====
-- The handlers of src/app/controller: a request and the state behind a client give a response and the
-- new state.
pub mod Orders
pub mod Inventory
pub mod Users
pub mod Books
-- `std::atoi`: blanks, a sign and digits; the number is 0 where there is none.
use my_bookstore.Json.{read_digits, negate, skip_spaces}
use my_bookstore.Http.{json, HttpResponse}
use my_bookstore.Base.{digits, nat_eq, [], codes, if◌then◌else◌, pos, ◌++◌, ℤ, ◌∷◌, List, Text, ℕ}

unfoldable pub after_sign : Text → ℤ
after_sign [] = pos 0
after_sign (c ∷ s) =
    if nat_eq c b'-'
    then negate (read_digits s (pos 0))
    else if nat_eq c b'+'
    then read_digits s (pos 0)
    else read_digits (c ∷ s) (pos 0)

unfoldable pub atoi : Text → ℤ
unfolding after_sign
atoi s = after_sign (skip_spaces s)

-- `{"code":<status>,"message":"<message>","data":null}` under that status.
unfoldable pub failure : ℕ → Text → HttpResponse
failure status message = json status (
    codes "{\"code\":"
    ++ (digits status ++ (codes ",\"message\":\"" ++ (message ++ codes "\",\"data\":null}"))))

-- `{"code":0,"message":"ok","data":{<payload>}}` under that status.
unfoldable pub success : ℕ → Text → HttpResponse
success status payload =
    json status (codes "{\"code\":0,\"message\":\"ok\",\"data\":{" ++ (payload ++ codes "}}"))

-- The elements with a comma between them.
unfoldable pub with_commas : List Text → Text
with_commas [] = []
with_commas (x ∷ []) = x
with_commas (x ∷ y ∷ rest) = x ++ b',' ∷ with_commas (y ∷ rest)
