-- ===== src/Examples/Texts.antt =====
-- Texts through the URL and JSON helpers, and digests.
use my_bookstore.Json.Strings.{json_string_value-escape_json_string, kept}
use my_bookstore.Http.Url.Decode.{url_decode-url_encode, url_encode}
use my_bookstore.Base.{map, refl, arith, some, none, ◌++◌, ◌∷◌, ◌≡◌, [], codes, is_digit}
use my_bookstore.Json.{escape_json_string, quote, quoted, json_string_value}
use my_bookstore.Http.Url.{value_after, url_decode}

url_decode-url_encode_example : url_decode (url_encode is_digit (codes "7 %")) ≡ codes "7 %"
url_decode-url_encode_example =
    url_decode-url_encode is_digit (codes "7 %") refl
      (omega arith, (omega arith, (omega arith, tt)))

other_first : value_after (codes "user=") (codes "a=1") ≡ none
unfolding value_after
other_first = refl

json_string_value-escape_json_string_example :
    json_string_value
      (quoted (codes "title")
        ++ b':' ∷ quote ∷ (escape_json_string (34 ∷ 10 ∷ []) ++ quote ∷ codes "}"))
      (codes "title")
    ≡ some (map kept (34 ∷ 10 ∷ []))
json_string_value-escape_json_string_example =
    json_string_value-escape_json_string (codes "title") (34 ∷ 10 ∷ []) (codes "}")
      (refl, (refl, (refl, (refl, (refl, tt)))))
