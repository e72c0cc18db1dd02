-- ===== src/Json/Strings.antt =====
-- Strings through JSON: what `json_string_value` reads back from `escape_json_string`.
-- The character a reader of the escape gets, which does not know the letters n, r and t.
use mathlib.Core.List.{append_assoc}
use my_bookstore.Base.{
  false, All-append, refl, ◌∙◌, [], split_at-append, starts_with-append, ap, arith, find_text-here,
  map, some, ◌∷◌, nat_eq, ◌≡◌, Lacks, find_text, if◌then◌else◌, split_at, ◌++◌, Text, ℕ,
}
use my_bookstore.Json.{
  prepend, quoted, quote, after_char, escape_char, scan_string, json_string_value,
  escape_json_string,
}

abbrev pub kept : ℕ → ℕ
kept c = if nat_eq c 10 then b'n' else if nat_eq c 13 then b'r' else if nat_eq c 9 then b't' else c

scan_string-escape_char :
    (c : ℕ) (s : Text) → scan_string (escape_char c ++ s) ≡ prepend (kept c) (scan_string s)
unfolding scan_string escape_char
scan_string-escape_char c [] = ground arith
scan_string-escape_char c (d ∷ s) = ground arith

scan_string-quote : (rest : Text) → scan_string (quote ∷ rest) ≡ some []
unfolding scan_string
scan_string-quote [] = refl
scan_string-quote (d ∷ rest) = refl

scan_string-escape_json_string :
    (value rest : Text)
    → scan_string (escape_json_string value ++ quote ∷ rest) ≡ some (map kept value)
unfolding escape_json_string
scan_string-escape_json_string [] rest = scan_string-quote rest
scan_string-escape_json_string (c ∷ value) rest =
    ap scan_string (append_assoc (escape_char c) (escape_json_string value) (quote ∷ rest))
    ∙ scan_string-escape_char c (escape_json_string value ++ quote ∷ rest)
    ∙ ap (prepend (kept c)) (scan_string-escape_json_string value rest)

-- The search for a key that begins the body, and for the colon behind it.
pub find_text-quoted :
    (key rest : Text) → find_text (quoted key) (quoted key ++ rest) ≡ some (quoted key ++ rest)
find_text-quoted key rest =
    find_text-here (quoted key) (quoted key ++ rest) (starts_with-append (quoted key) rest) refl

pub after_char-quoted :
    (key rest : Text) → Lacks b':' key → after_char b':' (quoted key ++ b':' ∷ rest) ≡ some rest
after_char-quoted key rest h =
    ap (λ x. x.1)
      (split_at-append b':' (quoted key) rest
        (refl, All-append (λ x. nat_eq x b':' ≡ false) key (quote ∷ []) h (refl, tt)))

-- A member whose key stands first in the body: the value comes back, except that a newline, a
-- carriage return and a tab come back as the letters n, r and t.
pub json_string_value-escape_json_string :
    (key value rest : Text)
    → Lacks b':' key
    → json_string_value
        (quoted key ++ b':' ∷ quote ∷ (escape_json_string value ++ quote ∷ rest))
        key
      ≡ some (map kept value)
unfolding json_string_value split_at
json_string_value-escape_json_string key value rest h =
    rw
      (
        find_text-quoted key (b':' ∷ quote ∷ (escape_json_string value ++ quote ∷ rest)),
        after_char-quoted key (quote ∷ (escape_json_string value ++ quote ∷ rest)) h,
      )
      (scan_string-escape_json_string value rest)
