-- ===== src/Json/Ints.antt =====
-- Integers through JSON: what `json_int_value` reads back from `std::to_string`.
use my_bookstore.Json.Strings.{after_char-quoted, find_text-quoted}
use my_bookstore.Base.{
  digits_digit, digits_fuel-append, [], refl, ◌++◌, Lacks, false, neg_part, negsuc, some, ◌-◌, ◌∙◌,
  pos_part, starts_with_digit, true, ◌%◌, ap, digits, is_digit, to_string, ℤ, ◌-ℤ◌, ◌/◌, zero, inr,
  inl, ltb, Bool-cases, suc, arith, ◌≡◌, digits_fuel, pos, ◌∷◌, ◌+◌, ◌^◌, wrap32, ◌*◌, ◌<◌, Text,
  ◌+ℤ◌, ℕ, ◌*ℤ◌,
}
use my_bookstore.Json.{
  quoted, skip_spaces, negate, json_int_value_from, read_int, json_int_value, read_digits,
}

one_digit :
    (m d : ℕ)
    → 10 * m + d < 2 ^ 31
    → d < 10
    → wrap32 (wrap32 (pos m *ℤ pos 10) +ℤ pos d) ≡ pos (10 * m + d)
unfolding ◌*ℤ◌ ◌+ℤ◌ wrap32
one_digit m d h k = ground arith

digit-IsDigit : (d : ℕ) → d < 10 → (is_digit (b'0' + d) ≡ true) × (b'0' + d - b'0' ≡ d)
digit-IsDigit d k = ground arith

read_digits-digit :
    (m d : ℕ) (rest : Text)
    → 10 * m + d < 2 ^ 31
    → d < 10
    → read_digits ((b'0' + d) ∷ rest) (pos m) ≡ read_digits rest (pos (10 * m + d))
unfolding read_digits
read_digits-digit m d rest h k =
    let (e, s) = digit-IsDigit d k in rw (e, s) (ap (read_digits rest) (one_digit m d h k))

read_digits-digits_fuel :
    (f n : ℕ) (rest : Text)
    → n < f
    → n < 2 ^ 31
    → read_digits (digits_fuel f n rest) (pos 0) ≡ read_digits rest (pos n)
read_digits-digits_fuel zero n rest h k = absurd (omega arith)
read_digits-digits_fuel (suc f) n rest h k = elim (Bool-cases (ltb n 10)) [
  | inl e ↦ rw e (
      read_digits-digit 0 n rest (omega arith) (ground (arith, e))
      ∙ ap (λ m. read_digits rest (pos m)) (omega arith))
  | inr e ↦ rw e (
      read_digits-digits_fuel f (n / 10) ((b'0' + n % 10) ∷ rest) (ground (arith, e)) (omega arith)
      ∙ read_digits-digit (n / 10) (n % 10) rest (omega arith) (omega arith)
      ∙ ap (λ m. read_digits rest (pos m)) (omega arith))
]

read_digits-stop : (rest : Text) (a : ℤ) → starts_with_digit rest ≡ false → read_digits rest a ≡ a
unfolding read_digits
read_digits-stop [] a h = refl
read_digits-stop (c ∷ rest) a h = rw h refl

read_digits-digits :
    (n : ℕ) (rest : Text)
    → n < 2 ^ 31
    → starts_with_digit rest ≡ false
    → read_digits (digits n ++ rest) (pos 0) ≡ pos n
unfolding digits
read_digits-digits n rest k h =
    ap (λ s. read_digits s (pos 0)) (digits_fuel-append (suc n) n [] rest)
    ∙ read_digits-digits_fuel (suc n) n rest (omega arith) k
    ∙ read_digits-stop rest (pos n) h

read_int-digit :
    (s : Text)
    → starts_with_digit s ≡ true
    → read_int (skip_spaces s) ≡ some (read_digits s (pos 0))
unfolding read_int skip_spaces
read_int-digit [] h = cc h
read_int-digit (c ∷ s) h = ground arith

read_int-minus :
    (s : Text)
    → starts_with_digit s ≡ true
    → read_int (skip_spaces (b'-' ∷ s)) ≡ some (negate (read_digits s (pos 0)))
unfolding read_int skip_spaces
read_int-minus s h = rw h refl

negate_pos : (n : ℕ) → suc n < 2 ^ 31 → negate (pos (suc n)) ≡ negsuc n
unfolding wrap32 ◌-ℤ◌
negate_pos n h = ground arith

pub read_int-to_string :
    (v : ℤ) (rest : Text)
    → pos_part v < 2 ^ 31
    → neg_part v < 2 ^ 31
    → starts_with_digit rest ≡ false
    → read_int (skip_spaces (to_string v ++ rest)) ≡ some v
unfolding to_string
read_int-to_string (pos n) rest p q h =
    read_int-digit (digits n ++ rest) (digits_digit n rest)
    ∙ ap some (read_digits-digits n rest p h)
read_int-to_string (negsuc n) rest p q h =
    read_int-minus (digits (suc n) ++ rest) (digits_digit (suc n) rest)
    ∙ ap some (ap negate (read_digits-digits (suc n) rest q h) ∙ negate_pos n q)

-- A member whose key stands first in the body: an `int` above the least one that was printed comes
-- back, if no digit follows it.
pub json_int_value-to_string :
    (key : Text) (v : ℤ) (rest : Text)
    → Lacks b':' key
    → pos_part v < 2 ^ 31
    → neg_part v < 2 ^ 31
    → starts_with_digit rest ≡ false
    → json_int_value (quoted key ++ b':' ∷ (to_string v ++ rest)) key ≡ some v
unfolding json_int_value json_int_value_from
json_int_value-to_string key v rest k p q h =
    rw
      (
        find_text-quoted key (b':' ∷ (to_string v ++ rest)),
        after_char-quoted key (to_string v ++ rest) k,
      )
      (read_int-to_string v rest p q h)
