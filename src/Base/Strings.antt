-- ===== src/Base/Strings.antt =====
-- `std::string` as its bytes, with the searches of the standard library that the source uses.
-- A literal is ASCII, so the code points of its text are its bytes.
use Prim.Native.Nat.{ℕ, zero, suc, ◌+◌, ◌/◌, ◌%◌}
use Prim.Native.Char.{code}
use Prim.Native.String.{String}
use mathlib.Core.Bool.{Bool, true, false, ◌&&◌}
use mathlib.Core.Option.{Option, none, some}
use mathlib.Core.List.{List, [], ◌∷◌}
use mathlib.Core.Path.{◌≡◌, refl}
use mathlib.Core.List.{◌++◌}
use native.Mathlib.Omega.{arith}
use my_bookstore.Base.Lists.{All, length, drop, is_empty}
use my_bookstore.Base.Tests.{nat_eq, ltb, leb, if◌then◌else◌}
use my_bookstore.Base.Int.{ℤ, pos, negsuc}

abbrev pub Text : Type 0
Text = List ℕ

abbrev pub codes : String → Text
codes String.[] = []
codes (String.◌∷◌ c s) = code c ∷ codes s

-- `s.compare(0, p.size(), p) == 0`
abbrev pub starts_with : Text → Text → Bool
starts_with [] s = true
starts_with (p ∷ ps) [] = false
starts_with (p ∷ ps) (c ∷ s) = nat_eq p c && starts_with ps s

-- The text after the first occurrence of `pat` begins, that is `s.substr(s.find(pat))`; `none` is
-- `npos`. The pattern is not empty.
unfoldable pub find_text : Text → Text → Option Text
find_text pat [] = none
find_text pat (c ∷ s) = if starts_with pat (c ∷ s) then some (c ∷ s) else find_text pat s

-- The text before the first `c`, and the text after it if there is one.
unfoldable pub split_at : ℕ → Text → Text × Option Text
split_at c [] = ([], none)
split_at c (x ∷ s) =
    let (before, after) = split_at c s in if nat_eq x c then ([], some s) else (x ∷ before, after)

abbrev pub is_digit : ℕ → Bool
is_digit c = leb b'0' c && leb c b'9'

-- The decimal digits of a number, on fuel.
abbrev pub digits_fuel : ℕ → ℕ → Text → Text
digits_fuel zero n out = out
digits_fuel (suc f) n out =
    let longer = digits_fuel f (n / 10) ((b'0' + n % 10) ∷ out) in
    if ltb n 10 then (b'0' + n) ∷ out else longer

-- The digits of `n`, which has fewer than `n + 1` of them.
unfoldable pub digits : ℕ → Text
digits n = digits_fuel (suc n) n []

-- `std::to_string`
unfoldable pub to_string : ℤ → Text
to_string (pos n) = digits n
to_string (negsuc n) = b'-' ∷ digits (suc n)

abbrev pub Lacks : ℕ → Text → Type 0
Lacks c = All (λ x. nat_eq x c ≡ false)

pub split_at-append : (c : ℕ) (a b : Text) → Lacks c a → split_at c (a ++ c ∷ b) ≡ (a, some b)
unfolding split_at
split_at-append c [] b h = ground arith
split_at-append c (x ∷ a) b h = rw (split_at-append c a b h.1, h.0) refl

pub split_at-none : (c : ℕ) (a : Text) → Lacks c a → split_at c a ≡ (a, none)
unfolding split_at
split_at-none c [] h = refl
split_at-none c (x ∷ a) h = rw (split_at-none c a h.1, h.0) refl

pub starts_with-append : (p s : Text) → starts_with p (p ++ s) ≡ true
starts_with-append [] s = refl
starts_with-append (c ∷ p) s = ground (arith, starts_with-append p s)

pub drop-append : (p s : Text) → drop (length p) (p ++ s) ≡ s
drop-append [] s = refl
drop-append (c ∷ p) s = drop-append p s

pub digits_fuel-append :
    (f n : ℕ) (out rest : Text) → digits_fuel f n out ++ rest ≡ digits_fuel f n (out ++ rest)
digits_fuel-append zero n out rest = refl
digits_fuel-append (suc f) n out rest =
    ground (arith, digits_fuel-append f (n / 10) ((b'0' + n % 10) ∷ out) rest)

abbrev pub starts_with_digit : Text → Bool
starts_with_digit [] = false
starts_with_digit (c ∷ s) = is_digit c

digits_fuel_digit :
    (f n : ℕ) (out : Text)
    → starts_with_digit out ≡ true
    → starts_with_digit (digits_fuel f n out) ≡ true
digits_fuel_digit zero n out h = h
digits_fuel_digit (suc f) n out h =
    ground (arith, digits_fuel_digit f (n / 10) ((b'0' + n % 10) ∷ out))

pub digits_digit : (n : ℕ) (rest : Text) → starts_with_digit (digits n ++ rest) ≡ true
unfolding digits
digits_digit n rest = ground (
  arith,
  digits_fuel-append (suc n) n [] rest,
  digits_fuel_digit n (n / 10) ((b'0' + n % 10) ∷ rest),
)

-- A text that begins with the pattern is where the search stops.
pub find_text-here :
    (pat s : Text) → starts_with pat s ≡ true → is_empty s ≡ false → find_text pat s ≡ some s
unfolding find_text
find_text-here pat [] h ne = cc
find_text-here pat (c ∷ s) h ne = rw h refl

abbrev pub last_is : ℕ → Text → Bool
last_is c [] = false
last_is c (x ∷ []) = nat_eq x c
last_is c (x ∷ y ∷ s) = last_is c (y ∷ s)

-- All but the last byte.
abbrev pub drop_last : Text → Text
drop_last [] = []
drop_last (x ∷ []) = []
drop_last (x ∷ y ∷ s) = x ∷ drop_last (y ∷ s)

abbrev pub to_lower : ℕ → ℕ
to_lower c = if leb b'A' c && leb c b'Z' then c + 32 else c

-- `strncasecmp(s, p, p.size()) == 0`, for a `p` without zero bytes.
abbrev pub starts_with_any_case : Text → Text → Bool
starts_with_any_case [] s = true
starts_with_any_case (p ∷ ps) [] = false
starts_with_any_case (p ∷ ps) (c ∷ s) =
    nat_eq (to_lower p) (to_lower c) && starts_with_any_case ps s
