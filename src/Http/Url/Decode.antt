-- ===== src/Http/Url/Decode.antt =====
-- `url_decode` reads back what percent encoding wrote.
use my_bookstore.Base.{
  ◌∙◌, inr, inl, Bool-cases, ap, nat_eq_iff, refl, zero, ◌-◌, All, [], arith, none, suc, ◌+◌, ◌^◌,
  false, ltb, some, true, ◌%◌, ◌*◌, ◌∷◌, Bool, Text, if◌then◌else◌, ◌/◌, ◌<◌, ◌≡◌, nat_eq, ℕ,
}
use Prim.Native.Nat.{bit_or}
use my_bookstore.Http.Url.{nat_eq, hex_val, escape_value, url_decode}

-- Percent encoding with capital digits, where `keep` says which bytes stand for themselves.
unfoldable pub hex_upper : ℕ → ℕ
hex_upper n = if ltb n 10 then b'0' + n else b'A' + (n - 10)

unfoldable pub url_encode : (ℕ → Bool) → Text → Text
url_encode keep [] = []
url_encode keep (c ∷ s) =
    if keep c
    then c ∷ url_encode keep s
    else b'%' ∷ hex_upper (c / 16) ∷ hex_upper (c % 16) ∷ url_encode keep s

hex_val-hex_upper : (n : ℕ) → n < 16 → hex_val (hex_upper n) ≡ some n
unfolding hex_val hex_upper
hex_val-hex_upper n h = ground arith

-- Does the test hold for each number under the bound?
check_under : (ℕ → Bool) → ℕ → Bool
check_under test zero = true
check_under test (suc bound) = if test bound then check_under test bound else false

check_under-holds :
    (test : ℕ → Bool) (bound i : ℕ) → i < bound → check_under test bound ≡ true → test i ≡ true
unfolding check_under
check_under-holds test zero i less e = absurd (omega arith)
check_under-holds test (suc bound) i less e = ground (arith, check_under-holds test bound i)

joins : ℕ → Bool
joins c = nat_eq (bit_or (c / 16 * 2 ^ 4) (c % 16)) c

joins_all : check_under joins 256 ≡ true
unfolding check_under joins
joins_all = refl

nibbles : (c : ℕ) → c < 256 → bit_or (c / 16 * 2 ^ 4) (c % 16) ≡ c
unfolding joins
nibbles c h = (nat_eq_iff _ c).0 (check_under-holds joins 256 c h joins_all)

escape_value-hex :
    (c : ℕ) → c < 256 → escape_value b'%' (hex_upper (c / 16)) (hex_upper (c % 16)) ≡ some c
unfolding escape_value
escape_value-hex c h =
    rw (hex_val-hex_upper (c / 16) (omega arith), hex_val-hex_upper (c % 16) (omega arith))
      (ap some (nibbles c h))

escape_value_plain : (c h l : ℕ) → nat_eq c b'%' ≡ false → escape_value c h l ≡ none
unfolding escape_value
escape_value_plain c h l e = rw e refl

url_decode_escaped :
    (c h l b : ℕ) (s : Text)
    → escape_value c h l ≡ some b
    → url_decode (c ∷ h ∷ l ∷ s) ≡ b ∷ url_decode s
unfolding url_decode
url_decode_escaped c h l b s e = rw (e, url_decode) refl

url_decode_unescaped :
    (c h l : ℕ) (s : Text)
    → escape_value c h l ≡ none
    → url_decode (c ∷ h ∷ l ∷ s) ≡ c ∷ url_decode (h ∷ l ∷ s)
unfolding url_decode
url_decode_unescaped c h l s e = rw (e, url_decode) refl

url_decode_plain :
    (c : ℕ) (s : Text) → nat_eq c b'%' ≡ false → url_decode (c ∷ s) ≡ c ∷ url_decode s
url_decode_plain c [] e = unfold url_decode in refl
url_decode_plain c (d ∷ []) e = unfold url_decode in refl
url_decode_plain c (d ∷ l ∷ s) e = url_decode_unescaped c d l s (escape_value_plain c d l e)

kept_plain : (keep : ℕ → Bool) (c : ℕ) → keep b'%' ≡ false → keep c ≡ true → nat_eq c b'%' ≡ false
kept_plain keep c k kept = ground arith

-- Decoding what a percent encoding of bytes wrote gives the bytes back, whichever bytes it keeps,
-- if `%` is not one of them.
pub url_decode-url_encode :
    (keep : ℕ → Bool) (s : Text)
    → keep b'%' ≡ false
    → All (λ c. c < 256) s
    → url_decode (url_encode keep s) ≡ s
unfolding url_encode
url_decode-url_encode keep [] k h = unfold url_decode in refl
url_decode-url_encode keep (c ∷ s) k h = elim (Bool-cases (keep c)) [
  | inl kept ↦
      rw (kept, url_decode_plain c (url_encode keep s) (kept_plain keep c k kept))
        (ap (λ t. c ∷ t) (url_decode-url_encode keep s k h.1))
  | inr coded ↦ rw coded (
      url_decode_escaped b'%' (hex_upper (c / 16)) (hex_upper (c % 16)) c (url_encode keep s)
        (escape_value-hex c h.0)
      ∙ ap (λ t. c ∷ t) (url_decode-url_encode keep s k h.1))
]
