-- ===== src/Base/Int.antt =====
-- C++ `int`: integers over the native numbers, wrapped to 32 bits where the source computes.
-- Signed overflow is undefined in C++; `wrap32` is the two's complement result of the targets,
-- and the theorems about sums say which values are in range.
use Prim.Native.Nat.{ℕ, suc, ◌+◌, ◌-◌, ◌*◌, ◌%◌, ◌^◌, ◌≤◌, ◌<◌}
use mathlib.Core.Path.{◌≡◌}
use mathlib.Core.Logic.{◌↔◌}
use mathlib.Core.Bool.{Bool, true}
use native.Mathlib.Omega.{arith}
use my_bookstore.Base.Tests.{ltb, leb, nat_eq, if◌then◌else◌}

-- `negsuc n` is -(n + 1).
pub data ℤ : Type 0 where
  pos : ℕ → ℤ
  negsuc : ℕ → ℤ

abbrev pub pos_part : ℤ → ℕ
pos_part (pos n) = n
pos_part (negsuc n) = 0

abbrev pub neg_part : ℤ → ℕ
neg_part (pos n) = 0
neg_part (negsuc n) = suc n

-- a - b, as an integer.
abbrev pub sub_ℕ : ℕ → ℕ → ℤ
sub_ℕ a b = if leb b a then pos (a - b) else negsuc (b - a - 1)

infixl 65 ◌+ℤ◌ ◌-ℤ◌
infixl 70 ◌*ℤ◌
infix 50 ◌≤ℤ◌ ◌<ℤ◌
unfoldable pub ◌+ℤ◌ : ℤ → ℤ → ℤ
a +ℤ b = sub_ℕ (pos_part a + pos_part b) (neg_part a + neg_part b)

unfoldable pub ◌-ℤ◌ : ℤ → ℤ → ℤ
a -ℤ b = sub_ℕ (pos_part a + neg_part b) (neg_part a + pos_part b)

unfoldable pub ◌*ℤ◌ : ℤ → ℤ → ℤ
a *ℤ b =
    sub_ℕ (pos_part a * pos_part b + neg_part a * neg_part b)
      (pos_part a * neg_part b + neg_part a * pos_part b)

abbrev pub ◌≤ℤ◌ : ℤ → ℤ → Type 0
a ≤ℤ b = pos_part a + neg_part b ≤ pos_part b + neg_part a

abbrev pub ◌<ℤ◌ : ℤ → ℤ → Type 0
a <ℤ b = pos_part a + neg_part b < pos_part b + neg_part a

abbrev pub ltb_ℤ : ℤ → ℤ → Bool
ltb_ℤ a b = ltb (pos_part a + neg_part b) (pos_part b + neg_part a)

abbrev pub leb_ℤ : ℤ → ℤ → Bool
leb_ℤ a b = leb (pos_part a + neg_part b) (pos_part b + neg_part a)

abbrev pub int_eq : ℤ → ℤ → Bool
int_eq a b = nat_eq (pos_part a + neg_part b) (pos_part b + neg_part a)

pub int_eq_iff : (a b : ℤ) → (int_eq a b ≡ true) ↔ (a ≡ b)
int_eq_iff a b = ground arith

pub +ℤ_parts :
    (a b : ℤ)
    → pos_part (a +ℤ b) + neg_part a + neg_part b ≡ neg_part (a +ℤ b) + pos_part a + pos_part b
unfolding ◌+ℤ◌
+ℤ_parts a b = ground arith

pub -ℤ_parts :
    (a b : ℤ)
    → pos_part (a -ℤ b) + neg_part a + pos_part b ≡ neg_part (a -ℤ b) + pos_part a + neg_part b
unfolding ◌-ℤ◌
-ℤ_parts a b = ground arith

pub eq_of_parts : (a b : ℤ) → pos_part a + neg_part b ≡ pos_part b + neg_part a → a ≡ b
eq_of_parts a b h = ground arith

pub ruleset int_laws = (arith, +ℤ_parts, -ℤ_parts, eq_of_parts)

-- The value of a 32-bit pattern.
abbrev pub of_word : ℕ → ℤ
of_word r = if ltb r (2 ^ 31) then pos r else negsuc (2 ^ 32 - 1 - r)

unfoldable pub wrap32 : ℤ → ℤ
wrap32 (pos n) = of_word (n % 2 ^ 32)
wrap32 (negsuc n) = of_word (2 ^ 32 - 1 - n % 2 ^ 32)

-- The range of `int`.
pub record IsInt (a : ℤ) : Type 0 where
  pub below : pos_part a < 2 ^ 31
  pub above : neg_part a ≤ 2 ^ 31

pub wrap32_id : (a : ℤ) → IsInt a → wrap32 a ≡ a
unfolding wrap32
wrap32_id (pos n) h = ground (arith, h.below)
wrap32_id (negsuc n) h = ground (arith, h.above)

-- Sums and differences that stay in range.
pub wrap32-sum : (m n : ℕ) → m + n < 2 ^ 31 → wrap32 (pos m +ℤ pos n) ≡ pos (m + n)
unfolding wrap32 ◌+ℤ◌
wrap32-sum m n h = ground arith

pub wrap32-difference : (m n : ℕ) → n ≤ m → m < 2 ^ 31 → wrap32 (pos m -ℤ pos n) ≡ pos (m - n)
unfolding wrap32 ◌-ℤ◌
wrap32-difference m n p h = ground arith

pub wrap32-pos : (n : ℕ) → n < 2 ^ 31 → wrap32 (pos n) ≡ pos n
unfolding wrap32
wrap32-pos n h = ground arith

pub *ℤ_nonneg : (a b : ℤ) → pos 0 ≤ℤ a → pos 0 ≤ℤ b → pos 0 ≤ℤ a *ℤ b
unfolding ◌*ℤ◌
*ℤ_nonneg (pos m) (pos n) p q = ground arith
*ℤ_nonneg (pos m) (negsuc n) p q = absurd (omega arith)
*ℤ_nonneg (negsuc m) b p q = absurd (omega arith)

pub IsInt-le : (a b : ℤ) → pos 0 ≤ℤ a → a ≤ℤ b → IsInt b → IsInt a
IsInt-le (pos m) (pos n) p q i = ground (arith, i.below)
IsInt-le (pos m) (negsuc n) p q i = absurd (omega arith)
IsInt-le (negsuc m) b p q i = absurd (omega arith)
