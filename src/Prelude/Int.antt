-- ===== src/Prelude/Int.antt =====
-- Signed numbers over the native ones, under the library's names, and the words of 32 bits that
-- `int32_t` and `uint32_t` keep.
use Prim.Native.Nat.{ℕ, suc, ◌+◌, ◌-◌, ◌*◌, ◌%◌, ◌^◌}
use mathlib.Core.Bool.{Bool, true, false}
use low_latency.Prelude.Tests.{ltb, leb, if◌then◌else◌}

-- `negsuc n` is -(n + 1).
pub data ℤ : Type 0 where
  pos : ℕ → ℤ
  negsuc : ℕ → ℤ

abbrev pub pos_part : ℤ → ℕ
pos_part (pos n) = n
pos_part (negsuc n) = 0

abbrev pub neg_part : ℤ → ℕ
neg_part (pos n) = 0
neg_part (negsuc n) = suc n

abbrev pub sub_ℕ : ℕ → ℕ → ℤ
sub_ℕ a b = if leb b a then pos (a - b) else negsuc (b - a - 1)

infixl 65 ◌+ℤ◌
infixl 70 ◌*ℤ◌
unfoldable pub ◌+ℤ◌ : ℤ → ℤ → ℤ
a +ℤ b = sub_ℕ (pos_part a + pos_part b) (neg_part a + neg_part b)

unfoldable pub ◌*ℤ◌ : ℤ → ℤ → ℤ
a *ℤ b =
    sub_ℕ (pos_part a * pos_part b + neg_part a * neg_part b)
      (pos_part a * neg_part b + neg_part a * pos_part b)

-- The absolute value, as a number.
abbrev pub abs : ℤ → ℕ
abs a = pos_part a + neg_part a

abbrev pub is_negative : ℤ → Bool
is_negative (pos n) = false
is_negative (negsuc n) = true

-- The number that a pattern of 32 bits stands for as an `int32_t`, and the pattern of a number.
abbrev pub signed32 : ℕ → ℤ
signed32 w = if ltb w (2 ^ 31) then pos w else negsuc (2 ^ 32 - w - 1)

abbrev pub word32 : ℤ → ℕ
word32 (pos n) = n % 2 ^ 32
word32 (negsuc n) = 2 ^ 32 - 1 - n % 2 ^ 32

-- A sum, a product and an absolute value of `int32_t`. C++ leaves an overflow open; here it goes
-- round, as the machine does.
unfoldable pub add32 : ℤ → ℤ → ℤ
unfolding ◌+ℤ◌
add32 a b = signed32 (word32 (a +ℤ b))

unfoldable pub mul32 : ℤ → ℤ → ℤ
unfolding ◌*ℤ◌
mul32 a b = signed32 (word32 (a *ℤ b))

unfoldable pub abs32 : ℤ → ℤ
abs32 a = signed32 (abs a % 2 ^ 32)

-- The pattern of an `int32_t` as a word of 64 bits.
abbrev pub word64 : ℤ → ℕ
word64 (pos n) = n
word64 (negsuc n) = 2 ^ 64 - 1 - n
