-- ===== src/Base/Int.antt =====
-- Signed integers over the native numbers, and `int32_t`.
use Prim.Native.Nat.{ℕ, suc, ◌+◌, ◌-◌, ◌*◌, ◌%◌, ◌^◌}
use mathlib.Core.Bool.{Bool, true, false}
use electronic_trading_ecosy.Base.Tests.{ltb, leb, if◌then◌else◌}
use electronic_trading_ecosy.Base.Faults.{Outcome, ok, fault, undefined}

-- `negsuc n` is -(n + 1).
pub data ℤ : Type 0 where
  pos : ℕ → ℤ
  negsuc : ℕ → ℤ

abbrev pub pos_part : ℤ → ℕ
pos_part (pos n) = n
pos_part (negsuc n) = 0

abbrev pub neg_part : ℤ → ℕ
neg_part (pos n) = 0
neg_part (negsuc n) = suc n

-- a - b, as an integer
abbrev pub sub_ℕ : ℕ → ℕ → ℤ
sub_ℕ a b = if leb b a then pos (a - b) else negsuc (b - a - 1)

infixl 65 ◌+ℤ◌
infixl 70 ◌*ℤ◌
unfoldable pub ◌+ℤ◌ : ℤ → ℤ → ℤ
a +ℤ b = sub_ℕ (pos_part a + pos_part b) (neg_part a + neg_part b)

unfoldable pub ◌*ℤ◌ : ℤ → ℤ → ℤ
a *ℤ b =
    sub_ℕ (pos_part a * pos_part b + neg_part a * neg_part b)
      (pos_part a * neg_part b + neg_part a * pos_part b)

-- the absolute value
abbrev pub magnitude : ℤ → ℕ
magnitude (pos n) = n
magnitude (negsuc n) = suc n

abbrev pub is_negative : ℤ → Bool
is_negative (pos n) = false
is_negative (negsuc n) = true

abbrev pub is_zero : ℤ → Bool
is_zero (pos n) = leb n 0
is_zero (negsuc n) = false

abbrev pub i32_bound : ℕ
i32_bound = 2 ^ 31

-- The values of `int32_t`: from -2^31 to 2^31 - 1.
abbrev pub fits_i32 : ℤ → Bool
fits_i32 (pos n) = ltb n i32_bound
fits_i32 (negsuc n) = ltb n i32_bound

-- `static_cast<uint32_t>` and `static_cast<int32_t>`
abbrev pub to_u32 : ℤ → ℕ
to_u32 (pos n) = n % 2 ^ 32
to_u32 (negsuc n) = 2 ^ 32 - 1 - n % 2 ^ 32

abbrev pub to_i32 : ℕ → ℤ
to_i32 n = if ltb n i32_bound then pos n else negsuc (2 ^ 32 - 1 - n)

-- Signed arithmetic is undefined where the result does not fit.
abbrev pub checked_i32 : ℤ → Outcome ℤ
checked_i32 a = if fits_i32 a then ok a else fault undefined

abbrev pub abs_i32 : ℤ → Outcome ℕ
abs_i32 a = if ltb (magnitude a) i32_bound then ok (magnitude a) else fault undefined
