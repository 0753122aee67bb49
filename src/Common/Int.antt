-- ===== src/Common/Int.antt =====
-- Signed integers, for Go's int64 sizes, durations and instants.
use Prim.Native.Nat.{ℕ, suc, ◌+◌, ◌-◌, ◌^◌, ◌%◌}
use mathlib.Core.Bool.{Bool}
use parparchik.Common.Tests.{ltb, leb, if◌then◌else◌}

-- `negsuc n` is -(n + 1).
pub data ℤ : Type 0 where
  pos : ℕ → ℤ
  negsuc : ℕ → ℤ

abbrev pub pos_part : ℤ → ℕ
pos_part (pos n) = n
pos_part (negsuc n) = 0

abbrev pub neg_part : ℤ → ℕ
neg_part (pos n) = 0
neg_part (negsuc n) = suc n

abbrev pub sub_ℕ : ℕ → ℕ → ℤ
sub_ℕ a b = if leb b a then pos (a - b) else negsuc (b - a - 1)

infixl 65 ◌-ℤ◌
unfoldable pub ◌-ℤ◌ : ℤ → ℤ → ℤ
a -ℤ b = sub_ℕ (pos_part a + neg_part b) (neg_part a + pos_part b)

abbrev pub ltb_ℤ : ℤ → ℤ → Bool
ltb_ℤ a b = ltb (pos_part a + neg_part b) (pos_part b + neg_part a)

-- A difference of instants as a time.Duration, an int64: it saturates.
unfoldable pub saturate : ℤ → ℤ
saturate (pos n) = if leb n (2 ^ 63 - 1) then pos n else pos (2 ^ 63 - 1)
saturate (negsuc n) = if leb n (2 ^ 63 - 1) then negsuc n else negsuc (2 ^ 63 - 1)

infixl 65 ◌+ℤ◌
unfoldable pub ◌+ℤ◌ : ℤ → ℤ → ℤ
a +ℤ b = sub_ℕ (pos_part a + pos_part b) (neg_part a + neg_part b)

-- The 64 bits of a number, two's complement, and the number that 64 bits stand for.
abbrev pub to_bits : ℤ → ℕ
to_bits (pos n) = n % (2 ^ 64)
to_bits (negsuc n) = 2 ^ 64 - 1 - n % (2 ^ 64)

abbrev pub of_bits : ℕ → ℤ
of_bits m = if ltb m (2 ^ 63) then pos m else negsuc (2 ^ 64 - 1 - m)

-- What an int64 operation leaves of its result.
unfoldable pub wrap : ℤ → ℤ
wrap z = of_bits (to_bits z)
