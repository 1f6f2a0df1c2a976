-- ===== src/Prelude/Int.antt =====
-- Signed integers over the native numbers, for Go's `int` and `int64`.
use Prim.Native.Nat.{ℕ, suc, ◌+◌, ◌-◌, ◌%◌}
use mathlib.Core.Bool.{Bool}
use s_ui_next.Prelude.Tests.{leb, ltb, if◌then◌else◌}

-- `negsuc n` is -(n + 1).
pub data ℤ : Type 0 where
  pos : ℕ → ℤ
  negsuc : ℕ → ℤ

abbrev pub pos_part : ℤ → ℕ
pos_part (pos n) = n
pos_part (negsuc n) = 0

abbrev pub neg_part : ℤ → ℕ
neg_part (pos n) = 0
neg_part (negsuc n) = suc n

-- a - b, as an integer.
abbrev pub sub_ℕ : ℕ → ℕ → ℤ
sub_ℕ a b = if leb b a then pos (a - b) else negsuc (b - a - 1)

-- `x < y`.
abbrev pub ltb_ℤ : ℤ → ℤ → Bool
ltb_ℤ x y = ltb (pos_part x + neg_part y) (pos_part y + neg_part x)

infixl 65 ◌+ℤ◌
abbrev pub ◌+ℤ◌ : ℤ → ℤ → ℤ
a +ℤ b = sub_ℕ (pos_part a + pos_part b) (neg_part a + neg_part b)

-- The 64 bits of an integer, and the `int64` that bits stand for: Go's arithmetic on `int64` wraps.
abbrev pub bits64 : ℤ → ℕ
bits64 (pos n) = n % 18446744073709551616
bits64 (negsuc n) = 18446744073709551615 - n % 18446744073709551616

abbrev pub int64 : ℤ → ℤ
int64 x =
    let bits = bits64 x in
    if ltb bits 9223372036854775808 then pos bits else negsuc (18446744073709551615 - bits)
