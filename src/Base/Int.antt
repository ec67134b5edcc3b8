-- ===== src/Base/Int.antt =====
-- Signed integers (i16 and i32, as the integers that they stand for), over the native numbers.
use Prim.Native.Nat.{ℕ, suc, ◌+◌, ◌-◌, ◌*◌, ◌/◌, ◌%◌, ◌^◌, ◌≤◌, ◌<◌}
use mathlib.Core.Path.{◌≡◌}
use mathlib.Core.Bool.{Bool}
use native.Mathlib.Omega.{arith}
use canopus_module_bluetooth.Base.Tests.{ltb, leb, ◌==◌, if◌then◌else◌}

-- `negsuc n` is -(n + 1).
pub data ℤ : Type 0 where
  pos : ℕ → ℤ
  negsuc : ℕ → ℤ

abbrev pub pos_part : ℤ → ℕ
pos_part (pos n) = n
pos_part (negsuc n) = 0

abbrev pub neg_part : ℤ → ℕ
neg_part (pos n) = 0
neg_part (negsuc n) = suc n

abbrev pub ltbℤ : ℤ → ℤ → Bool
ltbℤ a b = ltb (pos_part a + neg_part b) (pos_part b + neg_part a)

infix 50 ◌==ℤ◌ ◌≤ℤ◌
abbrev pub ◌==ℤ◌ : ℤ → ℤ → Bool
a ==ℤ b = (pos_part a + neg_part b) == (pos_part b + neg_part a)

abbrev pub ◌≤ℤ◌ : ℤ → ℤ → Type 0
a ≤ℤ b = pos_part a + neg_part b ≤ pos_part b + neg_part a

-- a - b, as an integer.
abbrev pub sub_ℕ : ℕ → ℕ → ℤ
sub_ℕ a b = if leb b a then pos (a - b) else negsuc (b - a - 1)

infixl 65 ◌+ℤ◌ ◌-ℤ◌
infixl 70 ◌*ℤ◌
unfoldable pub ◌+ℤ◌ : ℤ → ℤ → ℤ
a +ℤ b = sub_ℕ (pos_part a + pos_part b) (neg_part a + neg_part b)

unfoldable pub ◌-ℤ◌ : ℤ → ℤ → ℤ
a -ℤ b = sub_ℕ (pos_part a + neg_part b) (neg_part a + pos_part b)

unfoldable pub ◌*ℤ◌ : ℤ → ℤ → ℤ
a *ℤ b =
    sub_ℕ (pos_part a * pos_part b + neg_part a * neg_part b)
      (pos_part a * neg_part b + neg_part a * pos_part b)

-- `>> 15` on an i32, which rounds down.
unfoldable pub shr15 : ℤ → ℤ
shr15 (pos n) = pos (n / 2 ^ 15)
shr15 (negsuc n) = negsuc (n / 2 ^ 15)

-- `/` on an i32, which rounds towards zero.
unfoldable pub divide_by : ℤ → ℕ → ℤ
divide_by (pos n) d = pos (n / d)
divide_by (negsuc n) d = sub_ℕ 0 (suc n / d)

-- `as i16` of an i32: the low 16 bits, read as a two's complement number.
unfoldable pub as_i16 : ℤ → ℤ
as_i16 (pos n) = if ltb (n % 65536) 32768 then pos (n % 65536) else negsuc (65535 - n % 65536)
as_i16 (negsuc n) = if ltb (n % 65536) 32768 then negsuc (n % 65536) else pos (65535 - n % 65536)

abbrev pub IsI16 : ℤ → Type 0
IsI16 z = (pos_part z < 2 ^ 15) × (neg_part z ≤ 2 ^ 15)

abbrev pub IsI32 : ℤ → Type 0
IsI32 z = (pos_part z < 2 ^ 31) × (neg_part z ≤ 2 ^ 31)

pub as_i16-IsI16 : (z : ℤ) → IsI16 z → as_i16 z ≡ z
unfolding as_i16
as_i16-IsI16 z h = ground arith
