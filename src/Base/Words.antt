-- ===== src/Base/Words.antt =====
-- Machine words as native numbers: the wrap-around of each operation is written out.
use Prim.Native.Nat.{ℕ, ◌+◌, ◌-◌, ◌*◌, ◌/◌, ◌%◌, ◌^◌}
use mathlib.Core.Path.{◌≡◌}
use native.Mathlib.Omega.{arith}
use canopus_module_bluetooth.Base.Lists.{get_or}
use Prim.Native.Nat.{min, max}
use mathlib.Core.List.{List, [], ◌∷◌}

abbrev pub u8_mod : ℕ
u8_mod = 256

abbrev pub u16_mod : ℕ
u16_mod = 2 ^ 16

abbrev pub u32_mod : ℕ
u32_mod = 2 ^ 32

abbrev pub wrapping_add : ℕ → ℕ → ℕ
wrapping_add a b = (a + b) % u32_mod

abbrev pub wrapping_sub : ℕ → ℕ → ℕ
wrapping_sub a b = (a + u32_mod - b) % u32_mod

abbrev pub saturating_add : ℕ → ℕ → ℕ
saturating_add a b = min (a + b) (u32_mod - 1)

abbrev pub div_ceil : ℕ → ℕ → ℕ
div_ceil a b = (a + b - 1) / b

-- Rust's `clamp(lo, hi)`.
abbrev pub clamp : ℕ → ℕ → ℕ → ℕ
clamp lo hi x = max lo (min hi x)

-- `to_be_bytes` of a u16 and of a u32, `to_le_bytes` of a u32.
abbrev pub be16 : ℕ → List ℕ
be16 x = (x / 256) ∷ (x % 256) ∷ []

abbrev pub be32 : ℕ → List ℕ
be32 x = (x / 2 ^ 24) ∷ (x / 2 ^ 16 % 256) ∷ (x / 2 ^ 8 % 256) ∷ (x % 256) ∷ []

abbrev pub le32 : ℕ → List ℕ
le32 x = (x % 256) ∷ (x / 2 ^ 8 % 256) ∷ (x / 2 ^ 16 % 256) ∷ (x / 2 ^ 24) ∷ []

-- `from_le_bytes` of a u32.
abbrev pub from_le32 : List ℕ → ℕ
from_le32 bytes =
    get_or bytes 0 0
    + get_or bytes 1 0 * 2 ^ 8
    + get_or bytes 2 0 * 2 ^ 16
    + get_or bytes 3 0 * 2 ^ 24

pub from_le32-le32 : (x : ℕ) → from_le32 (le32 x) ≡ x
from_le32-le32 x = omega arith
