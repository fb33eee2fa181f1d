-- ===== src/Base/Words.antt =====
-- Machine words as native numbers. An `int64` is its two's complement bit pattern.
use Prim.Native.Nat.{ℕ, ◌+◌, ◌-◌, ◌%◌, ◌^◌}
use mathlib.Core.Bool.{Bool, ◌&&◌}
use uav.Base.Tests.{ltb}

abbrev pub u8 : ℕ
u8 = 2 ^ 8

abbrev pub u16 : ℕ
u16 = 2 ^ 16

abbrev pub u32 : ℕ
u32 = 2 ^ 32

abbrev pub u64 : ℕ
u64 = 2 ^ 64

-- x + y and x - y on `uint32`.
abbrev pub add32 : ℕ → ℕ → ℕ
add32 x y = (x + y) % u32

abbrev pub sub32 : ℕ → ℕ → ℕ
sub32 x y = (x + u32 - y) % u32

-- x + y on `uint64`.
abbrev pub add64 : ℕ → ℕ → ℕ
add64 x y = (x + y) % u64

-- x - y on `int64` and `uint64` patterns.
abbrev pub sub64 : ℕ → ℕ → ℕ
sub64 x y = (x + u64 - y) % u64

-- The `int64` pattern stands for a number that is at least zero.
abbrev pub nonneg64 : ℕ → Bool
nonneg64 x = ltb x (2 ^ 63)

-- The `int64` pattern x stands for a number above the small number k.
abbrev pub above64 : ℕ → ℕ → Bool
above64 x k = nonneg64 x && ltb k x
