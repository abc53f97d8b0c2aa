-- ===== src/Base/Words.antt =====
-- Unsigned words of include/jasmine.h: UINT8, UINT16 and UINT32 as numbers with their wrap-around.
use Prim.Native.Nat.{ℕ, ◌+◌, ◌-◌, ◌%◌, ◌^◌, ◌<◌}
use mathlib.Core.Path.{◌≡◌}
use native.Mathlib.Omega.{arith}

abbrev pub u8 : ℕ → ℕ
u8 x = x % 2 ^ 8

abbrev pub u16 : ℕ → ℕ
u16 x = x % 2 ^ 16

abbrev pub u32 : ℕ → ℕ
u32 x = x % 2 ^ 32

-- a - b on UINT32
abbrev pub sub32 : ℕ → ℕ → ℕ
sub32 a b = (a + 2 ^ 32 - b) % 2 ^ 32

-- #define INVALID 0xFFFFFFFF
abbrev pub invalid : ℕ
invalid = 0xffff_ffff

pub u16-small : (x : ℕ) → x < 2 ^ 16 → u16 x ≡ x
u16-small x h = omega arith

pub u32-small : (x : ℕ) → x < 2 ^ 32 → u32 x ≡ x
u32-small x h = omega arith
