-- ===== src/Common/Words.antt =====
-- Machine words.
use Prim.Native.Nat.{ℕ, ◌%◌, ◌^◌}

-- The wrap-around of a `uint32`.
abbrev pub u32 : ℕ → ℕ
u32 n = n % 2 ^ 32

-- `math.MaxInt32`.
abbrev pub max_int32 : ℕ
max_int32 = 2147483647

-- The wrap-around of a `uint16` and of a `byte`.
abbrev pub u16 : ℕ → ℕ
u16 n = n % 2 ^ 16

abbrev pub u8 : ℕ → ℕ
u8 n = n % 2 ^ 8
