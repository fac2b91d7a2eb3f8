-- ===== src/Common/Words.antt =====
-- Machine words as native numbers: what a cast or a wrapping operation leaves.
use Prim.Native.Nat.{ℕ, ◌%◌}

abbrev pub u8 : ℕ → ℕ
u8 n = n % 256

abbrev pub u16 : ℕ → ℕ
u16 n = n % 65536

abbrev pub u32 : ℕ → ℕ
u32 n = n % 4294967296

abbrev pub u64 : ℕ → ℕ
u64 n = n % 18446744073709551616
