-- ===== src/Base/Words.antt =====
-- Machine words as native numbers: `usize` and `u64` have 64 bits, `u32` has 32 and `u8` has 8.
use Prim.Native.Nat.{ℕ, ◌+◌, ◌-◌, ◌*◌, ◌%◌, min}

abbrev pub u8_max : ℕ
u8_max = 255

abbrev pub u32_max : ℕ
u32_max = 0xffff_ffff

abbrev pub u64_max : ℕ
u64_max = 0xffff_ffff_ffff_ffff

abbrev pub usize_max : ℕ
usize_max = 0xffff_ffff_ffff_ffff

-- `saturating_add` and `saturating_mul` of a type with the given greatest value.
-- `saturating_sub` is the `-` of ℕ.
abbrev pub sat_add : ℕ → ℕ → ℕ → ℕ
sat_add top a b = min (a + b) top

abbrev pub sat_mul : ℕ → ℕ → ℕ → ℕ
sat_mul top a b = min (a * b) top

-- `wrapping_sub` on `u8`.
abbrev pub wrapping_sub8 : ℕ → ℕ → ℕ
wrapping_sub8 a b = (a + 256 - b) % 256

-- The unchecked `+` of `usize`, as a release build has it.
abbrev pub wrapping_add_size : ℕ → ℕ → ℕ
wrapping_add_size a b = (a + b) % 0x1_0000_0000_0000_0000
