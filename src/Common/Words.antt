-- ===== src/Common/Words.antt =====
-- Machine words as native numbers: bytes, `std::uint32_t` and `std::uint64_t`. The wrap is written
-- out by `%`.
use Prim.Native.Nat.{ℕ, ◌+◌, ◌-◌, ◌%◌, ◌^◌}

abbrev pub u32_mod : ℕ
u32_mod = 2 ^ 32

abbrev pub u64_mod : ℕ
u64_mod = 2 ^ 64

-- `a - b` on `std::uint32_t`.
abbrev pub sub32 : ℕ → ℕ → ℕ
sub32 a b = (a + u32_mod - b) % u32_mod

-- `++c` on `std::uint64_t`.
abbrev pub inc64 : ℕ → ℕ
inc64 c = (c + 1) % u64_mod

-- `c += n` on `std::uint64_t`.
abbrev pub add64 : ℕ → ℕ → ℕ
add64 c n = (c + n) % u64_mod
