-- ===== src/Dpu/Swap/Defs.antt =====
-- `bswap16`, `bswap32` and `bswap64` of contrib/hostpimsim-upmem/dpu/wram.cc. A left shift is cut to
-- the width of its operand where that width can be passed.
use hostpimsim_gecon.Base.{ℕ, ◌*◌, ◌/◌, ◌^◌, bit_and, bit_or, u16, u32, u64}

-- The operand is promoted to `int`, and the cast cuts the result.
unfoldable pub bswap16 : ℕ → ℕ
bswap16 value = u16 (bit_or (value / 2 ^ 8) (value * 2 ^ 8))

unfoldable pub bswap32 : ℕ → ℕ
bswap32 value =
    bit_or
      (bit_or
        (bit_or (u32 (bit_and value 0x0000_00ff * 2 ^ 24))
          (u32 (bit_and value 0x0000_ff00 * 2 ^ 8)))
        (bit_and value 0x00ff_0000 / 2 ^ 8))
      (bit_and value 0xff00_0000 / 2 ^ 24)

-- The three statements of `bswap64`: swap the halves, the pairs of bytes, the bytes.
unfoldable pub swap_halves : ℕ → ℕ
swap_halves value =
    bit_or (u64 (bit_and value 0x0000_0000_ffff_ffff * 2 ^ 32))
      (bit_and value 0xffff_ffff_0000_0000 / 2 ^ 32)

unfoldable pub swap_pairs : ℕ → ℕ
swap_pairs value =
    bit_or (u64 (bit_and value 0x0000_ffff_0000_ffff * 2 ^ 16))
      (bit_and value 0xffff_0000_ffff_0000 / 2 ^ 16)

unfoldable pub swap_bytes : ℕ → ℕ
swap_bytes value =
    bit_or (u64 (bit_and value 0x00ff_00ff_00ff_00ff * 2 ^ 8))
      (bit_and value 0xff00_ff00_ff00_ff00 / 2 ^ 8)

unfoldable pub bswap64 : ℕ → ℕ
unfolding swap_halves swap_pairs swap_bytes
bswap64 value = swap_bytes (swap_pairs (swap_halves value))
