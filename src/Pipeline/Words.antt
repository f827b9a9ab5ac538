-- ===== src/Pipeline/Words.antt =====
-- The arithmetic on words above the class `Pipeline`. A word of 32 bits that is taken as signed keeps its bits.
use hostpimsim_gecon.Base.{
  ℕ, ◌+◌, ◌-◌, ◌*◌, ◌/◌, ◌^◌, ltb, leb, ◌==◌, ◌!=◌, if◌then◌else◌, bit_and, bit_or, u8, u16, u32,
}

unfoldable pub sign_extend16 : ℕ → ℕ
sign_extend16 value =
    let short : ℕ = u16 value in if leb (2 ^ 15) short then short + (2 ^ 32 - 2 ^ 16) else short

unfoldable pub sign_extend24 : ℕ → ℕ
sign_extend24 value =
    let masked : ℕ = bit_and value 0x00ff_ffff in
    if bit_and masked 0x0080_0000 != 0 then bit_or masked 0xff00_0000 else masked

unfoldable pub sign_extend11 : ℕ → ℕ
sign_extend11 value =
    let masked : ℕ = bit_and value 0x7ff in
    if bit_and masked 0x400 != 0 then bit_or masked 0xffff_f800 else masked

unfoldable pub atomic_bit_index : ℕ → ℕ
atomic_bit_index value = u8 (bit_and value 0xff)

unfoldable pub rotl32 : ℕ → ℕ → ℕ
rotl32 value shift =
    let s : ℕ = bit_and shift 31 in
    if s == 0 then value else bit_or (u32 (value * 2 ^ s)) (value / 2 ^ (32 - s))

unfoldable pub rotr32 : ℕ → ℕ → ℕ
rotr32 value shift =
    let s : ℕ = bit_and shift 31 in
    if s == 0 then value else bit_or (value / 2 ^ s) (u32 (value * 2 ^ (32 - s)))

-- The value of a word as a signed number, moved up by 2^31.
abbrev pub shifted : ℕ → ℕ
shifted w = u32 (w + 2 ^ 31)

-- `a + b` on 64 bits, moved up by 2^32; the least and the greatest signed word are then at 2^31 and
-- 2^32 + 2^31 - 1.
unfoldable pub saturating_add_s32 : ℕ → ℕ → ℕ
saturating_add_s32 lhs rhs =
    let sum : ℕ = shifted lhs + shifted rhs in
    if ltb sum (2 ^ 31)
    then 2 ^ 31
    else if ltb (2 ^ 32 + 2 ^ 31 - 1) sum
    then 2 ^ 31 - 1
    else u32 sum
