-- ===== src/Pipeline/Decode/Known.antt =====
-- What is known of a word while `decode_raw_word_48` sets its fields.
use hostpimsim_gecon.Base.{
  ◌+◌, ◌/◌, ◌^◌, ◌<◌, ◌≤◌, ◌≡◌, ℕ, zero, suc, bit_and, bit_or, Option, none, some, arith, refl, ap,
  bit_and-zero, bit_and_step, bit_or_step, zero-bit_or,
}
use hostpimsim_gecon.Pipeline.Kinds.{op_none}
use hostpimsim_gecon.Pipeline.Decode.Raw.{RawDecoded48, raw_decoded}
use hostpimsim_gecon.Pipeline.Decode.Fields.{bits}
use hostpimsim_gecon.Pipeline.Decode.Shape.{Operands, operands, no_operands}

pub bit_and-le : (fuel a b : ℕ) → b ≤ fuel → bit_and a b ≤ b
bit_and-le zero a b h =
    let e : b ≡ 0 = omega arith in omega (arith, bit_and-zero a, ap (bit_and a) e)
bit_and-le (suc fuel) a b h =
    omega (arith, bit_and_step a b, bit_and-le fuel (a / 2) (b / 2) (omega arith))

bit_or-le_fuel : (fuel a b : ℕ) → a ≤ fuel → bit_or a b ≤ a + b
bit_or-le_fuel zero a b h =
    let e : a ≡ 0 = omega arith in omega (arith, zero-bit_or b, ap (λ (x : ℕ). bit_or x b) e)
bit_or-le_fuel (suc fuel) a b h =
    omega (arith, bit_or_step a b, bit_or-le_fuel fuel (a / 2) (b / 2) (omega arith))

pub bit_or-le : (a b : ℕ) → bit_or a b ≤ a + b
bit_or-le a b = bit_or-le_fuel a a b (omega arith)

pub bits-le : (w at mask : ℕ) → bits w at mask ≤ mask
unfolding bits
bits-le w at mask = bit_and-le mask (w / 2 ^ at) mask (omega arith)

-- The fields are in their ranges.
pub record InRange (o : RawDecoded48) : Type 0 where
  pub ra : o.ra < 2 ^ 5
  pub rb : o.rb < 2 ^ 5
  pub rc : o.rc < 2 ^ 5
  pub dc : o.dc < 2 ^ 5
  pub db : o.db < 2 ^ 5
  pub imm : o.imm < 2 ^ 32
  pub off : o.off < 2 ^ 32
  pub pc : o.pc < 2 ^ 16
  pub shift : o.shift < 2 ^ 5
  pub imm_dma : o.imm_dma < 2 ^ 8
  pub endian : o.endian < 2 ^ 1
  pub cc : o.cc < 2 ^ 6

-- What is known of a word that is decoded in part: which fields it has, or nothing of that; that they are in their ranges, and that no
-- operation is set.
abbrev pub Matches : Option Operands → RawDecoded48 → Type 0
Matches none o = Unit {0}
Matches (some s) o = operands o ≡ s

pub record Known (s : Option Operands) (o : RawDecoded48) : Type 0 where
  pub fields : Matches s o
  pub in_range : InRange o
  pub plain : o.hot_op ≡ op_none

pub raw_decoded-Known : Known (some no_operands) raw_decoded
raw_decoded-Known = record { fields = refl; in_range = omega arith; plain = refl }

pub forget : {s : Operands} {o : RawDecoded48} → Known (some s) o → Known none o
forget k = record { fields = tt; in_range = k.in_range; plain = k.plain }
