-- ===== src/Pipeline/Decode/Sets.antt =====
-- A field that is set is there, and the others stay.
use hostpimsim_gecon.Base.{
  ◌∙◌, ◌^◌, ◌<◌, ◌≡◌, ℕ, Bool, true, false, Option, none, some, arith, refl, ap,
}
use hostpimsim_gecon.Pipeline.Decode.Raw.{RawDecoded48}
use hostpimsim_gecon.Pipeline.Decode.Shape.{
  Operands, Holds, with_ra, with_rb, with_rc, with_dc, with_db, with_imm, with_off, with_pc,
  with_shift, with_imm_dma, with_endian, with_cc, without_ra, without_rb, without_rc, without_dc,
  without_db, without_imm, without_off, without_pc, without_shift, without_imm_dma, without_endian,
  without_cc, HasRa, HasRb, HasRc, HasDc, HasDb, HasImm, HasOff, HasPc, HasShift, HasImmDma,
  HasEndian, HasCc,
}
use hostpimsim_gecon.Pipeline.Decode.Known.{Known, Matches}

holds_lem : (b : Bool) → Holds b → b ≡ true
holds_lem true h = refl
holds_lem false h = absurd h

ra-Matches :
    (s : Option Operands) (o : RawDecoded48) (v : ℕ)
    → HasRa s
    → Matches (without_ra s) o
    → Matches s (record o { has_ra = true; ra = v })
ra-Matches none o v h m = tt
ra-Matches (some s) o v h m = ap with_ra m ∙ ground (arith, holds_lem s.has_ra h)

pub set_ra-Known :
    {s : Option Operands} {o : RawDecoded48} (v : ℕ)
    → v < 2 ^ 5
    → HasRa s
    → Known (without_ra s) o
    → Known s (record o { has_ra = true; ra = v })
set_ra-Known {s} {o} v lt h k = record {
  fields = ra-Matches s o v h k.fields;
  in_range = let r = k.in_range in omega arith;
  plain = k.plain;
}

rb-Matches :
    (s : Option Operands) (o : RawDecoded48) (v : ℕ)
    → HasRb s
    → Matches (without_rb s) o
    → Matches s (record o { has_rb = true; rb = v })
rb-Matches none o v h m = tt
rb-Matches (some s) o v h m = ap with_rb m ∙ ground (arith, holds_lem s.has_rb h)

pub set_rb-Known :
    {s : Option Operands} {o : RawDecoded48} (v : ℕ)
    → v < 2 ^ 5
    → HasRb s
    → Known (without_rb s) o
    → Known s (record o { has_rb = true; rb = v })
set_rb-Known {s} {o} v lt h k = record {
  fields = rb-Matches s o v h k.fields;
  in_range = let r = k.in_range in omega arith;
  plain = k.plain;
}

rc-Matches :
    (s : Option Operands) (o : RawDecoded48) (v : ℕ)
    → HasRc s
    → Matches (without_rc s) o
    → Matches s (record o { has_rc = true; rc = v })
rc-Matches none o v h m = tt
rc-Matches (some s) o v h m = ap with_rc m ∙ ground (arith, holds_lem s.has_rc h)

pub set_rc-Known :
    {s : Option Operands} {o : RawDecoded48} (v : ℕ)
    → v < 2 ^ 5
    → HasRc s
    → Known (without_rc s) o
    → Known s (record o { has_rc = true; rc = v })
set_rc-Known {s} {o} v lt h k = record {
  fields = rc-Matches s o v h k.fields;
  in_range = let r = k.in_range in omega arith;
  plain = k.plain;
}

dc-Matches :
    (s : Option Operands) (o : RawDecoded48) (v : ℕ)
    → HasDc s
    → Matches (without_dc s) o
    → Matches s (record o { has_dc = true; dc = v })
dc-Matches none o v h m = tt
dc-Matches (some s) o v h m = ap with_dc m ∙ ground (arith, holds_lem s.has_dc h)

pub set_dc-Known :
    {s : Option Operands} {o : RawDecoded48} (v : ℕ)
    → v < 2 ^ 5
    → HasDc s
    → Known (without_dc s) o
    → Known s (record o { has_dc = true; dc = v })
set_dc-Known {s} {o} v lt h k = record {
  fields = dc-Matches s o v h k.fields;
  in_range = let r = k.in_range in omega arith;
  plain = k.plain;
}

db-Matches :
    (s : Option Operands) (o : RawDecoded48) (v : ℕ)
    → HasDb s
    → Matches (without_db s) o
    → Matches s (record o { has_db = true; db = v })
db-Matches none o v h m = tt
db-Matches (some s) o v h m = ap with_db m ∙ ground (arith, holds_lem s.has_db h)

pub set_db-Known :
    {s : Option Operands} {o : RawDecoded48} (v : ℕ)
    → v < 2 ^ 5
    → HasDb s
    → Known (without_db s) o
    → Known s (record o { has_db = true; db = v })
set_db-Known {s} {o} v lt h k = record {
  fields = db-Matches s o v h k.fields;
  in_range = let r = k.in_range in omega arith;
  plain = k.plain;
}

imm-Matches :
    (s : Option Operands) (o : RawDecoded48) (v : ℕ)
    → HasImm s
    → Matches (without_imm s) o
    → Matches s (record o { has_imm = true; imm = v })
imm-Matches none o v h m = tt
imm-Matches (some s) o v h m = ap with_imm m ∙ ground (arith, holds_lem s.has_imm h)

pub set_imm-Known :
    {s : Option Operands} {o : RawDecoded48} (v : ℕ)
    → v < 2 ^ 32
    → HasImm s
    → Known (without_imm s) o
    → Known s (record o { has_imm = true; imm = v })
set_imm-Known {s} {o} v lt h k = record {
  fields = imm-Matches s o v h k.fields;
  in_range = let r = k.in_range in omega arith;
  plain = k.plain;
}

off-Matches :
    (s : Option Operands) (o : RawDecoded48) (v : ℕ)
    → HasOff s
    → Matches (without_off s) o
    → Matches s (record o { has_off = true; off = v })
off-Matches none o v h m = tt
off-Matches (some s) o v h m = ap with_off m ∙ ground (arith, holds_lem s.has_off h)

pub set_off-Known :
    {s : Option Operands} {o : RawDecoded48} (v : ℕ)
    → v < 2 ^ 32
    → HasOff s
    → Known (without_off s) o
    → Known s (record o { has_off = true; off = v })
set_off-Known {s} {o} v lt h k = record {
  fields = off-Matches s o v h k.fields;
  in_range = let r = k.in_range in omega arith;
  plain = k.plain;
}

pc-Matches :
    (s : Option Operands) (o : RawDecoded48) (v : ℕ)
    → HasPc s
    → Matches (without_pc s) o
    → Matches s (record o { has_pc = true; pc = v })
pc-Matches none o v h m = tt
pc-Matches (some s) o v h m = ap with_pc m ∙ ground (arith, holds_lem s.has_pc h)

pub set_pc-Known :
    {s : Option Operands} {o : RawDecoded48} (v : ℕ)
    → v < 2 ^ 16
    → HasPc s
    → Known (without_pc s) o
    → Known s (record o { has_pc = true; pc = v })
set_pc-Known {s} {o} v lt h k = record {
  fields = pc-Matches s o v h k.fields;
  in_range = let r = k.in_range in omega arith;
  plain = k.plain;
}

shift-Matches :
    (s : Option Operands) (o : RawDecoded48) (v : ℕ)
    → HasShift s
    → Matches (without_shift s) o
    → Matches s (record o { has_shift = true; shift = v })
shift-Matches none o v h m = tt
shift-Matches (some s) o v h m = ap with_shift m ∙ ground (arith, holds_lem s.has_shift h)

pub set_shift-Known :
    {s : Option Operands} {o : RawDecoded48} (v : ℕ)
    → v < 2 ^ 5
    → HasShift s
    → Known (without_shift s) o
    → Known s (record o { has_shift = true; shift = v })
set_shift-Known {s} {o} v lt h k = record {
  fields = shift-Matches s o v h k.fields;
  in_range = let r = k.in_range in omega arith;
  plain = k.plain;
}

imm_dma-Matches :
    (s : Option Operands) (o : RawDecoded48) (v : ℕ)
    → HasImmDma s
    → Matches (without_imm_dma s) o
    → Matches s (record o { has_imm_dma = true; imm_dma = v })
imm_dma-Matches none o v h m = tt
imm_dma-Matches (some s) o v h m = ap with_imm_dma m ∙ ground (arith, holds_lem s.has_imm_dma h)

pub set_imm_dma-Known :
    {s : Option Operands} {o : RawDecoded48} (v : ℕ)
    → v < 2 ^ 8
    → HasImmDma s
    → Known (without_imm_dma s) o
    → Known s (record o { has_imm_dma = true; imm_dma = v })
set_imm_dma-Known {s} {o} v lt h k = record {
  fields = imm_dma-Matches s o v h k.fields;
  in_range = let r = k.in_range in omega arith;
  plain = k.plain;
}

endian-Matches :
    (s : Option Operands) (o : RawDecoded48) (v : ℕ)
    → HasEndian s
    → Matches (without_endian s) o
    → Matches s (record o { has_endian = true; endian = v })
endian-Matches none o v h m = tt
endian-Matches (some s) o v h m = ap with_endian m ∙ ground (arith, holds_lem s.has_endian h)

pub set_endian-Known :
    {s : Option Operands} {o : RawDecoded48} (v : ℕ)
    → v < 2 ^ 1
    → HasEndian s
    → Known (without_endian s) o
    → Known s (record o { has_endian = true; endian = v })
set_endian-Known {s} {o} v lt h k = record {
  fields = endian-Matches s o v h k.fields;
  in_range = let r = k.in_range in omega arith;
  plain = k.plain;
}

cc-Matches :
    (s : Option Operands) (o : RawDecoded48) (v : ℕ)
    → HasCc s
    → Matches (without_cc s) o
    → Matches s (record o { has_cc = true; cc = v })
cc-Matches none o v h m = tt
cc-Matches (some s) o v h m = ap with_cc m ∙ ground (arith, holds_lem s.has_cc h)

pub set_cc-Known :
    {s : Option Operands} {o : RawDecoded48} (v : ℕ)
    → v < 2 ^ 6
    → HasCc s
    → Known (without_cc s) o
    → Known s (record o { has_cc = true; cc = v })
set_cc-Known {s} {o} v lt h k = record {
  fields = cc-Matches s o v h k.fields;
  in_range = let r = k.in_range in omega arith;
  plain = k.plain;
}

rb_again :
    (s : Option Operands) (o : RawDecoded48) (v : ℕ)
    → HasRb s
    → Matches s o
    → Matches s (record o { has_rb = true; rb = v })
rb_again none o v h m = tt
rb_again (some s) o v h m = ap with_rb m ∙ ground (arith, holds_lem s.has_rb h)

-- A field that is set a second time.
pub set_rb_again-Known :
    {s : Option Operands} {o : RawDecoded48} (v : ℕ)
    → v < 2 ^ 5
    → HasRb s
    → Known s o
    → Known s (record o { has_rb = true; rb = v })
set_rb_again-Known {s} {o} v lt h k = record {
  fields = rb_again s o v h k.fields;
  in_range = let r = k.in_range in omega arith;
  plain = k.plain;
}
