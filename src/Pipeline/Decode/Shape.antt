-- ===== src/Pipeline/Decode/Shape.antt =====
-- Which fields an instruction has.
use hostpimsim_gecon.Base.{Bool, true, false, Option, none, some}
use hostpimsim_gecon.Pipeline.Decode.Raw.{RawDecoded48}

abbrev pub Holds : Bool → Type 0
Holds true = Unit {0}
Holds false = ⊥

-- The fields that an instruction has.
pub record Operands : Type 0 where
  pub has_ra : Bool
  pub has_rb : Bool
  pub has_rc : Bool
  pub has_dc : Bool
  pub has_db : Bool
  pub has_imm : Bool
  pub has_off : Bool
  pub has_pc : Bool
  pub has_shift : Bool
  pub has_imm_dma : Bool
  pub has_endian : Bool
  pub has_cc : Bool

abbrev pub operands : RawDecoded48 → Operands
operands o = record {
  has_ra = o.has_ra;
  has_rb = o.has_rb;
  has_rc = o.has_rc;
  has_dc = o.has_dc;
  has_db = o.has_db;
  has_imm = o.has_imm;
  has_off = o.has_off;
  has_pc = o.has_pc;
  has_shift = o.has_shift;
  has_imm_dma = o.has_imm_dma;
  has_endian = o.has_endian;
  has_cc = o.has_cc;
}

abbrev pub no_operands : Operands
no_operands = record {
  has_ra = false;
  has_rb = false;
  has_rc = false;
  has_dc = false;
  has_db = false;
  has_imm = false;
  has_off = false;
  has_pc = false;
  has_shift = false;
  has_imm_dma = false;
  has_endian = false;
  has_cc = false;
}

abbrev pub with_ra : Operands → Operands
with_ra s = record s { has_ra = true }

abbrev pub with_rb : Operands → Operands
with_rb s = record s { has_rb = true }

abbrev pub with_rc : Operands → Operands
with_rc s = record s { has_rc = true }

abbrev pub with_dc : Operands → Operands
with_dc s = record s { has_dc = true }

abbrev pub with_db : Operands → Operands
with_db s = record s { has_db = true }

abbrev pub with_imm : Operands → Operands
with_imm s = record s { has_imm = true }

abbrev pub with_off : Operands → Operands
with_off s = record s { has_off = true }

abbrev pub with_pc : Operands → Operands
with_pc s = record s { has_pc = true }

abbrev pub with_shift : Operands → Operands
with_shift s = record s { has_shift = true }

abbrev pub with_imm_dma : Operands → Operands
with_imm_dma s = record s { has_imm_dma = true }

abbrev pub with_endian : Operands → Operands
with_endian s = record s { has_endian = true }

abbrev pub with_cc : Operands → Operands
with_cc s = record s { has_cc = true }

abbrev pub without_ra : Option Operands → Option Operands
without_ra none = none
without_ra (some s) = some (record s { has_ra = false })

abbrev pub HasRa : Option Operands → Type 0
HasRa none = Unit {0}
HasRa (some s) = Holds s.has_ra

abbrev pub without_rb : Option Operands → Option Operands
without_rb none = none
without_rb (some s) = some (record s { has_rb = false })

abbrev pub HasRb : Option Operands → Type 0
HasRb none = Unit {0}
HasRb (some s) = Holds s.has_rb

abbrev pub without_rc : Option Operands → Option Operands
without_rc none = none
without_rc (some s) = some (record s { has_rc = false })

abbrev pub HasRc : Option Operands → Type 0
HasRc none = Unit {0}
HasRc (some s) = Holds s.has_rc

abbrev pub without_dc : Option Operands → Option Operands
without_dc none = none
without_dc (some s) = some (record s { has_dc = false })

abbrev pub HasDc : Option Operands → Type 0
HasDc none = Unit {0}
HasDc (some s) = Holds s.has_dc

abbrev pub without_db : Option Operands → Option Operands
without_db none = none
without_db (some s) = some (record s { has_db = false })

abbrev pub HasDb : Option Operands → Type 0
HasDb none = Unit {0}
HasDb (some s) = Holds s.has_db

abbrev pub without_imm : Option Operands → Option Operands
without_imm none = none
without_imm (some s) = some (record s { has_imm = false })

abbrev pub HasImm : Option Operands → Type 0
HasImm none = Unit {0}
HasImm (some s) = Holds s.has_imm

abbrev pub without_off : Option Operands → Option Operands
without_off none = none
without_off (some s) = some (record s { has_off = false })

abbrev pub HasOff : Option Operands → Type 0
HasOff none = Unit {0}
HasOff (some s) = Holds s.has_off

abbrev pub without_pc : Option Operands → Option Operands
without_pc none = none
without_pc (some s) = some (record s { has_pc = false })

abbrev pub HasPc : Option Operands → Type 0
HasPc none = Unit {0}
HasPc (some s) = Holds s.has_pc

abbrev pub without_shift : Option Operands → Option Operands
without_shift none = none
without_shift (some s) = some (record s { has_shift = false })

abbrev pub HasShift : Option Operands → Type 0
HasShift none = Unit {0}
HasShift (some s) = Holds s.has_shift

abbrev pub without_imm_dma : Option Operands → Option Operands
without_imm_dma none = none
without_imm_dma (some s) = some (record s { has_imm_dma = false })

abbrev pub HasImmDma : Option Operands → Type 0
HasImmDma none = Unit {0}
HasImmDma (some s) = Holds s.has_imm_dma

abbrev pub without_endian : Option Operands → Option Operands
without_endian none = none
without_endian (some s) = some (record s { has_endian = false })

abbrev pub HasEndian : Option Operands → Type 0
HasEndian none = Unit {0}
HasEndian (some s) = Holds s.has_endian

abbrev pub without_cc : Option Operands → Option Operands
without_cc none = none
without_cc (some s) = some (record s { has_cc = false })

abbrev pub HasCc : Option Operands → Type 0
HasCc none = Unit {0}
HasCc (some s) = Holds s.has_cc
