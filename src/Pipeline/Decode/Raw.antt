-- ===== src/Pipeline/Decode/Raw.antt =====
-- `RawDecoded48` of contrib/hostpimsim-upmem/dpu/pipeline.cc: a decoded instruction.
use hostpimsim_gecon.Base.{ℕ, Bool, true, false, Option, some}
use hostpimsim_gecon.Pipeline.Kinds.{
  HotOp, HotFormat, CcKind, CcMapKind, op_none, fmt_none, cc_none, no_map,
}

pub data WritebackMode : Type 0 where
  no_writeback dreg_sign32 dreg_zero32 : WritebackMode

pub data MulBytePairMode : Type 0 where
  no_pair ul_ul ul_uh uh_ul uh_uh : MulBytePairMode

pub data StoreSourceMode : Type 0 where
  no_source imm32 reg32 dreg64 : StoreSourceMode

-- What `populate_hot_metadata_48` sets.
pub record HotMetadata : Type 0 where
  pub off_uses_sign_extend24 : Bool
  pub cc_kind : CcKind
  pub cc_subword_bits : ℕ
  pub writeback_mode : WritebackMode
  pub mul_byte_pair_mode : MulBytePairMode
  pub store_source_mode : StoreSourceMode
  pub hot_supported : Bool
  pub imm_is_signed8 : Bool
  pub imm_passthrough : Bool
  pub suppress_scalar_write : Bool
  pub acquire_is_release : Bool
  pub dma_to_mram : Bool
  pub movd_is_swap : Bool
  pub clz_invert_input : Bool
  pub time_cfg_uses_ra : Bool
  pub sub_lhs_is_imm : Bool
  pub sub_rhs_is_reg : Bool
  pub sub_is_rrrc : Bool
  pub sub_is_zrrc : Bool
  pub subc_lhs_is_imm : Bool
  pub subc_rhs_is_reg : Bool
  pub subc_is_rrrc : Bool
  pub subc_is_zrrc : Bool
  pub cc_map_kind : CcMapKind

-- The fields of an instruction, each with a flag that it is there. A field of 32 bits that is taken as
-- signed keeps its bits.
pub record RawDecoded48 : Type 0 where
  pub valid : Bool
  pub hot_op : HotOp
  pub hot_fmt : HotFormat
  pub has_ra : Bool
  pub ra : ℕ
  pub has_rb : Bool
  pub rb : ℕ
  pub has_rc : Bool
  pub rc : ℕ
  pub has_dc : Bool
  pub dc : ℕ
  pub has_db : Bool
  pub db : ℕ
  pub has_imm : Bool
  pub imm : ℕ
  pub has_off : Bool
  pub off : ℕ
  pub has_pc : Bool
  pub pc : ℕ
  pub has_shift : Bool
  pub shift : ℕ
  pub has_imm_dma : Bool
  pub imm_dma : ℕ
  pub has_endian : Bool
  pub endian : ℕ
  pub has_cc : Bool
  pub cc : ℕ
  pub hot : HotMetadata

-- The initial values of the structure.
abbrev pub hot_metadata : HotMetadata
hot_metadata = record {
  off_uses_sign_extend24 = false;
  cc_kind = cc_none;
  cc_subword_bits = 0;
  writeback_mode = no_writeback;
  mul_byte_pair_mode = no_pair;
  store_source_mode = no_source;
  hot_supported = false;
  imm_is_signed8 = false;
  imm_passthrough = false;
  suppress_scalar_write = false;
  acquire_is_release = false;
  dma_to_mram = false;
  movd_is_swap = false;
  clz_invert_input = false;
  time_cfg_uses_ra = false;
  sub_lhs_is_imm = false;
  sub_rhs_is_reg = false;
  sub_is_rrrc = false;
  sub_is_zrrc = false;
  subc_lhs_is_imm = false;
  subc_rhs_is_reg = false;
  subc_is_rrrc = false;
  subc_is_zrrc = false;
  cc_map_kind = no_map;
}

abbrev pub raw_decoded : RawDecoded48
raw_decoded = record {
  valid = false;
  hot_op = op_none;
  hot_fmt = fmt_none;
  has_ra = false;
  ra = 0;
  has_rb = false;
  rb = 0;
  has_rc = false;
  rc = 0;
  has_dc = false;
  dc = 0;
  has_db = false;
  db = 0;
  has_imm = false;
  imm = 0;
  has_off = false;
  off = 0;
  has_pc = false;
  pc = 0;
  has_shift = false;
  shift = 0;
  has_imm_dma = false;
  imm_dma = 0;
  has_endian = false;
  endian = 0;
  has_cc = false;
  cc = 0;
  hot = hot_metadata;
}

unfoldable pub set_hot_metadata : RawDecoded48 → HotOp → HotFormat → RawDecoded48
set_hot_metadata decoded op fmt = record decoded { hot_op = op; hot_fmt = fmt }

-- `out.valid = true; return true;`, with the metadata or without.
unfoldable pub accept : RawDecoded48 → Option RawDecoded48
accept out = some (record out { valid = true })

unfoldable pub accept_hot : HotOp → HotFormat → RawDecoded48 → Option RawDecoded48
accept_hot op fmt out = some (set_hot_metadata (record out { valid = true }) op fmt)
