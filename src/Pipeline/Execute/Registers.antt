-- ===== src/Pipeline/Execute/Registers.antt =====
-- The functions that `Pipeline::execute_once` of contrib/hostpimsim-upmem/dpu/pipeline.cc defines for its tasklet:
-- registers, flags and words.
use hostpimsim_gecon.Base.{
  ◌==◌, ◌!=◌, ◌*◌, ◌+◌, ◌-◌, ◌/◌, ◌^◌, if◌then◌else◌, ◌%◌, ℕ, zero, suc, Bool, ltb, leb, bit_and,
  bit_or, u32, u8, update,
}
use hostpimsim_gecon.Dpu.State.{RegisterFile, Core}
use hostpimsim_gecon.Pipeline.Conditions.{is_negative}

-- Words of 32 bits.
abbrev pub not32 : ℕ → ℕ
not32 x = 2 ^ 32 - 1 - x

abbrev pub sub32 : ℕ → ℕ → ℕ
sub32 a b = u32 (a + 2 ^ 32 - b)

abbrev pub shl32 : ℕ → ℕ → ℕ
shl32 a s = u32 (a * 2 ^ s)

-- `static_cast<uint32_t>(static_cast<int32_t>(static_cast<int8_t>(v)))`
unfoldable pub sign_extend8 : ℕ → ℕ
sign_extend8 v = let b : ℕ = u8 v in if leb (2 ^ 7) b then b + (2 ^ 32 - 2 ^ 8) else b

-- `static_cast<uint64_t>(static_cast<int64_t>(static_cast<int32_t>(v)))`
unfoldable pub sign_extend32 : ℕ → ℕ
sign_extend32 v = if is_negative v then v + (2 ^ 64 - 2 ^ 32) else v

-- `__builtin_clz` and `__builtin_popcount`, on the low `k` bits.
unfoldable pub leading_zeros : ℕ → ℕ → ℕ
leading_zeros zero v = 0
leading_zeros (suc k) v = let rest = leading_zeros k v in if leb (2 ^ k) v then 0 else 1 + rest

unfoldable pub ones : ℕ → ℕ → ℕ
ones zero v = 0
ones (suc k) v = v % 2 + ones k (v / 2)

unfoldable pub byte : ℕ → ℕ → ℕ
byte value shift = u8 (bit_and (value / 2 ^ shift) 0xff)

unfoldable pub dreg_slot : ℕ → ℕ
dreg_slot reg_num = u8 (reg_num / 2)

-- An instruction in progress: the core, the next value of the tasklet's `pc`, and whether it keeps running.
pub record Step : Type 0 where
  pub core : Core
  pub next_pc : ℕ
  pub keep_running : Bool

unfoldable pub set_registers : Core → RegisterFile → Core
set_registers c r = record c { pipeline = record (c.pipeline) { register_file = r } }

abbrev pub registers : Step → RegisterFile
registers s = s.core.pipeline.register_file

unfoldable pub with_registers : RegisterFile → Step → Step
unfolding set_registers
with_registers r s = record s { core = set_registers s.core r }

-- The functions inside `execute_once`, for the tasklet `t`.
module _ (t : ℕ) where
  unfoldable pub read_reg : Core → ℕ → ℕ
  read_reg c idx =
      if ltb idx 24
      then c.pipeline.register_file.gp_regs t idx
      else if idx == 24
      then 0
      else if idx == 25
      then 1
      else if idx == 26
      then 0xffff_ffff
      else if idx == 27
      then 0x8000_0000
      else if idx == 28
      then u32 t
      else if idx == 29
      then u32 (t * 2)
      else if idx == 30
      then u32 (t * 4)
      else if idx == 31
      then u32 (t * 8)
      else 0

  unfoldable pub write_reg : ℕ → ℕ → Step → Step
  write_reg idx value s =
      let r = registers s in
      if ltb idx 24
      then with_registers
          (record r { gp_regs = update r.gp_regs t (update (r.gp_regs t) idx value) }) s
      else s

  unfoldable pub read_dreg : Core → ℕ → ℕ
  read_dreg c reg_idx =
      let hi : ℕ = u8 (dreg_slot reg_idx * 2) in
      if leb 12 (dreg_slot reg_idx)
      then 0
      else bit_or (read_reg c hi * 2 ^ 32) (read_reg c (u8 (hi + 1)))

  unfoldable pub write_dreg : ℕ → ℕ → Step → Step
  write_dreg reg_idx value s =
      let hi : ℕ = u8 (dreg_slot reg_idx * 2) in
      if leb 12 (dreg_slot reg_idx)
      then s
      else write_reg (u8 (hi + 1)) (bit_and value 0xffff_ffff)
          (write_reg hi (bit_and (value / 2 ^ 32) 0xffff_ffff) s)

  unfoldable pub set_zf : ℕ → Step → Step
  set_zf value s =
      let r = registers s in
      with_registers (record r { zf_regs = update r.zf_regs t (if value == 0 then 1 else 0) }) s

  unfoldable pub set_cf : Bool → Step → Step
  set_cf value s =
      let r = registers s in
      with_registers (record r { cf_regs = update r.cf_regs t (if value then 1 else 0) }) s

  abbrev pub zf : Step → Bool
  zf s = (registers s).zf_regs t != 0

  abbrev pub cf : Step → Bool
  cf s = (registers s).cf_regs t != 0

-- The offset is a word that is taken as signed.
unfoldable pub addr_add : ℕ → ℕ → ℕ
addr_add base off = u32 (base + off)

unfoldable pub jump : ℕ → Step → Step
jump slot s = record s { next_pc = u32 slot * 8 }
