-- ===== src/Chip/Defs.antt =====
-- `UPMEMPIMChip::propagate_ci` and the helpers it uses.
use hostpimsim_gecon.Base.{
  ℕ, zero, suc, ◌+◌, ◌-◌, ◌*◌, ◌^◌, Bool, true, false, ◌&&◌, ◌||◌, not, Option, none, some, leb,
  ◌==◌, ◌!=◌, if◌then◌else◌, u8, u16, u32, update, bit_and, bit_or,
}
use hostpimsim_gecon.Dpu.Config.{chip_num_dpus}
use hostpimsim_gecon.Dpu.Mram.{is_some}
use hostpimsim_gecon.Dpu.Wram
use hostpimsim_gecon.Dpu.Iram
use hostpimsim_gecon.Dpu.Dma.{set_dma_mux_status, set_dma_ctrl_reg}
use hostpimsim_gecon.Dpu.State.{Core, Dpu, clear_last_control_result}
use hostpimsim_gecon.Dpu.Control.{control}
use hostpimsim_gecon.Ci.State.{
  CiState, reset_protocol_state, set_committed, set_selected_mask, get_group_mask, set_group_mask,
  set_pc_mode, exchange_stack_up_mask, set_dma_ctrl_read_register, set_structure,
  set_iram_write_structure_valid, set_iram_write_addr_hi, set_wram_write_structure_valid,
  set_wram_write_addr, set_dispatched_result,
}
use hostpimsim_gecon.Ci.Frame.{
  b, decode_iram_write_structure, decode_wram_write_word_structure,
  decode_wram_write_word_frame_low5, decode_dma_ctrl_write_frame, decode_wram_read_word_frame,
  is_software_reset_cmd,
}
use hostpimsim_gecon.Ci.Thread.{decode_thread_command}

-- `write_region` is whether the region pointer is set.
pub record Chip : Type 0 where
  pub ci : CiState
  pub write_region : Bool
  pub dpus : ℕ → Dpu

abbrev pub with_core : Dpu → Core → Dpu
with_core d c = record d { core = c }

-- The first set bit of a mask from `dpu` on, 8 if there is none.
unfoldable pub first_from : ℕ → ℕ → ℕ → ℕ
first_from zero dpu mask = chip_num_dpus
first_from (suc left) dpu mask =
    if bit_and mask (2 ^ dpu) != 0 then dpu else first_from left (dpu + 1) mask

unfoldable pub first_selected_dpu : ℕ → ℕ
unfolding first_from
first_selected_dpu mask = first_from chip_num_dpus 0 mask

-- The loop of `get_bound_mask`.
unfoldable pub bound_from : ℕ → ℕ → (ℕ → Dpu) → ℕ → ℕ → ℕ
bound_from zero i dpus selected_mask bound = bound
bound_from (suc left) i dpus selected_mask bound =
    let m = (dpus i).core.mram in
    bound_from left (i + 1) dpus selected_mask (
      if bit_and selected_mask (2 ^ i) == 0
      then bound
      else if is_some m.addr && (m.size != 0)
      then bit_or bound (2 ^ i)
      else bound)

unfoldable pub get_bound_mask : (ℕ → Dpu) → ℕ → ℕ
unfolding bound_from
get_bound_mask dpus selected_mask = bound_from chip_num_dpus 0 dpus selected_mask 0

unfoldable pub is_thread_command_word : ℕ → ℕ → Bool
is_thread_command_word ci_word selected_mask =
    if selected_mask == 0
    then false
    else if leb chip_num_dpus (first_selected_dpu selected_mask)
    then false
    else is_some (decode_thread_command ci_word)

-- The loops over the selected DPUs, from `i` on.
unfoldable pub each_selected : ℕ → ℕ → ℕ → (Dpu → Dpu) → (ℕ → Dpu) → ℕ → Dpu
each_selected zero i mask f dpus = dpus
each_selected (suc left) i mask f dpus =
    each_selected left (i + 1) mask f
      (if bit_and mask (2 ^ i) == 0 then dpus else update dpus i (f (dpus i)))

unfoldable pub write_iram : ℕ → ℕ → Dpu → Dpu
write_iram addr inst48 d =
    with_core d (record (d.core) { iram = Iram.write_word d.core.iram addr inst48 })

unfoldable pub write_wram : ℕ → ℕ → Dpu → Dpu
write_wram addr datum d =
    with_core d (record (d.core) { wram = Wram.write_word d.core.wram addr datum })

-- The body of the loop of the DMA control frame, which takes every DPU.
unfoldable pub write_dma_ctrl : ℕ → ℕ → Dpu → Dpu
write_dma_ctrl address datum d =
    let e = set_dma_ctrl_reg d.core.dma_engine datum in
    let status : ℕ = if datum == 0 then 0x00 else 0x03 in
    let e' =
      if (address == 0x80) || (address == 0x82) || (address == 0x84)
      then set_dma_mux_status e status
      else e in
    with_core d (record (d.core) { dma_engine = e' })

-- `publish`, with the value that `needs_mask_fuzz` has.
unfoldable pub publish : Bool → ℕ → Chip → Chip
publish needs_mask_fuzz payload c = record c {
  ci = set_dispatched_result c.ci payload needs_mask_fuzz;
}

-- A new protocol state, with the selected mask published.
unfoldable pub publish_selected : CiState → Chip → Chip
publish_selected s c = publish false s.selected_mask (record c { ci = s })

-- The six bytes of a frame as one instruction.
unfoldable pub inst48_of : ℕ → ℕ
inst48_of w =
    let c0 : ℕ = bit_or 0 (b w 0 * 2 ^ 0) in
    let c1 : ℕ = bit_or c0 (b w 8 * 2 ^ 8) in
    let c2 : ℕ = bit_or c1 (b w 16 * 2 ^ 16) in
    let c3 : ℕ = bit_or c2 (b w 24 * 2 ^ 24) in
    let c4 : ℕ = bit_or c3 (b w 32 * 2 ^ 32) in bit_or c4 (b w 40 * 2 ^ 40)

-- A structure word, opcode 0x11.
unfoldable pub structure_word : ℕ → Chip → Chip
structure_word w c =
    let s0 = set_structure c.ci w in
    let s1 : CiState = elim (decode_iram_write_structure w) [
      | some hi ↦ set_iram_write_addr_hi (set_iram_write_structure_valid s0 true) hi
      | none ↦ set_iram_write_addr_hi (set_iram_write_structure_valid s0 false) 0
    ] in
    let s2 : CiState = elim (decode_wram_write_word_structure w) [
      | some addr ↦ set_wram_write_addr (set_wram_write_structure_valid s1 true) addr
      | none ↦ set_wram_write_addr (set_wram_write_structure_valid s1 false) 0
    ] in
    publish false 0x0000_00ff (record c { ci = s2 })

-- The frame of an IRAM write, and that of a WRAM write.
unfoldable pub iram_write_frame : ℕ → Chip → Chip
iram_write_frame w c =
    let selected : ℕ = c.ci.selected_mask in
    let addr : ℕ = u16 (bit_or (c.ci.iram_write_addr_hi * 2 ^ 8) (b w 48)) in
    publish true selected (record c {
      dpus = each_selected chip_num_dpus 0 selected (write_iram addr (inst48_of w)) c.dpus;
    })

unfoldable pub wram_write_frame : ℕ → Chip → Chip
wram_write_frame w c =
    let selected : ℕ = c.ci.selected_mask in
    let base : ℕ = c.ci.wram_write_addr in
    let addr : ℕ = elim (decode_wram_write_word_frame_low5 w) [
      | some low5 ↦ u16 (bit_or (bit_and base (2 ^ 16 - 1 - 0x1f)) low5)
      | none ↦ base
    ] in
    let datum : ℕ = u32 (bit_and w 0xffff_ffff) in
    publish true selected
      (record c { dpus = each_selected chip_num_dpus 0 selected (write_wram addr datum) c.dpus })

module _ (execute_once : ℕ → Core → Bool × Core) (invoke_handler : ℕ → ℕ → Dpu → Bool × Dpu) where
  -- `invoke_selected_handlers`, from DPU `i` on: the mask of those invoked, and the DPUs. The
  -- library's `pim_invoke_dpu_handler` is the parameter `invoke_handler`: from the depth, the word and
  -- the DPU, whether it succeeded and what the DPU is then.
  unfoldable pub invoke_from : ℕ → ℕ → ℕ → ℕ → Bool → Bool → (ℕ → Dpu) → ℕ → ℕ × (ℕ → Dpu)
  invoke_from zero i w mask skip_unbound direct_control dpus invoked = (invoked, dpus)
  invoke_from (suc left) i w mask skip_unbound direct_control dpus invoked =
      let d = dpus i in
      let cleared = clear_last_control_result d in
      let (succeeded, handled) = invoke_handler (u32 (i + 1)) w cleared in
      let skipped : Bool =
        (bit_and mask (2 ^ i) == 0)
        || (skip_unbound && (not (is_some d.core.mram.addr) || (d.core.mram.size == 0))) in
      let dpus' : ℕ → Dpu =
        if skipped
        then dpus
        else update dpus i (
            if direct_control
            then control execute_once w cleared
            else if succeeded
            then handled
            else cleared) in
      let counted : Bool = not skipped && (direct_control || succeeded) in
      invoke_from left (i + 1) w mask skip_unbound direct_control dpus'
        (if counted then bit_or invoked (2 ^ i) else invoked)

  unfoldable pub invoke_selected_handlers : ℕ → ℕ → Bool → Bool → Chip → Chip
  invoke_selected_handlers w mask skip_unbound direct_control c =
      let (invoked, dpus') =
        invoke_from chip_num_dpus 0 w mask skip_unbound direct_control c.dpus 0 in
      publish false invoked (record c { dpus = dpus' })

  -- The mask for the commands that execute.
  unfoldable pub execution_mask : Chip → ℕ
  execution_mask c =
      let bound : ℕ = get_bound_mask c.dpus c.ci.selected_mask in
      if bound == 0 then c.ci.selected_mask else bound

  -- The frames with tag 0; `none` where the code goes on below them.
  unfoldable pub tag_00_frame : ℕ → Chip → Option Chip
  tag_00_frame w c =
      let b0 : ℕ = b w 0 in
      let b1 : ℕ = b w 8 in
      let s = c.ci in
      let group_id : ℕ = bit_and b1 0x7 in
      let first : ℕ = first_selected_dpu s.selected_mask in
      let engine = (c.dpus first).core.dma_engine in
      let (old_up, raised) = exchange_stack_up_mask s 0xff in
      let (old_down, lowered) = exchange_stack_up_mask s 0x00 in
      if (b0 == 0x08) && (b1 == 0xff)
      then some (publish_selected (set_selected_mask s 0xff) c)
      else if b0 == 0x0a
      then some (publish_selected (set_selected_mask s (u8 (2 ^ bit_and b1 0x7))) c)
      else if b0 == 0x09
      then some (publish_selected (set_selected_mask s (get_group_mask s group_id)) c)
      else if b0 == 0x0c
      then some (publish_selected (set_group_mask s group_id s.selected_mask) c)
      else if (b0 == 0x16) && (b1 == 0x02)
      then some (publish false s.pc_mode c)
      else if (b0 == 0x10) && (b1 == 0x02)
      then some (
          if (s.selected_mask == 0) || leb chip_num_dpus first
          then publish false 0 c
          else if s.dma_ctrl_read_register == 0x02
          then publish false engine.dma_mux_status c
          else publish false engine.dma_ctrl_reg c)
      else if (b0 == 0x84) && (b1 == 0x02)
      then some (invoke_selected_handlers w (execution_mask c) false false c)
      else if (b0 == 0xf2) && (b1 == 0x02)
      then some (publish false old_up (record c { ci = raised }))
      else if (b0 == 0xf0) && (b1 == 0x02)
      then some (publish false old_down (record c { ci = lowered }))
      else if b1 == 0x02
      then some (
          if (b0 == 0x80) || (b0 == 0x82) || (b0 == 0xb0) || (b0 == 0xb4) || (b0 == 0xf4)
          then publish false 0 c
          else publish false s.selected_mask c)
      else none

  -- The frames with tags 0xa7, 0xa4 and 0xa6.
  unfoldable pub tag_a7_frame : ℕ → Chip → Chip
  tag_a7_frame w c = elim (decode_dma_ctrl_write_frame w) [
    | some (address, datum) ↦
        let s = if address == 0xff then set_dma_ctrl_read_register c.ci datum else c.ci in
        publish false 0x0000_00ff (record c {
          ci = s;
          dpus = each_selected chip_num_dpus 0 0xff (write_dma_ctrl address datum) c.dpus;
        })
    | none ↦ publish true c.ci.selected_mask c
  ]

  unfoldable pub tag_a4_frame : ℕ → Chip → Chip
  tag_a4_frame w c =
      if (b w 8 == 0) && (b w 16 == 0) && (b w 24 == 0) && (b w 32 == 0) && (b w 40 == 0)
      then publish false 0x0000_00ff (record c { ci = set_pc_mode c.ci (b w 0) })
      else publish true c.ci.selected_mask c

  unfoldable pub tag_a6_frame : ℕ → Chip → Chip
  tag_a6_frame w c =
      if (b w 0 == 0)
        && (b w 8 == 0)
        && (b w 16 == 0)
        && (b w 24 == 0)
        && (b w 32 == 0)
        && (b w 40 == 0)
      then publish false 0x0000_00ff c
      else publish true c.ci.selected_mask c

  -- The WRAM read frame, and the end of the function.
  unfoldable pub tag_99_frame : ℕ → Chip → Chip
  tag_99_frame w c =
      let first : ℕ = first_selected_dpu c.ci.selected_mask in
      let rest = publish true c.ci.selected_mask c in
      if b w 48 == 0x99
      then elim (decode_wram_read_word_frame w) [
        | none ↦ rest
        | some addr ↦
            if leb chip_num_dpus first || (c.ci.selected_mask == 0)
            then publish false 0 c
            else publish false (Wram.read_word (c.dpus first).core.wram addr) c
      ]
      else rest

  unfoldable pub other_frame : ℕ → Chip → Chip
  other_frame w c =
      let tag : ℕ = b w 48 in
      if tag == 0xa7
      then tag_a7_frame w c
      else if tag == 0xa4
      then tag_a4_frame w c
      else if tag == 0xa6
      then tag_a6_frame w c
      else if is_thread_command_word w c.ci.selected_mask
      then invoke_selected_handlers w (execution_mask c) true true c
      else tag_99_frame w c

  -- A frame, opcode 0x33.
  unfoldable pub frame_word : ℕ → Chip → Chip
  frame_word w c =
      let others = other_frame w c in
      if c.ci.iram_write_structure_valid
      then iram_write_frame w c
      else if c.ci.wram_write_structure_valid
      then wram_write_frame w c
      else if b w 48 == 0x00
      then elim (tag_00_frame w c) [ some c' ↦ c' | none ↦ others ]
      else others

  -- What follows once the word is committed and the region is known.
  unfoldable pub dispatch : ℕ → Chip → Chip
  dispatch w c =
      if w == 0x01ff_0000_0000_0000
      then publish false 0x0000_0001 c
      else if is_software_reset_cmd w
      then publish false 0x0000_0000 (record c { ci = reset_protocol_state c.ci })
      else if w == 0x7777_7777_7777_7777
      then publish false 0x0f8f_cfef c
      else if b w 56 == 0x11
      then structure_word w c
      else if b w 56 != 0x33
      then publish false 0 c
      else frame_word w c

  unfoldable pub propagate_ci : ℕ → Chip → Chip
  propagate_ci ci_word c =
      let committed = record c { ci = set_committed c.ci ci_word } in
      if not c.write_region then committed else dispatch ci_word committed
