-- ===== src/Ci/Tests.antt =====
-- The frame theorems at inputs that meet their hypotheses.
use hostpimsim_gecon.Base.{◌<◌, ◌≡◌, ◌↔◌, true, false, some}
use hostpimsim_gecon.Dpu.Config.{num_tasklets}
use hostpimsim_gecon.Ci.State.{CiState, no_dispatch, no_pending}
use hostpimsim_gecon.Ci.Thread.{resume, thread_cmd_cache, decode_thread_command}
use hostpimsim_gecon.Ci.Thread.RoundTrip.{decode_thread_command_iff}

decode_thread_command_iff_example :
    (decode_thread_command (thread_cmd_cache resume 17) ≡ some (resume, 17))
    ↔ ((thread_cmd_cache resume 17 ≡ thread_cmd_cache resume 17) × (17 < num_tasklets))
decode_thread_command_iff_example = decode_thread_command_iff (thread_cmd_cache resume 17) resume 17

-- An interface with nothing latched, and one with a structure and a selection.
abbrev fresh : CiState
fresh = record {
  committed = 9;
  updated = 0;
  pc_mode = 4;
  stack_up_mask = 0;
  selected_mask = 0;
  enabled_mask = 0xff;
  group_mask = λ i. 0;
  dma_ctrl_read_register = 0;
  structure = 0;
  iram_write_structure_valid = false;
  iram_write_addr_hi = 0;
  wram_write_structure_valid = false;
  wram_write_addr = 0;
  dispatched_payload = 0;
  dispatched_needs_mask_fuzz = false;
  dispatched_generation = 6;
  dispatch_pending = no_dispatch;
  control_pending = no_pending;
  run_state_pending = no_pending;
}

abbrev latched : CiState
latched = record fresh {
  selected_mask = 3;
  group_mask = λ i. 7;
  structure = 1;
  wram_write_structure_valid = true;
  wram_write_addr = 96;
  dispatched_payload = 3;
}
