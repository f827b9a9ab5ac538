-- ===== src/Ci/State/Defs.antt =====
-- The class `CIState`. Each method holds the lock while it runs, so it is one step on the state; a
-- getter that only returns a field is that field of the record.
use hostpimsim_gecon.Base.{ℕ, ◌+◌, Bool, true, false, leb, if◌then◌else◌, update, u64}
use hostpimsim_gecon.Dpu.Config.{chip_num_dpus, ci_num_group_slots}

pub record DispatchPending : Type 0 where
  pub expected_set : Bool
  pub dispatch_generation_before : ℕ
  pub active : Bool

-- `ControlPending` and `RunStatePending`, which have the same fields.
pub record Pending : Type 0 where
  pub expected_set : Bool
  pub dispatch_generation_before : ℕ
  pub selected_mask : ℕ
  pub execution_mask : ℕ
  pub payload : ℕ
  pub control_generations : ℕ → ℕ
  pub active : Bool

pub record CiState : Type 0 where
  pub committed : ℕ
  pub updated : ℕ
  pub pc_mode : ℕ
  pub stack_up_mask : ℕ
  pub selected_mask : ℕ
  pub enabled_mask : ℕ
  pub group_mask : ℕ → ℕ
  pub dma_ctrl_read_register : ℕ
  pub structure : ℕ
  pub iram_write_structure_valid : Bool
  pub iram_write_addr_hi : ℕ
  pub wram_write_structure_valid : Bool
  pub wram_write_addr : ℕ
  pub dispatched_payload : ℕ
  pub dispatched_needs_mask_fuzz : Bool
  pub dispatched_generation : ℕ
  pub dispatch_pending : DispatchPending
  pub control_pending : Pending
  pub run_state_pending : Pending

abbrev pub no_dispatch : DispatchPending
no_dispatch = record { expected_set = false; dispatch_generation_before = 0; active = false }

abbrev pub no_pending : Pending
no_pending = record {
  expected_set = false;
  dispatch_generation_before = 0;
  selected_mask = 0;
  execution_mask = 0;
  payload = 0;
  control_generations = λ i. 0;
  active = false;
}

unfoldable pub reset_protocol_state : CiState → CiState
reset_protocol_state s = record s {
  pc_mode = 0x04;
  stack_up_mask = 0x00;
  selected_mask = 0xff;
  group_mask = update (λ i. 0) 0 0xff;
  dma_ctrl_read_register = 0x00;
  structure = 0;
  iram_write_structure_valid = false;
  iram_write_addr_hi = 0;
  wram_write_structure_valid = false;
  wram_write_addr = 0;
  dispatched_payload = 0;
  dispatched_needs_mask_fuzz = false;
  dispatch_pending = no_dispatch;
  control_pending = no_pending;
  run_state_pending = no_pending;
}

unfoldable pub set_committed : CiState → ℕ → CiState
set_committed s word = record s { committed = word }

unfoldable pub store_updated : CiState → ℕ → CiState
store_updated s word = record s { updated = word }

unfoldable pub set_selected_mask : CiState → ℕ → CiState
set_selected_mask s mask = record s { selected_mask = mask }

unfoldable pub set_enabled_mask : CiState → ℕ → CiState
set_enabled_mask s mask = record s { enabled_mask = mask }

unfoldable pub get_group_mask : CiState → ℕ → ℕ
get_group_mask s group_slot_nr =
    if leb ci_num_group_slots group_slot_nr then 0 else s.group_mask group_slot_nr

unfoldable pub set_group_mask : CiState → ℕ → ℕ → CiState
set_group_mask s group_slot_nr mask =
    if leb ci_num_group_slots group_slot_nr
    then s
    else record s { group_mask = update s.group_mask group_slot_nr mask }

unfoldable pub set_pc_mode : CiState → ℕ → CiState
set_pc_mode s mode = record s { pc_mode = mode }

-- The old mask, and the new state.
unfoldable pub exchange_stack_up_mask : CiState → ℕ → ℕ × CiState
exchange_stack_up_mask s value = (s.stack_up_mask, record s { stack_up_mask = value })

unfoldable pub set_dma_ctrl_read_register : CiState → ℕ → CiState
set_dma_ctrl_read_register s value = record s { dma_ctrl_read_register = value }

unfoldable pub set_structure : CiState → ℕ → CiState
set_structure s value = record s { structure = value }

unfoldable pub set_iram_write_structure_valid : CiState → Bool → CiState
set_iram_write_structure_valid s valid = record s { iram_write_structure_valid = valid }

unfoldable pub set_iram_write_addr_hi : CiState → ℕ → CiState
set_iram_write_addr_hi s addr_hi = record s { iram_write_addr_hi = addr_hi }

unfoldable pub set_wram_write_structure_valid : CiState → Bool → CiState
set_wram_write_structure_valid s valid = record s { wram_write_structure_valid = valid }

unfoldable pub set_wram_write_addr : CiState → ℕ → CiState
set_wram_write_addr s addr = record s { wram_write_addr = addr }

unfoldable pub set_dispatched_result : CiState → ℕ → Bool → CiState
set_dispatched_result s payload needs_mask_fuzz = record s {
  dispatched_payload = payload;
  dispatched_needs_mask_fuzz = needs_mask_fuzz;
  dispatched_generation = u64 (s.dispatched_generation + 1);
}

unfoldable pub set_dispatch_pending : CiState → Bool → ℕ → CiState
set_dispatch_pending s expected_set before = record s {
  dispatch_pending = record {
    expected_set = expected_set;
    dispatch_generation_before = before;
    active = true;
  };
}

unfoldable pub clear_dispatch_pending : CiState → CiState
clear_dispatch_pending s = record s { dispatch_pending = no_dispatch }

unfoldable pub set_control_pending : CiState → Bool → ℕ → ℕ → ℕ → (ℕ → ℕ) → ℕ → CiState
set_control_pending s expected_set before selected execution generations payload = record s {
  control_pending = record {
    expected_set = expected_set;
    dispatch_generation_before = before;
    selected_mask = selected;
    execution_mask = execution;
    payload = payload;
    control_generations = generations;
    active = true;
  };
}

unfoldable pub get_control_pending_generation : CiState → ℕ → ℕ
get_control_pending_generation s dpu_idx =
    if leb chip_num_dpus dpu_idx then 0 else s.control_pending.control_generations dpu_idx

unfoldable pub clear_control_pending : CiState → CiState
clear_control_pending s = record s { control_pending = no_pending }

unfoldable pub set_run_state_pending : CiState → Bool → ℕ → ℕ → ℕ → (ℕ → ℕ) → ℕ → CiState
set_run_state_pending s expected_set before selected execution generations payload = record s {
  run_state_pending = record {
    expected_set = expected_set;
    dispatch_generation_before = before;
    selected_mask = selected;
    execution_mask = execution;
    payload = payload;
    control_generations = generations;
    active = true;
  };
}

unfoldable pub get_run_state_pending_control_generation : CiState → ℕ → ℕ
get_run_state_pending_control_generation s dpu_idx =
    if leb chip_num_dpus dpu_idx then 0 else s.run_state_pending.control_generations dpu_idx

unfoldable pub clear_run_state_pending : CiState → CiState
clear_run_state_pending s = record s { run_state_pending = no_pending }
