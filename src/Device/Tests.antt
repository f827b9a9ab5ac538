-- ===== src/Device/Tests.antt =====
-- A device with two regions, a control region with one register, and the theorems at inputs that meet
-- their hypotheses.
use hostpimsim_gecon.Base.{
  ℕ, ◌<◌, ◌≡◌, ◌≢◌, ◌⊎◌, inr, refl, arith, true, false, ◌&&◌, Option, none, some, List, [], ◌∷◌,
  if◌then◌else◌,
}
use hostpimsim_gecon.Device.Status.{success, ram, ctrl_mmio}
use hostpimsim_gecon.Device.Regions.{
  Region, Device, Resources, find, after, is_topology_mutation_blocked, pim_region_create,
  pim_region_free, pim_device_get_region, pim_device_get_next_region,
}
use hostpimsim_gecon.Device.Regions.Layout.{IsValid}
use hostpimsim_gecon.Device.Regions.Owners.{owner, has_byte}
use hostpimsim_gecon.Device.Regions.Create.{
  IsGrantable, HasAll, new_region, Created, pim_region_create-Created,
  pim_region_create-IsGrantable,
}
use hostpimsim_gecon.Device.Regions.Free.{pim_region_free-owner}
use hostpimsim_gecon.Device.Registers.Layout.{IsSpread}
use hostpimsim_gecon.Device.Registers.{
  Entry, Space, find_root, overlaps_root, pim_load_register_u64, pim_register_dpu_handler,
  write_sized_value, pim_read, is_success, check_registration, validate_mmio_handler_target,
  validate_handler_table_mutation_state_locked, is_aligned, pim_is_supported_register_size,
  overlaps_at, put, put_root, pim_is_supported_access_size, get_typed_region_ptr, check_bounds,
}
use hostpimsim_gecon.Device.Registers.Register.{Registered, pim_register_dpu_handler-Registered}
use hostpimsim_gecon.Device.Registers.Writes.{IsSound, IsAccess}
use hostpimsim_gecon.Device.Registers.Effects.{write_sized_value-pim_read}
use hostpimsim_gecon.Device.Registers.Steps.{Reach, here, next, register, write, Reach-IsSound}
use hostpimsim_gecon.Device.Guard.{
  Turn, proceed, mutate, run, take_turn, step_at, dispatch_step, mutation_step, new_guard,
  all_outside,
}
use hostpimsim_gecon.Device.Guard.Exclusion.{held, any_armed, is_at_table, run-exclusive}

abbrev low : Region
low = record { self = 11; offset = 0; size = 256; page_size = 4096; ptr = 65536; type = ram }

abbrev high : Region
high = record {
  self = 12;
  offset = 1024;
  size = 256;
  page_size = 4096;
  ptr = 66560;
  type = ctrl_mmio;
}

abbrev board : Device
board = record {
  ptr = 65536;
  size = 4096;
  teardown_in_progress = false;
  monitor_running = false;
  sigsegv_enabled = false;
  sigsegv_transition_in_progress = false;
  regions = (0, low) ∷ (1024, high) ∷ [];
}

board-IsValid : IsValid board
board-IsValid = record {
  layout = (refl, omega arith, omega arith, (refl, omega arith, omega arith, omega arith));
  small = omega arith;
}

abbrev enough : Resources
enough = record { page_size = some 4096; object = some 13; node = true }

board_unblocked : is_topology_mutation_blocked board ≡ false
unfolding is_topology_mutation_blocked
board_unblocked = refl

enough-HasAll : HasAll enough 4096 13
enough-HasAll = record { paged = refl; object = refl; node = refl }

middle-IsGrantable : IsGrantable 256 768 board
unfolding owner
middle-IsGrantable = (omega arith, omega arith, λ i. ground arith)

pim_region_create-Created_example :
    let r = new_region 4096 13 board 256 768 ram in
    let (got, d') = pim_region_create enough board 256 768 ram in
    (got ≡ some r) × Created r board d'
pim_region_create-Created_example =
    pim_region_create-Created enough 4096 13 board 256 768 ram board-IsValid board_unblocked
      enough-HasAll middle-IsGrantable

pim_region_create-IsGrantable_example :
    let (got, d') = pim_region_create enough board 256 768 ram in
    ((got ≡ none) × (d' ≡ board))
    ⊎ ((page : ℕ) × (self : ℕ) × (◌≡◌ {A = Option ℕ} (some 4096) (some page))
        × (◌≡◌ {A = Option ℕ} (some 13) (some self))
        × (got ≡ some (new_region page self board 256 768 ram))
        × IsGrantable 256 768 board
        × (is_topology_mutation_blocked board ≡ false)
        × Created (new_region page self board 256 768 ram) board d')
pim_region_create-IsGrantable_example =
    pim_region_create-IsGrantable enough board 256 768 ram board-IsValid

pim_region_free-owner_example :
    let (got, d') = pim_region_free board low in
    ((s : Region) × (got ≡ success)
      × (pim_device_get_region board 0 ≡ some s)
      × (s.self ≡ 11)
      × IsValid d'
      × ((i : ℕ) → owner d'.regions i ≡ (if has_byte s i then none else owner board.regions i)))
    ⊎ ((got ≢ success) × (d' ≡ board))
pim_region_free-owner_example = pim_region_free-owner board low board-IsValid

low_found : pim_device_get_region board 0 ≡ some low
unfolding pim_device_get_region find
low_found = refl

high_next : pim_device_get_next_region board (some low) ≡ some high
unfolding pim_device_get_next_region find after
high_next = refl

-- A control region whose memory is all ones.
abbrev controls : Space
controls = record {
  device = 7;
  type = ctrl_mmio;
  size = 256;
  memory = λ i. 1;
  handlers = [];
  nested_handlers = [];
  active_dispatch_ops = 0;
  callback = none;
}

controls-IsSpread : IsSpread controls
controls-IsSpread = record { root = tt; nested = tt }

pim_register_dpu_handler-Registered_example :
    let (got, x') = pim_register_dpu_handler true 7 board controls 16 0 4 (some 99) 5 in
    ((is_success got ≡ false) × (x' ≡ controls))
    ⊎ ((e : Entry) × (got ≡ success)
        × (◌≡◌ {A = Option ℕ} (some 99) (some e.handler))
        × (pim_load_register_u64 controls.memory 16 4 ≡ some e.last_value)
        × Registered 7 board controls 16 0 e x')
pim_register_dpu_handler-Registered_example =
    pim_register_dpu_handler-Registered true 7 board controls 16 0 4 (some 99) 5 controls-IsSpread

ones-IsBytes : (i : ℕ) → 1 < 256
ones-IsBytes i = omega arith

sixteen-IsAccess : IsAccess controls 16 4
unfolding pim_is_supported_access_size get_typed_region_ptr is_aligned check_bounds
sixteen-IsAccess = (refl, refl)

write_sized_value-pim_read_example :
    let (got, y, call) = write_sized_value false false controls 16 4 70000 in
    (got ≡ success)
    × (pim_read y 16 4 ≡ (success, 70000))
    × (pim_read y 20 4 ≡ pim_read controls 20 4)
write_sized_value-pim_read_example =
    write_sized_value-pim_read false false controls 16 4 70000 20 4 sixteen-IsAccess
      (inr (omega arith))

controls-IsSound : IsSound controls
controls-IsSound = record { valid = controls-IsSpread; bytes = ones-IsBytes; sync = tt }

-- A register is made, and the bytes before it are written.
two_steps :
    Reach controls
      (write_sized_value false false
        (pim_register_dpu_handler true 7 board controls 16 0 4 (some 99) 5).1
        8
        4
        70000).1
unfolding pim_register_dpu_handler check_registration validate_mmio_handler_target
    validate_handler_table_mutation_state_locked is_aligned pim_is_supported_register_size
    overlaps_at overlaps_root pim_load_register_u64 put put_root find_root
two_steps =
    next (next here (register true 7 board controls 16 0 4 (some 99) 5))
      (write false false _ 8 4 70000 refl refl)

Reach-IsSound_example :
    IsSound
      (write_sized_value false false
        (pim_register_dpu_handler true 7 board controls 16 0 4 (some 99) 5).1
        8
        4
        70000).1
Reach-IsSound_example = Reach-IsSound controls-IsSound two_steps

-- A dispatch is let in, a registration is turned away, and after the dispatch the next is not.
abbrev crossing : List Turn
crossing =
    proceed 0 ∷ proceed 0 ∷ proceed 0 ∷ mutate ∷ mutate ∷ mutate ∷ proceed 0 ∷ mutate ∷ mutate ∷ []

run-exclusive_example :
    let g = run crossing (new_guard 2) in
    ((is_at_table g.mutation && any_armed g.dispatches) ≡ false)
    × (g.active_dispatch_ops ≡ held g.dispatches)
run-exclusive_example = run-exclusive 2 crossing (omega arith)

crossing_at_table : is_at_table (run crossing (new_guard 2)).mutation ≡ true
unfolding run take_turn step_at dispatch_step mutation_step new_guard all_outside
crossing_at_table = refl
