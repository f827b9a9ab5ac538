-- ===== src/Device/Registers/Defs.antt =====
-- The handler tables of a region: `pim_register_dpu_handler`, `pim_unregister_dpu_handler` and
-- `pim_invoke_dpu_handler`. Each holds the locks while it runs, so it is one step; what it tests of other
-- threads is the count `active_dispatch_ops` and the flags of the device.
use hostpimsim_gecon.Base.{
  ℕ, zero, suc, ◌+◌, ◌-◌, ◌*◌, ◌%◌, ◌^◌, Bool, true, false, ◌&&◌, ◌||◌, not, Option, none, some,
  List, [], ◌∷◌, ltb, ◌==◌, ◌!=◌, if◌then◌else◌, Bytes, u64, bit_and, bit_or,
}
use hostpimsim_gecon.Device.Status.{
  PimError, success, invalid_arg, no_memory, not_found, already_exists, busy, RegionType,
  is_ctrl_mmio,
}
use hostpimsim_gecon.Device.Regions.{Device}

-- `dpu_handler_entry`; the functions and the data of the user are known by their addresses.
pub record Entry : Type 0 where
  pub handler : ℕ
  pub user_data : ℕ
  pub last_value : ℕ
  pub write_seq : ℕ
  pub register_size : ℕ
  pub depth : ℕ

-- The rest of `pim_region`: the device it belongs to, its memory, and its two hash tables, whose order
-- no operation depends on.
pub record Space : Type 0 where
  pub device : ℕ
  pub type : RegionType
  pub size : ℕ
  pub memory : Bytes
  pub handlers : List (ℕ × Entry)
  pub nested_handlers : List (ℕ × ℕ × Entry)
  pub active_dispatch_ops : ℕ
  -- Of its `sigsegv_callback_ctx`: the offset and the value that wait for the callback thread.
  pub callback : Option (ℕ × ℕ)

unfoldable pub find_root : ℕ → List (ℕ × Entry) → Option Entry
find_root o [] = none
find_root o ((k, e) ∷ t) = if o == k then some e else find_root o t

-- `handlers[o] = e`
unfoldable pub put_root : ℕ → Entry → List (ℕ × Entry) → List (ℕ × Entry)
put_root o e [] = (o, e) ∷ []
put_root o e ((k, f) ∷ t) = if o == k then (o, e) ∷ t else (k, f) ∷ put_root o e t

unfoldable pub drop_root : ℕ → List (ℕ × Entry) → List (ℕ × Entry)
drop_root o [] = []
drop_root o ((k, f) ∷ t) = if o == k then t else (k, f) ∷ drop_root o t

unfoldable pub find_nested : ℕ → ℕ → List (ℕ × ℕ × Entry) → Option Entry
find_nested o depth [] = none
find_nested o depth ((k, n, e) ∷ t) =
    if (o == k) && (depth == n) then some e else find_nested o depth t

unfoldable pub put_nested : ℕ → ℕ → Entry → List (ℕ × ℕ × Entry) → List (ℕ × ℕ × Entry)
put_nested o depth e [] = (o, depth, e) ∷ []
put_nested o depth e ((k, n, f) ∷ t) =
    if (o == k) && (depth == n) then (o, depth, e) ∷ t else (k, n, f) ∷ put_nested o depth e t

unfoldable pub drop_nested : ℕ → ℕ → List (ℕ × ℕ × Entry) → List (ℕ × ℕ × Entry)
drop_nested o depth [] = []
drop_nested o depth ((k, n, f) ∷ t) =
    if (o == k) && (depth == n) then t else (k, n, f) ∷ drop_nested o depth t

-- The two loops that look for an overlap.
unfoldable pub overlaps_root : ℕ → ℕ → List (ℕ × Entry) → Bool
overlaps_root new_start new_end [] = false
overlaps_root new_start new_end ((k, e) ∷ t) =
    (ltb new_start (k + e.register_size) && ltb k new_end) || overlaps_root new_start new_end t

unfoldable pub overlaps_nested : ℕ → ℕ → ℕ → List (ℕ × ℕ × Entry) → Bool
overlaps_nested new_start new_end depth [] = false
overlaps_nested new_start new_end depth ((k, n, e) ∷ t) =
    ((n == depth) && ltb new_start (k + e.register_size) && ltb k new_end)
    || overlaps_nested new_start new_end depth t

unfoldable pub is_aligned : ℕ → ℕ → Bool
is_aligned offset alignment = (alignment == 0) || (offset % alignment == 0)

unfoldable pub pim_is_supported_register_size : ℕ → Bool
pim_is_supported_register_size n = (n == 1) || (n == 2) || (n == 4) || (n == 8)

unfoldable pub pim_register_value_mask : ℕ → ℕ
unfolding pim_is_supported_register_size
pim_register_value_mask n =
    if not (pim_is_supported_register_size n)
    then 0
    else if n == 8
    then 2 ^ 64 - 1
    else 2 ^ (n * 8) - 1

-- The loop of `pim_load_register_u64`, from the byte `i` on.
unfoldable pub load_bytes : ℕ → ℕ → Bytes → ℕ → ℕ → ℕ
load_bytes zero i memory offset loaded = loaded
load_bytes (suc left) i memory offset loaded =
    load_bytes left (i + 1) memory offset (bit_or loaded (memory (offset + i) * 2 ^ (i * 8)))

unfoldable pub pim_load_register_u64 : Bytes → ℕ → ℕ → Option ℕ
unfolding pim_is_supported_register_size load_bytes
pim_load_register_u64 memory offset register_size =
    if not (pim_is_supported_register_size register_size)
    then none
    else some (load_bytes register_size 0 memory offset 0)

unfoldable pub validate_mmio_handler_target : ℕ → Space → PimError
validate_mmio_handler_target dev x =
    if (x.device != dev) || not (is_ctrl_mmio x.type) then invalid_arg else success

unfoldable pub validate_handler_table_mutation_state_locked : Device → PimError
validate_handler_table_mutation_state_locked d =
    if d.teardown_in_progress || d.monitor_running || d.sigsegv_transition_in_progress
      || d.sigsegv_enabled
    then busy
    else success

abbrev pub is_success : PimError → Bool
is_success success = true
is_success _ = false

-- The tests of `pim_register_dpu_handler` up to the tables, in their order; a null handler is `none`.
unfoldable pub check_registration : ℕ → Device → Space → ℕ → ℕ → Option ℕ → PimError
check_registration dev d x offset register_size handler =
    if not (is_success (validate_mmio_handler_target dev x))
      || (elim handler [ none ↦ true | some h ↦ false ])
    then invalid_arg
    else if not (is_success (validate_handler_table_mutation_state_locked d))
    then validate_handler_table_mutation_state_locked d
    else if not (pim_is_supported_register_size register_size)
    then invalid_arg
    else if not (is_aligned offset register_size)
    then invalid_arg
    else if ltb x.size offset || ltb (x.size - offset) register_size
    then invalid_arg
    else if x.active_dispatch_ops != 0
    then busy
    else success

unfoldable pub overlaps_at : ℕ → ℕ → ℕ → Space → Bool
overlaps_at offset depth register_size x =
    if depth == 0
    then overlaps_root offset (offset + register_size) x.handlers
    else overlaps_nested offset (offset + register_size) depth x.nested_handlers

unfoldable pub put : ℕ → ℕ → Entry → Space → Space
put offset depth e x =
    if depth == 0
    then record x { handlers = put_root offset e x.handlers }
    else record x { nested_handlers = put_nested offset depth e x.nested_handlers }

-- `has_memory` is whether the table can take one more entry.
unfoldable pub pim_register_dpu_handler :
    Bool → ℕ → Device → Space → ℕ → ℕ → ℕ → Option ℕ → ℕ → PimError × Space
pim_register_dpu_handler has_memory dev d x offset depth register_size handler user_data =
    let checked = check_registration dev d x offset register_size handler in
    if not (is_success checked)
    then (checked, x)
    else if overlaps_at offset depth register_size x
    then (already_exists, x)
    else elim handler [
      | none ↦ (invalid_arg, x)
      | some h ↦ elim (pim_load_register_u64 x.memory offset register_size) [
        | none ↦ (invalid_arg, x)
        | some initial_value ↦
            let e : Entry = record {
              handler = h;
              user_data = user_data;
              last_value = initial_value;
              write_seq = 0;
              register_size = register_size;
              depth = depth;
            } in
            if has_memory then (success, put offset depth e x) else (no_memory, x)
      ]
    ]

-- The entry at an offset and a depth.
unfoldable pub find_at : ℕ → ℕ → Space → Option Entry
find_at offset depth x =
    if depth == 0 then find_root offset x.handlers else find_nested offset depth x.nested_handlers

unfoldable pub pim_unregister_dpu_handler : ℕ → Device → Space → ℕ → ℕ → PimError × Space
pim_unregister_dpu_handler dev d x offset depth =
    let target_err = validate_mmio_handler_target dev x in
    let dropped : Space =
      if depth == 0
      then record x { handlers = drop_root offset x.handlers }
      else record x { nested_handlers = drop_nested offset depth x.nested_handlers } in
    if not (is_success target_err)
    then (target_err, x)
    else if not (is_success (validate_handler_table_mutation_state_locked d))
    then (validate_handler_table_mutation_state_locked d, x)
    else if x.active_dispatch_ops != 0
    then (busy, x)
    else elim (find_at offset depth x) [ none ↦ (not_found, x) | some e ↦ (success, dropped) ]

-- A call of a handler.
pub record Call : Type 0 where
  pub handler : ℕ
  pub offset : ℕ
  pub depth : ℕ
  pub value : ℕ
  pub user_data : ℕ

-- `pim_invoke_dpu_handler`: the call that is dispatched, with the last value of the register noted.
unfoldable pub pim_invoke_dpu_handler : Space → ℕ → ℕ → ℕ → PimError × Space × Option Call
pim_invoke_dpu_handler x offset depth value =
    let target_err = validate_mmio_handler_target x.device x in
    if not (is_success target_err) then (target_err, x, none) else elim (find_at offset depth x) [
      | none ↦ (not_found, x, none)
      | some e ↦
          let e' = record e {
            last_value = bit_and (u64 value) (pim_register_value_mask e.register_size);
          } in
          let call : Call = record {
            handler = e.handler;
            offset = offset;
            depth = depth;
            value = u64 value;
            user_data = e.user_data;
          } in
          (success, put offset depth e' x, some call)
    ]
