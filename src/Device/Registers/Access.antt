-- ===== src/Device/Registers/Access.antt =====
-- Typed reads and writes of a region's memory, with the handler of the register that is written. A
-- region's pointer is never null, and the guard of a dispatch is left again when the access ends.
use hostpimsim_gecon.Base.{
  ℕ, ◌+◌, ◌-◌, ◌%◌, ◌^◌, Bool, true, false, ◌&&◌, ◌||◌, not, Option, none, some, leb, ltb, List, [],
  ◌∷◌, ◌==◌, if◌then◌else◌, Bytes, load_le, store_le, memcpy, u32, bit_and,
}
use hostpimsim_gecon.Device.Status.{PimError, success, invalid_arg, is_ctrl_mmio}
use hostpimsim_gecon.Device.Registers.Defs.{
  Entry, Space, Call, is_success, is_aligned, find_root, put_root, pim_register_value_mask,
}

unfoldable pub check_bounds : Space → ℕ → ℕ → Bool
check_bounds x offset access_size = leb offset x.size && leb access_size (x.size - offset)

-- For a type of `n` bytes, whose alignment is its size.
unfoldable pub get_typed_region_ptr : Space → ℕ → ℕ → PimError
get_typed_region_ptr x offset n =
    if not (is_aligned offset n)
    then invalid_arg
    else if not (check_bounds x offset n)
    then invalid_arg
    else success

unfoldable pub get_region_byte_ptr : Space → ℕ → ℕ → PimError
get_region_byte_ptr x offset size =
    if not (check_bounds x offset size) then invalid_arg else success

unfoldable pub mmio_handler_mark_write_begin : Entry → Entry
mmio_handler_mark_write_begin e = record e { write_seq = u32 (e.write_seq + 1) }

unfoldable pub mmio_handler_mark_write_end : Entry → Entry
mmio_handler_mark_write_end e = record e { write_seq = u32 (e.write_seq + 1) }

-- The entry of the register that begins at an offset.
unfoldable pub root_entry : Space → ℕ → Option Entry
root_entry x offset = if is_ctrl_mmio x.type then find_root offset x.handlers else none

-- The entry once the write of a value is noted.
unfoldable pub noted : ℕ → Entry → Entry
noted value e =
    let e1 = mmio_handler_mark_write_begin e in
    let e2 = record e1 { last_value = bit_and value (pim_register_value_mask e1.register_size) } in
    mmio_handler_mark_write_end e2

-- The register that has the byte at an offset.
unfoldable pub find_covering : ℕ → List (ℕ × Entry) → Option ℕ
find_covering o [] = none
find_covering o ((k, e) ∷ t) =
    if leb k o && ltb o (k + e.register_size) then some k else find_covering o t

-- What the signal handler does at a write to a page of a control region: the write is not done, and if it
-- is to a register, its value is left for the callback thread, over one that still waits.
unfoldable pub pim_sigsegv_handler_func : Space → ℕ → ℕ → Space
pim_sigsegv_handler_func x offset value = elim (find_covering offset x.handlers) [
  | none ↦ x
  | some k ↦ record x { callback = some (k, value) }
]

-- One round of the callback thread: the handler of the register that was written, if there is one, is
-- dispatched. The last value of the register is left as it was.
unfoldable pub sigsegv_callback_thread_func : Space → Space × Option Call
sigsegv_callback_thread_func x = elim x.callback [
  | none ↦ (x, none)
  | some (offset, value) ↦ (
    record x { callback = none },
    elim (root_entry x offset) [
      | none ↦ none
      | some e ↦ some (record {
        handler = e.handler;
        offset = offset;
        depth = 0;
        value = value;
        user_data = e.user_data;
      })
    ],
  )
]

-- `*target = value`, where `sigsegv` is whether the device has its writes watched by page protection. The
-- pages that are protected are those of the control regions.
unfoldable pub store : Bool → Space → ℕ → ℕ → ℕ → Space
store sigsegv x offset n value =
    if sigsegv && is_ctrl_mmio x.type
    then pim_sigsegv_handler_func x offset value
    else record x { memory = store_le n x.memory offset value }

unfoldable pub write_raw_atomic : Bool → Space → ℕ → ℕ → ℕ → Space
write_raw_atomic sigsegv x offset n value =
    let y = store sigsegv x offset n value in
    elim (root_entry x offset) [
      | none ↦ y
      | some e ↦
          if sigsegv then y else record y { handlers = put_root offset (noted value e) x.handlers }
    ]

-- The handler that is called runs after the write; what it does is its own.
unfoldable pub write_and_invoke_handler : Bool → Space → ℕ → ℕ → ℕ → Space × Option Call
write_and_invoke_handler sigsegv x offset n value =
    let y = store sigsegv x offset n value in
    elim (root_entry x offset) [
      | none ↦ (y, none)
      | some e ↦ if sigsegv then (y, none) else (
        record y { handlers = put_root offset (noted value e) x.handlers },
        some (record {
          handler = e.handler;
          offset = offset;
          depth = 0;
          value = value;
          user_data = e.user_data;
        }),
      )
    ]

unfoldable pub write_typed_value : Bool → Bool → Space → ℕ → ℕ → ℕ → PimError × Space × Option Call
write_typed_value raw sigsegv x offset n value =
    let err = get_typed_region_ptr x offset n in
    let (y, call) = write_and_invoke_handler sigsegv x offset n value in
    if not (is_success err)
    then (err, x, none)
    else if raw
    then (success, write_raw_atomic sigsegv x offset n value, none)
    else (success, y, call)

unfoldable pub pim_is_supported_access_size : ℕ → Bool
pim_is_supported_access_size n = (n == 1) || (n == 2) || (n == 4) || (n == 8)

-- The cast of the value to the type of the size that is asked for.
unfoldable pub write_sized_value : Bool → Bool → Space → ℕ → ℕ → ℕ → PimError × Space × Option Call
write_sized_value raw sigsegv x offset n value =
    if not (pim_is_supported_access_size n)
    then (invalid_arg, x, none)
    else write_typed_value raw sigsegv x offset n (value % 256 ^ n)

unfoldable pub read_typed_value : Space → ℕ → ℕ → PimError × ℕ
read_typed_value x offset n =
    let err = get_typed_region_ptr x offset n in
    if not (is_success err) then (err, 0) else (success, load_le n x.memory offset)

unfoldable pub read_sized_value : Space → ℕ → ℕ → PimError × ℕ
read_sized_value x offset n =
    if not (pim_is_supported_access_size n) then (invalid_arg, 0) else read_typed_value x offset n

unfoldable pub pim_write : Bool → Space → ℕ → ℕ → ℕ → PimError × Space × Option Call
unfolding write_sized_value write_typed_value
pim_write sigsegv x offset n value = write_sized_value false sigsegv x offset n value

unfoldable pub pim_write_raw : Bool → Space → ℕ → ℕ → ℕ → PimError × Space × Option Call
unfolding write_sized_value write_typed_value
pim_write_raw sigsegv x offset n value = write_sized_value true sigsegv x offset n value

unfoldable pub pim_read : Space → ℕ → ℕ → PimError × ℕ
unfolding read_sized_value read_typed_value
pim_read x offset n = read_sized_value x offset n

-- From, and to, a buffer of the caller's, `none` for a null pointer. A copy to a region is one whose writes page
-- protection does not watch.
unfoldable pub pim_memcpy_to : Space → ℕ → Option Bytes → ℕ → PimError × Space
pim_memcpy_to x offset none size = (invalid_arg, x)
pim_memcpy_to x offset (some buffer) size =
    let err = get_region_byte_ptr x offset size in
    if not (is_success err)
    then (err, x)
    else (success, record x { memory = memcpy size x.memory offset buffer 0 })

unfoldable pub pim_memcpy_from : Space → ℕ → Option Bytes → ℕ → PimError × Option Bytes
pim_memcpy_from x offset none size = (invalid_arg, none)
pim_memcpy_from x offset (some buffer) size =
    let err = get_region_byte_ptr x offset size in
    if not (is_success err)
    then (err, some buffer)
    else (success, some (memcpy size buffer 0 x.memory offset))
