-- ===== src/Dpu/Mram/Copies.antt =====
-- What the accesses by byte and the host's copies do to an allocated MRAM.
use hostpimsim_gecon.Base.{
  ℕ, ◌+◌, ◌≤◌, ◌<◌, ◌≡◌, ◌∙◌, ap, arith, true, false, ◌&&◌, Option, none, some, ltb, ◌==◌,
  if◌then◌else◌, Bytes, update, memcpy, memcpy-zero, memcpy-memcpy,
}
use hostpimsim_gecon.Dpu.Config.{mram_size_bytes}
use hostpimsim_gecon.Dpu.Mram.Defs.{
  Mram, allocate, load_u8, store_u8, host_copy_to_mram, host_copy_from_mram,
}

-- A mapping of the whole size holds `bytes`.
pub record Holds (m : Mram) (bytes : Bytes) : Type 0 where
  pub mapped : m.addr ≡ some bytes
  pub whole : m.size ≡ mram_size_bytes

-- An unbound MRAM that is allocated holds the bytes of the fresh mapping, and allocating it again
-- changes nothing.
pub allocate-Holds :
    (m : Mram) (fresh : Bytes) (again : Option Bytes)
    → m.addr ≡ none
    → let (done, m') = allocate (some fresh) m in
      (done ≡ true) × Holds m' fresh × (allocate again m' ≡ (true, m'))
unfolding allocate
allocate-Holds m fresh again e = (ground arith, ground arith, ground arith)

-- A byte access reads what the mapping holds within the 64 MiB and 0 past them.
pub load_u8-Holds :
    (m : Mram) (bytes : Bytes) (i : ℕ)
    → Holds m bytes
    → load_u8 m i ≡ (if ltb i mram_size_bytes then bytes i else 0)
unfolding load_u8
load_u8-Holds m bytes i h = ground arith

-- In an allocated MRAM a byte store changes the byte it addresses, if that lies within the 64 MiB,
-- and no other.
pub load_u8-store_u8 :
    (m : Mram) (bytes : Bytes) (i j value : ℕ)
    → Holds m bytes
    → load_u8 (store_u8 m i value) j
      ≡ (if (i == j) && ltb i mram_size_bytes then value else load_u8 m j)
unfolding load_u8 store_u8 update
load_u8-store_u8 m bytes i j value h = ground arith

-- The host writes a block that lies within the memory: the copy succeeds, the memory holds the block
-- in its place and is unchanged elsewhere.
pub host_copy_to_mram-Holds :
    (m : Mram) (bytes src : Bytes) (offset s size : ℕ)
    → Holds m bytes
    → offset + size ≤ mram_size_bytes
    → let (done, m') = host_copy_to_mram m offset (some src) s size in
      (done ≡ true) × Holds m' (memcpy size bytes offset src s)
unfolding host_copy_to_mram
host_copy_to_mram-Holds m bytes src offset s size h fits =
    ground (arith, memcpy-zero bytes offset src s)

-- A block that reaches past the memory is refused, and nothing is written.
pub host_copy_to_mram-refused :
    (m : Mram) (bytes src : Bytes) (offset s size : ℕ)
    → Holds m bytes
    → 0 < size
    → mram_size_bytes < offset + size
    → host_copy_to_mram m offset (some src) s size ≡ (false, m)
unfolding host_copy_to_mram
host_copy_to_mram-refused m bytes src offset s size h pos over = ground arith

pub host_copy_from_mram-Holds :
    (m : Mram) (bytes dst : Bytes) (d offset size : ℕ)
    → Holds m bytes
    → offset + size ≤ mram_size_bytes
    → host_copy_from_mram m (some dst) d offset size ≡ (true, some (memcpy size dst d bytes offset))
unfolding host_copy_from_mram
host_copy_from_mram-Holds m bytes dst d offset size h fits =
    ground (arith, memcpy-zero dst d bytes offset)

-- What the host writes to a place within an allocated MRAM it reads back from there.
host_copy-round_trip :
    (m : Mram) (bytes src dst : Bytes) (offset s d size : ℕ)
    → Holds m bytes
    → offset + size ≤ mram_size_bytes
    → host_copy_from_mram (host_copy_to_mram m offset (some src) s size).1 (some dst) d offset size
      ≡ (true, some (memcpy size dst d src s))
host_copy-round_trip m bytes src dst offset s d size h fits =
    host_copy_from_mram-Holds _ (memcpy size bytes offset src s) dst d offset size
      (host_copy_to_mram-Holds m bytes src offset s size h fits).1 fits
    ∙ ap (λ b. (true, some b)) (memcpy-memcpy size dst d bytes offset src s)
