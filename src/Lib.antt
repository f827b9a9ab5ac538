-- ===== src/Lib.antt =====
-- hostpimsim: a simulator of UPMEM processing-in-memory ranks, built on a library for simulators of
-- memory with processors inside.
--
-- The program has two layers. The core library (src, include) gives a simulator its regions of
-- shared memory, the handlers called when they are written, a monitor and a thread pool, and
-- emulates device files. The simulator (contrib/hostpimsim-upmem) models a rank: eight chips of
-- eight DPUs. A DPU has an instruction memory (IRAM), a working memory (WRAM), a main memory (MRAM),
-- a DMA engine between them, and a pipeline of 24 tasklets. The host sends a chip 64-bit words
-- through its control interface (CI); `UPMEMPIMChip::propagate_ci` decodes a word against the state of
-- the interface, acts on the selected DPUs, and publishes an answer. This development models the
-- simulator up to the chip and the transfers between the host and the memories of a rank,
-- with its pipeline, and the regions, handlers and thread pool of the core library.
--
-- Base: names of the libraries, Boolean tests, bit operations, byte memories, words from bytes.
-- Dpu: contrib/hostpimsim-upmem/dpu. Config has the constants of internal.hh; Swap and Wram are
--   wram.cc, Iram is iram.cc, Mram is mram.cc, Dma is dma.cc, State is the classes `Pipeline` and
--   `UPMEMDPU` of dpu.hh, and Control is `UPMEMDPU::control` of dpu.cc.
-- Ci: contrib/hostpimsim-upmem/ci and internal.cc. Frame has the encoders and decoders of class `CI`,
--   Thread those of the thread commands, and State is the class `CIState`.
-- Chip: `UPMEMPIMChip::propagate_ci` of contrib/hostpimsim-upmem/upmem.cc, with the functions above it
--   in that file that it calls.
-- Rank: of the same file `UPMEMPIMRank::host_copy_to_rank`, in Defs, and `host_copy_from_rank`, in Back,
--   with what they call. The state is the MRAMs of the 64 DPUs by global number, as `dpu_by_global`
--   finds them, and the buffers.
-- Device: src/hostpimsim.cc and src/internal.hh. Regions is the region table of a device, with
--   `pim_region_create`, `pim_region_free` and the lookups; Registers is the tables of handlers of a
--   region and the typed accesses, `pim_register_dpu_handler` to `pim_memcpy_from`; Guard is
--   `region_dispatch_guard`; a write that page protection catches is in Registers too, after
--   src/sigsegv.cc; Status has the error codes and the types of regions.
-- Pool: src/pool.cc, `pool_submit` of src/internal.hh and `pim_wait_pool_barrier` of src/hostpimsim.cc.
-- Pipeline: contrib/hostpimsim-upmem/dpu/pipeline.cc. Words is the arithmetic on words, Perf the
--   performance counter, Kinds the enumerations of `RawDecoded48`, Select and Maps the choice of a
--   condition, and Conditions when it holds. Decode is `decode_raw_word_48` (Raw its result, Fields the
--   assignments, Choices the tests that recur, Groups1 to Groups13 the blocks, Word the whole) and
--   `populate_hot_metadata_48` (Metadata). Execute is `Pipeline::execute_once` (Registers its register
--   functions, Inputs, Arithmetic, Shifts, Threads and Memory the handlers of decoded instructions, Hot
--   the switch over them, Opcodes, Values and Plain the map of opcodes behind it, Once the whole).
-- In each part the file Defs has the definitions, under the names of the source, and the other files
-- have the proofs; Tests has runs and instances.
--
-- The state of an object is a record, and a method is a function from the record to the record and
-- the result. An integer is a natural number; where the source's type can overflow, the remainder is
-- written out (`u8`, `u16`, `u32`, `u64`). An array and a mapping are functions of the index, with the
-- source's bound tests; a pointer that can be null is an option. A hash table or a map is an association
-- list. Where threads interleave, a thread is at a place between two of its operations on shared
-- state, and a run is a list that says whose operation is next.
--
-- Bounds. The poll of a DPU makes at most 8388608 rounds over the tasklets, as the code does; the
-- model takes that number, and `control-settles` says when it is enough. The decoders of WRAM frames
-- try 16384 candidates for a word address and 32 for a place in a block, and that of thread commands
-- 24 tasklets for each of four kinds: the source's loops, which try every candidate.
--
-- Parameters. Dpu and Chip take `execute_once` as an argument: from a tasklet's number and the memories
-- it gives whether the tasklet keeps running, and the new memories. Pipeline.Execute has the function
-- itself, and puts it under the control function of a DPU. `invoke_handler` stands for the library's
-- `pim_invoke_dpu_handler`, whose own model, in Device, says which handler is called; what a handler
-- does is the user's.
-- What `mmap` returns is an argument of `allocate`. `Population` stands for what the population of a
-- DPU on first use gives outside the MRAMs, the same in all calls of one transfer.
--
-- A decoded field of 32 bits keeps its bits, whether the source takes it as signed or not;
-- `__builtin_clz` and `__builtin_popcount` are written out, and an offset of a resumed or booted
-- tasklet wraps around as the addition of words does.
--
-- Not modelled: the cache of decoded words, which answers with the decoding of the word it is asked
-- for, and what the decoder leaves behind on a word it refuses, which is not read; the ioctls of the
-- command protocol and the population of ranks on first use in upmem.cc; the callbacks in cb.cc and
-- preload.cc; of the core library in src the creation of devices, the virtual files, the monitor,
-- and of the signal handler all but what becomes of a typed write to a control region (the
-- instruction is taken to be one that it decodes); memory orders, since all threads see one order of
-- operations; and locks, since what holds a lock throughout is one step here.
pub mod Base
pub mod Dpu
pub mod Ci
pub mod Chip
pub mod Rank
pub mod Device
pub mod Pool
pub mod Pipeline
