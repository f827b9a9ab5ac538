-- ===== src/Ci/Thread/Defs.antt =====
-- The frames of the four kinds of thread command, for each tasklet, and their decoder.
use hostpimsim_gecon.Base.{
  ℕ, zero, suc, ◌+◌, ◌*◌, ◌/◌, ◌^◌, true, false, Option, none, some, ◌==◌, u8, bit_and, bit_or,
}
use hostpimsim_gecon.Dpu.Config.{num_tasklets}
use hostpimsim_gecon.Ci.Frame.{encode_frame_from_x}

pub data ThreadCmdKind : Type 0 where
  boot resume clear_run read_run : ThreadCmdKind

unfoldable pub thread_frame_command : ℕ → ℕ → ℕ
unfolding encode_frame_from_x
thread_frame_command base thread_id =
    let x0 : ℕ = bit_or base (bit_and 24 31 * 2 ^ 34) in
    let x1 : ℕ = bit_or x0 (bit_and thread_id 0xf * 2 ^ 20) in
    let x2 : ℕ = bit_or x1 (bit_and (thread_id / 2 ^ 4) 0xf * 2 ^ 16) in encode_frame_from_x x2 0x98

-- The base of each kind.
unfoldable pub base_of : ThreadCmdKind → ℕ
base_of boot = 0x7d83_2000_0000
base_of resume = 0x7d03_2000_0000
base_of clear_run = 0x7c83_2000_0000
base_of read_run = 0x7c03_3000_0000

-- `thread_cmd_cache()[k][tid]`.
unfoldable pub thread_cmd_cache : ThreadCmdKind → ℕ → ℕ
unfolding base_of thread_frame_command
thread_cmd_cache k tid = thread_frame_command (base_of k) tid

-- The inner loop of the decoder, over the tasklets from `t` on.
unfoldable pub find_tasklet : ℕ → ℕ → ThreadCmdKind → ℕ → Option ℕ
find_tasklet zero t k cmd = none
find_tasklet (suc left) t k cmd = elim (thread_cmd_cache k t == cmd) [
  | true ↦ some (u8 t)
  | false ↦ find_tasklet left (t + 1) k cmd
]

-- One round of the outer loop, and what follows when it finds nothing.
abbrev pub or_else : ThreadCmdKind → ℕ → Option (ThreadCmdKind × ℕ) → Option (ThreadCmdKind × ℕ)
or_else k cmd rest = elim (find_tasklet num_tasklets 0 k cmd) [ none ↦ rest | some t ↦ some (k, t) ]

-- The outer loop, over the four kinds in their order.
unfoldable pub decode_thread_command : ℕ → Option (ThreadCmdKind × ℕ)
decode_thread_command cmd =
    or_else boot cmd (or_else resume cmd (or_else clear_run cmd (or_else read_run cmd none)))
