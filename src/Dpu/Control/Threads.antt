-- ===== src/Dpu/Control/Threads.antt =====
-- Thread commands as transitions of one tasklet.
use hostpimsim_gecon.Base.{
  ℕ, ◌^◌, ◌<◌, ◌≡◌, refl, arith, Bool, true, false, ◌&&◌, ltb, ◌==◌, if◌then◌else◌, bit_and, bit_or,
  bit_at, bit_at-bit_or, bit_at-bit_and, bit_at-two_pow, bit_at-complement, two_pow-lt,
  bit_and-two_pow_ne, update, lt→ltb,
}
use hostpimsim_gecon.Dpu.Config.{num_tasklets}
use hostpimsim_gecon.Dpu.State.{Pipeline, Dpu, set_last_control_result}
use hostpimsim_gecon.Dpu.Control.Defs.{not64, apply_thread_command, reset_registers, control_thread}
use hostpimsim_gecon.Ci.Thread.{ThreadCmdKind, boot, resume, clear_run, read_run}

-- What the three bit sets say of one tasklet.
pub record Phase : Type 0 where
  pub running : Bool
  pub sleeping : Bool
  pub replaying : Bool

unfoldable pub phase_of : Pipeline → ℕ → Phase
phase_of p t = record {
  running = bit_at p.run_bits t;
  sleeping = bit_at p.sleep_bits t;
  replaying = bit_at p.replay_bits t;
}

-- What each command means for the tasklet that it names.
unfoldable pub command : ThreadCmdKind → Phase → Phase
command boot s = record { running = true; sleeping = false; replaying = false }
command resume s = record s { running = true; sleeping = false }
command clear_run s = record { running = false; sleeping = false; replaying = false }
command read_run s = s

pub bit_at-cleared :
    (a t i : ℕ)
    → t < 64
    → i < 64
    → bit_at (bit_and a (not64 (2 ^ t))) i ≡ (if t == i then false else bit_at a i)
bit_at-cleared a t i ht hi = ground (
  arith,
  bit_at-bit_and a (not64 (2 ^ t)) i,
  bit_at-complement 64 (2 ^ t) i (two_pow-lt 64 t ht) hi,
  bit_at-two_pow t i,
)

bit_at-raised : (a t i : ℕ) → bit_at (bit_or a (2 ^ t)) i ≡ (if t == i then true else bit_at a i)
bit_at-raised a t i = ground (arith, bit_at-bit_or a (2 ^ t) i, bit_at-two_pow t i)

-- Among the tasklets below 64, a command changes the phase of the one it names, as its kind says, and
-- of no other.
pub apply_thread_command-phase_of :
    (k : ThreadCmdKind) (t i : ℕ) (p : Pipeline)
    → t < 64
    → i < 64
    → phase_of (apply_thread_command k t p) i
      ≡ (if t == i then command k (phase_of p i) else phase_of p i)
unfolding apply_thread_command phase_of command
apply_thread_command-phase_of boot t i p ht hi = rw (lt→ltb t 64 ht) (
    ground (
      arith,
      bit_at-raised p.run_bits t i,
      bit_at-cleared p.sleep_bits t i ht hi,
      bit_at-cleared p.replay_bits t i ht hi,
    ))
apply_thread_command-phase_of resume t i p ht hi =
    rw (lt→ltb t 64 ht)
      (ground (arith, bit_at-raised p.run_bits t i, bit_at-cleared p.sleep_bits t i ht hi))
apply_thread_command-phase_of clear_run t i p ht hi = rw (lt→ltb t 64 ht) (
    ground (
      arith,
      bit_at-cleared p.run_bits t i ht hi,
      bit_at-cleared p.sleep_bits t i ht hi,
      bit_at-cleared p.replay_bits t i ht hi,
    ))
apply_thread_command-phase_of read_run t i p ht hi = ground arith

-- The registers of a tasklet, as one value.
pub record Registers : Type 0 where
  pub gp : ℕ → ℕ
  pub pc : ℕ
  pub zf : ℕ
  pub cf : ℕ

unfoldable pub registers_of : Pipeline → ℕ → Registers
registers_of p t = record {
  gp = p.register_file.gp_regs t;
  pc = p.register_file.pc_regs t;
  zf = p.register_file.zf_regs t;
  cf = p.register_file.cf_regs t;
}

unfoldable pub no_registers : Registers
no_registers = record { gp = λ i. 0; pc = 0; zf = 0; cf = 0 }

abbrev is_boot : ThreadCmdKind → Bool
is_boot boot = true
is_boot resume = false
is_boot clear_run = false
is_boot read_run = false

-- A boot of a tasklet below 24 zeroes the registers of that tasklet, and of tasklet 0 also the atomic
-- bits; every other command, and every other tasklet, keeps its registers.
pub apply_thread_command-registers_of :
    (k : ThreadCmdKind) (t i : ℕ) (p : Pipeline)
    → t < num_tasklets
    → (registers_of (apply_thread_command k t p) i
        ≡ (if is_boot k && (t == i) then no_registers else registers_of p i))
      × ((apply_thread_command k t p).atomic_bits
          ≡ (if is_boot k && (t == 0) then (λ j. 0) else p.atomic_bits))
unfolding apply_thread_command reset_registers registers_of no_registers update
apply_thread_command-registers_of boot t i p ht =
    let inside : ltb t num_tasklets ≡ true = lt→ltb t num_tasklets ht in
    (ground arith, ground arith)
apply_thread_command-registers_of resume t i p ht = (refl, refl)
apply_thread_command-registers_of clear_run t i p ht = (refl, refl)
apply_thread_command-registers_of read_run t i p ht = (refl, refl)

-- A thread command for a tasklet below 64 answers whether the tasklet was running before it, changes
-- the pipeline as the command says, and touches no memory.
control_thread-answer :
    (k : ThreadCmdKind) (t : ℕ) (d : Dpu)
    → t < 64
    → let d' = control_thread k t d in
      (d'.last_control_result ≡ (if bit_at d.core.pipeline.run_bits t then 1 else 0))
      × (d'.core.pipeline ≡ apply_thread_command k t d.core.pipeline)
      × (d'.core.wram ≡ d.core.wram)
      × (d'.core.iram ≡ d.core.iram)
      × (d'.core.mram ≡ d.core.mram)
      × (d'.core.dma_engine ≡ d.core.dma_engine)
unfolding control_thread set_last_control_result
control_thread-answer k t d h =
    let e : ltb t 64 ≡ true = lt→ltb t 64 h in
    let r = bit_and-two_pow_ne d.core.pipeline.run_bits t in
    (ground (arith, e, r), refl, refl, refl, refl, refl)
