-- ===== src/Dpu/Control/Answers.antt =====
-- What `control` answers, on every branch.
use hostpimsim_gecon.Base.{
  ℕ, ◌+◌, ◌≤◌, ◌<◌, ◌≡◌, ◌↔◌, arith, Bool, true, false, ◌&&◌, none, some, ◌!=◌, if◌then◌else◌, u64,
}
use hostpimsim_gecon.Dpu.Config.{num_tasklets}
use hostpimsim_gecon.Dpu.Mram.{Mram, is_some}
use hostpimsim_gecon.Dpu.State.{Core, Dpu, set_last_control_result}
use hostpimsim_gecon.Dpu.Control.Defs.{
  is_run_state_read_command, run_rounds, progress_budget, read_run_state, control_thread, control,
}
use hostpimsim_gecon.Dpu.Control.Schedule.{executed, is_active, run_rounds_settles}
use hostpimsim_gecon.Ci.Thread.{ThreadCmdKind, decode_thread_command}

-- The MRAM has been allocated or bound.
abbrev pub is_bound : Mram → Bool
is_bound m = is_some m.addr && (m.size != 0)

module _ (execute_once : ℕ → Core → Bool × Core) where
  -- Every command is answered once: the generation that the chip waits for goes up by one, modulo
  -- 2^64, and the answer is 0 or 1.
  pub control-generation :
      (ci_cmd : ℕ) (d : Dpu)
      → let d' = control execute_once ci_cmd d in
        (d'.last_control_generation ≡ u64 (d.last_control_generation + 1))
        × (d'.last_control_result ≤ 1)
  unfolding control read_run_state control_thread set_last_control_result
  control-generation ci_cmd d = (ground arith, ground arith)

  -- A word that is no command of the DPU is answered by 0 and changes nothing else.
  pub control-unknown :
      (ci_cmd : ℕ) (d : Dpu)
      → is_run_state_read_command ci_cmd ≡ false
      → decode_thread_command ci_cmd ≡ none
      → control execute_once ci_cmd d ≡ set_last_control_result d 0
  unfolding control
  control-unknown ci_cmd d h e = rw (h, e, control)

  -- A thread command does what its kind says.
  pub control-thread :
      (ci_cmd : ℕ) (k : ThreadCmdKind) (t : ℕ) (d : Dpu)
      → is_run_state_read_command ci_cmd ≡ false
      → decode_thread_command ci_cmd ≡ some (k, t)
      → control execute_once ci_cmd d ≡ control_thread k t d
  unfolding control
  control-thread ci_cmd k t d h e = ground arith

  -- A poll of a DPU without memory stops every tasklet and answers 0.
  pub control-poll_unbound :
      (ci_cmd : ℕ) (d : Dpu)
      → is_run_state_read_command ci_cmd ≡ true
      → is_bound d.core.mram ≡ false
      → let d' = control execute_once ci_cmd d in
        (d'.last_control_result ≡ 0)
        × (d'.core.pipeline.run_bits ≡ 0)
        × (d'.core.pipeline.sleep_bits ≡ 0)
        × (d'.core.pipeline.replay_bits ≡ 0)
  unfolding control read_run_state set_last_control_result
  control-poll_unbound ci_cmd d h e = ground arith

  -- A poll of a DPU with memory runs the scheduler for the budget, and answers whether a run bit is
  -- left.
  pub control-poll :
      (ci_cmd : ℕ) (d : Dpu)
      → is_run_state_read_command ci_cmd ≡ true
      → is_bound d.core.mram ≡ true
      → let d' = control execute_once ci_cmd d in
        (d'.core ≡ run_rounds execute_once progress_budget d.core)
        × (d'.last_control_result ≡ (if d'.core.pipeline.run_bits != 0 then 1 else 0))
  unfolding control read_run_state set_last_control_result
  control-poll ci_cmd d h e = ground arith

  -- A DPU with memory is polled at a core that has a property which executing an active tasklet keeps, and
  -- under which it lowers a measure that starts below the budget: as at a program all of whose runs from
  -- there end. The poll then leaves no tasklet that could still run, and answers 0 exactly when no run bit
  -- is left: a 1 means that a tasklet sleeps or that a bit past the tasklets was raised.
  pub control-settles :
      (P : Core → Type 0) (measure : Core → ℕ)
      → ((t : ℕ) (c : Core)
          → t < num_tasklets
          → is_active c.pipeline t ≡ true
          → P c
          → P (executed execute_once t c))
      → ((t : ℕ) (c : Core)
          → t < num_tasklets
          → is_active c.pipeline t ≡ true
          → P c
          → measure (executed execute_once t c) < measure c)
      → (ci_cmd : ℕ) (d : Dpu) → is_run_state_read_command ci_cmd ≡ true
      → is_bound d.core.mram ≡ true
      → P d.core
      → measure d.core < progress_budget
      → let d' = control execute_once ci_cmd d in
        ((t : ℕ) → t < num_tasklets → is_active d'.core.pipeline t ≡ false)
        × ((d'.last_control_result ≡ 0) ↔ (d'.core.pipeline.run_bits ≡ 0))
  control-settles P measure keeps falls ci_cmd d h e p small =
      let poll = control-poll ci_cmd d h e in
      (
        rw (poll.0) (λ t lt.
            run_rounds_settles execute_once P keeps measure falls progress_budget d.core p small t
              (omega arith) lt),
        ground (arith, poll.1),
      )
