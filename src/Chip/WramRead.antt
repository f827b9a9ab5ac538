-- ===== src/Chip/WramRead.antt =====
-- WRAM words read through the control interface.
use hostpimsim_gecon.Base.{
  ℕ, ◌/◌, ◌%◌, ◌^◌, ◌<◌, ◌≡◌, ◌∙◌, refl, ap, arith, Bool, true, false, none, some, Option-cases,
  inl, inr, ◌==◌, ==_iff, bit_at, bit_at-zero, ℕ_discrete,
}
use hostpimsim_gecon.Dpu.Config.{num_tasklets}
use hostpimsim_gecon.Dpu.Wram.{read_word}
use hostpimsim_gecon.Dpu.State.{Core, Dpu}
use hostpimsim_gecon.Ci.State.{set_committed, set_dispatched_result}
use hostpimsim_gecon.Ci.Frame.{
  b, wram_words, wram_read_word_frame_for_addr, decode_wram_read_word_frame,
}
use hostpimsim_gecon.Ci.Frame.Search.{passes, passes_at}
use hostpimsim_gecon.Ci.Frame.Envelope.{b-eq}
use hostpimsim_gecon.Ci.Frame.RoundTrip.{decode_wram_read_word_frame_iff}
use hostpimsim_gecon.Ci.Thread.{
  ThreadCmdKind, boot, resume, clear_run, read_run, thread_cmd_cache, decode_thread_command,
}
use hostpimsim_gecon.Ci.Thread.RoundTrip.{decode_thread_command_iff}
use hostpimsim_gecon.Chip.Defs.{
  Chip, publish, first_selected_dpu, is_thread_command_word, tag_99_frame, other_frame, frame_word,
  propagate_ci,
}
use hostpimsim_gecon.Chip.Masks.{first_selected_dpu-IsFirst}
use hostpimsim_gecon.Chip.Opcodes.{committed, propagate_ci-frame}
use hostpimsim_gecon.Chip.Select.{IsIdle}

-- The tags of the frames, checked for every tasklet and every address.
thread_tags :
    (k : ThreadCmdKind)
    → passes (λ t. thread_cmd_cache k t / 2 ^ 48 % 256 == 0x98) num_tasklets ≡ true
unfolding passes thread_cmd_cache
thread_tags boot = refl
thread_tags resume = refl
thread_tags clear_run = refl
thread_tags read_run = refl

read_tags :
    passes (λ a. wram_read_word_frame_for_addr a / 2 ^ 48 % 2 ^ 16 == 0x3399) wram_words ≡ true
unfolding passes wram_read_word_frame_for_addr
read_tags = refl

no_thread_command : (w : ℕ) → w / 2 ^ 48 % 256 ≡ 0x99 → decode_thread_command w ≡ none
no_thread_command w h = elim (Option-cases (decode_thread_command w)) [
  | inl e ↦ e
  | inr ((k, t), e) ↦
      let found = (decode_thread_command_iff w k t).0 e in
      let tag = (==_iff _ _).0 (passes_at _ num_tasklets t found.1 (thread_tags k)) in
      absurd (omega (arith, tag, ap (λ x. x / 2 ^ 48 % 256) found.0))
]

selects_some : (mask : ℕ) → first_selected_dpu mask < 8 → (mask == 0) ≡ false
selects_some mask h = elim (ℕ_discrete mask 0) [
  | yes e ↦
      let set = (first_selected_dpu-IsFirst mask).2 h in
      absurd (
        ground (
          arith,
          set,
          ap (λ m. bit_at m (first_selected_dpu mask)) e,
          bit_at-zero (first_selected_dpu mask),
        ))
  | no ne ↦ ground arith
]

module _ (execute_once : ℕ → Core → Bool × Core) (invoke_handler : ℕ → ℕ → Dpu → Bool × Dpu) where
  frame-read :
      (a : ℕ) (c : Chip)
      → IsIdle c
      → a < wram_words
      → first_selected_dpu c.ci.selected_mask < 8
      → frame_word execute_once invoke_handler (wram_read_word_frame_for_addr a) c
        ≡ publish false (read_word (c.dpus (first_selected_dpu c.ci.selected_mask)).core.wram a) c
  unfolding frame_word other_frame tag_99_frame is_thread_command_word
  frame-read a c i h sel =
      let w : ℕ = wram_read_word_frame_for_addr a in
      let tags = (==_iff _ _).0 (passes_at _ wram_words a h read_tags) in
      let tag : b w 48 ≡ 0x99 = b-eq w 48 ∙ omega (arith, tags) in
      let thread = no_thread_command w (omega (arith, tags)) in
      let found : decode_wram_read_word_frame w ≡ some a =
        (decode_wram_read_word_frame_iff w a).1 (refl, h) in
      let some_selected = selects_some c.ci.selected_mask sel in
      ground (arith, i.no_iram, i.no_wram, tag, thread, found, some_selected)

  -- On a chip with a write region and no structure latched, that has a DPU selected, the read frame of
  -- a word of the memory is answered by that word of the first selected DPU, and changes neither the
  -- DPUs nor the selection.
  pub dispatched_payload-read :
      (a : ℕ) (c : Chip)
      → IsIdle c
      → a < wram_words
      → first_selected_dpu c.ci.selected_mask < 8
      → let c' = propagate_ci execute_once invoke_handler (wram_read_word_frame_for_addr a) c in
        (c'.ci.dispatched_payload
          ≡ read_word (c.dpus (first_selected_dpu c.ci.selected_mask)).core.wram a)
        × (c'.dpus ≡ c.dpus)
        × (c'.ci.selected_mask ≡ c.ci.selected_mask)
  unfolding publish set_dispatched_result set_committed
  dispatched_payload-read a c i h sel =
      let w : ℕ = wram_read_word_frame_for_addr a in
      let tags = (==_iff _ _).0 (passes_at _ wram_words a h read_tags) in
      let i' : IsIdle (committed w c) = record {
        region = i.region;
        no_iram = i.no_iram;
        no_wram = i.no_wram;
      } in
      let step =
        propagate_ci-frame execute_once invoke_handler w c i.region (omega (arith, tags))
        ∙ frame-read a (committed w c) i' h sel in
      rw step (refl, refl, refl)
