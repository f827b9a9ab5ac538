-- ===== src/Pipeline/Execute/Effects.antt =====
-- The cases of the opcode map leave the registers of the other tasklets.
use hostpimsim_gecon.Base.{ℕ, Bool}
use hostpimsim_gecon.Dpu.State.{Pipeline, Core}
use hostpimsim_gecon.Pipeline.Execute.Registers.{Step, Step, Step}
use hostpimsim_gecon.Pipeline.Execute.Threads.{with_pipeline}
use hostpimsim_gecon.Pipeline.Execute.Opcodes.{Word}
use hostpimsim_gecon.Pipeline.Execute.Plain.{
  put_result, put_carried, put_threads, copy_to_wram, copy_to_mram, call, store_narrow, store_half,
  store_word, store_double, load_double, move_double, swap_double, configure_time,
}
use hostpimsim_gecon.Pipeline.Execute.Apart.{Apart}
use hostpimsim_gecon.Pipeline.Execute.Writes.{stepping}
use hostpimsim_gecon.Pipeline.Execute.Handlers.{configured-Apart}

module _ {t : ℕ} {c : Core} {s : Step} (f : Word) (h : Apart t c s) where
  pub put_result-Apart : (x : ℕ) → Apart t c (put_result t f x s)
  unfolding put_result
  put_result-Apart x = search stepping depth 30 fits 3000

  pub put_carried-Apart : (b : Bool) (x : ℕ) → Apart t c (put_carried t f b x s)
  unfolding put_carried
  put_carried-Apart b x = search (stepping, put_result-Apart) depth 30 fits 3000

  pub store_narrow-Apart : (n : ℕ) → Apart t c (store_narrow t f n s)
  unfolding store_narrow
  store_narrow-Apart n = search stepping depth 30 fits 3000

  pub store_half-Apart : (n : ℕ) → Apart t c (store_half t f n s)
  unfolding store_half
  store_half-Apart n = search stepping depth 30 fits 3000

  pub store_word-Apart : (n : ℕ) → Apart t c (store_word t f n s)
  unfolding store_word
  store_word-Apart n = search stepping depth 30 fits 3000

  pub store_double-Apart : (n : ℕ) → Apart t c (store_double t f n s)
  unfolding store_double
  store_double-Apart n = search stepping depth 30 fits 3000

  pub load_double-Apart : Apart t c (load_double t f s)
  unfolding load_double
  load_double-Apart = search stepping depth 30 fits 3000

  pub move_double-Apart : Apart t c (move_double t f s)
  unfolding move_double
  move_double-Apart = search stepping depth 30 fits 3000

  pub swap_double-Apart : Apart t c (swap_double t f s)
  unfolding swap_double
  swap_double-Apart = search stepping depth 30 fits 3000

  pub call-Apart : Apart t c (call t f s)
  unfolding call
  call-Apart = search stepping depth 30 fits 3000

  pub copy_to_wram-Apart : Apart t c (copy_to_wram t f s)
  unfolding copy_to_wram
  copy_to_wram-Apart = record { others = h.others; aligned = h.aligned }

  pub copy_to_mram-Apart : Apart t c (copy_to_mram t f s)
  unfolding copy_to_mram
  copy_to_mram-Apart = record { others = h.others; aligned = h.aligned }

pub configure_time-Apart :
    {t : ℕ} {c : Core} {s : Step} (f : Word) → Apart t c s → Apart t c (configure_time t f s)
unfolding configure_time
configure_time-Apart f h = put_result-Apart f (configured-Apart h _) _

-- What becomes of the pipeline, where no register does.
pub put_threads-Apart :
    {t : ℕ} {c : Core} (s : Step) (f : Word) (r : ℕ × Pipeline)
    → Apart t c (with_pipeline r.1 s)
    → Apart t c (put_threads t f r s)
unfolding put_threads
put_threads-Apart s f r h = put_result-Apart f h r.0
