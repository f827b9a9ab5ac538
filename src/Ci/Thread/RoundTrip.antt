-- ===== src/Ci/Thread/RoundTrip.antt =====
-- The decoder of thread commands against their frames.
use hostpimsim_gecon.Base.{
  ℕ, zero, suc, ◌+◌, ◌≤◌, ◌<◌, ◌≡◌, ◌↔◌, ◌∙◌, refl, sym, ap, arith, ◌⊎◌, Bool, true, false, ◌&&◌,
  Option, none, some, ◌==◌, Option-cases, inl, inr, u8,
}
use mathlib.Core.Path.{subst₂}
use hostpimsim_gecon.Dpu.Config.{num_tasklets}
use hostpimsim_gecon.Ci.Frame.Search.{passes, passes_at}
use hostpimsim_gecon.Ci.Thread.Defs.{
  ThreadCmdKind, boot, resume, clear_run, read_run, thread_cmd_cache, find_tasklet, or_else,
  decode_thread_command,
}

find_tasklet_sound :
    (left t : ℕ) (k : ThreadCmdKind) (cmd tid : ℕ)
    → t + left ≤ 256
    → find_tasklet left t k cmd ≡ some tid
    → (thread_cmd_cache k tid ≡ cmd) × (t ≤ tid) × (tid < t + left)
unfolding find_tasklet
find_tasklet_sound zero t k cmd tid fits h = absurd (ground arith)
find_tasklet_sound (suc left) t k cmd tid fits h =
    let e : u8 t ≡ t = omega arith in
    ground (arith, e, find_tasklet_sound left (t + 1) k cmd tid (omega arith))

kind_no : ThreadCmdKind → ℕ
kind_no boot = 0
kind_no resume = 1
kind_no clear_run = 2
kind_no read_run = 3

-- Whether the decoder's answer is the kind and the tasklet.
answers : ThreadCmdKind → ℕ → Option (ThreadCmdKind × ℕ) → Bool
answers k t none = false
answers k t (some (k', t')) = (kind_no k' == kind_no k) && (t' == t)

answers-eq :
    (k : ThreadCmdKind) (t : ℕ) (o : Option (ThreadCmdKind × ℕ))
    → answers k t o ≡ true
    → o ≡ some (k, t)
unfolding answers kind_no
answers-eq k t none h = cc
answers-eq k t (some (k', t')) h = ground arith

-- Each frame is decoded to its own kind and tasklet: checked for all 96 of them.
every_frame :
    (k : ThreadCmdKind)
    → passes (λ t. answers k t (decode_thread_command (thread_cmd_cache k t))) num_tasklets ≡ true
unfolding answers kind_no passes decode_thread_command find_tasklet thread_cmd_cache
every_frame boot = refl
every_frame resume = refl
every_frame clear_run = refl
every_frame read_run = refl

or_else_sound :
    (k : ThreadCmdKind) (cmd : ℕ) (rest : Option (ThreadCmdKind × ℕ)) (k' : ThreadCmdKind) (t : ℕ)
    → or_else k cmd rest ≡ some (k', t)
    → ((thread_cmd_cache k' t ≡ cmd) × (t < num_tasklets)) ⊎ (rest ≡ some (k', t))
or_else_sound k cmd rest k' t h = elim (Option-cases (find_tasklet num_tasklets 0 k cmd)) [
  | inl e ↦ inr (ground arith)
  | inr (tid, e) ↦
      let found = find_tasklet_sound num_tasklets 0 k cmd tid (omega arith) e in
      let ek : k ≡ k' = ground arith in
      let et : tid ≡ t = ground arith in
      inl (
        subst₂ (λ a b. (thread_cmd_cache a b ≡ cmd) × (b < num_tasklets)) ek et
          (found.0, omega arith))
]

decode_sound :
    (cmd : ℕ) (k : ThreadCmdKind) (t : ℕ)
    → decode_thread_command cmd ≡ some (k, t)
    → (thread_cmd_cache k t ≡ cmd) × (t < num_tasklets)
unfolding decode_thread_command
decode_sound cmd k t h = elim (or_else_sound boot cmd _ k t h) [
  | inl p ↦ p
  | inr h1 ↦ elim (or_else_sound resume cmd _ k t h1) [
    | inl p ↦ p
    | inr h2 ↦ elim (or_else_sound clear_run cmd _ k t h2) [
      | inl p ↦ p
      | inr h3 ↦ elim (or_else_sound read_run cmd none k t h3) [ inl p ↦ p | inr h4 ↦ absurd (cc) ]
    ]
  ]
]

-- A word is decoded to a kind and a tasklet exactly when it is the frame of that kind for that
-- tasklet, and the tasklet is one of the 24: the frames are told apart, and no other word passes.
pub decode_thread_command_iff :
    (cmd : ℕ) (k : ThreadCmdKind) (t : ℕ)
    → (decode_thread_command cmd ≡ some (k, t))
      ↔ ((thread_cmd_cache k t ≡ cmd) × (t < num_tasklets))
decode_thread_command_iff cmd k t = (
  decode_sound cmd k t,
  λ h.
      ap decode_thread_command (sym h.0)
      ∙ answers-eq k t _ (passes_at _ num_tasklets t h.1 (every_frame k)),
)
