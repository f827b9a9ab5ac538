-- ===== src/Ci/Frame/Search.antt =====
-- The decoders' loop against the frames it searches.
use hostpimsim_gecon.Base.{
  ℕ_discrete, ℕ, zero, suc, ◌+◌, ◌≤◌, ◌<◌, ◌≡◌, ap, arith, Bool, true, ◌&&◌, some,
}
use hostpimsim_gecon.Ci.Frame.Defs.{first_candidate}

-- A test that passes for every number below a bound, as a test of its own.
unfoldable pub passes : (ℕ → Bool) → ℕ → Bool
passes test zero = true
passes test (suc bound) = passes test bound && test bound

pub passes_at :
    (test : ℕ → Bool) (bound i : ℕ) → i < bound → passes test bound ≡ true → test i ≡ true
unfolding passes
passes_at test zero i below h = absurd (omega arith)
passes_at test (suc bound) i below h = elim (ℕ_discrete i bound) [
  | yes e ↦ ground (arith, ap test e)
  | no ne ↦ ground (arith, passes_at test bound i)
]

-- A candidate that is found is a frame's own.
pub first_candidate_sound :
    (left candidate : ℕ) (frame_for : ℕ → ℕ) (word a : ℕ)
    → first_candidate left candidate frame_for word ≡ some a
    → (frame_for a ≡ word) × (candidate ≤ a) × (a < candidate + left)
unfolding first_candidate
first_candidate_sound zero candidate f word a h = absurd (ground arith)
first_candidate_sound (suc left) candidate f word a h =
    ground (arith, first_candidate_sound left (candidate + 1) f word a)

-- The word of a candidate in the range is found, if no smaller one of the range has that word.
pub first_candidate-first :
    (left candidate : ℕ) (frame_for : ℕ → ℕ) (a : ℕ)
    → ((c : ℕ) → c < a → frame_for c ≡ frame_for a → ⊥)
    → candidate ≤ a
    → a < candidate + left
    → first_candidate left candidate frame_for (frame_for a) ≡ some a
unfolding first_candidate
first_candidate-first zero candidate f a least lo hi = absurd (omega arith)
first_candidate-first (suc left) candidate f a least lo hi = elim (ℕ_discrete candidate a) [
  | yes e ↦ ground (arith, ap f e)
  | no ne ↦ ground (
    arith,
    least candidate (omega arith),
    first_candidate-first left (candidate + 1) f a least (omega arith) (omega arith),
  )
]
