-- ===== src/Ci/State/Reset.antt =====
-- The group masks, and what a reset of the protocol forgets.
use hostpimsim_gecon.Base.{ℕ, ◌≡◌, arith, ◌&&◌, ltb, ◌==◌, if◌then◌else◌, update}
use hostpimsim_gecon.Ci.State.Defs.{CiState, reset_protocol_state, get_group_mask, set_group_mask}

-- The eight group slots obey the law of an array; a slot past them reads as 0 and takes nothing.
pub get_group_mask-set_group_mask :
    (s : CiState) (i j mask : ℕ)
    → get_group_mask (set_group_mask s i mask) j
      ≡ (if (i == j) && ltb i 8 then mask else get_group_mask s j)
unfolding get_group_mask set_group_mask update
get_group_mask-set_group_mask s i j mask = ground arith

-- After a reset nothing is left of what the protocol had latched: two interfaces that were reset
-- agree as soon as they agree on the committed and the updated word, the enabled mask and the
-- dispatch generation, which a reset keeps.
pub reset_protocol_state-forgets :
    (s t : CiState)
    → s.committed ≡ t.committed
    → s.updated ≡ t.updated
    → s.enabled_mask ≡ t.enabled_mask
    → s.dispatched_generation ≡ t.dispatched_generation
    → reset_protocol_state s ≡ reset_protocol_state t
unfolding reset_protocol_state
reset_protocol_state-forgets s t c u e g = ground arith
