-- ===== src/Device/Registers/Baseline.antt =====
-- The value that is loaded for a register, as a word of the memory.
use hostpimsim_gecon.Base.{
  ℕ, zero, suc, ◌+◌, ◌*◌, ◌^◌, ◌≤◌, ◌<◌, ◌≡◌, ◌∙◌, ap, arith, true, some, Bytes, IsBytes, load_le,
  bit_or_fields_left,
}
use native.Mathlib.Nat.{pow-suc, mul-le-mul_right}
use hostpimsim_gecon.Device.Registers.Defs.{
  load_bytes, pim_load_register_u64, pim_is_supported_register_size,
}

pow-eight : (k : ℕ) → 2 ^ (suc (suc (suc (suc (suc (suc (suc (suc k)))))))) ≡ 256 * 2 ^ k
pow-eight k = omega (
  arith,
  pow-suc 2 k,
  pow-suc 2 (suc k),
  pow-suc 2 (suc (suc k)),
  pow-suc 2 (suc (suc (suc k))),
  pow-suc 2 (suc (suc (suc (suc k)))),
  pow-suc 2 (suc (suc (suc (suc (suc k))))),
  pow-suc 2 (suc (suc (suc (suc (suc (suc k)))))),
  pow-suc 2 (suc (suc (suc (suc (suc (suc (suc k))))))),
)

load_bytes-le :
    (left i : ℕ) (m : Bytes) (o loaded : ℕ)
    → IsBytes m
    → loaded < 2 ^ (i * 8)
    → load_bytes left i m o loaded ≡ loaded + 2 ^ (i * 8) * load_le left m (o + i)
unfolding load_bytes load_le
load_bytes-le zero i m o loaded h lt = omega arith
load_bytes-le (suc left) i m o loaded h lt =
    let step : 2 ^ ((i + 1) * 8) ≡ 256 * 2 ^ (i * 8) =
      ap (λ (t : ℕ). 2 ^ t) (omega arith) ∙ pow-eight (i * 8) in
    let joined = bit_or_fields_left (i * 8) (m (o + i)) loaded lt in
    let next : load_le left m (o + (i + 1)) ≡ load_le left m (o + i + 1) =
      ap (load_le left m) (omega arith) in
    let byte : m (o + i) ≤ 255 = omega (arith, h (o + i)) in
    let small : m (o + i) * 2 ^ (i * 8) + loaded < 2 ^ ((i + 1) * 8) =
      omega (arith, step, lt, mul-le-mul_right (2 ^ (i * 8)) byte) in
    ap (load_bytes left (i + 1) m o) joined
    ∙ load_bytes-le left (i + 1) m o (m (o + i) * 2 ^ (i * 8) + loaded) h small
    ∙ ap (λ (t : ℕ). m (o + i) * 2 ^ (i * 8) + loaded + 2 ^ ((i + 1) * 8) * t) next
    ∙ ap (λ (t : ℕ). m (o + i) * 2 ^ (i * 8) + loaded + t * load_le left m (o + i + 1)) step
    ∙ omega arith

-- Put together as the code does it, a register is the little-endian word at its place.
pub pim_load_register_u64-le :
    (m : Bytes) (o n : ℕ)
    → IsBytes m
    → pim_is_supported_register_size n ≡ true
    → pim_load_register_u64 m o n ≡ some (load_le n m o)
unfolding pim_load_register_u64
pim_load_register_u64-le m o n h s =
    let e = load_bytes-le n 0 m o 0 h (omega arith) in
    let at : load_le n m (o + 0) ≡ load_le n m o = ap (load_le n m) (omega arith) in
    rw (s, e, at) (ap some (omega arith))
