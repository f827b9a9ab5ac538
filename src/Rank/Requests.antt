-- ===== src/Rank/Requests.antt =====
-- The requests per bank group against the buffers of the transfer.
use hostpimsim_gecon.Base.{
  ℕ, zero, suc, ◌+◌, ◌*◌, ◌/◌, ◌%◌, ◌^◌, ◌≤◌, ◌<◌, ◌≡◌, ◌∙◌, sym, ap, arith, Bool, true, false,
  Option, some, ◌==◌, ◌!=◌, ◌||◌, leb, ltb, bit_at-zero, ℕ_discrete, Bool-cases, Option-cases, inl,
  inr, Bytes, update, bit_and, bit_at, bit_and-two_pow_ne, bit_at-bit_or, bit_at-two_pow,
}
use hostpimsim_gecon.Dpu.Mram.{is_some}
use hostpimsim_gecon.Rank.Defs.{
  Request, no_request, add_bank, decode_dpu_global_idx, make_from, make_sparse_bank_transfers,
  build_from, build_active_bank_indices,
}

-- A bank of the chip that a mask has.
abbrev pub IsActive : ℕ → ℕ → Type 0
IsActive mask b = (b < 8) × (bit_at mask b ≡ true)

one_more :
    (mask b count : ℕ) (indices : ℕ → ℕ)
    → b < 8
    → bit_at mask b ≡ true
    → ((k : ℕ) → k < count → IsActive mask (indices k))
    → (k : ℕ) → k < count + 1
    → IsActive mask (update indices count b k)
unfolding update
one_more mask b count indices small set h k lt = elim (ℕ_discrete k count) [
  | yes e ↦ ground (arith, set)
  | no ne ↦ ground (arith, h k (omega arith))
]

build_from-IsActive :
    (left b mask count : ℕ) (indices : ℕ → ℕ)
    → b + left ≤ 8
    → ((k : ℕ) → k < count → IsActive mask (indices k))
    → let (count', indices') = build_from left b mask count indices in
      (k : ℕ) → k < count' → IsActive mask (indices' k)
unfolding build_from
build_from-IsActive zero b mask count indices fits h = h
build_from-IsActive (suc left) b mask count indices fits h = elim (Bool-cases (bit_at mask b)) [
  | inl set ↦
      let e : (bit_and mask (2 ^ b) == 0) ≡ false =
        ground (arith, bit_and-two_pow_ne mask b, set) in
      rw (build_from, e)
        (build_from-IsActive left (b + 1) mask (count + 1) (update indices count b) (omega arith)
          (one_more mask b count indices (omega arith) set h))
  | inr clear ↦
      let e : (bit_and mask (2 ^ b) == 0) ≡ true =
        ground (arith, bit_and-two_pow_ne mask b, clear) in
      rw (build_from, e) (build_from-IsActive left (b + 1) mask count indices (omega arith) h)
]

-- The indices that are built from a mask are banks of the mask.
pub build_active_bank_indices-IsActive :
    (mask : ℕ)
    → let (count, indices) = build_active_bank_indices mask in
      (k : ℕ) → k < count → IsActive mask (indices k)
unfolding build_active_bank_indices
build_active_bank_indices-IsActive mask =
    build_from-IsActive 8 0 mask 0 (λ k. 0) (omega arith) (λ k lt. absurd (omega arith))

-- Each request is for its chip's DPU, and asks only for banks whose DPU has a buffer.
pub record IsSound (ptr : ℕ → Option Bytes) (requests : ℕ → Request) : Type 0 where
  pub local : (d : ℕ) → 0 < (requests d).active_bank_count → (requests d).dpu_local_idx ≡ d
  pub buffered :
      (d b : ℕ)
      → b < 8
      → bit_at (requests d).active_bank_mask b ≡ true
      → is_some (ptr (d * 8 + b)) ≡ true

abbrev added : ℕ → (ℕ → Request) → ℕ → Request
added i requests = update requests (i / 8) (add_bank (i / 8) (i % 8) (requests (i / 8)))

added-IsSound :
    (i : ℕ) (ptr : ℕ → Option Bytes) (requests : ℕ → Request)
    → is_some (ptr i) ≡ true
    → IsSound ptr requests
    → IsSound ptr (added i requests)
unfolding update add_bank
added-IsSound i ptr requests here s = record {
  local = λ d pos. ground (arith, s.local d);
  buffered = λ d b lt set.
      let old = s.buffered d b lt in
      let bits = bit_at-bit_or (requests (i / 8)).active_bank_mask (2 ^ (i % 8)) b in
      let new = bit_at-two_pow (i % 8) b in
      elim (ℕ_discrete i (d * 8 + b)) [
        | yes e ↦ ap (λ t. is_some (ptr t)) (sym e) ∙ here
        | no ne ↦ elim (ℕ_discrete (i / 8) d) [
          | yes same ↦ ground (arith, old, bits, new, ap requests same)
          | no other ↦ ground (arith, old)
        ]
      ];
}

make_from-IsSound :
    (left i : ℕ) (ptr : ℕ → Option Bytes) (requests : ℕ → Request) (multi : Bool)
    → i + left ≤ 64
    → IsSound ptr requests
    → IsSound ptr (make_from left i ptr requests multi).1
unfolding make_from decode_dpu_global_idx
make_from-IsSound zero i ptr requests multi fits s = s
make_from-IsSound (suc left) i ptr requests multi fits s =
    let rest =
      λ (q : ℕ → Request) (m : Bool). make_from-IsSound left (i + 1) ptr q m (omega arith) in
    elim (Option-cases (ptr i)) [
      | inl e ↦ rw (make_from, e) (rest requests multi s)
      | inr (buffer, e) ↦
          let here : is_some (ptr i) ≡ true = ap is_some e in
          let split : decode_dpu_global_idx i ≡ some (i % 8, i / 8) = ground arith in
          let q = requests (i / 8) in
          let next = added-IsSound i ptr requests here s in
          elim (Bool-cases
            ((bit_and q.active_bank_mask (2 ^ (i % 8)) != 0) || leb 8 q.active_bank_count)) [
              | inl taken ↦ rw (make_from, e, split, taken) s
              | inr free ↦ rw (make_from, e, split, free) (rest (added i requests) _ next)
            ]
    ]

-- However the building of the requests ends, they are sound.
pub make_sparse_bank_transfers-IsSound :
    (ptr : ℕ → Option Bytes) (size : ℕ) → IsSound ptr (make_sparse_bank_transfers ptr size).1
unfolding make_sparse_bank_transfers
make_sparse_bank_transfers-IsSound ptr size =
    let none_yet : IsSound ptr (λ d. no_request) = record {
      local = λ d pos. absurd (omega arith);
      buffered = λ d b lt set. absurd (ground (arith, set, bit_at-zero b));
    } in
    elim (Bool-cases (ltb size 64)) [
      | inl small ↦ rw small none_yet
      | inr big ↦ rw big (make_from-IsSound 64 0 ptr (λ d. no_request) false (omega arith) none_yet)
    ]
