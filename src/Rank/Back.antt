-- ===== src/Rank/Back.antt =====
-- `UPMEMPIMRank::host_copy_from_rank` and what it calls besides what it shares with the way there. The
-- buffers of the DPUs are apart, and a pointer that is gathered for a bank points to the buffer of its DPU.
use hostpimsim_gecon.Base.{
  ℕ, zero, suc, ◌+◌, ◌*◌, Bool, true, false, ◌||◌, not, Option, none, some, ltb, ◌==◌,
  if◌then◌else◌, Bytes, update, memcpy,
}
use hostpimsim_gecon.Dpu.Config.{mram_size_bytes, chip_num_dpus}
use hostpimsim_gecon.Dpu.Mram.{is_some, host_copy_from_mram}
use hostpimsim_gecon.Rank.Defs.{
  Mrams, Status, ok, efault, enomem, einval, is_ok, Transfer, Request, Population, gather, mark,
  rank_num_banks, rank_num_dpus, try_lazy_populate_dpu, resolve_bank_group_mrams,
  build_active_bank_indices, make_sparse_bank_transfers, transfer_in_bounds,
}

abbrev pub Buffers : Type 0
Buffers = ℕ → Option Bytes

-- `memcpy(dst, mram.get_addr() + offset, size)` to the buffer of DPU `i`.
unfoldable pub load_block : Mrams → ℕ → ℕ → Bytes → ℕ → Buffers → Buffers
load_block r i offset dst size ptr = elim (r i).addr [
  | none ↦ ptr
  | some bytes ↦ update ptr i (some (memcpy size dst 0 bytes offset))
]

-- The copies of `host_copy_from_mram_bank_group`.
unfoldable pub fetch_group :
    ℕ → ℕ → ℕ → (ℕ → ℕ) → ℕ → (ℕ → Option Bytes) → ℕ → Mrams → Buffers → Status × Buffers
fetch_group zero k local indices offset dst_by_bank size r ptr = (ok, ptr)
fetch_group (suc left) k local indices offset dst_by_bank size r ptr =
    elim (dst_by_bank (indices k)) [
      | none ↦ (efault, ptr)
      | some dst ↦
          fetch_group left (k + 1) local indices offset dst_by_bank size r
            (load_block r (local * rank_num_banks + indices k) offset dst size ptr)
    ]

module _ (p : Population) where
  unfoldable pub host_copy_from_mram_bank_group :
      ℕ → ℕ → ℕ → (ℕ → Option Bytes) → ℕ → Mrams → Buffers → Status × Mrams × Buffers
  host_copy_from_mram_bank_group local mask offset dst_by_bank size r ptr =
      let (count, indices) = build_active_bank_indices mask in
      let (resolved, r') = resolve_bank_group_mrams p local indices count offset size r in
      let (fetched, ptr') = fetch_group count 0 local indices offset dst_by_bank size r' ptr in
      if mask == 0
      then (efault, r, ptr)
      else if size == 0
      then (ok, r, ptr)
      else if not (is_ok resolved)
      then (resolved, r', ptr)
      else (fetched, r', ptr')

  unfoldable pub host_copy_from_mram_sparse :
      Request → Transfer → Mrams → Buffers → Status × Mrams × Buffers
  host_copy_from_mram_sparse q tm r ptr = elim (gather q.active_bank_count 0 q ptr (λ b. none)) [
    | none ↦ (efault, r, ptr)
    | some dst_by_bank ↦
        host_copy_from_mram_bank_group q.dpu_local_idx q.active_bank_mask tm.offset_in_mram
          dst_by_bank tm.size r ptr
  ]

  -- The loop over the requests, from the `d`-th on: how it ends, the MRAMs, the buffers, and the DPUs done.
  unfoldable pub fetch_requests :
      ℕ
      → ℕ
      → (ℕ → Request)
      → Transfer
      → (ℕ → Bool)
      → Mrams
      → Buffers
      → Status × Mrams × Buffers × (ℕ → Bool)
  fetch_requests zero d requests tm copied r ptr = (ok, r, ptr, copied)
  fetch_requests (suc left) d requests tm copied r ptr =
      let q = requests d in
      let copied' = mark p q.active_bank_count 0 q copied in
      let (fetched, r', ptr') = host_copy_from_mram_sparse q tm r ptr in
      elim (ltb q.active_bank_count 2) [
        | true ↦ fetch_requests left (d + 1) requests tm copied r ptr
        | false ↦ elim (is_ok fetched) [
          | true ↦ fetch_requests left (d + 1) requests tm copied' r' ptr'
          | false ↦ (fetched, r', ptr', copied')
        ]
      ]

  -- The loop over the DPUs that no request has served.
  unfoldable pub fetch_rest :
      ℕ → ℕ → Transfer → (ℕ → Bool) → Mrams → Buffers → Status × Mrams × Buffers
  fetch_rest zero i tm copied r ptr = (ok, r, ptr)
  fetch_rest (suc left) i tm copied r ptr =
      let (populated, r') = try_lazy_populate_dpu p r i in
      let (fetched, dst) = host_copy_from_mram (r' i) (ptr i) 0 tm.offset_in_mram tm.size in
      elim (not (is_some (ptr i)) || copied i) [
        | true ↦ fetch_rest left (i + 1) tm copied r ptr
        | false ↦ elim populated [
          | false ↦ (enomem, r', ptr)
          | true ↦ elim fetched [
            | false ↦ (efault, r', ptr)
            | true ↦ fetch_rest left (i + 1) tm copied r' (update ptr i dst)
          ]
        ]
      ]

  unfoldable pub host_copy_from_rank : Transfer → Mrams → Status × Mrams × Buffers
  host_copy_from_rank tm r =
      let (made, requests) = make_sparse_bank_transfers tm.ptr tm.size in
      let (fetched, r', ptr', copied) =
        if made
        then fetch_requests chip_num_dpus 0 requests tm (λ i. false) r tm.ptr
        else (ok, r, tm.ptr, λ i. false) in
      if not (transfer_in_bounds mram_size_bytes tm)
      then (einval, r, tm.ptr)
      else if tm.size == 0
      then (ok, r, tm.ptr)
      else if not (is_ok fetched)
      then (fetched, r', ptr')
      else fetch_rest rank_num_dpus 0 tm copied r' ptr'
