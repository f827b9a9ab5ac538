-- ===== src/Rank/Defs.antt =====
-- `UPMEMPIMRank::host_copy_to_rank` and what it calls.
use hostpimsim_gecon.Base.{
  ℕ, zero, suc, ◌+◌, ◌-◌, ◌*◌, ◌/◌, ◌%◌, ◌^◌, Bool, true, false, ◌&&◌, ◌||◌, not, Option, none,
  some, ltb, leb, ◌==◌, ◌!=◌, if◌then◌else◌, Bytes, update, memcpy, bit_and, bit_or,
}
use hostpimsim_gecon.Dpu.Config.{mram_size_bytes, chip_num_dpus}
use hostpimsim_gecon.Dpu.Mram.{Mram, is_some, allocate, byte_in_bounds, host_copy_to_mram}

abbrev pub rank_num_banks : ℕ
rank_num_banks = 8

abbrev pub rank_num_dpus : ℕ
rank_num_dpus = 64

-- The MRAM of each DPU, by the DPU's global number.
abbrev pub Mrams : Type 0
Mrams = ℕ → Mram

-- What a call returns: 0 or true for `ok`, else -1, false or null with this value in `errno`.
pub data Status : Type 0 where
  ok einval enomem efault : Status

abbrev pub is_ok : Status → Bool
is_ok ok = true
is_ok einval = false
is_ok enomem = false
is_ok efault = false

-- `dpu_transfer_mram_abi`; a buffer is the bytes that its pointer leads to.
pub record Transfer : Type 0 where
  pub ptr : ℕ → Option Bytes
  pub offset_in_mram : ℕ
  pub size : ℕ

pub record Request : Type 0 where
  pub dpu_local_idx : ℕ
  pub active_bank_mask : ℕ
  pub active_bank_indices : ℕ → ℕ
  pub active_bank_count : ℕ

abbrev pub no_request : Request
no_request = record {
  dpu_local_idx = 0;
  active_bank_mask = 0;
  active_bank_indices = λ k. 0;
  active_bank_count = 0;
}

-- The bank and the DPU's number in its chip.
unfoldable pub decode_dpu_global_idx : ℕ → Option (ℕ × ℕ)
decode_dpu_global_idx dpu_global_idx =
    if leb rank_num_dpus dpu_global_idx
    then none
    else if ltb (dpu_global_idx / rank_num_banks) chip_num_dpus
    then some (dpu_global_idx % rank_num_banks, dpu_global_idx / rank_num_banks)
    else none

-- The loop, from `bank_idx` on, with the count and the indices so far.
unfoldable pub build_from : ℕ → ℕ → ℕ → ℕ → (ℕ → ℕ) → ℕ × (ℕ → ℕ)
build_from zero bank_idx mask count indices = (count, indices)
build_from (suc left) bank_idx mask count indices =
    if bit_and mask (2 ^ bank_idx) == 0
    then build_from left (bank_idx + 1) mask count indices
    else build_from left (bank_idx + 1) mask (count + 1) (update indices count bank_idx)

unfoldable pub build_active_bank_indices : ℕ → ℕ × (ℕ → ℕ)
unfolding build_from
build_active_bank_indices mask = build_from rank_num_banks 0 mask 0 (λ k. 0)

-- A request with one bank more.
unfoldable pub add_bank : ℕ → ℕ → Request → Request
add_bank dpu_local_idx bank_idx q = record {
  dpu_local_idx = dpu_local_idx;
  active_bank_mask = bit_or q.active_bank_mask (2 ^ bank_idx);
  active_bank_indices = update q.active_bank_indices q.active_bank_count bank_idx;
  active_bank_count = q.active_bank_count + 1;
}

-- The loop of `make_sparse_bank_transfers`, from a DPU on, with the requests so far and
-- `have_multi_bank_request`. The null pointer `tm` is ruled out before.
unfoldable pub make_from : ℕ → ℕ → (ℕ → Option Bytes) → (ℕ → Request) → Bool → Bool × (ℕ → Request)
make_from zero i ptr requests multi = (multi, requests)
make_from (suc left) i ptr requests multi = elim (ptr i) [
  | none ↦ make_from left (i + 1) ptr requests multi
  | some buffer ↦ elim (decode_dpu_global_idx i) [
    | none ↦ (false, requests)
    | some (bank_idx, local) ↦
        let q = requests local in
        let taken : Bool =
          (bit_and q.active_bank_mask (2 ^ bank_idx) != 0)
          || leb rank_num_banks q.active_bank_count in
        elim taken [
          | true ↦ (false, requests)
          | false ↦
              make_from left (i + 1) ptr (update requests local (add_bank local bank_idx q))
                (multi || leb 2 (q.active_bank_count + 1))
        ]
  ]
]

unfoldable pub make_sparse_bank_transfers : (ℕ → Option Bytes) → ℕ → Bool × (ℕ → Request)
unfolding make_from
make_sparse_bank_transfers ptr size =
    if ltb size 64
    then (false, λ d. no_request)
    else make_from rank_num_dpus 0 ptr (λ d. no_request) false

unfoldable pub transfer_in_bounds : ℕ → Transfer → Bool
transfer_in_bounds mram_size tm =
    if ltb mram_size tm.offset_in_mram
    then false
    else if ltb (mram_size - tm.offset_in_mram) tm.size
    then false
    else true

-- `memcpy(mram.get_addr() + offset, src, size)` on the MRAM of DPU `i`.
unfoldable pub store_block : Mrams → ℕ → ℕ → Bytes → ℕ → Mrams
store_block r i offset src size = elim (r i).addr [
  | none ↦ r
  | some bytes ↦ update r i (record (r i) { addr = some (memcpy size bytes offset src 0) })
]

-- The source pointers of a request's banks, by bank; `none` if one of them is null.
unfoldable pub gather :
    ℕ → ℕ → Request → (ℕ → Option Bytes) → (ℕ → Option Bytes) → Option (ℕ → Option Bytes)
gather zero k q ptr src_by_bank = some src_by_bank
gather (suc left) k q ptr src_by_bank =
    let bank_idx : ℕ = q.active_bank_indices k in
    elim (ptr (q.dpu_local_idx * rank_num_banks + bank_idx)) [
      | none ↦ none
      | some bytes ↦ gather left (k + 1) q ptr (update src_by_bank bank_idx (some bytes))
    ]

-- The copies of `host_copy_to_mram_bank_group`.
unfoldable pub copy_group :
    ℕ → ℕ → ℕ → (ℕ → ℕ) → ℕ → (ℕ → Option Bytes) → ℕ → Mrams → Status × Mrams
copy_group zero k local indices offset src_by_bank size r = (ok, r)
copy_group (suc left) k local indices offset src_by_bank size r = elim (src_by_bank (indices k)) [
  | none ↦ (efault, r)
  | some src ↦
      copy_group left (k + 1) local indices offset src_by_bank size
        (store_block r (local * rank_num_banks + indices k) offset src size)
]

-- The device of the rank, and what the steps of the population give that lie outside the MRAMs:
-- `bank_ready` and `color_ready` for `try_lazy_populate_ci_bank` and `try_lazy_populate_ci_color`,
-- `mapped` for the `mmap` of a DPU, and `thread_ready` for `lazy_populate_thread`.
pub record Population : Type 0 where
  pub device : Bool
  pub bank_ready : ℕ → Bool
  pub color_ready : Bool
  pub mapped : ℕ → Option Bytes
  pub thread_ready : Bool

module _ (p : Population) where
  unfoldable pub try_lazy_populate_dpu : Mrams → ℕ → Bool × Mrams
  try_lazy_populate_dpu r i =
      let (allocated, m) = allocate (p.mapped i) (r i) in
      if leb rank_num_dpus i
      then (false, r)
      else if not p.device
      then (false, r)
      else if not (p.bank_ready (i % rank_num_banks))
      then (false, r)
      else if not p.color_ready
      then (false, r)
      else if is_some (r i).addr && ltb 0 (r i).size
      then (true, r)
      else if not allocated
      then (false, r)
      else (p.thread_ready, update r i m)

  -- The loop of `resolve_bank_group_mrams`. The array `mrams` that it fills points into the rank.
  unfoldable pub resolve_from : ℕ → ℕ → ℕ → (ℕ → ℕ) → ℕ → ℕ → Mrams → Status × Mrams
  resolve_from zero k local indices offset size r = (ok, r)
  resolve_from (suc left) k local indices offset size r =
      let i : ℕ = local * rank_num_banks + indices k in
      let (populated, r') = try_lazy_populate_dpu r i in
      let rest = resolve_from left (k + 1) local indices offset size r' in
      if leb rank_num_banks (indices k)
      then (efault, r)
      else if not populated
      then (enomem, r')
      else if not (is_some (r' i).addr) || not (byte_in_bounds offset size)
      then (efault, r')
      else rest

  unfoldable pub resolve_bank_group_mrams : ℕ → (ℕ → ℕ) → ℕ → ℕ → ℕ → Mrams → Status × Mrams
  resolve_bank_group_mrams local indices count offset size r =
      if (count == 0) || leb chip_num_dpus local
      then (efault, r)
      else resolve_from count 0 local indices offset size r

  unfoldable pub host_copy_to_mram_bank_group :
      ℕ → ℕ → ℕ → (ℕ → Option Bytes) → ℕ → Mrams → Status × Mrams
  host_copy_to_mram_bank_group local mask offset src_by_bank size r =
      let (count, indices) = build_active_bank_indices mask in
      let (resolved, r') = resolve_bank_group_mrams local indices count offset size r in
      if mask == 0
      then (efault, r)
      else if size == 0
      then (ok, r)
      else if not (is_ok resolved)
      then (resolved, r')
      else copy_group count 0 local indices offset src_by_bank size r'

  unfoldable pub host_copy_to_mram_sparse : Request → Transfer → Mrams → Status × Mrams
  host_copy_to_mram_sparse q tm r = elim (gather q.active_bank_count 0 q tm.ptr (λ b. none)) [
    | none ↦ (efault, r)
    | some src_by_bank ↦
        host_copy_to_mram_bank_group q.dpu_local_idx q.active_bank_mask tm.offset_in_mram
          src_by_bank tm.size r
  ]

  -- `copied_by_sparse_request`, with the DPUs of a request marked from its `k`-th bank on.
  unfoldable pub mark : ℕ → ℕ → Request → (ℕ → Bool) → ℕ → Bool
  mark zero k q copied = copied
  mark (suc left) k q copied =
      mark left (k + 1) q
        (update copied (q.dpu_local_idx * rank_num_banks + q.active_bank_indices k) true)

  -- The loop over the requests, from the `d`-th on: how it ends, the MRAMs, and the DPUs done.
  unfoldable pub send_requests :
      ℕ → ℕ → (ℕ → Request) → Transfer → (ℕ → Bool) → Mrams → Status × Mrams × (ℕ → Bool)
  send_requests zero d requests tm copied r = (ok, r, copied)
  send_requests (suc left) d requests tm copied r =
      let q = requests d in
      let copied' = mark q.active_bank_count 0 q copied in
      let (sent, r') = host_copy_to_mram_sparse q tm r in
      elim (ltb q.active_bank_count 2) [
        | true ↦ send_requests left (d + 1) requests tm copied r
        | false ↦ elim (is_ok sent) [
          | true ↦ send_requests left (d + 1) requests tm copied' r'
          | false ↦ (sent, r', copied')
        ]
      ]

  -- The loop over the DPUs that no request has served.
  unfoldable pub send_rest : ℕ → ℕ → Transfer → (ℕ → Bool) → Mrams → Status × Mrams
  send_rest zero i tm copied r = (ok, r)
  send_rest (suc left) i tm copied r =
      let (populated, r') = try_lazy_populate_dpu r i in
      let (sent, m) = host_copy_to_mram (r' i) tm.offset_in_mram (tm.ptr i) 0 tm.size in
      elim (not (is_some (tm.ptr i)) || copied i) [
        | true ↦ send_rest left (i + 1) tm copied r
        | false ↦ elim populated [
          | false ↦ (enomem, r')
          | true ↦ elim sent [
            | false ↦ (efault, r')
            | true ↦ send_rest left (i + 1) tm copied (update r' i m)
          ]
        ]
      ]

  unfoldable pub host_copy_to_rank : Transfer → Mrams → Status × Mrams
  host_copy_to_rank tm r =
      let (made, requests) = make_sparse_bank_transfers tm.ptr tm.size in
      let (sent, r', copied) =
        if made
        then send_requests chip_num_dpus 0 requests tm (λ i. false) r
        else (ok, r, λ i. false) in
      if not (transfer_in_bounds mram_size_bytes tm)
      then (einval, r)
      else if tm.size == 0
      then (ok, r)
      else if not (is_ok sent)
      then (sent, r')
      else send_rest rank_num_dpus 0 tm copied r'
