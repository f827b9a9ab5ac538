-- ===== src/Rank/Kept.antt =====
-- A transfer from a rank changes no MRAM that is in use.
use hostpimsim_gecon.Base.{
  ℕ, zero, suc, ◌+◌, ◌*◌, ◌≡◌, ◌∙◌, refl, ap, arith, Bool, true, false, ◌&&◌, ◌||◌, not, Option,
  none, ltb, Bool-cases, Option-cases, inl, inr, Bytes, update, ℕ_discrete,
}
use hostpimsim_gecon.Dpu.Mram.{Mram, is_some, host_copy_from_mram}
use hostpimsim_gecon.Rank.Defs.{
  Mrams, is_ok, Transfer, Request, Population, gather, try_lazy_populate_dpu, resolve_from,
  resolve_bank_group_mrams, build_active_bank_indices, make_sparse_bank_transfers,
}
use hostpimsim_gecon.Rank.Back.{
  Buffers, host_copy_from_mram_bank_group, host_copy_from_mram_sparse, fetch_requests, fetch_rest,
  host_copy_from_rank,
}

-- The DPU has a mapping that is not empty.
abbrev pub is_in_use : Mram → Bool
is_in_use m = is_some m.addr && ltb 0 m.size

module _ (p : Population) where
  populate-keeps :
      (r : Mrams) (i j : ℕ) → is_in_use (r j) ≡ true → (try_lazy_populate_dpu p r i).1 j ≡ r j
  unfolding try_lazy_populate_dpu update
  populate-keeps r i j used = elim (ℕ_discrete i j) [
    | yes e ↦ ground (arith, ap r e, ap (λ k. is_in_use (r k)) e, used)
    | no ne ↦ ground (arith, ne)
  ]

  resolve_from-keeps :
      (left k local : ℕ) (indices : ℕ → ℕ) (offset size : ℕ) (r : Mrams) (j : ℕ)
      → is_in_use (r j) ≡ true
      → (resolve_from p left k local indices offset size r).1 j ≡ r j
  unfolding resolve_from
  resolve_from-keeps zero k local indices offset size r j used = refl
  resolve_from-keeps (suc left) k local indices offset size r j used =
      let one = populate-keeps r (local * 8 + indices k) j used in
      let r' = (try_lazy_populate_dpu p r (local * 8 + indices k)).1 in
      let rest =
        resolve_from-keeps left (k + 1) local indices offset size r' j (ap is_in_use one ∙ used) in
      ground (arith, one, rest)

  bank_group-keeps :
      (local mask offset : ℕ) (dst : ℕ → Option Bytes) (size : ℕ) (r : Mrams) (ptr : Buffers)
      (j : ℕ)
      → is_in_use (r j) ≡ true
      → (host_copy_from_mram_bank_group p local mask offset dst size r ptr).1 j ≡ r j
  unfolding host_copy_from_mram_bank_group resolve_bank_group_mrams
  bank_group-keeps local mask offset dst size r ptr j used =
      let (count, indices) = build_active_bank_indices mask in
      ground (arith, resolve_from-keeps count 0 local indices offset size r j used)

  sparse-keeps :
      (q : Request) (tm : Transfer) (r : Mrams) (ptr : Buffers) (j : ℕ)
      → is_in_use (r j) ≡ true
      → (host_copy_from_mram_sparse p q tm r ptr).1 j ≡ r j
  unfolding host_copy_from_mram_sparse
  sparse-keeps q tm r ptr j used =
      elim (Option-cases (gather q.active_bank_count 0 q ptr (λ b. none))) [
        | inl e ↦ rw (host_copy_from_mram_sparse, e) refl
        | inr (dst, e) ↦
            rw (host_copy_from_mram_sparse, e)
              (bank_group-keeps q.dpu_local_idx q.active_bank_mask tm.offset_in_mram dst tm.size r
                ptr j used)
      ]

  fetch_requests-keeps :
      (left d : ℕ) (requests : ℕ → Request) (tm : Transfer) (copied : ℕ → Bool) (r : Mrams)
      (ptr : Buffers) (j : ℕ)
      → is_in_use (r j) ≡ true
      → (fetch_requests p left d requests tm copied r ptr).1 j ≡ r j
  unfolding fetch_requests
  fetch_requests-keeps zero d requests tm copied r ptr j used = refl
  fetch_requests-keeps (suc left) d requests tm copied r ptr j used =
      let one = sparse-keeps (requests d) tm r ptr j used in
      let next = λ (c : ℕ → Bool) (b : Buffers).
        fetch_requests-keeps left (d + 1) requests tm c
          (host_copy_from_mram_sparse p (requests d) tm r ptr).1 b j (ap is_in_use one ∙ used) in
      elim (Bool-cases (ltb (requests d).active_bank_count 2)) [
        | inl few ↦
            rw (fetch_requests, few)
              (fetch_requests-keeps left (d + 1) requests tm copied r ptr j used)
        | inr many ↦
            elim (Bool-cases (is_ok (host_copy_from_mram_sparse p (requests d) tm r ptr).0)) [
              | inl done ↦ rw (fetch_requests, many, done) (next _ _ ∙ one)
              | inr failed ↦ rw (fetch_requests, many, failed) one
            ]
      ]

  fetch_rest-keeps :
      (left i : ℕ) (tm : Transfer) (copied : ℕ → Bool) (r : Mrams) (ptr : Buffers) (j : ℕ)
      → is_in_use (r j) ≡ true
      → (fetch_rest p left i tm copied r ptr).1 j ≡ r j
  unfolding fetch_rest
  fetch_rest-keeps zero i tm copied r ptr j used = refl
  fetch_rest-keeps (suc left) i tm copied r ptr j used =
      let r1 : Mrams = (try_lazy_populate_dpu p r i).1 in
      let got = host_copy_from_mram (r1 i) (ptr i) 0 tm.offset_in_mram tm.size in
      let one : r1 j ≡ r j = populate-keeps r i j used in
      let next =
        λ (b : Buffers). fetch_rest-keeps left (i + 1) tm copied r1 b j (ap is_in_use one ∙ used) in
      elim (Bool-cases (not (is_some (ptr i)) || copied i)) [
        | inl skip ↦ rw (fetch_rest, skip) (fetch_rest-keeps left (i + 1) tm copied r ptr j used)
        | inr go ↦ elim (Bool-cases (try_lazy_populate_dpu p r i).0) [
          | inr failed ↦ rw (fetch_rest, go, failed) one
          | inl populated ↦ elim (Bool-cases got.0) [
            | inr failed ↦ rw (fetch_rest, go, populated, failed) one
            | inl done ↦ rw (fetch_rest, go, populated, done) (next _ ∙ one)
          ]
        ]
      ]

  -- Whatever a transfer from the rank asks for and however it ends, the MRAM of a DPU that is in use, mapped
  -- and not empty, is what it was: a read of the rank changes at most the DPUs it is the first to use.
  pub host_copy_from_rank-keeps :
      (tm : Transfer) (r : Mrams) (j : ℕ)
      → is_in_use (r j) ≡ true
      → (host_copy_from_rank p tm r).1 j ≡ r j
  unfolding host_copy_from_rank
  host_copy_from_rank-keeps tm r j used =
      let (made, requests) = make_sparse_bank_transfers tm.ptr tm.size in
      let batched = fetch_requests-keeps 8 0 requests tm (λ i. false) r tm.ptr j used in
      let (status, r', ptr', copied) = fetch_requests p 8 0 requests tm (λ i. false) r tm.ptr in
      let rest = λ (c : ℕ → Bool) (b : Buffers).
        fetch_rest-keeps 64 0 tm c r' b j (ap is_in_use batched ∙ used) in
      let plain = fetch_rest-keeps 64 0 tm (λ i. false) r tm.ptr j used in
      ground (arith, batched, rest copied ptr', plain)
