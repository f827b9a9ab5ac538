-- ===== src/Rank/Untouched.antt =====
-- A transfer leaves alone the DPUs that have no buffer, however it ends.
use hostpimsim_gecon.Base.{
  ℕ, zero, suc, ◌+◌, ◌*◌, ◌≤◌, ◌<◌, ◌≡◌, ◌≢◌, ◌∙◌, refl, ap, arith, Bool, false, ◌||◌, not, Option,
  none, ltb, Bool-cases, Option-cases, inl, inr, Bytes, update,
}
use hostpimsim_gecon.Dpu.Mram.{is_some, host_copy_to_mram}
use hostpimsim_gecon.Rank.Defs.{
  Mrams, is_ok, Transfer, Request, Population, store_block, copy_group, gather,
  try_lazy_populate_dpu, resolve_from, resolve_bank_group_mrams, build_active_bank_indices,
  host_copy_to_mram_bank_group, host_copy_to_mram_sparse, send_requests, send_rest,
  make_sparse_bank_transfers, host_copy_to_rank,
}
use hostpimsim_gecon.Rank.Requests.{
  IsActive, build_active_bank_indices-IsActive, IsSound, make_sparse_bank_transfers-IsSound,
}

-- None of the banks from the `k`-th index on belongs to DPU `j`.
abbrev Avoids : ℕ → ℕ → ℕ → (ℕ → ℕ) → ℕ → Type 0
Avoids left k local indices j = (n : ℕ) → k ≤ n → n < k + left → local * 8 + indices n ≢ j

later :
    (left k local : ℕ) (indices : ℕ → ℕ) (j : ℕ)
    → Avoids (suc left) k local indices j
    → Avoids left (k + 1) local indices j
later left k local indices j a n lo hi = a n (omega arith) (omega arith)

store_block-other :
    (r : Mrams) (i offset : ℕ) (src : Bytes) (size j : ℕ)
    → i ≢ j
    → store_block r i offset src size j ≡ r j
unfolding store_block update
store_block-other r i offset src size j ne = ground arith

copy_group-other :
    (left k local : ℕ) (indices : ℕ → ℕ) (offset : ℕ) (src : ℕ → Option Bytes) (size : ℕ)
    (r : Mrams) (j : ℕ)
    → Avoids left k local indices j
    → (copy_group left k local indices offset src size r).1 j ≡ r j
unfolding copy_group
copy_group-other zero k local indices offset src size r j a = refl
copy_group-other (suc left) k local indices offset src size r j a =
    elim (Option-cases (src (indices k))) [
      | inl e ↦ rw (copy_group, e) refl
      | inr (bytes, e) ↦
          rw (copy_group, e)
            (copy_group-other left (k + 1) local indices offset src size _ j
                (later left k local indices j a)
              ∙ store_block-other r (local * 8 + indices k) offset bytes size j
                  (a k (omega arith) (omega arith)))
    ]

module _ (p : Population) where
  populate-other : (r : Mrams) (i j : ℕ) → i ≢ j → (try_lazy_populate_dpu p r i).1 j ≡ r j
  unfolding try_lazy_populate_dpu update
  populate-other r i j ne = ground arith

  resolve_from-other :
      (left k local : ℕ) (indices : ℕ → ℕ) (offset size : ℕ) (r : Mrams) (j : ℕ)
      → Avoids left k local indices j
      → (resolve_from p left k local indices offset size r).1 j ≡ r j
  unfolding resolve_from
  resolve_from-other zero k local indices offset size r j a = refl
  resolve_from-other (suc left) k local indices offset size r j a =
      let one = populate-other r (local * 8 + indices k) j (a k (omega arith) (omega arith)) in
      let rest =
        resolve_from-other left (k + 1) local indices offset size
          (try_lazy_populate_dpu p r (local * 8 + indices k)).1 j
          (later left k local indices j a) in
      ground (arith, one, rest)

  bank_group-other :
      (local mask offset : ℕ) (src : ℕ → Option Bytes) (size : ℕ) (r : Mrams) (j : ℕ)
      → ((b : ℕ) → IsActive mask b → local * 8 + b ≢ j)
      → (host_copy_to_mram_bank_group p local mask offset src size r).1 j ≡ r j
  unfolding host_copy_to_mram_bank_group resolve_bank_group_mrams
  bank_group-other local mask offset src size r j h =
      let active = build_active_bank_indices-IsActive mask in
      let (count, indices) = build_active_bank_indices mask in
      let a : Avoids count 0 local indices j = λ n lo hi. h (indices n) (active n (omega arith)) in
      let one = resolve_from-other count 0 local indices offset size r j a in
      let two = λ (r' : Mrams). copy_group-other count 0 local indices offset src size r' j a in
      ground (arith, one, two r, two (resolve_from p count 0 local indices offset size r).1)

  sparse-other :
      (q : Request) (tm : Transfer) (r : Mrams) (j : ℕ)
      → ((b : ℕ) → IsActive q.active_bank_mask b → q.dpu_local_idx * 8 + b ≢ j)
      → (host_copy_to_mram_sparse p q tm r).1 j ≡ r j
  unfolding host_copy_to_mram_sparse
  sparse-other q tm r j h =
      elim (Option-cases (gather q.active_bank_count 0 q tm.ptr (λ b. none))) [
        | inl e ↦ rw (host_copy_to_mram_sparse, e) refl
        | inr (src, e) ↦
            rw (host_copy_to_mram_sparse, e)
              (bank_group-other q.dpu_local_idx q.active_bank_mask tm.offset_in_mram src tm.size r j
                h)
      ]

  send_requests-other :
      (left d : ℕ) (requests : ℕ → Request) (tm : Transfer) (copied : ℕ → Bool) (r : Mrams) (j : ℕ)
      → IsSound tm.ptr requests
      → is_some (tm.ptr j) ≡ false
      → (send_requests p left d requests tm copied r).1 j ≡ r j
  unfolding send_requests
  send_requests-other zero d requests tm copied r j s bare = refl
  send_requests-other (suc left) d requests tm copied r j s bare =
      let rest =
        λ (c : ℕ → Bool) (r' : Mrams). send_requests-other left (d + 1) requests tm c r' j s bare in
      elim (Bool-cases (ltb (requests d).active_bank_count 2)) [
        | inl few ↦ rw (send_requests, few) (rest copied r)
        | inr many ↦
            let h : (b : ℕ)
                → IsActive (requests d).active_bank_mask b
                → (requests d).dpu_local_idx * 8 + b ≢ j =
              λ b a e. absurd (
                ground (
                  arith,
                  s.buffered d b a.0 a.1,
                  s.local d (ground (arith, many)),
                  ap (λ i. is_some (tm.ptr i)) e,
                  bare,
                )) in
            let one = sparse-other (requests d) tm r j h in
            elim (Bool-cases (is_ok (host_copy_to_mram_sparse p (requests d) tm r).0)) [
              | inl sent ↦ rw (send_requests, many, sent) (rest _ _ ∙ one)
              | inr failed ↦ rw (send_requests, many, failed) one
            ]
      ]

  send_rest-other :
      (left i : ℕ) (tm : Transfer) (copied : ℕ → Bool) (r : Mrams) (j : ℕ)
      → is_some (tm.ptr j) ≡ false
      → (send_rest p left i tm copied r).1 j ≡ r j
  unfolding send_rest update
  send_rest-other zero i tm copied r j bare = refl
  send_rest-other (suc left) i tm copied r j bare =
      let rest = λ (r' : Mrams). send_rest-other left (i + 1) tm copied r' j bare in
      let r1 : Mrams = (try_lazy_populate_dpu p r i).1 in
      let sent = host_copy_to_mram (r1 i) tm.offset_in_mram (tm.ptr i) 0 tm.size in
      elim (Bool-cases (not (is_some (tm.ptr i)) || copied i)) [
        | inl skip ↦ rw (send_rest, skip) (rest r)
        | inr go ↦
            let ne : i ≢ j =
              λ e. absurd (ground (arith, go, ap (λ t. is_some (tm.ptr t)) e, bare)) in
            let one : r1 j ≡ r j = populate-other r i j ne in
            elim (Bool-cases (try_lazy_populate_dpu p r i).0) [
              | inr failed ↦ rw (send_rest, go, failed) one
              | inl populated ↦ elim (Bool-cases sent.0) [
                | inr failed ↦ rw (send_rest, go, populated, failed) one
                | inl done ↦
                    rw (send_rest, go, populated, done)
                      (rest (update r1 i sent.1) ∙ ground (arith, ne, one))
              ]
            ]
      ]

  -- Whatever the transfer asks for and however it ends, in success or in an error on the way, the MRAM
  -- of a DPU that has no buffer in it is what it was: none is populated, and no byte is written.
  pub host_copy_to_rank-untouched :
      (tm : Transfer) (r : Mrams) (j : ℕ)
      → is_some (tm.ptr j) ≡ false
      → (host_copy_to_rank p tm r).1 j ≡ r j
  unfolding host_copy_to_rank
  host_copy_to_rank-untouched tm r j bare =
      let sound = make_sparse_bank_transfers-IsSound tm.ptr tm.size in
      let (made, requests) = make_sparse_bank_transfers tm.ptr tm.size in
      let batched = send_requests-other 8 0 requests tm (λ i. false) r j sound bare in
      let rest = λ (c : ℕ → Bool) (r' : Mrams). send_rest-other 64 0 tm c r' j bare in
      let (status, r', copied) = send_requests p 8 0 requests tm (λ i. false) r in
      ground (arith, batched, rest copied r', rest (λ i. false) r)
