-- ===== src/Dpu/Wram/Words.antt =====
-- The WRAM as an array of 32-bit words, the view of `read_word` and `write_word`.
use hostpimsim_gecon.Base.{
  ℕ, ◌+◌, ◌*◌, ◌^◌, ◌≤◌, ◌<◌, ◌≡◌, ◌≢◌, ◌⊎◌, inl, inr, arith, true, false, ◌==◌, if◌then◌else◌,
  Bool-cases, u32, load_le-cong, store_le_below, store_le_above,
}
use hostpimsim_gecon.Dpu.Config.{wram_size_bytes}
use hostpimsim_gecon.Dpu.Wram.Defs.{
  Wram, word_in_bounds, load_u32, store_u32, read_word, write_word,
}
use hostpimsim_gecon.Dpu.Wram.Access.{in_bounds, load_u32-store_u32}

word_in_bounds-le : (i : ℕ) → word_in_bounds i ≡ true → i * 4 + 4 ≤ wram_size_bytes
unfolding word_in_bounds
word_in_bounds-le i h = ground arith

-- Two words with different offsets do not meet.
load_u32-other :
    (w : Wram) (i j value : ℕ)
    → i * 4 + 4 ≤ wram_size_bytes
    → j * 4 + 4 ≤ wram_size_bytes
    → i ≢ j
    → load_u32 (store_u32 w (u32 (i * 4)) value false) (u32 (j * 4)) false
      ≡ load_u32 w (u32 (j * 4)) false
unfolding load_u32 store_u32
load_u32-other w i j value hi hj ne =
    rw (in_bounds (u32 (i * 4)) 4 (omega arith), in_bounds (u32 (j * 4)) 4 (omega arith))
      (load_le-cong 4 _ _ (u32 (j * 4)) (u32 (j * 4)) λ n hn. elim (apart n hn) [
        | inl h ↦ store_le_below 4 w.bytes (u32 (i * 4)) value (u32 (j * 4) + n) h
        | inr h ↦ store_le_above 4 w.bytes (u32 (i * 4)) value (u32 (j * 4) + n) h
      ])
  where
    apart : (n : ℕ) → n < 4 → (u32 (j * 4) + n < u32 (i * 4)) ⊎ (u32 (i * 4) + 4 ≤ u32 (j * 4) + n)
    apart n hn = omega arith

-- The word memory obeys the law of an array: after a write of a 32-bit value the word written reads as the value (if
-- it lies in the memory, else as 0), and every other word reads as before.
pub read_word-write_word :
    (w : Wram) (i j value : ℕ)
    → value < 2 ^ 32
    → read_word (write_word w i value) j
      ≡ (if i == j then (if word_in_bounds i then value else 0) else read_word w j)
unfolding read_word write_word
read_word-write_word w i j value hv = elim (Bool-cases (word_in_bounds i)) [
  | inl hi ↦ elim (Bool-cases (word_in_bounds j)) [
    | inl hj ↦ ground (
      arith,
      load_u32-other w i j value (word_in_bounds-le i hi) (word_in_bounds-le j hj),
      load_u32-store_u32 w (u32 (i * 4)) value false (omega (arith, word_in_bounds-le i hi)) hv,
    )
    | inr hj ↦ ground arith
  ]
  | inr hi ↦ ground arith
]
