-- ===== src/Dpu/Iram/Slots.antt =====
-- The IRAM as an array of instruction slots.
use hostpimsim_gecon.Base.{
  ℕ, ◌+◌, ◌*◌, ◌%◌, ◌^◌, ◌≤◌, ◌<◌, ◌≡◌, ◌≢◌, ◌⊎◌, inl, inr, ap, arith, true, ◌==◌, if◌then◌else◌,
  Bool-cases, bit_and, bit_and_mask, load_le-cong, load_le-store_le, store_le_below, store_le_above,
}
use hostpimsim_gecon.Dpu.Iram.Defs.{Iram, slot_in_bounds, read_word, write_word, iram_inst48_mask}

-- The second half of the test adds nothing: a slot is in bounds exactly when it is below 3072.
pub slot_in_bounds-lt : (i : ℕ) → slot_in_bounds i ≡ true → i < 3072
unfolding slot_in_bounds
slot_in_bounds-lt i h = ground arith

pub lt-slot_in_bounds : (i : ℕ) → i < 3072 → slot_in_bounds i ≡ true
unfolding slot_in_bounds
lt-slot_in_bounds i h = ground arith

read_word_self :
    (m : Iram) (i inst48 : ℕ)
    → slot_in_bounds i ≡ true
    → read_word (write_word m i inst48) i ≡ inst48 % 2 ^ 48
unfolding read_word write_word
read_word_self m i inst48 h =
    let masked : bit_and inst48 iram_inst48_mask ≡ inst48 % 2 ^ 48 = bit_and_mask 48 inst48 in
    rw h (
      omega (
        arith,
        ap (λ v. bit_and v iram_inst48_mask)
            (load_le-store_le 8 m.inst (i * 8) (bit_and inst48 iram_inst48_mask)
              (omega (arith, masked))),
        bit_and_mask 48 (bit_and inst48 iram_inst48_mask),
        masked,
      ))

read_word_other :
    (m : Iram) (i j inst48 : ℕ) → i ≢ j → read_word (write_word m i inst48) j ≡ read_word m j
unfolding read_word write_word
read_word_other m i j inst48 ne = elim (Bool-cases (slot_in_bounds i)) [
  | inr out ↦ rw out
  | inl ok ↦ rw ok (elim (Bool-cases (slot_in_bounds j)) [
    | inr out ↦ rw out
    | inl ok' ↦ rw ok' (
        ap (λ v. bit_and v iram_inst48_mask)
          (load_le-cong 8 _ _ (j * 8) (j * 8) λ n hn. elim (apart n hn) [
            | inl h ↦ store_le_below 8 m.inst (i * 8) _ (j * 8 + n) h
            | inr h ↦ store_le_above 8 m.inst (i * 8) _ (j * 8 + n) h
          ]))
  ])
]
  where
    apart : (n : ℕ) → n < 8 → (j * 8 + n < i * 8) ⊎ (i * 8 + 8 ≤ j * 8 + n)
    apart n hn = omega arith

-- The instruction memory obeys the law of an array of 48-bit words: a slot below 3072 reads as what
-- was written to it, cut to 48 bits; a slot past them reads as 0; every other slot reads as before.
pub slot_read_word-write_word :
    (m : Iram) (i j inst48 : ℕ)
    → read_word (write_word m i inst48) j
      ≡ (if i == j then (if slot_in_bounds i then inst48 % 2 ^ 48 else 0) else read_word m j)
unfolding read_word
slot_read_word-write_word m i j inst48 = elim (Bool-cases (slot_in_bounds i)) [
  | inl h ↦ ground (arith, read_word_self m i inst48 h, read_word_other m i j inst48)
  | inr h ↦ ground (arith, read_word_other m i j inst48)
]
