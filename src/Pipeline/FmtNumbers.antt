-- ===== src/Pipeline/FmtNumbers.antt =====
-- The formats of an instruction, numbered.
use hostpimsim_gecon.Base.{ℕ, ◌≡◌, refl, true, List, [], ◌∷◌, ltb}
use hostpimsim_gecon.Pipeline.Trials.{entry}
use hostpimsim_gecon.Pipeline.Kinds.{
  HotFormat, fmt_none, fmt_ci, fmt_erii, fmt_erir, fmt_erri, fmt_ersi, fmt_esii, fmt_esir, fmt_i,
  fmt_r, fmt_rci, fmt_rici, fmt_rir, fmt_rirc, fmt_rirci, fmt_rirf, fmt_rki, fmt_rr, fmt_rrc,
  fmt_rrci, fmt_rri, fmt_rric, fmt_rrici, fmt_rrif, fmt_rrr, fmt_rrrc, fmt_rrrci, fmt_rrri,
  fmt_rrrici, fmt_ssi, fmt_sss, fmt_z, fmt_zci, fmt_zir, fmt_zirc, fmt_zirci, fmt_zirf, fmt_zr,
  fmt_zrc, fmt_zrci, fmt_zri, fmt_zric, fmt_zrici, fmt_zrif, fmt_zrr, fmt_zrrc, fmt_zrrci, fmt_zrri,
  fmt_zrrici,
}

abbrev pub fmt_number : HotFormat → ℕ
fmt_number fmt_none = 0
fmt_number fmt_ci = 1
fmt_number fmt_erii = 2
fmt_number fmt_erir = 3
fmt_number fmt_erri = 4
fmt_number fmt_ersi = 5
fmt_number fmt_esii = 6
fmt_number fmt_esir = 7
fmt_number fmt_i = 8
fmt_number fmt_r = 9
fmt_number fmt_rci = 10
fmt_number fmt_rici = 11
fmt_number fmt_rir = 12
fmt_number fmt_rirc = 13
fmt_number fmt_rirci = 14
fmt_number fmt_rirf = 15
fmt_number fmt_rki = 16
fmt_number fmt_rr = 17
fmt_number fmt_rrc = 18
fmt_number fmt_rrci = 19
fmt_number fmt_rri = 20
fmt_number fmt_rric = 21
fmt_number fmt_rrici = 22
fmt_number fmt_rrif = 23
fmt_number fmt_rrr = 24
fmt_number fmt_rrrc = 25
fmt_number fmt_rrrci = 26
fmt_number fmt_rrri = 27
fmt_number fmt_rrrici = 28
fmt_number fmt_ssi = 29
fmt_number fmt_sss = 30
fmt_number fmt_z = 31
fmt_number fmt_zci = 32
fmt_number fmt_zir = 33
fmt_number fmt_zirc = 34
fmt_number fmt_zirci = 35
fmt_number fmt_zirf = 36
fmt_number fmt_zr = 37
fmt_number fmt_zrc = 38
fmt_number fmt_zrci = 39
fmt_number fmt_zri = 40
fmt_number fmt_zric = 41
fmt_number fmt_zrici = 42
fmt_number fmt_zrif = 43
fmt_number fmt_zrr = 44
fmt_number fmt_zrrc = 45
fmt_number fmt_zrrci = 46
fmt_number fmt_zrri = 47
fmt_number fmt_zrrici = 48

abbrev pub all_fmts : List HotFormat
all_fmts =
    fmt_none ∷ fmt_ci ∷ fmt_erii ∷ fmt_erir ∷ fmt_erri ∷ fmt_ersi ∷ fmt_esii ∷ fmt_esir ∷ fmt_i
    ∷ fmt_r ∷ fmt_rci ∷ fmt_rici ∷ fmt_rir ∷ fmt_rirc ∷ fmt_rirci ∷ fmt_rirf ∷ fmt_rki ∷ fmt_rr
    ∷ fmt_rrc ∷ fmt_rrci ∷ fmt_rri ∷ fmt_rric ∷ fmt_rrici ∷ fmt_rrif ∷ fmt_rrr ∷ fmt_rrrc
    ∷ fmt_rrrci ∷ fmt_rrri ∷ fmt_rrrici ∷ fmt_ssi ∷ fmt_sss ∷ fmt_z ∷ fmt_zci ∷ fmt_zir ∷ fmt_zirc
    ∷ fmt_zirci ∷ fmt_zirf ∷ fmt_zr ∷ fmt_zrc ∷ fmt_zrci ∷ fmt_zri ∷ fmt_zric ∷ fmt_zrici ∷ fmt_zrif
    ∷ fmt_zrr ∷ fmt_zrrc ∷ fmt_zrrci ∷ fmt_zrri ∷ fmt_zrrici ∷ []

pub entry-fmt_number : (x : HotFormat) → entry fmt_none all_fmts (fmt_number x) ≡ x
entry-fmt_number fmt_none = refl
entry-fmt_number fmt_ci = refl
entry-fmt_number fmt_erii = refl
entry-fmt_number fmt_erir = refl
entry-fmt_number fmt_erri = refl
entry-fmt_number fmt_ersi = refl
entry-fmt_number fmt_esii = refl
entry-fmt_number fmt_esir = refl
entry-fmt_number fmt_i = refl
entry-fmt_number fmt_r = refl
entry-fmt_number fmt_rci = refl
entry-fmt_number fmt_rici = refl
entry-fmt_number fmt_rir = refl
entry-fmt_number fmt_rirc = refl
entry-fmt_number fmt_rirci = refl
entry-fmt_number fmt_rirf = refl
entry-fmt_number fmt_rki = refl
entry-fmt_number fmt_rr = refl
entry-fmt_number fmt_rrc = refl
entry-fmt_number fmt_rrci = refl
entry-fmt_number fmt_rri = refl
entry-fmt_number fmt_rric = refl
entry-fmt_number fmt_rrici = refl
entry-fmt_number fmt_rrif = refl
entry-fmt_number fmt_rrr = refl
entry-fmt_number fmt_rrrc = refl
entry-fmt_number fmt_rrrci = refl
entry-fmt_number fmt_rrri = refl
entry-fmt_number fmt_rrrici = refl
entry-fmt_number fmt_ssi = refl
entry-fmt_number fmt_sss = refl
entry-fmt_number fmt_z = refl
entry-fmt_number fmt_zci = refl
entry-fmt_number fmt_zir = refl
entry-fmt_number fmt_zirc = refl
entry-fmt_number fmt_zirci = refl
entry-fmt_number fmt_zirf = refl
entry-fmt_number fmt_zr = refl
entry-fmt_number fmt_zrc = refl
entry-fmt_number fmt_zrci = refl
entry-fmt_number fmt_zri = refl
entry-fmt_number fmt_zric = refl
entry-fmt_number fmt_zrici = refl
entry-fmt_number fmt_zrif = refl
entry-fmt_number fmt_zrr = refl
entry-fmt_number fmt_zrrc = refl
entry-fmt_number fmt_zrrci = refl
entry-fmt_number fmt_zrri = refl
entry-fmt_number fmt_zrrici = refl

pub fmt_number-lt : (x : HotFormat) → ltb (fmt_number x) 49 ≡ true
fmt_number-lt fmt_none = refl
fmt_number-lt fmt_ci = refl
fmt_number-lt fmt_erii = refl
fmt_number-lt fmt_erir = refl
fmt_number-lt fmt_erri = refl
fmt_number-lt fmt_ersi = refl
fmt_number-lt fmt_esii = refl
fmt_number-lt fmt_esir = refl
fmt_number-lt fmt_i = refl
fmt_number-lt fmt_r = refl
fmt_number-lt fmt_rci = refl
fmt_number-lt fmt_rici = refl
fmt_number-lt fmt_rir = refl
fmt_number-lt fmt_rirc = refl
fmt_number-lt fmt_rirci = refl
fmt_number-lt fmt_rirf = refl
fmt_number-lt fmt_rki = refl
fmt_number-lt fmt_rr = refl
fmt_number-lt fmt_rrc = refl
fmt_number-lt fmt_rrci = refl
fmt_number-lt fmt_rri = refl
fmt_number-lt fmt_rric = refl
fmt_number-lt fmt_rrici = refl
fmt_number-lt fmt_rrif = refl
fmt_number-lt fmt_rrr = refl
fmt_number-lt fmt_rrrc = refl
fmt_number-lt fmt_rrrci = refl
fmt_number-lt fmt_rrri = refl
fmt_number-lt fmt_rrrici = refl
fmt_number-lt fmt_ssi = refl
fmt_number-lt fmt_sss = refl
fmt_number-lt fmt_z = refl
fmt_number-lt fmt_zci = refl
fmt_number-lt fmt_zir = refl
fmt_number-lt fmt_zirc = refl
fmt_number-lt fmt_zirci = refl
fmt_number-lt fmt_zirf = refl
fmt_number-lt fmt_zr = refl
fmt_number-lt fmt_zrc = refl
fmt_number-lt fmt_zrci = refl
fmt_number-lt fmt_zri = refl
fmt_number-lt fmt_zric = refl
fmt_number-lt fmt_zrici = refl
fmt_number-lt fmt_zrif = refl
fmt_number-lt fmt_zrr = refl
fmt_number-lt fmt_zrrc = refl
fmt_number-lt fmt_zrrci = refl
fmt_number-lt fmt_zrri = refl
fmt_number-lt fmt_zrrici = refl
