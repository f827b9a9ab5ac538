-- ===== src/Rank/Tests.antt =====
-- Transfers to and from a rank, and the theorems at inputs that meet their hypotheses.
use hostpimsim_gecon.Base.{◌≡◌, refl, true, none, some, ◌/◌, ◌==◌, if◌then◌else◌}
use hostpimsim_gecon.Dpu.Mram.{Mram, unbound}
use hostpimsim_gecon.Rank.Defs.{Mrams, Transfer, Population, host_copy_to_rank}
use hostpimsim_gecon.Rank.Untouched.{host_copy_to_rank-untouched}
use hostpimsim_gecon.Rank.Back.{host_copy_from_rank}
use hostpimsim_gecon.Rank.Kept.{host_copy_from_rank-keeps}

abbrev working : Population
working = record {
  device = true;
  bank_ready = λ b. true;
  color_ready = true;
  mapped = λ i. some (λ a. 0);
  thread_ready = true;
}

abbrev bare_rank : Mrams
bare_rank i = unbound

-- The DPUs 8 and 9, which share a place in the chips 0 and 1, have a buffer.
abbrev pair : Transfer
pair = record {
  ptr = λ i. if (i / 2) == 4 then some (λ a. 7) else none;
  offset_in_mram = 100;
  size = 64;
}

host_copy_to_rank-untouched_example : (host_copy_to_rank working pair bare_rank).1 10 ≡ unbound
host_copy_to_rank-untouched_example = host_copy_to_rank-untouched working pair bare_rank 10 refl

-- DPU 9 is in use.
abbrev nines : Mram
nines = record { addr = some (λ a. 9); size = 67108864; owns_mapping = true }

abbrev used_rank : Mrams
used_rank i = if i == 9 then nines else unbound

host_copy_from_rank-keeps_example : (host_copy_from_rank working pair used_rank).1 9 ≡ nines
host_copy_from_rank-keeps_example = host_copy_from_rank-keeps working pair used_rank 9 refl
