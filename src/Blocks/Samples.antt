-- ===== src/Blocks/Samples.antt =====
-- A state of the virtual blocks for the tests.
use msst2015_ftl.Base.{
  ℕ, ◌+◌, ◌-◌, ◌/◌, ◌%◌, ◌<◌, ◌≡◌, ◌^◌, arith, refl, [], ◌∷◌, length, occurrences, ltb,
  if◌then◌else◌,
}
use msst2015_ftl.Params.{log_blk_per_bank}
use msst2015_ftl.Layout.{free_bmt_slot, log_bmt_slot, log_bmt_addr, free_bmt_addr}
use msst2015_ftl.Blocks.{Blocks, get_log_vbn}
use msst2015_ftl.Blocks.Ring.{HasFree, Slots}
use msst2015_ftl.Blocks.Recycle.{HasBlocks}

-- Log block i of a bank has the virtual block 10 + i, and blocks 3 and 4 are free.
abbrev pub sample : Blocks
sample = record {
  dram16 = λ a.
      if ltb a free_bmt_addr
      then ((a - log_bmt_addr) / 2 % log_blk_per_bank + 10) % 2 ^ 16
      else 3 + (a - free_bmt_addr) / 2 % 2;
  free_list_head = λ _. 0;
  free_list_tail = λ _. 0;
}

sample-HasFree : HasFree sample 6 (3 ∷ 4 ∷ [])
unfolding Slots length free_bmt_slot
sample-HasFree = record {
  tail_lt = omega arith;
  head_is = refl;
  few = omega arith;
  slots = (refl, (refl, tt));
}

sample_vbn : (i : ℕ) → i < log_blk_per_bank → get_log_vbn sample 6 i ≡ i + 10
unfolding get_log_vbn log_bmt_slot
sample_vbn i i_ok = ground arith

pub sample-HasBlocks : HasBlocks sample 6 (3 ∷ 4 ∷ [])
unfolding occurrences
sample-HasBlocks = record {
  free = sample-HasFree;
  words = λ a. ground arith;
  distinct = λ i j i_ok j_ok e. omega (arith, sample_vbn i, sample_vbn j);
  not_free = λ i i_ok. ground (arith, sample_vbn i);
  free_once = λ v. ground arith;
}
