-- ===== src/Blocks/Recycle.antt =====
-- The mapping of the log blocks to virtual blocks, and the exchange of a victim's.
use msst2015_ftl.Base.{
  ℕ, ◌<◌, ◌≤◌, ◌≡◌, ◌≢◌, ◌^◌, refl, arith, List, [], ◌∷◌, ◌++◌, length, occurrences, update-ne, u16,
  ◌==◌, if◌then◌else◌, ◌∙◌, lt→ltb, Bool-cases, inl, inr, occurrences-snoc, subst, u16-small,
}
use msst2015_ftl.Params.{num_banks, log_blk_per_bank}
use msst2015_ftl.Layout.{free_bmt_slot, log_bmt_slot}
use msst2015_ftl.Blocks.{
  Blocks, get_free_vbn, ret_free_vbn, set_log_vbn, get_log_vbn, exchange_vbn, recycle_victim,
}
use msst2015_ftl.Blocks.Ring.{HasFree, Slots-frame, get_free_vbn-HasFree, ret_free_vbn-HasFree}

-- The words of the two tables do not overlap.
slots_apart :
    (bank lbn bank' offset : ℕ)
    → bank < num_banks
    → lbn < log_blk_per_bank
    → log_bmt_slot bank lbn ≢ free_bmt_slot bank' offset
unfolding log_bmt_slot free_bmt_slot
slots_apart bank lbn bank' offset bank_ok lbn_ok e = omega arith

log_slots_apart :
    (bank lbn bank' lbn' : ℕ)
    → lbn < log_blk_per_bank
    → lbn' < log_blk_per_bank
    → log_bmt_slot bank lbn ≡ log_bmt_slot bank' lbn'
    → (bank ≡ bank') × (lbn ≡ lbn')
unfolding log_bmt_slot
log_slots_apart bank lbn bank' lbn' ok ok' e = (omega arith, omega arith)

-- The virtual blocks of a bank: those behind the log blocks and the free ones `q` are all different.
pub record HasBlocks (s : Blocks) (bank : ℕ) (q : List ℕ) : Type 0 where
  pub free : HasFree s bank q
  pub words : (a : ℕ) → s.dram16 a < 2 ^ 16
  pub distinct :
      (i j : ℕ)
      → i < log_blk_per_bank
      → j < log_blk_per_bank
      → get_log_vbn s bank i ≡ get_log_vbn s bank j
      → i ≡ j
  pub not_free : (i : ℕ) → i < log_blk_per_bank → occurrences (get_log_vbn s bank i) q ≡ 0
  pub free_once : (v : ℕ) → occurrences v q ≤ 1

-- A log block set to a virtual block has that one, as a UINT16, and the others keep theirs.
pub get_log_vbn-set_log_vbn :
    (s : Blocks) (bank lbn v bank' lbn' : ℕ)
    → lbn < log_blk_per_bank
    → lbn' < log_blk_per_bank
    → get_log_vbn (set_log_vbn s bank lbn v) bank' lbn' ≡ (
        if bank == bank'
        then (if lbn == lbn' then u16 v else get_log_vbn s bank' lbn')
        else get_log_vbn s bank' lbn')
unfolding get_log_vbn set_log_vbn
get_log_vbn-set_log_vbn s bank lbn v bank' lbn' ok ok' =
    ground (arith, log_slots_apart bank lbn bank' lbn' ok ok')

get_log_vbn-ret_free_vbn :
    (s : Blocks) (bank v bank' lbn : ℕ)
    → bank' < num_banks
    → lbn < log_blk_per_bank
    → get_log_vbn (ret_free_vbn s bank v) bank' lbn ≡ get_log_vbn s bank' lbn
unfolding get_log_vbn ret_free_vbn
get_log_vbn-ret_free_vbn s bank v bank' lbn bank_ok lbn_ok =
    ground (arith, slots_apart bank' lbn bank (s.free_list_head bank) bank_ok lbn_ok)

get_log_vbn-get_free_vbn :
    (s : Blocks) (bank bank' lbn : ℕ)
    → get_log_vbn (get_free_vbn s bank).1 bank' lbn ≡ get_log_vbn s bank' lbn
unfolding get_log_vbn get_free_vbn
get_log_vbn-get_free_vbn s bank bank' lbn = refl

set_log_vbn-HasFree :
    (s : Blocks) (bank lbn v : ℕ) (q : List ℕ)
    → bank < num_banks
    → lbn < log_blk_per_bank
    → HasFree s bank q
    → HasFree (set_log_vbn s bank lbn v) bank q
unfolding set_log_vbn
set_log_vbn-HasFree s bank lbn v q bank_ok lbn_ok h = record {
  tail_lt = h.tail_lt;
  head_is = h.head_is;
  few = h.few;
  slots =
      Slots-frame s.dram16 _ bank (s.free_list_tail bank) q h.tail_lt
        (λ j j_ok.
          update-ne s.dram16 (log_bmt_slot bank lbn) (u16 v) (free_bmt_slot bank j)
            (slots_apart bank lbn bank j bank_ok lbn_ok))
        h.slots;
}

module _ (s : Blocks) (bank v : ℕ) (vs : List ℕ) (bank_ok : bank < num_banks)
    (h : HasBlocks s bank (v ∷ vs)) (victim_lbn : ℕ)
    (victim_ok : victim_lbn < log_blk_per_bank) where
  abbrev victim_vbn : ℕ
  victim_vbn = get_log_vbn s bank victim_lbn

  abbrev after : Blocks
  after = (recycle_victim s bank victim_lbn).1

  victim_small : victim_vbn < 2 ^ 16
  unfolding get_log_vbn
  victim_small = rw (lt→ltb victim_lbn log_blk_per_bank victim_ok) (h.words _)

  first_small : v < 2 ^ 16
  unfolding get_free_vbn
  first_small = subst (λ k. k < 2 ^ 16) (get_free_vbn-HasFree s bank v vs h.free).0 (h.words _)

  recycled_log :
      (lbn : ℕ)
      → lbn < log_blk_per_bank
      → get_log_vbn after bank lbn ≡ (if victim_lbn == lbn then v else get_log_vbn s bank lbn)
  unfolding recycle_victim exchange_vbn
  recycled_log lbn lbn_ok =
      let taken = (get_free_vbn s bank).1 in
      let e = (get_free_vbn-HasFree s bank v vs h.free).0 in
      get_log_vbn-ret_free_vbn _ bank victim_vbn bank lbn bank_ok lbn_ok
      ∙ get_log_vbn-set_log_vbn taken bank victim_lbn (get_free_vbn s bank).0 bank lbn victim_ok
          lbn_ok
      ∙ ground (arith, e, first_small, get_log_vbn-get_free_vbn s bank bank lbn)

  recycled_free : HasFree after bank (vs ++ (victim_vbn ∷ []))
  unfolding recycle_victim exchange_vbn length
  recycled_free =
      let few = h.free.few in
      subst (λ k. HasFree after bank (vs ++ (k ∷ []))) (u16-small victim_vbn victim_small)
        (ret_free_vbn-HasFree _ bank victim_vbn vs
          (set_log_vbn-HasFree _ bank victim_lbn _ vs bank_ok victim_ok
            (get_free_vbn-HasFree s bank v vs h.free).1)
          (omega arith))

  recycled_words : (a : ℕ) → after.dram16 a < 2 ^ 16
  unfolding recycle_victim exchange_vbn ret_free_vbn set_log_vbn get_free_vbn
  recycled_words a = ground (arith, h.words a)

  recycled_not_free :
      (i : ℕ)
      → i < log_blk_per_bank
      → occurrences (get_log_vbn after bank i) (vs ++ (victim_vbn ∷ [])) ≡ 0
  unfolding occurrences
  recycled_not_free i i_ok = elim (Bool-cases (victim_lbn == i)) [
    | inl here ↦
        let is_v : get_log_vbn after bank i ≡ v = recycled_log i i_ok ∙ ground (arith, here) in
        rw (is_v, occurrences-snoc v vs victim_vbn)
          (ground (arith, h.free_once v, h.not_free victim_lbn victim_ok))
    | inr there ↦
        let is_own : get_log_vbn after bank i ≡ get_log_vbn s bank i =
          recycled_log i i_ok ∙ ground (arith, there) in
        rw (is_own, occurrences-snoc (get_log_vbn s bank i) vs victim_vbn)
          (ground (arith, there, h.not_free i i_ok, h.distinct i victim_lbn i_ok victim_ok))
  ]

  -- Recycling a victim names the virtual block that was behind it as the one to erase, maps the victim
  -- to the first free one, leaves the other log blocks theirs, and puts the block to erase behind
  -- the free ones. No virtual block comes to be behind two log blocks, or behind one and free.
  pub recycle_victim-HasBlocks :
      ((recycle_victim s bank victim_lbn).0 ≡ victim_vbn)
      × ((lbn : ℕ)
          → lbn < log_blk_per_bank
          → get_log_vbn after bank lbn ≡ (if victim_lbn == lbn then v else get_log_vbn s bank lbn))
      × HasBlocks after bank (vs ++ (victim_vbn ∷ []))
  unfolding recycle_victim exchange_vbn occurrences
  recycle_victim-HasBlocks = (
    refl,
    recycled_log,
    record {
      free = recycled_free;
      words = recycled_words;
      distinct = λ i j i_ok j_ok e. ground (
        arith,
        e,
        recycled_log i i_ok,
        recycled_log j j_ok,
        h.distinct i j i_ok j_ok,
        h.not_free i i_ok,
        h.not_free j j_ok,
      );
      not_free = recycled_not_free;
      free_once = λ k.
          rw (occurrences-snoc k vs victim_vbn)
            (ground (arith, h.free_once k, h.not_free victim_lbn victim_ok));
    },
  )
