-- ===== src/Heap/Ops/Data/Victim.antt =====
-- getVictim, getVictimValidPagesNumber and the removal of the victim, of ftl_seal/heap.c.
use msst2015_ftl.Base.{ℕ, ◌+◌, ◌^◌, ◌≤◌, ◌<◌, ◌≡◌, refl, arith, true, false, lt→ltb, u32, invalid}
use msst2015_ftl.Base.Run.{ok, Yields, yields, Yields-weaken, ◌>>=◌}
use msst2015_ftl.Params.{num_banks}
use msst2015_ftl.Heap.Defs.{HeapData}
use msst2015_ftl.Heap.Sift.Swap.{at, get_heap_el-ok}
use msst2015_ftl.Heap.Sift.Order.{block_value, in_heap, root_least}
use msst2015_ftl.Heap.Ops.{get_victim, get_victim_valid_pages_number, reset_valid_chunks_and_remove}
use msst2015_ftl.Heap.Ops.Move.{remove_from_bank-Changes}
use msst2015_ftl.Heap.Ops.Data.{IsValidData, ChangesBlock, number_ok, on_bank-ChangesBlock}

-- Block `l` is in the heap of the bank, and no block of the heap has fewer valid chunks.
pub record IsVictim (d : HeapData) (bank l : ℕ) : Type 0 where
  pub inside : l < d.log_blks_per_bank
  pub member : in_heap (d.banks bank) l ≡ true
  pub least :
      (k : ℕ)
      → k < d.log_blks_per_bank
      → in_heap (d.banks bank) k ≡ true
      → block_value (d.banks bank) l ≤ block_value (d.banks bank) k

module _ (d : HeapData) (valid : IsValidData d) (bank : ℕ) (bank_ok : bank < num_banks)
    (nonempty : 0 < (d.banks bank).n_el) where
  abbrev pub victim : ℕ
  victim = (at (d.banks bank) 1).lbn

  low : 1 ≤ d.log_blks_per_bank
  low = let size = (valid.every bank bank_ok).indexed.size in omega arith

  victim_ok : victim < d.log_blks_per_bank
  victim_ok = (valid.every bank bank_ok).indexed.cell_lbn 1 (omega arith) low

  victim_root : (d.banks bank).positions victim ≡ 1
  victim_root = (valid.every bank bank_ok).indexed.cell_position 1 (omega arith) low

  pub victim-IsVictim : IsVictim d bank victim
  victim-IsVictim =
      let h = valid.every bank bank_ok in
      record {
        inside = victim_ok;
        member = ground (arith, victim_root);
        least = λ k k_ok member. ground (
          arith,
          victim_root,
          h.indexed.position_pos k k_ok,
          root_least (d.banks bank) ((d.banks bank).positions k) h.heap,
        );
      }

  pub get_victim-root : get_victim d bank ≡ ok (d.first_lbn + victim)
  unfolding get_victim
  get_victim-root =
      let small = valid.small in
      let inside = victim_ok in
      let number : u32 (victim + d.first_lbn) ≡ d.first_lbn + victim = omega arith in
      rw
        (
          get_heap_el-ok d.log_blks_per_bank (d.banks bank) (valid.every bank bank_ok).indexed 1
              (omega arith) low,
          lt→ltb 0 (d.banks bank).n_el nonempty,
          number,
        )
        refl

  -- getVictim, when the heap of the bank is not empty, returns a log block of the heap that no
  -- other of the heap has fewer valid chunks than.
  pub get_victim-IsVictim :
      Yields (λ v. (l : ℕ) × IsVictim d bank l × (v ≡ d.first_lbn + l)) (get_victim d bank)
  get_victim-IsVictim = rw get_victim-root (yields (victim, victim-IsVictim, refl))

  -- When the heap is not empty, getVictimValidPagesNumber returns the least count of its blocks.
  pub get_victim_valid_pages_number-least :
      Yields
        (λ v. (l : ℕ) × IsVictim d bank l × (v ≡ block_value (d.banks bank) l))
        (get_victim_valid_pages_number d bank)
  unfolding get_victim_valid_pages_number
  get_victim_valid_pages_number-least =
      rw
        (
          get_heap_el-ok d.log_blks_per_bank (d.banks bank) (valid.every bank bank_ok).indexed 1
              (omega arith) low,
          lt→ltb 0 (d.banks bank).n_el nonempty,
        )
        (yields (victim, victim-IsVictim, ground (arith, victim_root)))

  pub reset_victim :
      (x : ℕ)
      → x < 2 ^ 16
      → Yields
          (ChangesBlock d bank victim x false)
          (reset_valid_chunks_and_remove d bank (d.first_lbn + victim) x)
  unfolding reset_valid_chunks_and_remove
  reset_victim x x_ok = rw (number_ok d valid bank bank_ok victim victim_ok) (
      on_bank-ChangesBlock d valid bank bank_ok victim victim_ok _ _ _ (
        remove_from_bank-Changes d.log_blks_per_bank (d.banks bank) (valid.every bank bank_ok)
          victim victim_ok victim_root nonempty x x_ok))

  -- The garbage collector's pair of calls: the victim of getVictim, reset to the count `x` and
  -- removed by resetValidChunksAndRemove, leaves the heap, whose order is restored, and nothing
  -- else changes.
  pub reset_valid_chunks_and_remove-IsVictim :
      (x : ℕ)
      → x < 2 ^ 16
      → Yields
          (λ e. (l : ℕ) × IsVictim d bank l × ChangesBlock d bank l x false e)
          (get_victim d bank >>= λ v. reset_valid_chunks_and_remove d bank v x)
  reset_valid_chunks_and_remove-IsVictim x x_ok =
      rw get_victim-root (Yields-weaken (λ e c. (victim, victim-IsVictim, c)) (reset_victim x x_ok))

module _ (d : HeapData) (valid : IsValidData d) (bank : ℕ) (bank_ok : bank < num_banks)
    (some_blocks : 0 < d.log_blks_per_bank) (empty : (d.banks bank).n_el ≡ 0) where
  -- When the heap of the bank is empty, getVictim and getVictimValidPagesNumber return INVALID.
  pub get_victim-empty :
      (get_victim d bank ≡ ok invalid) × (get_victim_valid_pages_number d bank ≡ ok invalid)
  unfolding get_victim get_victim_valid_pages_number
  get_victim-empty =
      rw
        (
          get_heap_el-ok d.log_blks_per_bank (d.banks bank) (valid.every bank bank_ok).indexed 1
              (omega arith) (omega arith),
          empty,
        )
        (refl, refl)
