-- ===== src/Heap/Tests.antt =====
-- The heaps of heap.c at a concrete state.
use msst2015_ftl.Base.{ℕ, ◌+◌, ◌*◌, ◌≤◌, ◌≡◌, refl, arith, true, false}
use msst2015_ftl.Base.Run.{Yields, ◌>>=◌}
use msst2015_ftl.Params.{num_banks}
use msst2015_ftl.Heap.Defs.{BankHeap, HeapData}
use msst2015_ftl.Heap.Ops.{
  decrement_valid_chunks, decrement_valid_chunks_by_n, insert_blk_in_heap, get_victim,
  reset_valid_chunks_and_remove, valid_chunks_heap_init,
}
use msst2015_ftl.Heap.Ops.Spec.{IsValid}
use msst2015_ftl.Heap.Ops.Data.{
  IsValidData, ChangesBlock, decrement_valid_chunks-ChangesBlock,
  decrement_valid_chunks_by_n-ChangesBlock, decrement_valid_chunks_by_n-wraps,
  insert_blk_in_heap-ChangesBlock,
}
use msst2015_ftl.Heap.Ops.Data.Start.{IsStarted, valid_chunks_heap_init-IsStarted}
use msst2015_ftl.Heap.Ops.Data.Victim.{
  IsVictim, get_victim-IsVictim, reset_valid_chunks_and_remove-IsVictim,
}

-- Four log blocks with 0, 2, 4 and 6 valid chunks, the first `n` of them in the heap.
abbrev sample_bank : ℕ → BankHeap
sample_bank n = record {
  n_el = n;
  cells = λ i. record { value = 2 * i; lbn = i };
  positions = λ l. l + 1;
}

abbrev sample : ℕ → HeapData
sample n = record { log_blks_per_bank = 4; first_lbn = 10; banks = λ _. sample_bank n }

sample-IsValid : (n : ℕ) → n ≤ 4 → IsValid 4 (sample_bank n)
sample-IsValid n n_ok = record {
  indexed = record {
    fits = omega arith;
    size = omega arith;
    cell_value = λ r lo hi. omega arith;
    cell_lbn = λ r lo hi. omega arith;
    cell_position = λ r lo hi. omega arith;
    position_pos = λ l h. omega arith;
    position_le = λ l h. omega arith;
    position_cell = λ l h. omega arith;
  };
  heap = λ c lo hi. omega arith;
}

sample-IsValidData : (n : ℕ) → n ≤ 4 → IsValidData (sample n)
sample-IsValidData n n_ok = record { every = λ bank h. sample-IsValid n n_ok; small = omega arith }

decrement_valid_chunks-ChangesBlock_example :
    Yields (ChangesBlock (sample 2) 7 1 1 true) (decrement_valid_chunks (sample 2) 7 11)
decrement_valid_chunks-ChangesBlock_example =
    decrement_valid_chunks-ChangesBlock (sample 2) (sample-IsValidData 2 (omega arith)) 7
      (omega arith) 1 (omega arith) (omega arith)

decrement_valid_chunks_by_n-ChangesBlock_example :
    Yields (ChangesBlock (sample 2) 7 3 1 false) (decrement_valid_chunks_by_n (sample 2) 7 13 5)
decrement_valid_chunks_by_n-ChangesBlock_example =
    decrement_valid_chunks_by_n-ChangesBlock (sample 2) (sample-IsValidData 2 (omega arith)) 7
      (omega arith) 3 (omega arith) 5 (omega arith) (omega arith)

decrement_valid_chunks_by_n-wraps_example :
    Yields (ChangesBlock (sample 2) 7 3 65535 false) (decrement_valid_chunks_by_n (sample 2) 7 13 7)
decrement_valid_chunks_by_n-wraps_example =
    decrement_valid_chunks_by_n-wraps (sample 2) (sample-IsValidData 2 (omega arith)) 7
      (omega arith) 3 (omega arith) 7 (omega arith) (omega arith) (omega arith) refl

insert_blk_in_heap-ChangesBlock_example :
    Yields (ChangesBlock (sample 2) 7 3 6 true) (insert_blk_in_heap (sample 2) 7 13)
insert_blk_in_heap-ChangesBlock_example =
    insert_blk_in_heap-ChangesBlock (sample 2) (sample-IsValidData 2 (omega arith)) 7 (omega arith)
      3 (omega arith) refl

get_victim-IsVictim_example :
    Yields (λ v. (l : ℕ) × IsVictim (sample 2) 7 l × (v ≡ 10 + l)) (get_victim (sample 2) 7)
get_victim-IsVictim_example =
    get_victim-IsVictim (sample 2) (sample-IsValidData 2 (omega arith)) 7 (omega arith)
      (omega arith)

reset_valid_chunks_and_remove-IsVictim_example :
    Yields
      (λ e. (l : ℕ) × IsVictim (sample 2) 7 l × ChangesBlock (sample 2) 7 l 1016 false e)
      (get_victim (sample 2) 7 >>= λ v. reset_valid_chunks_and_remove (sample 2) 7 v 1016)
reset_valid_chunks_and_remove-IsVictim_example =
    reset_valid_chunks_and_remove-IsVictim (sample 2) (sample-IsValidData 2 (omega arith)) 7
      (omega arith) (omega arith) 1016 (omega arith)

valid_chunks_heap_init-IsStarted_example :
    Yields (IsStarted num_banks 73 0 1016) (valid_chunks_heap_init (sample 2) 73 0 1016)
valid_chunks_heap_init-IsStarted_example =
    valid_chunks_heap_init-IsStarted 73 0 1016 (omega arith) (omega arith) (sample 2)
