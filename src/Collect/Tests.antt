-- ===== src/Collect/Tests.antt =====
-- Collections: of page 7 of block 5 of bank 3, whose list names page 100 everywhere, and of block 0 of
-- the heap of bank 6 with blocks 0 and 1, of which block 0 has no valid chunk.
use msst2015_ftl.Base.{
  ℕ, ◌+◌, ◌*◌, ◌≡◌, refl, arith, invalid, [], ◌∷◌, List, length, ◌<◌, ◌^◌, update, ltb,
  if◌then◌else◌, occurrences,
}
use msst2015_ftl.Base.Run.{Run, ok, hang, Yields, Yields-result}
use msst2015_ftl.Params.{chunks_per_page}
use msst2015_ftl.Heap.Defs.{HeapData, get_heap_el}
use msst2015_ftl.Heap.Ops.{get_victim_valid_pages_number}
use msst2015_ftl.Heap.Ops.Data.{IsValidData}
use msst2015_ftl.CleanList.{ListData, clean_list_init, clean_list_push, clean_list_size}
use msst2015_ftl.CleanList.Push.{clean_list_push-HasQueues}
use msst2015_ftl.Layout.{clean_list}
use msst2015_ftl.Blocks.Samples.{sample, sample-HasBlocks}
use msst2015_ftl.Log.Steps.{free_blocks}
use msst2015_ftl.CleanList.Queue.{HasQueues}
use msst2015_ftl.CleanList.Init.{clean_list_init-HasQueues}
use msst2015_ftl.Chunk.{block_chunk_addr, set_ow_bit}
use msst2015_ftl.State.{Ftl}
use msst2015_ftl.State.Samples.{idle_heap, mapped_to}
use msst2015_ftl.Collect.{find_valid, garbage_collect_log}
use msst2015_ftl.Collect.Found.{Finds, find_valid-Finds}
use msst2015_ftl.Collect.Empty.{AreErased, Frees, free_blocks-Frees}

abbrev listed : Ftl
listed = record (mapped_to (set_ow_bit (block_chunk_addr 3 5 7 2))) { lpns_lists = λ _. 100 }

listed_words : (a : ℕ) → listed.chunk_map a < 2 ^ 32
unfolding set_ow_bit block_chunk_addr
listed_words a = omega arith

find_valid-Finds_example :
    Finds listed 3 5 4096 7 0 (find_valid chunks_per_page listed 3 5 4096 7 0)
find_valid-Finds_example =
    find_valid-Finds listed 3 5 4096 7 listed_words (omega arith) (omega arith) (omega arith)

abbrev two_blocks : HeapData
two_blocks = record {
  log_blks_per_bank = 73;
  first_lbn = 0;
  banks = λ _. record {
    n_el = 2;
    cells = λ i. record { value = 2 * i; lbn = i };
    positions = λ l. l + 1;
  };
}

two_blocks-IsValidData : IsValidData two_blocks
two_blocks-IsValidData = record {
  every = λ bank h. record {
    indexed = record {
      fits = omega arith;
      size = omega arith;
      cell_value = λ r lo hi. omega arith;
      cell_lbn = λ r lo hi. omega arith;
      cell_position = λ r lo hi. omega arith;
      position_pos = λ l l_ok. omega arith;
      position_le = λ l l_ok. omega arith;
      position_cell = λ l l_ok. omega arith;
    };
    heap = λ c lo hi. omega arith;
  };
  small = omega arith;
}

abbrev no_lists : ListData
no_lists = clean_list_init (mapped_to 0).clean_lists (clean_list 0) 73

no_lists-HasQueues : HasQueues (clean_list 0) 73 no_lists (λ _. [])
unfolding clean_list
no_lists-HasQueues =
    clean_list_init-HasQueues (clean_list 0) 73 (omega arith) (omega arith) _ (omega arith)
      (omega arith)

-- Block 9 is clean in bank 6.
abbrev only_nine : ℕ → List ℕ
only_nine = update (λ _. []) 6 (9 ∷ [])

abbrev nine_pushed :
    (l : ListData) × (clean_list_push no_lists 6 9 ≡ ok l) × HasQueues (clean_list 0) 73 l only_nine
unfolding length
nine_pushed = Yields-result (
    clean_list_push-HasQueues (clean_list 0) 73 no_lists (λ _. []) no_lists-HasQueues 6
      (omega arith) 9 (omega arith))

-- The virtual blocks 3 and 4 are free and erased, the others are written.
abbrev with_victim : ListData → Ftl
with_victim lists = record (mapped_to (block_chunk_addr 3 5 7 2)) {
  heap_write = two_blocks;
  clean_lists = lists;
  blocks = sample;
  flash = λ b v p i. if ltb v 5 then 0xff else 0x5a;
}

with_victim-AreErased : (lists : ListData) → AreErased (with_victim lists) 6 (3 ∷ 4 ∷ [])
unfolding occurrences
with_victim-AreErased lists = record { erased = λ v page i some. ground (arith, some) }

nothing_valid : get_victim_valid_pages_number two_blocks 6 ≡ ok 0
unfolding get_victim_valid_pages_number get_heap_el
nothing_valid = refl

no_overwrite_blocks : get_victim_valid_pages_number idle_heap 6 ≡ ok invalid
unfolding get_victim_valid_pages_number get_heap_el
no_overwrite_blocks = refl

abbrev no_more : Ftl → ℕ → Run Ftl
no_more s bank = hang

free_blocks-Frees_example :
    Yields
      (λ s'.
        Frees (clean_list 0) 73 (with_victim nine_pushed.0) only_nine 6 3 (4 ∷ []) s'
        × (clean_list_size s'.clean_lists 6 ≡ 2))
      (free_blocks (garbage_collect_log no_more) 10 (with_victim nine_pushed.0) 6)
unfolding length
free_blocks-Frees_example =
    free_blocks-Frees (clean_list 0) 73 (with_victim nine_pushed.0) only_nine 6 (omega arith)
      two_blocks-IsValidData refl (omega arith) (omega arith) nine_pushed.2 (omega arith) 3 (4 ∷ [])
      sample-HasBlocks (with_victim-AreErased nine_pushed.0) (omega arith) no_more invalid
      nothing_valid no_overwrite_blocks (omega arith) refl
