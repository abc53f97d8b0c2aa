-- ===== src/Log/Tests.antt =====
-- The log pages at concrete states.
use msst2015_ftl.Base.{
  ℕ, ◌+◌, ◌*◌, ◌≡◌, refl, inr, arith, true, false, invalid, List, [], ◌∷◌, length, update,
}
use msst2015_ftl.Base.Run.{Run, ok, hang, Yields}
use msst2015_ftl.Params.{num_banks, pages_per_blk}
use msst2015_ftl.Heap.Defs.{HeapData}
use msst2015_ftl.Heap.Ops.Data.{IsValidData}
use msst2015_ftl.CleanList.{ListData, clean_list_init, clean_list_push}
use msst2015_ftl.CleanList.Queue.{HasQueues}
use msst2015_ftl.CleanList.Init.{clean_list_init-HasQueues}
use msst2015_ftl.CleanList.Push.{clean_list_push-HasQueues}
use msst2015_ftl.Base.Run.{Yields-result}
use msst2015_ftl.Layout.{clean_list, chunks_map_table}
use msst2015_ftl.State.{Ftl}
use msst2015_ftl.Log.{seal_map, set_ow}
use msst2015_ftl.Log.Steps.{increase_sw_lpn, get_sw_lpn, increase_ow_lpn}
use msst2015_ftl.Log.Start.{Starts, init_log, init_log-Starts}
use msst2015_ftl.Log.Seal.{SealsOnly, seal_map-SealsOnly}
use msst2015_ftl.Log.Sealed.{seal_map-sealed}
use msst2015_ftl.Chunk.{block_chunk_addr, set_ow_bit, find_chunk_location, clear_ow_bit}
use msst2015_ftl.Log.Pages.{IsClosed, increase_ow_lpn-ow_offset, increase_sw_lpn-IsClosed}
use msst2015_ftl.Log.Allocate.{IsClean, get_sw_lpn-first}

-- No log block is in a heap.
abbrev idle_heap : HeapData
idle_heap = record {
  log_blks_per_bank = 73;
  first_lbn = 0;
  banks = λ _. record {
    n_el = 0;
    cells = λ i. record { value = 1016; lbn = i };
    positions = λ l. l + 1;
  };
}

idle_heap-IsValidData : IsValidData idle_heap
idle_heap-IsValidData = record {
  every = λ bank h. record {
    indexed = record {
      fits = omega arith;
      size = omega arith;
      cell_value = λ r lo hi. omega arith;
      cell_lbn = λ r lo hi. omega arith;
      cell_position = λ r lo hi. omega arith;
      position_pos = λ l l_ok. omega arith;
      position_le = λ l l_ok. omega arith;
      position_cell = λ l l_ok. omega arith;
    };
    heap = λ c lo hi. absurd (omega arith);
  };
  small = omega arith;
}

abbrev no_lists : ListData
no_lists =
    clean_list_init
      (record {
        dram = λ _. 0;
        banks = λ _. record {
          clean_list_head = 0;
          clean_list_tail = 0;
          clean_list_unused_nodes = 0;
          size = 0;
        };
      })
      (clean_list 0) 73

abbrev no_numbers : ℕ → List ℕ
no_numbers _ = []

-- Page `off` of log block 5 is the page of every block, and the RW block is not sealed.
abbrev at_page : ListData → ℕ → Ftl
at_page lists lpn = record {
  heap_write = idle_heap;
  heap_overwrite = idle_heap;
  clean_lists = lists;
  blocks = record { dram16 = λ _. 0; free_list_head = λ _. 0; free_list_tail = λ _. 0 };
  sw_ctrl = λ _. record { log_lpn = lpn; next_data_lpn = 0; lpns_list_ptr = 4096 };
  rw_ctrl = λ _. record { log_lpn = lpn; lpns_list_ptr = 8192; is_ow_blk = false };
  ow_ctrl = λ _. record { log_lpn = lpn; lpns_list_ptr = 0 };
  log_buf_meta = λ _. record { data_lpn = λ _. 0; chunk_idx = λ _. 0 };
  ow_log_buf_meta = λ _. record { data_lpn = λ _. 0; chunk_idx = λ _. 0 };
  chunk_map = λ _. invalid;
  lpns_lists = λ a. a;
  flash_lists = λ b v p i. 0;
  ow_counters = λ _. 0;
  chunk_ptr = λ _. 0;
  ow_chunk_ptr = λ _. 0;
  gc_nest_level = λ _. 0;
  reference_bank = 0;
  read_buf_id = 0;
  write_buf_id = 0;
  buffers = λ a. 0;
  flash = λ b v p i. 0xff;
}

abbrev no_more : Ftl → ℕ → Run Ftl
no_more s bank = hang

no_lists-HasQueues : HasQueues (clean_list 0) 73 no_lists no_numbers
unfolding clean_list
no_lists-HasQueues =
    clean_list_init-HasQueues (clean_list 0) 73 (omega arith) (omega arith) _ (omega arith)
      (omega arith)

increase_ow_lpn-ow_offset_example :
    increase_ow_lpn no_more (at_page no_lists 647) 3 ≡ ok (set_ow (at_page no_lists 647) 3 649)
increase_ow_lpn-ow_offset_example =
    increase_ow_lpn-ow_offset no_more (at_page no_lists 647) 3 5 (omega arith) 4 (omega arith) refl

-- Bank 3 fills a sealed block.
abbrev sealed_at : ℕ → Ftl
sealed_at lpn = record (at_page no_lists lpn) {
  rw_ctrl = λ _. record { log_lpn = lpn; lpns_list_ptr = 8192; is_ow_blk = true };
}

increase_sw_lpn-IsClosed_example :
    Yields
      (IsClosed (at_page no_lists 766) 3 5 (omega arith))
      (increase_sw_lpn (at_page no_lists 766) 3)
increase_sw_lpn-IsClosed_example =
    increase_sw_lpn-IsClosed (at_page no_lists 766) 3 5 (omega arith) idle_heap-IsValidData refl
      (omega arith) refl refl

-- The list names page 100 everywhere, whose chunks are all mapped to one chunk of the overwrite log.
abbrev one_entry : ℕ → ℕ
one_entry _ = set_ow_bit (block_chunk_addr 3 5 7 2)

seal_map-SealsOnly_example : SealsOnly 3 5 one_entry (seal_map (λ _. 100) one_entry 4096 3 5)
seal_map-SealsOnly_example = seal_map-SealsOnly 3 5 4096 (λ _. 100) one_entry

seal_map-sealed_example :
    seal_map (λ _. 100) one_entry 4096 3 5 (chunks_map_table 100 0) ≡ block_chunk_addr 3 5 7 2
unfolding set_ow_bit block_chunk_addr find_chunk_location clear_ow_bit
seal_map-sealed_example =
    seal_map-sealed 3 5 4096 (λ _. 100) one_entry 7 2 0 (inr (refl, omega arith)) (omega arith)
      (omega arith) (λ e. omega (arith, e)) refl refl (λ e lt eq. omega (arith, lt))

-- Two clean blocks, 7 and 8, in bank 3.
abbrev one_number : ℕ → List ℕ
one_number = update no_numbers 3 (7 ∷ [])

abbrev two_numbers : ℕ → List ℕ
two_numbers = update one_number 3 (7 ∷ 8 ∷ [])

abbrev one_pushed :
    (l : ListData) × (clean_list_push no_lists 3 7 ≡ ok l)
    × HasQueues (clean_list 0) 73 l one_number
unfolding length
one_pushed = Yields-result (
    clean_list_push-HasQueues (clean_list 0) 73 no_lists no_numbers no_lists-HasQueues 3
      (omega arith) 7 (omega arith))

abbrev two_pushed :
    (l : ListData) × (clean_list_push one_pushed.0 3 8 ≡ ok l)
    × HasQueues (clean_list 0) 73 l two_numbers
unfolding length
two_pushed = Yields-result (
    clean_list_push-HasQueues (clean_list 0) 73 one_pushed.0 one_number one_pushed.2 3 (omega arith)
      8 (omega arith))

get_sw_lpn-first_example :
    Yields
      (λ r.
        (r.0 ≡ 7 * pages_per_blk)
        × ((r.1.sw_ctrl 3).log_lpn ≡ 7 * pages_per_blk)
        × IsClean (clean_list 0) 73 r.1 (update two_numbers 3 (8 ∷ [])))
      (get_sw_lpn no_more (at_page two_pushed.0 invalid) 3)
get_sw_lpn-first_example =
    get_sw_lpn-first no_more (clean_list 0) 73 (at_page two_pushed.0 invalid) two_numbers
      two_pushed.2 3 (omega arith) 7 8 [] (omega arith) refl refl

init_log-Starts_example : Yields (Starts num_banks) (init_log (at_page no_lists 640))
init_log-Starts_example = init_log-Starts (at_page no_lists 640)
