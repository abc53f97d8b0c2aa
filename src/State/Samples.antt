-- ===== src/State/Samples.antt =====
-- States for the tests, with no log block in use.
use msst2015_ftl.Base.{ℕ, ◌+◌, false, arith}
use msst2015_ftl.Heap.Defs.{HeapData}
use msst2015_ftl.Heap.Ops.Data.{IsValidData}
use msst2015_ftl.State.{Ftl}

-- No log block is in a heap, and each has 1016 valid chunks.
abbrev pub idle_heap : HeapData
idle_heap = record {
  log_blks_per_bank = 73;
  first_lbn = 0;
  banks = λ _. record {
    n_el = 0;
    cells = λ i. record { value = 1016; lbn = i };
    positions = λ l. l + 1;
  };
}

pub idle_heap-IsValidData : IsValidData idle_heap
idle_heap-IsValidData = record {
  every = λ bank h. record {
    indexed = record {
      fits = omega arith;
      size = omega arith;
      cell_value = λ r lo hi. omega arith;
      cell_lbn = λ r lo hi. omega arith;
      cell_position = λ r lo hi. omega arith;
      position_pos = λ l l_ok. omega arith;
      position_le = λ l l_ok. omega arith;
      position_cell = λ l l_ok. omega arith;
    };
    heap = λ c lo hi. absurd (omega arith);
  };
  small = omega arith;
}

-- Every chunk is mapped to one address.
abbrev pub mapped_to : ℕ → Ftl
mapped_to addr = record {
  heap_write = idle_heap;
  heap_overwrite = idle_heap;
  clean_lists = record {
    dram = λ _. 0;
    banks = λ _. record {
      clean_list_head = 0;
      clean_list_tail = 0;
      clean_list_unused_nodes = 0;
      size = 0;
    };
  };
  blocks = record { dram16 = λ _. 0; free_list_head = λ _. 0; free_list_tail = λ _. 0 };
  sw_ctrl = λ _. record { log_lpn = 0; next_data_lpn = 0; lpns_list_ptr = 4096 };
  rw_ctrl = λ _. record { log_lpn = 0; lpns_list_ptr = 8192; is_ow_blk = false };
  ow_ctrl = λ _. record { log_lpn = 0; lpns_list_ptr = 0 };
  log_buf_meta = λ _. record { data_lpn = λ _. 0; chunk_idx = λ _. 0 };
  ow_log_buf_meta = λ _. record { data_lpn = λ _. 0; chunk_idx = λ _. 0 };
  chunk_map = λ _. addr;
  lpns_lists = λ a. a;
  flash_lists = λ b v p i. 0;
  ow_counters = λ _. 0;
  chunk_ptr = λ _. 0;
  ow_chunk_ptr = λ _. 0;
  gc_nest_level = λ _. 0;
  reference_bank = 0;
  read_buf_id = 0;
  write_buf_id = 0;
  buffers = λ a. 0;
  flash = λ b v p i. 0xff;
}
