-- ===== src/Layout/Slots.antt =====
-- The slots that the macros of ftl_seal/dram_layout.h address: each lies in its segment, and two
-- slots of one table do not overlap.
use msst2015_ftl.Base.{ℕ, ◌+◌, ◌*◌, ◌≤◌, ◌<◌, ◌≡◌, ◌⊎◌, arith}
use msst2015_ftl.Params.{
  num_banks, log_blk_per_bank, pages_per_blk, data_blk_per_bank, chunks_per_page,
  ow_counters_per_blk,
}
use msst2015_ftl.Layout.{
  valid_chunks_addr, heap_positions_addr, chunks_map_table, clean_list, lpns_buf_base,
  chunk_in_lpns_list, ow_counter_addr, log_bmt_slot, sizeof_heap_el, sizeof_log_list_node,
  heap_valid_chunks_bytes, heap_valid_chunks_positions_bytes, chunks_map_table_addr,
  chunks_map_table_bytes, clean_list_nodes_addr, clean_list_nodes_bytes, lpns_in_log_bytes,
  ow_count_addr, ow_count_bytes, log_bmt_addr, log_bmt_bytes,
}

-- The `width` bytes from `slot` on lie within the `bytes` bytes from `start` on.
abbrev pub IsWithin : ℕ → ℕ → ℕ → ℕ → Type 0
IsWithin start bytes slot width = (start ≤ slot) × (slot + width ≤ start + bytes)

module _ (base bank blk : ℕ) (bank_ok : bank < num_banks) (blk_ok : blk < log_blk_per_bank) where
  -- For a bank and a block number in range, the block's slots in the tables that go by log block
  -- lie within their segments: a heap's elements and positions from any base, the clean list's
  -- nodes, the block mapping table, and the overwrite counters of all its pages.
  pub block_slots-IsWithin :
      (page : ℕ)
      → page < ow_counters_per_blk
      → IsWithin base heap_valid_chunks_bytes (valid_chunks_addr base bank blk) sizeof_heap_el
        × IsWithin base heap_valid_chunks_positions_bytes (heap_positions_addr base bank blk) 4
        × IsWithin clean_list_nodes_addr clean_list_nodes_bytes
            (clean_list bank + blk * sizeof_log_list_node)
            sizeof_log_list_node
        × IsWithin log_bmt_addr log_bmt_bytes (log_bmt_slot bank blk) 2
        × IsWithin ow_count_addr ow_count_bytes (ow_counter_addr bank blk page) 1
  unfolding valid_chunks_addr heap_positions_addr clean_list log_bmt_slot ow_counter_addr
  block_slots-IsWithin page page_ok = omega arith

module _ (base bank lpn page chunk : ℕ) (bank_ok : bank < num_banks)
    (page_ok : page < pages_per_blk) (chunk_ok : chunk < chunks_per_page) where
  -- For indices in range, the slots of the tables that go by page lie within their segments: the
  -- chunk map of a data page below the number of data pages, and a bank's list of page numbers.
  pub page_slots-IsWithin :
      lpn < num_banks * data_blk_per_bank * pages_per_blk
      → IsWithin chunks_map_table_addr chunks_map_table_bytes (chunks_map_table lpn chunk) 4
        × IsWithin base lpns_in_log_bytes
            (chunk_in_lpns_list (lpns_buf_base base bank) page chunk)
            4
  unfolding chunks_map_table chunk_in_lpns_list lpns_buf_base
  page_slots-IsWithin lpn_ok = omega arith

-- Two slots of one of the tables that go by log block (a heap's elements or positions, the clean
-- list's nodes, the block mapping table) that share an address are the slot of one block.
pub block_slots_injective :
    (base bank bank' blk blk' : ℕ)
    → blk < log_blk_per_bank
    → blk' < log_blk_per_bank
    → (valid_chunks_addr base bank blk ≡ valid_chunks_addr base bank' blk')
      ⊎ ((heap_positions_addr base bank blk ≡ heap_positions_addr base bank' blk')
          ⊎ ((clean_list bank + blk * sizeof_log_list_node
                ≡ clean_list bank' + blk' * sizeof_log_list_node)
              ⊎ (log_bmt_slot bank blk ≡ log_bmt_slot bank' blk')))
    → (bank ≡ bank') × (blk ≡ blk')
unfolding valid_chunks_addr heap_positions_addr clean_list log_bmt_slot
block_slots_injective base bank bank' blk blk' h h' e = omega arith
