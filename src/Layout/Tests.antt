-- ===== src/Layout/Tests.antt =====
-- The layout at concrete indices.
use msst2015_ftl.Base.{ℕ, ◌+◌, ◌*◌, ◌≤◌, ◌<◌, ◌≡◌, arith}
use msst2015_ftl.Base.Run.{ok}
use msst2015_ftl.Params.{dram_base, dram_size}
use msst2015_ftl.Layout.{
  valid_chunks_addr, heap_positions_addr, chunks_map_table, clean_list, lpns_buf_base,
  chunk_in_lpns_list, ow_counter_addr, log_bmt_slot, sizeof_heap_el, sizeof_log_list_node,
  heap_valid_chunks_bytes, heap_valid_chunks_positions_bytes, chunks_map_table_addr,
  chunks_map_table_bytes, clean_list_nodes_addr, clean_list_nodes_bytes, lpns_in_log_bytes,
  ow_count_addr, ow_count_bytes, log_bmt_addr, log_bmt_bytes, heap_valid_chunks_addr_write,
  lpns_in_log_1_addr,
}
use msst2015_ftl.Layout.Segments.{sanity_check, segments, segments_disjoint}
use msst2015_ftl.Layout.Slots.{IsWithin, block_slots-IsWithin, page_slots-IsWithin}

-- CHUNKS_MAP_TABLE_ADDR is the seventeenth segment.
abbrev map_segment : ℕ
map_segment = 16

abbrev last_bank : ℕ
last_bank = 31

abbrev last_blk : ℕ
last_blk = 72

segments_disjoint_example :
    (sanity_check ≡ ok tt)
    × (map_segment ≡ map_segment)
    × (dram_base ≤ chunks_map_table_addr)
    × (chunks_map_table_addr < dram_base + dram_size)
unfolding segments
segments_disjoint_example =
    segments_disjoint map_segment map_segment chunks_map_table_addr (omega arith) (omega arith)

block_slots-IsWithin_example :
    IsWithin heap_valid_chunks_addr_write heap_valid_chunks_bytes
      (valid_chunks_addr heap_valid_chunks_addr_write 31 72)
      sizeof_heap_el
    × IsWithin heap_valid_chunks_addr_write heap_valid_chunks_positions_bytes
        (heap_positions_addr heap_valid_chunks_addr_write 31 72)
        4
    × IsWithin clean_list_nodes_addr clean_list_nodes_bytes
        (clean_list 31 + 72 * sizeof_log_list_node)
        sizeof_log_list_node
    × IsWithin log_bmt_addr log_bmt_bytes (log_bmt_slot 31 72) 2
    × IsWithin ow_count_addr ow_count_bytes (ow_counter_addr 31 72 127) 1
block_slots-IsWithin_example =
    block_slots-IsWithin heap_valid_chunks_addr_write 31 72 (omega arith) (omega arith) 127
      (omega arith)

page_slots-IsWithin_example :
    IsWithin chunks_map_table_addr chunks_map_table_bytes (chunks_map_table 262143 7) 4
    × IsWithin lpns_in_log_1_addr lpns_in_log_bytes
        (chunk_in_lpns_list (lpns_buf_base lpns_in_log_1_addr 31) 127 7)
        4
page_slots-IsWithin_example =
    page_slots-IsWithin lpns_in_log_1_addr 31 262143 127 7 (omega arith) (omega arith) (omega arith)
      (omega arith)
