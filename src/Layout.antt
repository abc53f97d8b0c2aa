-- ===== src/Layout.antt =====
-- The DRAM layout: the byte counts of ftl_seal/ftl_parameters.h, the segment addresses and the
-- slot macros of ftl_seal/dram_layout.h. Segments follow one another from dram_base on.
pub mod Segments
pub mod Slots
mod Tests
use msst2015_ftl.Base.{ℕ, ◌+◌, ◌-◌, ◌*◌, ◌/◌}
use msst2015_ftl.Params.{
  dram_base, dram_size, dram_ecc_unit, bytes_per_page, num_banks, num_banks_max, num_vblks,
  log_blk_per_bank, data_blk_per_bank, free_blk_per_bank, chunks_per_blk, chunks_per_page,
  chunk_addr_bytes, pages_per_vblk, ow_counters_per_blk,
}

-- (bytes + DRAM_ECC_UNIT - 1) / DRAM_ECC_UNIT * DRAM_ECC_UNIT
abbrev pub ecc_align : ℕ → ℕ
ecc_align bytes = (bytes + dram_ecc_unit - 1) / dram_ecc_unit * dram_ecc_unit

abbrev pub sizeof_heap_el : ℕ
sizeof_heap_el = 4

abbrev pub sizeof_log_list_node : ℕ
sizeof_log_list_node = 8

abbrev pub free_bmt_bytes : ℕ
free_bmt_bytes = ecc_align (free_blk_per_bank * num_banks * 2)

abbrev pub log_bmt_bytes : ℕ
log_bmt_bytes = ecc_align (num_banks * log_blk_per_bank * 2)

abbrev pub num_copy_buffers : ℕ
num_copy_buffers = num_banks_max

abbrev pub num_ftl_buffers : ℕ
num_ftl_buffers = num_banks

abbrev pub num_gc_buffers : ℕ
num_gc_buffers = 2 * num_banks

abbrev pub num_hil_buffers : ℕ
num_hil_buffers = 1

abbrev pub num_temp_buffers : ℕ
num_temp_buffers = 1

abbrev pub num_log_buffers : ℕ
num_log_buffers = num_banks

abbrev pub copy_buf_bytes : ℕ
copy_buf_bytes = num_copy_buffers * bytes_per_page

abbrev pub ftl_buf_bytes : ℕ
ftl_buf_bytes = num_ftl_buffers * bytes_per_page

abbrev pub gc_buf_bytes : ℕ
gc_buf_bytes = num_gc_buffers * bytes_per_page

abbrev pub hil_buf_bytes : ℕ
hil_buf_bytes = num_hil_buffers * bytes_per_page

abbrev pub temp_buf_bytes : ℕ
temp_buf_bytes = num_temp_buffers * bytes_per_page

abbrev pub log_buf_bytes : ℕ
log_buf_bytes = num_log_buffers * bytes_per_page

abbrev pub lpns_in_log_bytes : ℕ
lpns_in_log_bytes = ecc_align (num_banks * chunks_per_blk * chunk_addr_bytes)

abbrev pub victim_lpn_list_bytes : ℕ
victim_lpn_list_bytes = 2 * num_banks * bytes_per_page

abbrev pub bad_blk_bmp_bytes : ℕ
bad_blk_bmp_bytes = ecc_align (num_vblks / 8)

abbrev pub heap_valid_chunks_bytes : ℕ
heap_valid_chunks_bytes = ecc_align (num_banks * log_blk_per_bank * sizeof_heap_el)

abbrev pub heap_valid_chunks_positions_bytes : ℕ
heap_valid_chunks_positions_bytes = ecc_align (num_banks * log_blk_per_bank * 4)

abbrev pub clean_list_nodes_bytes : ℕ
clean_list_nodes_bytes = ecc_align (num_banks * log_blk_per_bank * sizeof_log_list_node)

abbrev pub ow_count_bytes : ℕ
ow_count_bytes = ecc_align (num_banks * log_blk_per_bank * ow_counters_per_blk)

abbrev pub chunks_map_table_bytes : ℕ
chunks_map_table_bytes = num_banks * data_blk_per_bank * pages_per_vblk * chunks_per_page * 4

-- What everything but the SATA buffers takes.
abbrev pub dram_bytes_other : ℕ
dram_bytes_other =
    copy_buf_bytes + ftl_buf_bytes + gc_buf_bytes + hil_buf_bytes + temp_buf_bytes + log_buf_bytes
    + log_buf_bytes + lpns_in_log_bytes + lpns_in_log_bytes + lpns_in_log_bytes
    + victim_lpn_list_bytes + bad_blk_bmp_bytes + log_bmt_bytes + free_bmt_bytes
    + chunks_map_table_bytes + heap_valid_chunks_bytes + heap_valid_chunks_positions_bytes
    + heap_valid_chunks_bytes + heap_valid_chunks_positions_bytes + clean_list_nodes_bytes
    + ow_count_bytes

abbrev pub num_rw_buffers : ℕ
num_rw_buffers = (dram_size - dram_bytes_other) / bytes_per_page - 1

abbrev pub num_rd_buffers : ℕ
num_rd_buffers = (num_rw_buffers / 2 + num_banks - 1) / num_banks * num_banks

abbrev pub num_wr_buffers : ℕ
num_wr_buffers = num_rw_buffers - num_rd_buffers

abbrev pub rd_buf_bytes : ℕ
rd_buf_bytes = num_rd_buffers * bytes_per_page

abbrev pub wr_buf_bytes : ℕ
wr_buf_bytes = num_wr_buffers * bytes_per_page

abbrev pub rd_buf_addr : ℕ
rd_buf_addr = dram_base

abbrev pub wr_buf_addr : ℕ
wr_buf_addr = rd_buf_addr + rd_buf_bytes

abbrev pub copy_buf_addr : ℕ
copy_buf_addr = wr_buf_addr + wr_buf_bytes

abbrev pub ftl_buf_addr : ℕ
ftl_buf_addr = copy_buf_addr + copy_buf_bytes

abbrev pub gc_buf_addr : ℕ
gc_buf_addr = ftl_buf_addr + ftl_buf_bytes

abbrev pub hil_buf_addr : ℕ
hil_buf_addr = gc_buf_addr + gc_buf_bytes

abbrev pub temp_buf_addr : ℕ
temp_buf_addr = hil_buf_addr + hil_buf_bytes

abbrev pub log_buf_addr : ℕ
log_buf_addr = temp_buf_addr + temp_buf_bytes

abbrev pub ow_log_buf_addr : ℕ
ow_log_buf_addr = log_buf_addr + log_buf_bytes

abbrev pub lpns_in_log_1_addr : ℕ
lpns_in_log_1_addr = ow_log_buf_addr + log_buf_bytes

abbrev pub lpns_in_log_2_addr : ℕ
lpns_in_log_2_addr = lpns_in_log_1_addr + lpns_in_log_bytes

abbrev pub lpns_in_log_3_addr : ℕ
lpns_in_log_3_addr = lpns_in_log_2_addr + lpns_in_log_bytes

abbrev pub victim_lpn_list_addr : ℕ
victim_lpn_list_addr = lpns_in_log_3_addr + lpns_in_log_bytes

abbrev pub bad_blk_bmp_addr : ℕ
bad_blk_bmp_addr = victim_lpn_list_addr + victim_lpn_list_bytes

abbrev pub log_bmt_addr : ℕ
log_bmt_addr = bad_blk_bmp_addr + bad_blk_bmp_bytes

abbrev pub free_bmt_addr : ℕ
free_bmt_addr = log_bmt_addr + log_bmt_bytes

abbrev pub chunks_map_table_addr : ℕ
chunks_map_table_addr = free_bmt_addr + free_bmt_bytes

abbrev pub heap_valid_chunks_addr_write : ℕ
heap_valid_chunks_addr_write = chunks_map_table_addr + chunks_map_table_bytes

abbrev pub heap_valid_chunks_positions_write : ℕ
heap_valid_chunks_positions_write = heap_valid_chunks_addr_write + heap_valid_chunks_bytes

abbrev pub heap_valid_chunks_addr_overwrite : ℕ
heap_valid_chunks_addr_overwrite =
    heap_valid_chunks_positions_write + heap_valid_chunks_positions_bytes

abbrev pub heap_valid_chunks_positions_overwrite : ℕ
heap_valid_chunks_positions_overwrite = heap_valid_chunks_addr_overwrite + heap_valid_chunks_bytes

abbrev pub clean_list_nodes_addr : ℕ
clean_list_nodes_addr = heap_valid_chunks_positions_overwrite + heap_valid_chunks_positions_bytes

abbrev pub ow_count_addr : ℕ
ow_count_addr = clean_list_nodes_addr + clean_list_nodes_bytes

abbrev pub end_addr : ℕ
end_addr = ow_count_addr + ow_count_bytes

-- The slot macros. A heap, a clean list and the lists of page numbers have a part for each bank.
unfoldable pub valid_chunks_addr : ℕ → ℕ → ℕ → ℕ
valid_chunks_addr start_addr bank pos =
    start_addr + bank * log_blk_per_bank * sizeof_heap_el + pos * sizeof_heap_el

unfoldable pub heap_positions_addr : ℕ → ℕ → ℕ → ℕ
heap_positions_addr base bank blk = base + (bank * log_blk_per_bank + blk) * 4

unfoldable pub chunks_map_table : ℕ → ℕ → ℕ
chunks_map_table lpn chunk_idx = chunks_map_table_addr + lpn * chunks_per_page * 4 + chunk_idx * 4

unfoldable pub clean_list : ℕ → ℕ
clean_list bank = clean_list_nodes_addr + bank * log_blk_per_bank * sizeof_log_list_node

unfoldable pub lpns_buf_base : ℕ → ℕ → ℕ
lpns_buf_base lpns_in_log_addr bank = lpns_in_log_addr + bank * chunks_per_blk * chunk_addr_bytes

unfoldable pub chunk_in_lpns_list : ℕ → ℕ → ℕ → ℕ
chunk_in_lpns_list base log_page_offset chunk =
    base + log_page_offset * chunks_per_page * chunk_addr_bytes + chunk * chunk_addr_bytes

unfoldable pub ow_counter_addr : ℕ → ℕ → ℕ → ℕ
ow_counter_addr bank blk page =
    ow_count_addr + ((bank * log_blk_per_bank + blk) * ow_counters_per_blk + page) * 1

-- Read_log_bmt and Write_log_bmt of ftl_seal/log.c
unfoldable pub log_bmt_slot : ℕ → ℕ → ℕ
log_bmt_slot bank lbn = log_bmt_addr + (bank * log_blk_per_bank + lbn) * 2

-- The entry that get_free_vbn and ret_free_vbn of ftl_seal/blk_management.c address.
unfoldable pub free_bmt_slot : ℕ → ℕ → ℕ
free_bmt_slot bank offset = free_bmt_addr + (bank * free_blk_per_bank + offset) * 2
