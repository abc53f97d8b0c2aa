-- ===== src/Overwrite/Buffers.antt =====
-- The overwrite counters, the DRAM overwrite buffers and what is mapped to them (ftl_seal/overwrite.c).
use msst2015_ftl.Base.{
  ℕ, zero, suc, ◌+◌, ◌-◌, ◌*◌, ◌/◌, ◌%◌, Bool, true, ◌==◌, ◌&&◌, if◌then◌else◌, update, u8, invalid,
}
use msst2015_ftl.Base.Run.{Run, ok, ◌>>=◌}
use msst2015_ftl.Params.{sectors_per_chunk, bytes_per_chunk, bytes_per_sector}
use msst2015_ftl.Layout.{chunks_map_table, chunk_in_lpns_list, ow_counter_addr}
use msst2015_ftl.Chunk.{
  find_chunk_location, chunk_to_bank, chunk_to_lbn, chunk_to_page_offset, chunk_to_sect_offset,
  chunk_to_chunk_offset, chunk_to_chunk_offset_in_bank, clear_ow_bit, set_ow_bit, log_chunk_addr,
  buffer_chunk_addr,
}
use msst2015_ftl.Heap.Ops.{decrement_valid_chunks}
use msst2015_ftl.Blocks.{get_log_vbn}
use msst2015_ftl.State.{Ftl, LogBufMeta}
use msst2015_ftl.Memory.{ow_log_buf, wr_buf_ptr, mem_copy, mem_set_dram, nand_page_ptread}
use msst2015_ftl.Log.{log_page_to_offset, get_log_lbn, is_flash_ow_log}
use msst2015_ftl.Write.Buffers.{choose_new_bank, set_map, set_list}

-- The number of a low page among those of its block.
unfoldable pub counted_page : ℕ → ℕ
counted_page page_offset = if page_offset == 0 then 0 else (page_offset + 1) / 2

unfoldable pub increase_ow_counter : Ftl → ℕ → ℕ → ℕ → Ftl
increase_ow_counter s bank lbn page_offset =
    let addr = ow_counter_addr bank lbn (counted_page page_offset) in
    record s { ow_counters = update s.ow_counters addr (u8 (s.ow_counters addr + 1)) }

unfoldable pub read_ow_counter : Ftl → ℕ → ℕ → ℕ → ℕ
read_ow_counter s bank lbn page_offset =
    s.ow_counters (ow_counter_addr bank lbn (counted_page page_offset))

unfoldable pub lose_ow_chunk : Ftl → ℕ → ℕ → Run Ftl
lose_ow_chunk s bank lbn = do
  h ← decrement_valid_chunks s.heap_overwrite bank lbn
  ok (record s { heap_overwrite = h })

-- The loop of flushOwLogBuffer over the chunks of the buffer, from `i` on.
unfoldable pub flush_ow_chunks : ℕ → Ftl → ℕ → ℕ → ℕ → Run Ftl
flush_ow_chunks zero s bank log_lpn i = ok s
flush_ow_chunks (suc rounds) s bank log_lpn i = do
  let data_lpn = (s.ow_log_buf_meta bank).data_lpn i
  let chunk_idx = (s.ow_log_buf_meta bank).chunk_idx i
  let listed =
      set_list s (chunk_in_lpns_list (s.ow_ctrl bank).lpns_list_ptr (log_page_to_offset log_lpn) i)
        data_lpn
  s' ←
      if data_lpn == invalid
      then lose_ow_chunk listed bank (get_log_lbn log_lpn)
      else ok (
          set_map listed (chunks_map_table data_lpn chunk_idx)
            (set_ow_bit (log_chunk_addr bank log_lpn i)))
  flush_ow_chunks rounds s' bank log_lpn (i + 1)

unfoldable pub update_ow_dram_buf_metadata : Ftl → ℕ → ℕ → ℕ → Ftl
update_ow_dram_buf_metadata s bank lpn sect_offset =
    let chunk_idx = sect_offset / sectors_per_chunk in
    let ptr = s.ow_chunk_ptr bank in
    let meta : LogBufMeta = record {
      data_lpn = update (s.ow_log_buf_meta bank).data_lpn ptr lpn;
      chunk_idx = update (s.ow_log_buf_meta bank).chunk_idx ptr chunk_idx;
    } in
    set_map (record s { ow_log_buf_meta = update s.ow_log_buf_meta bank meta })
      (chunks_map_table lpn chunk_idx) (set_ow_bit (buffer_chunk_addr bank ptr))

-- The loop of overwriteCompletePageInOwLog.
unfoldable pub map_ow_page : ℕ → Ftl → ℕ → ℕ → ℕ → ℕ → Ftl
map_ow_page zero s bank log_lpn lpn i = s
map_ow_page (suc rounds) s bank log_lpn lpn i =
    let listed =
      set_list s (chunk_in_lpns_list (s.ow_ctrl bank).lpns_list_ptr (log_page_to_offset log_lpn) i)
        lpn in
    map_ow_page rounds
      (set_map listed (chunks_map_table lpn i) (set_ow_bit (log_chunk_addr bank log_lpn i))) bank
      log_lpn lpn (i + 1)

-- The loop of oldVersionIsInOwLogInOrder over the chunks from `i` on.
unfoldable pub in_order_from : ℕ → Ftl → ℕ → ℕ → ℕ → ℕ → Bool
in_order_from zero s lpn i bank chunk_offset_in_bank = true
in_order_from (suc rounds) s lpn i bank chunk_offset_in_bank =
    let addr = s.chunk_map (chunks_map_table lpn i) in
    let chunk = clear_ow_bit addr in
    is_flash_ow_log (find_chunk_location addr)
    && ((chunk_to_bank chunk == bank)
        && ((chunk_to_chunk_offset_in_bank chunk == chunk_offset_in_bank + 1)
            && in_order_from rounds s lpn (i + 1) bank (chunk_offset_in_bank + 1)))

unfoldable pub old_version_is_in_ow_log_in_order : Ftl → ℕ → ℕ → ℕ → Bool
old_version_is_in_ow_log_in_order s lpn sect_offset n_sects =
    let first = sect_offset / sectors_per_chunk in
    let last = (sect_offset + n_sects - 1) / sectors_per_chunk in
    let addr = s.chunk_map (chunks_map_table lpn first) in
    let chunk = clear_ow_bit addr in
    is_flash_ow_log (find_chunk_location addr)
    && ((chunk_to_chunk_offset chunk == first)
        && in_order_from (last - first) s lpn (first + 1) (chunk_to_bank chunk)
            (chunk_to_chunk_offset_in_bank chunk))

-- The place of the next chunk in the overwrite buffer of a bank.
abbrev pub ow_dst : Ftl → ℕ → ℕ
ow_dst s bank = ow_log_buf bank + s.ow_chunk_ptr bank * bytes_per_chunk

unfoldable pub overwrite_complete_chunk_new : Ftl → ℕ → ℕ × Ftl
overwrite_complete_chunk_new s0 sect_offset =
    let (bank, s) = choose_new_bank s0 in
    (
      bank,
      mem_copy s (ow_dst s bank) (wr_buf_ptr s.write_buf_id + sect_offset * bytes_per_sector)
          bytes_per_chunk,
    )

unfoldable pub overwrite_partial_chunk_new : Ftl → ℕ → ℕ → ℕ × Ftl
overwrite_partial_chunk_new s0 sect_offset n =
    let (bank, s) = choose_new_bank s0 in
    let cleared = mem_set_dram s (ow_dst s bank) invalid bytes_per_chunk in
    (
      bank,
      mem_copy cleared (ow_dst s bank + (sect_offset % sectors_per_chunk) * bytes_per_sector)
          (wr_buf_ptr s.write_buf_id + sect_offset * bytes_per_sector) (n * bytes_per_sector),
    )

-- overwritePartialChunkWhenOldChunkIsInWLog and overwritePartialChunkWhenOldChunkIsInExhaustedOWLog
unfoldable pub overwrite_partial_chunk_of_flash : Ftl → ℕ → ℕ → ℕ → ℕ × Ftl
overwrite_partial_chunk_of_flash s0 sect_offset n old =
    let (bank, s) = choose_new_bank s0 in
    let src = wr_buf_ptr s.write_buf_id + sect_offset / sectors_per_chunk * bytes_per_chunk in
    let start = (sect_offset % sectors_per_chunk) * bytes_per_sector in
    let old_bank = chunk_to_bank old in
    let read =
      nand_page_ptread s old_bank (get_log_vbn s.blocks old_bank (chunk_to_lbn old))
        (chunk_to_page_offset old) (chunk_to_sect_offset old) sectors_per_chunk
        (ow_dst s bank - chunk_to_chunk_offset old * bytes_per_chunk) in
    (bank, mem_copy read (ow_dst s bank + start) (src + start) (n * bytes_per_sector))

-- overwriteChunkOldInOwBuf: the sectors are replaced in the buffer.
unfoldable pub overwrite_chunk_old_in_ow_buf : Ftl → ℕ → ℕ → ℕ → Ftl
overwrite_chunk_old_in_ow_buf s sect_offset n chunk =
    mem_copy s
      (ow_log_buf (chunk_to_bank chunk)
        + chunk_to_sect_offset chunk * bytes_per_sector
        + (sect_offset % sectors_per_chunk) * bytes_per_sector)
      (wr_buf_ptr s.write_buf_id + sect_offset * bytes_per_sector) (n * bytes_per_sector)
