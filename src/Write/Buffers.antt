-- ===== src/Write/Buffers.antt =====
-- The choice of a bank, the DRAM write buffers and what is mapped to them (ftl_seal/write.c).
use msst2015_ftl.Base.{ℕ, zero, suc, ◌+◌, ◌-◌, ◌*◌, ◌/◌, ◌%◌, ◌==◌, if◌then◌else◌, update, invalid}
use msst2015_ftl.Base.Run.{Run, ok, ◌>>=◌}
use msst2015_ftl.Params.{
  num_banks, chunks_per_page, sectors_per_chunk, bytes_per_chunk, bytes_per_sector,
}
use msst2015_ftl.Layout.{chunks_map_table, chunk_in_lpns_list}
use msst2015_ftl.Chunk.{
  find_chunk_location, chunk_to_bank, chunk_to_lbn, chunk_to_page_offset, chunk_to_sect_offset,
  chunk_to_chunk_offset, log_chunk_addr, buffer_chunk_addr,
}
use msst2015_ftl.Heap.Ops.{decrement_valid_chunks}
use msst2015_ftl.Blocks.{get_log_vbn}
use msst2015_ftl.State.{Ftl, LogBufMeta}
use msst2015_ftl.Memory.{log_buf, ow_log_buf, wr_buf_ptr, mem_copy, mem_set_dram, nand_page_ptread}
use msst2015_ftl.Trim.{drop_chunk}
use msst2015_ftl.Log.{log_page_to_offset, get_log_lbn}

-- The bank that is chosen is the new referenceBank.
unfoldable pub choose_new_bank : Ftl → ℕ × Ftl
choose_new_bank s =
    let bank = (s.reference_bank + 1) % num_banks in (bank, record s { reference_bank = bank })

unfoldable pub set_map : Ftl → ℕ → ℕ → Ftl
set_map s slot addr = record s { chunk_map = update s.chunk_map slot addr }

-- An entry of the list of page numbers.
unfoldable pub set_list : Ftl → ℕ → ℕ → Ftl
set_list s addr lpn = record s { lpns_lists = update s.lpns_lists addr lpn }

unfoldable pub lose_chunk : Ftl → ℕ → ℕ → Run Ftl
lose_chunk s bank lbn = do
  h ← decrement_valid_chunks s.heap_write bank lbn
  ok (record s { heap_write = h })

-- The loop of flushLogBuffer over the chunks of the buffer, from `i` on: a chunk that is still wanted
-- is mapped to the page `log_lpn`, of another one the block loses a valid chunk.
unfoldable pub flush_chunks : ℕ → Ftl → ℕ → ℕ → ℕ → Run Ftl
flush_chunks zero s bank log_lpn i = ok s
flush_chunks (suc rounds) s bank log_lpn i = do
  let data_lpn = (s.log_buf_meta bank).data_lpn i
  let chunk_idx = (s.log_buf_meta bank).chunk_idx i
  let listed =
      set_list s (chunk_in_lpns_list (s.rw_ctrl bank).lpns_list_ptr (log_page_to_offset log_lpn) i)
        data_lpn
  s' ←
      if data_lpn == invalid
      then lose_chunk listed bank (get_log_lbn log_lpn)
      else ok (set_map listed (chunks_map_table data_lpn chunk_idx) (log_chunk_addr bank log_lpn i))
  flush_chunks rounds s' bank log_lpn (i + 1)

-- updateDramBufMetadata and updateDramBufMetadataDuringGc
unfoldable pub update_dram_buf_metadata : Ftl → ℕ → ℕ → ℕ → Ftl
update_dram_buf_metadata s bank lpn sect_offset =
    let chunk_idx = sect_offset / sectors_per_chunk in
    let ptr = s.chunk_ptr bank in
    let meta : LogBufMeta = record {
      data_lpn = update (s.log_buf_meta bank).data_lpn ptr lpn;
      chunk_idx = update (s.log_buf_meta bank).chunk_idx ptr chunk_idx;
    } in
    set_map (record s { log_buf_meta = update s.log_buf_meta bank meta })
      (chunks_map_table lpn chunk_idx) (buffer_chunk_addr bank ptr)

-- manageOldChunkForCompletePageWrite: what the old version of a chunk leaves behind.
unfoldable pub manage_old_chunk : Ftl → ℕ → ℕ → Run Ftl
manage_old_chunk s lpn chunk_idx =
    let old = s.chunk_map (chunks_map_table lpn chunk_idx) in
    drop_chunk (find_chunk_location old) old s

unfoldable pub manage_old_chunks : ℕ → Ftl → ℕ → ℕ → Run Ftl
manage_old_chunks zero s lpn chunk_idx = ok s
manage_old_chunks (suc rounds) s lpn chunk_idx = do
  s' ← manage_old_chunk s lpn chunk_idx
  manage_old_chunks rounds s' lpn (chunk_idx + 1)

unfoldable pub manage_old_complete_page : Ftl → ℕ → Run Ftl
manage_old_complete_page s lpn = manage_old_chunks chunks_per_page s lpn 0

-- The loop of writeCompletePage.
unfoldable pub map_page : ℕ → Ftl → ℕ → ℕ → ℕ → ℕ → Ftl
map_page zero s bank log_lpn lpn i = s
map_page (suc rounds) s bank log_lpn lpn i =
    let listed =
      set_list s (chunk_in_lpns_list (s.rw_ctrl bank).lpns_list_ptr (log_page_to_offset log_lpn) i)
        lpn in
    map_page rounds (set_map listed (chunks_map_table lpn i) (log_chunk_addr bank log_lpn i)) bank
      log_lpn lpn (i + 1)

-- writeChunkNew
unfoldable pub write_chunk_new : Ftl → ℕ → ℕ → ℕ → Ftl
write_chunk_new s bank sect_offset n_sects =
    let src = wr_buf_ptr s.write_buf_id + sect_offset * bytes_per_sector in
    let dst = log_buf bank + s.chunk_ptr bank * bytes_per_chunk in
    let s' =
      if n_sects == sectors_per_chunk then s else mem_set_dram s dst invalid bytes_per_chunk in
    mem_copy s' (dst + (sect_offset % sectors_per_chunk) * bytes_per_sector) src
      (n_sects * bytes_per_sector)

-- writePartialChunkWhenOldIsInWBuf: the sectors are replaced in the buffer.
unfoldable pub write_partial_chunk_when_old_is_in_w_buf : Ftl → ℕ → ℕ → ℕ → Ftl
write_partial_chunk_when_old_is_in_w_buf s sect_offset n_sects old =
    let dst = log_buf (chunk_to_bank old) + chunk_to_sect_offset old * bytes_per_sector in
    let src = wr_buf_ptr s.write_buf_id + sect_offset / sectors_per_chunk * bytes_per_chunk in
    let start = (sect_offset % sectors_per_chunk) * bytes_per_sector in
    mem_copy s (dst + start) (src + start) (n_sects * bytes_per_sector)

unfoldable pub write_partial_chunk_when_old_is_in_ow_buf : Ftl → ℕ → ℕ → ℕ → ℕ → Ftl
write_partial_chunk_when_old_is_in_ow_buf s bank sect_offset n_sects old =
    let dst = log_buf bank + s.chunk_ptr bank * bytes_per_chunk in
    let ow_src = ow_log_buf (chunk_to_bank old) + chunk_to_sect_offset old * bytes_per_sector in
    let src = wr_buf_ptr s.write_buf_id + sect_offset / sectors_per_chunk * bytes_per_chunk in
    let start = (sect_offset % sectors_per_chunk) * bytes_per_sector in
    mem_copy (mem_copy s dst ow_src bytes_per_chunk) (dst + start) (src + start)
      (n_sects * bytes_per_sector)

unfoldable pub write_partial_chunk_when_old_is_in_flash_log : Ftl → ℕ → ℕ → ℕ → ℕ → Ftl
write_partial_chunk_when_old_is_in_flash_log s bank sect_offset n_sects old =
    let dst = log_buf bank + s.chunk_ptr bank * bytes_per_chunk in
    let src = wr_buf_ptr s.write_buf_id + sect_offset / sectors_per_chunk * bytes_per_chunk in
    let start = (sect_offset % sectors_per_chunk) * bytes_per_sector in
    let old_bank = chunk_to_bank old in
    let read =
      nand_page_ptread s old_bank (get_log_vbn s.blocks old_bank (chunk_to_lbn old))
        (chunk_to_page_offset old) (chunk_to_sect_offset old) sectors_per_chunk
        (dst - chunk_to_chunk_offset old * bytes_per_chunk) in
    mem_copy read (dst + start) (src + start) (n_sects * bytes_per_sector)
