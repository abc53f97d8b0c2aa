-- ===== src/Write.antt =====
-- ftl_seal/write.c: a page of the host is written to the page of the RW block of a bank, or chunk by
-- chunk to the DRAM write buffer of a bank, which is flushed to such a page when it is full. The
-- private data of the file (bank_, lpn_, sectOffset_, remainingSects_) are arguments. `collect`
-- stands for garbageCollectLog.
pub mod Buffers
mod Places
mod Fill
pub mod Old
mod Chunk
mod Flush
mod Kept
mod Page
mod ReadBack
mod Partial
mod Turns
mod Tests
use msst2015_ftl.Base.{
  ℕ, zero, suc, ◌+◌, ◌-◌, ◌*◌, ◌/◌, ◌%◌, Bool, ◌==◌, if◌then◌else◌, update, u32, invalid,
}
use msst2015_ftl.Base.Run.{Run, ok, out_of_fuel, ◌>>=◌}
use msst2015_ftl.Params.{
  num_banks, chunks_per_page, sectors_per_chunk, sectors_per_page, bytes_per_chunk,
  bytes_per_sector, log_buf_lpn,
}
use msst2015_ftl.Layout.{chunks_map_table, chunk_in_lpns_list}
use msst2015_ftl.Chunk.{
  ChunkLocation, invalid_chunk, flash_w_log, dram_w_log, dram_ow_log, flash_ow_log,
  find_chunk_location, chunk_to_bank, chunk_to_lbn, chunk_to_page_offset, chunk_to_sect_offset,
  chunk_to_chunk_offset, clear_ow_bit, log_chunk_addr, buffer_chunk_addr,
}
use msst2015_ftl.Heap.Ops.{decrement_valid_chunks}
use msst2015_ftl.Blocks.{get_log_vbn}
use msst2015_ftl.State.{Ftl, LogBufMeta}
use msst2015_ftl.Memory.{
  ftl_buf, log_buf, ow_log_buf, wr_buf_ptr, mem_copy, mem_set_dram, nand_page_ptread,
  nand_page_program, nand_page_ptprogram_from_host, next_write_buf,
}
use msst2015_ftl.Request.{sects_in_chunk}
use msst2015_ftl.Trim.{forget_chunk, drop_chunk}
use msst2015_ftl.Log.{log_page_to_offset, get_log_lbn}
use msst2015_ftl.Log.Steps.{get_sw_lpn, increase_sw_lpn, get_rw_lpn, increase_rw_lpn}
use msst2015_ftl.Read.{gc_mode, rebuild_page_to_ftl_buf}
use msst2015_ftl.Write.Buffers.{
  choose_new_bank, set_map, set_list, lose_chunk, flush_chunks, update_dram_buf_metadata,
  manage_old_chunk, manage_old_chunks, manage_old_complete_page, map_page, write_chunk_new,
  write_partial_chunk_when_old_is_in_w_buf, write_partial_chunk_when_old_is_in_ow_buf,
  write_partial_chunk_when_old_is_in_flash_log,
}

module _ (collect : Ftl → ℕ → Run Ftl) where
  -- flushLogBuffer and flushLogBufferDuringGC
  unfoldable pub flush_log_buffer : Ftl → ℕ → Run Ftl
  flush_log_buffer s bank = do
    got ← get_rw_lpn collect s bank
    let log_lpn = got.0
    let s1 = got.1
    s2 ←
        flush_chunks chunks_per_page
          (nand_page_program s1 bank (get_log_vbn s1.blocks bank (get_log_lbn log_lpn))
            (log_page_to_offset log_lpn) (log_buf bank))
          bank log_lpn 0
    increase_rw_lpn collect s2 bank

  -- updateChunkPtr and updateChunkPtrDuringGC
  unfoldable pub update_chunk_ptr : Ftl → ℕ → Run Ftl
  update_chunk_ptr s bank =
      let ptr = (s.chunk_ptr bank + 1) % chunks_per_page in
      let s' = record s { chunk_ptr = update s.chunk_ptr bank ptr } in
      if ptr == 0 then flush_log_buffer s' bank else ok s'

  unfoldable pub write_chunk_on_log_block_during_gc : Ftl → ℕ → ℕ → ℕ → ℕ → Run Ftl
  write_chunk_on_log_block_during_gc s data_lpn data_chunk_offset chunk_offset_in_buf buf_addr =
      let (bank, s1) = choose_new_bank s in
      let s2 =
        mem_copy s1 (log_buf bank + s1.chunk_ptr bank * bytes_per_chunk)
          (buf_addr + chunk_offset_in_buf * bytes_per_chunk) bytes_per_chunk in
      update_chunk_ptr
        (update_dram_buf_metadata s2 bank data_lpn (data_chunk_offset * sectors_per_chunk)) bank

  unfoldable pub write_complete_page : Ftl → ℕ → ℕ → Run Ftl
  write_complete_page s bank lpn = do
    got ← get_rw_lpn collect s bank
    let log_lpn = got.0
    let s1 =
        nand_page_ptprogram_from_host got.1 bank
          (get_log_vbn got.1.blocks bank (get_log_lbn log_lpn)) (log_page_to_offset log_lpn) 0
          sectors_per_page
    increase_rw_lpn collect (map_page chunks_per_page s1 bank log_lpn lpn 0) bank

  -- A chunk that goes to the write buffer: the buffer is filled by `fill`, and what the old version was
  -- in is told by `leave`.
  abbrev to_write_buf : (Ftl → Ftl) → (Ftl → Run Ftl) → Ftl → ℕ → ℕ → ℕ → Run Ftl
  to_write_buf fill leave s bank lpn sect_offset = do
    s' ← leave (fill s)
    update_chunk_ptr (update_dram_buf_metadata s' bank lpn sect_offset) bank

  -- The switch of writeChunkOld over the place of the old chunk, for `n` sectors of one chunk.
  unfoldable pub write_located_chunk : ChunkLocation → Ftl → ℕ → ℕ → ℕ → ℕ → ℕ → Run Ftl
  write_located_chunk invalid_chunk s bank lpn sect_offset n old =
      to_write_buf (λ t. write_chunk_new t bank sect_offset n) (λ t. ok t) s bank lpn sect_offset
  write_located_chunk flash_w_log s bank lpn sect_offset n old =
      to_write_buf
        (λ t.
          if n == sectors_per_chunk
          then write_chunk_new t bank sect_offset n
          else write_partial_chunk_when_old_is_in_flash_log t bank sect_offset n old)
        (drop_chunk flash_w_log old) s bank lpn sect_offset
  write_located_chunk dram_w_log s bank lpn sect_offset n old =
      ok (write_partial_chunk_when_old_is_in_w_buf s sect_offset n old)
  write_located_chunk dram_ow_log s bank lpn sect_offset n old =
      to_write_buf
        (λ t.
          if n == sectors_per_chunk
          then write_chunk_new t bank sect_offset n
          else write_partial_chunk_when_old_is_in_ow_buf t bank sect_offset n (clear_ow_bit old))
        (drop_chunk dram_ow_log old) s bank lpn sect_offset
  write_located_chunk flash_ow_log s bank lpn sect_offset n old =
      to_write_buf
        (λ t.
          if n == sectors_per_chunk
          then write_chunk_new t bank sect_offset n
          else write_partial_chunk_when_old_is_in_flash_log t bank sect_offset n (clear_ow_bit old))
        (drop_chunk flash_ow_log old) s bank lpn sect_offset

  -- writeChunkOld, for the sectors of the request that are in the chunk of `sect_offset`.
  unfoldable pub write_chunk_old : Ftl → ℕ → ℕ → ℕ → ℕ → Run Ftl
  write_chunk_old s bank lpn sect_offset n =
      let old = s.chunk_map (chunks_map_table lpn (sect_offset / sectors_per_chunk)) in
      write_located_chunk (find_chunk_location old) s bank lpn sect_offset n old

  -- The loop of writePartialPageOld.
  unfoldable pub write_chunks : ℕ → Ftl → ℕ → ℕ → ℕ → ℕ → Run Ftl
  write_chunks zero s bank lpn sect_offset remaining = if remaining == 0 then ok s else out_of_fuel
  write_chunks (suc fuel) s bank lpn sect_offset remaining =
      let n = sects_in_chunk (sect_offset % sectors_per_chunk) remaining in
      let round : Run Ftl = write_chunk_old s bank lpn sect_offset n >>= λ s'.
      write_chunks fuel s' bank lpn (sect_offset + n) (remaining - n) in
      if remaining == 0 then ok s else round

  unfoldable pub write_partial_page_old : Ftl → ℕ → ℕ → ℕ → ℕ → Run Ftl
  write_partial_page_old s bank lpn sect_offset n_sects = do
    s' ← write_chunks n_sects s bank lpn sect_offset n_sects
    ok (next_write_buf s')

  -- The first loop of appendPageToSWBlock, over the chunks before the new data.
  unfoldable pub append_old_chunks : ℕ → Ftl → ℕ → ℕ → ℕ → ℕ → Run Ftl
  append_old_chunks zero s bank log_lpn lpn i = ok s
  append_old_chunks (suc rounds) s bank log_lpn lpn i = do
    let slot = chunks_map_table lpn i
    let entry = chunk_in_lpns_list (s.sw_ctrl bank).lpns_list_ptr (log_page_to_offset log_lpn) i
    s' ←
        if s.chunk_map slot == invalid
        then lose_chunk (set_list s entry invalid) bank (get_log_lbn log_lpn)
        else ok (set_map (set_list s entry lpn) slot (log_chunk_addr bank log_lpn i))
    append_old_chunks rounds s' bank log_lpn lpn (i + 1)

  -- The second loop, over the chunks of the new data.
  unfoldable pub append_new_chunks : ℕ → Ftl → ℕ → ℕ → ℕ → ℕ → Ftl
  append_new_chunks zero s bank log_lpn lpn i = s
  append_new_chunks (suc rounds) s bank log_lpn lpn i =
      let entry =
        chunk_in_lpns_list (s.sw_ctrl bank).lpns_list_ptr (log_page_to_offset log_lpn) i in
      append_new_chunks rounds
        (set_map (set_list s entry lpn) (chunks_map_table lpn i) (log_chunk_addr bank log_lpn i))
        bank log_lpn lpn (i + 1)

  unfoldable pub append_page_to_sw_block : Ftl → ℕ → ℕ → ℕ → Run Ftl
  append_page_to_sw_block s bank lpn sect_offset = do
    got ← get_sw_lpn collect s bank
    let log_lpn = got.0
    s1 ← rebuild_page_to_ftl_buf got.1 lpn 0 sectors_per_page gc_mode
    let s2 =
        mem_copy s1 (ftl_buf 0 + sect_offset * bytes_per_sector)
          (wr_buf_ptr got.1.write_buf_id + sect_offset * bytes_per_sector)
          ((sectors_per_page - sect_offset) * bytes_per_sector)
    let s3 =
        nand_page_program s2 bank (get_log_vbn got.1.blocks bank (get_log_lbn log_lpn))
          (log_page_to_offset log_lpn) (ftl_buf 0)
    let old = sect_offset / sectors_per_chunk
    s4 ← append_old_chunks old s3 bank log_lpn lpn 0
    let s5 = append_new_chunks (chunks_per_page - old) s4 bank log_lpn lpn old
    s6 ←
        increase_sw_lpn
          (record s5 {
            sw_ctrl =
                update s5.sw_ctrl bank (record (s5.sw_ctrl bank) { next_data_lpn = u32 (lpn + 1) });
          })
          bank
    ok (next_write_buf s6)

  -- The write of a page or a part of it to a bank that is chosen in turn.
  unfoldable pub write_to_new_bank : ℕ → ℕ → ℕ → Ftl → Run Ftl
  write_to_new_bank lpn sect_offset n_sects s =
      let (bank, s1) = choose_new_bank s in
      let whole : Run Ftl =
        manage_old_complete_page s1 lpn >>= λ s2. write_complete_page s2 bank lpn in
      if n_sects == sectors_per_page
      then whole
      else write_partial_page_old s1 bank lpn sect_offset n_sects

  -- The loop of writeToLogBlk over the banks, from `bank` on: the page may follow the last one of an SW
  -- block.
  unfoldable pub find_sw_block : ℕ → ℕ → ℕ → ℕ → ℕ → Ftl → Run Ftl
  find_sw_block zero bank lpn sect_offset n_sects s = write_to_new_bank lpn sect_offset n_sects s
  find_sw_block (suc rounds) bank lpn sect_offset n_sects s =
      let next = find_sw_block rounds (bank + 1) lpn sect_offset n_sects s in
      if (s.sw_ctrl bank).next_data_lpn == lpn
      then append_page_to_sw_block s bank lpn sect_offset
      else next

  unfoldable pub write_to_log_blk : ℕ → ℕ → ℕ → Ftl → Run Ftl
  write_to_log_blk lpn sect_offset n_sects s =
      if u32 (sect_offset + n_sects) == sectors_per_page
      then find_sw_block num_banks 0 lpn sect_offset n_sects s
      else write_to_new_bank lpn sect_offset n_sects s
