-- ===== src/Overwrite.antt =====
-- ftl_seal/overwrite.c: a page or a part of it is overwritten in place in the low pages of the
-- overwrite log, as often as the counter of the flash page allows, or goes to the page of the OW block
-- of a bank, or chunk by chunk to the DRAM overwrite buffer of a bank. The private data of the file
-- (bank_, lpn_, sectOffset_, remainingSects_) are arguments; a function that chooses a bank returns it.
-- Waiting for a bank (lastBankUsingFtlBuf1) is left out.
pub mod Buffers
mod InPlace
mod InOrder
mod Tests
use msst2015_ftl.Base.{
  ℕ, zero, suc, ◌+◌, ◌-◌, ◌*◌, ◌/◌, ◌%◌, Bool, true, false, ltb, ◌==◌, ◌&&◌, not, if◌then◌else◌,
  update, u8, u16, invalid,
}
use msst2015_ftl.Base.Run.{Run, ok, hang, out_of_fuel, ◌>>=◌}
use msst2015_ftl.Params.{
  chunks_per_page, sectors_per_chunk, sectors_per_page, bytes_per_chunk, bytes_per_sector, ow_limit,
}
use msst2015_ftl.Layout.{chunks_map_table, chunk_in_lpns_list, ow_counter_addr}
use msst2015_ftl.Chunk.{
  ChunkLocation, invalid_chunk, flash_w_log, dram_w_log, dram_ow_log, flash_ow_log,
  find_chunk_location, chunk_to_bank, chunk_to_lbn, chunk_to_page_offset, chunk_to_sect_offset,
  chunk_to_chunk_offset, chunk_to_chunk_offset_in_bank, clear_ow_bit, set_ow_bit, log_chunk_addr,
  buffer_chunk_addr,
}
use msst2015_ftl.Heap.Ops.{decrement_valid_chunks, decrement_valid_chunks_by_n}
use msst2015_ftl.Blocks.{get_log_vbn}
use msst2015_ftl.State.{Ftl, LogBufMeta}
use msst2015_ftl.Memory.{
  ftl_buf, log_buf, ow_log_buf, wr_buf_ptr, mem_copy, mem_set_dram, nand_page_ptread,
  nand_page_program, nand_page_ptprogram, nand_page_ptprogram_from_host,
  nand_page_reprogram_from_host, next_write_buf,
}
use msst2015_ftl.Request.{sects_in_chunk}
use msst2015_ftl.Trim.{forget_chunk, drop_chunk}
use msst2015_ftl.Log.{log_page_to_offset, get_log_lbn, is_flash_ow_log}
use msst2015_ftl.Log.Steps.{get_ow_lpn, increase_ow_lpn}
use msst2015_ftl.Write.Buffers.{choose_new_bank, set_map, set_list, manage_old_complete_page}
use msst2015_ftl.Overwrite.Buffers.{
  counted_page, increase_ow_counter, read_ow_counter, lose_ow_chunk, flush_ow_chunks,
  update_ow_dram_buf_metadata, map_ow_page, in_order_from, old_version_is_in_ow_log_in_order,
  ow_dst, overwrite_complete_chunk_new, overwrite_partial_chunk_new,
  overwrite_partial_chunk_of_flash, overwrite_chunk_old_in_ow_buf,
}

module _ (collect : Ftl → ℕ → Run Ftl) where
  unfoldable pub flush_ow_log_buffer : Ftl → ℕ → Run Ftl
  flush_ow_log_buffer s bank = do
    got ← get_ow_lpn collect s bank
    let log_lpn = got.0
    let s1 = got.1
    let lbn = get_log_lbn log_lpn
    let page = log_page_to_offset log_lpn
    let programmed =
        nand_page_program s1 bank (get_log_vbn s1.blocks bank lbn) page (ow_log_buf bank)
    let flush : Run Ftl = do
      s2 ←
          flush_ow_chunks chunks_per_page (increase_ow_counter programmed bank lbn page) bank
            log_lpn 0
      increase_ow_lpn collect s2 bank
    if log_lpn == invalid then hang else flush

  unfoldable pub update_ow_chunk_ptr : Ftl → ℕ → Run Ftl
  update_ow_chunk_ptr s bank =
      let ptr = (s.ow_chunk_ptr bank + 1) % chunks_per_page in
      let s' = record s { ow_chunk_ptr = update s.ow_chunk_ptr bank ptr } in
      if ptr == 0 then flush_ow_log_buffer s' bank else ok s'

  -- A chunk is in its place in the overwrite buffer of a bank.
  abbrev buffered : ℕ × Ftl → ℕ → ℕ → Run Ftl
  buffered filled lpn sect_offset =
      update_ow_chunk_ptr (update_ow_dram_buf_metadata filled.1 filled.0 lpn sect_offset) filled.0

  unfoldable pub overwrite_complete_page_in_ow_log : Ftl → ℕ → Run Ftl
  overwrite_complete_page_in_ow_log s0 lpn = do
    let (bank, s) = choose_new_bank s0
    s1 ← manage_old_complete_page s lpn
    got ← get_ow_lpn collect s1 bank
    let log_lpn = got.0
    let lbn = get_log_lbn log_lpn
    let page = log_page_to_offset log_lpn
    let s2 =
        nand_page_ptprogram_from_host got.1 bank (get_log_vbn got.1.blocks bank lbn) page 0
          sectors_per_page
    increase_ow_lpn collect
        (map_ow_page chunks_per_page (increase_ow_counter s2 bank lbn page) bank log_lpn lpn 0) bank

  unfoldable pub overwrite_chunk_new : Ftl → ℕ → ℕ → ℕ → Run Ftl
  overwrite_chunk_new s lpn sect_offset n =
      let whole =
        (sect_offset % sectors_per_chunk == 0) && ((sect_offset + n) % sectors_per_chunk == 0) in
      buffered
        (if whole
          then overwrite_complete_chunk_new s sect_offset
          else overwrite_partial_chunk_new s sect_offset n)
        lpn sect_offset

  unfoldable pub overwrite_chunk_old_in_w_log : Ftl → ℕ → ℕ → ℕ → ℕ → Run Ftl
  overwrite_chunk_old_in_w_log s lpn sect_offset n chunk = do
    let filled =
        if n == sectors_per_chunk
        then overwrite_complete_chunk_new s sect_offset
        else overwrite_partial_chunk_of_flash s sect_offset n chunk
    s' ← drop_chunk flash_w_log chunk filled.1
    buffered (filled.0, s') lpn sect_offset

  -- The new sectors, and the holes left and right of them from the write buffer.
  unfoldable pub overwrite_chunk_old_in_w_buf : Ftl → ℕ → ℕ → ℕ → ℕ → Run Ftl
  overwrite_chunk_old_in_w_buf s0 lpn sect_offset n chunk =
      let (bank, s) = choose_new_bank s0 in
      let src_bank = chunk_to_bank chunk in
      let src_chunk_idx = chunk_to_chunk_offset chunk in
      let left = (sect_offset % sectors_per_chunk) * bytes_per_sector in
      let end = (sect_offset % sectors_per_chunk + n) * bytes_per_sector in
      let w_buf_addr = log_buf src_bank + src_chunk_idx * bytes_per_chunk in
      let ow_buf_addr = ow_dst s bank in
      let s1 =
        mem_copy s (ow_buf_addr + left) (wr_buf_ptr s.write_buf_id + sect_offset * bytes_per_sector)
          (n * bytes_per_sector) in
      let s2 = if ltb 0 left then mem_copy s1 ow_buf_addr w_buf_addr left else s1 in
      let right = bytes_per_chunk - end in
      let s3 =
        if ltb 0 right then mem_copy s2 (ow_buf_addr + end) (w_buf_addr + end) right else s2 in
      buffered
        (bank, record s3 { log_buf_meta = forget_chunk s3.log_buf_meta src_bank src_chunk_idx }) lpn
        sect_offset

  unfoldable pub overwrite_chunk_old_in_ow_log : Ftl → ℕ → ℕ → ℕ → ℕ → Run Ftl
  overwrite_chunk_old_in_ow_log s lpn sect_offset n chunk =
      let bank = chunk_to_bank chunk in
      let lbn = chunk_to_lbn chunk in
      let page = chunk_to_page_offset chunk in
      let sect = chunk_to_sect_offset chunk + sect_offset % sectors_per_chunk in
      let copied =
        mem_copy s (ftl_buf 1 + sect_offset * bytes_per_sector)
          (wr_buf_ptr s.write_buf_id + sect_offset * bytes_per_sector) (n * bytes_per_sector) in
      let programmed =
        nand_page_ptprogram copied bank (get_log_vbn s.blocks bank lbn) page sect n
          (ftl_buf 1 + sect_offset * bytes_per_sector - sect * bytes_per_sector) in
      let moved : Run Ftl = do
        s1 ← lose_ow_chunk s bank lbn
        buffered
            (if n == sectors_per_chunk
              then overwrite_complete_chunk_new s1 sect_offset
              else overwrite_partial_chunk_of_flash s1 sect_offset n chunk)
            lpn sect_offset
      in if ltb (read_ow_counter s bank lbn page) ow_limit
        then ok (increase_ow_counter programmed bank lbn page)
        else moved

  -- The switch of overwritePartialPageOldNotInOrder, for `n` sectors of one chunk.
  unfoldable pub overwrite_located_chunk : ChunkLocation → Ftl → ℕ → ℕ → ℕ → ℕ → Run Ftl
  overwrite_located_chunk invalid_chunk s lpn sect_offset n addr =
      overwrite_chunk_new s lpn sect_offset n
  overwrite_located_chunk flash_w_log s lpn sect_offset n addr =
      overwrite_chunk_old_in_w_log s lpn sect_offset n addr
  overwrite_located_chunk dram_w_log s lpn sect_offset n addr =
      overwrite_chunk_old_in_w_buf s lpn sect_offset n addr
  overwrite_located_chunk dram_ow_log s lpn sect_offset n addr =
      ok (overwrite_chunk_old_in_ow_buf s sect_offset n (clear_ow_bit addr))
  overwrite_located_chunk flash_ow_log s lpn sect_offset n addr =
      overwrite_chunk_old_in_ow_log s lpn sect_offset n (clear_ow_bit addr)

  -- Its loop.
  unfoldable pub overwrite_chunks : ℕ → Ftl → ℕ → ℕ → ℕ → Run Ftl
  overwrite_chunks zero s lpn sect_offset remaining = if remaining == 0 then ok s else out_of_fuel
  overwrite_chunks (suc fuel) s lpn sect_offset remaining =
      let n = sects_in_chunk (sect_offset % sectors_per_chunk) remaining in
      let addr = s.chunk_map (chunks_map_table lpn (sect_offset / sectors_per_chunk)) in
      let round : Run Ftl =
        overwrite_located_chunk (find_chunk_location addr) s lpn sect_offset n addr >>= λ s'.
        overwrite_chunks fuel s' lpn (sect_offset + n) (remaining - n) in
      if remaining == 0 then ok s else round

  unfoldable pub overwrite_partial_page_old_not_in_order : Ftl → ℕ → ℕ → ℕ → Run Ftl
  overwrite_partial_page_old_not_in_order s lpn sect_offset n_sects = do
    s' ← overwrite_chunks n_sects s lpn sect_offset n_sects
    ok (next_write_buf s')

  -- The loop of overwritePageOldInOrderInOwLog, and how often it went round.
  unfoldable pub move_chunks : ℕ → Ftl → ℕ → ℕ → ℕ → ℕ → Run (ℕ × Ftl)
  move_chunks zero s lpn sect_offset remaining moved =
      if remaining == 0 then ok (moved, s) else out_of_fuel
  move_chunks (suc fuel) s lpn sect_offset remaining moved =
      let n = sects_in_chunk (sect_offset % sectors_per_chunk) remaining in
      let old =
        clear_ow_bit (s.chunk_map (chunks_map_table lpn (sect_offset / sectors_per_chunk))) in
      let round : Run (ℕ × Ftl) =
        buffered
          (if n == sectors_per_chunk
            then overwrite_complete_chunk_new s sect_offset
            else overwrite_partial_chunk_of_flash s sect_offset n old)
          lpn sect_offset
        >>= λ s'. move_chunks fuel s' lpn (sect_offset + n) (remaining - n) (u16 (moved + 1)) in
      if remaining == 0 then ok (moved, s) else round

  unfoldable pub overwrite_page_old_in_order_in_ow_log : Ftl → ℕ → ℕ → ℕ → Run Ftl
  overwrite_page_old_in_order_in_ow_log s lpn sect_offset n_sects =
      let chunk =
        clear_ow_bit (s.chunk_map (chunks_map_table lpn (sect_offset / sectors_per_chunk))) in
      let bank = chunk_to_bank chunk in
      let lbn = chunk_to_lbn chunk in
      let page = chunk_to_page_offset chunk in
      let in_place =
        increase_ow_counter
          (nand_page_reprogram_from_host s bank (get_log_vbn s.blocks bank lbn) page sect_offset
            n_sects)
          bank lbn page in
      let moved : Run Ftl = do
        let (_, s1) = choose_new_bank s
        done ← move_chunks n_sects s1 lpn sect_offset n_sects 0
        h ← decrement_valid_chunks_by_n done.1.heap_overwrite bank lbn done.0
        ok (next_write_buf (record done.1 { heap_overwrite = h }))
      in if ltb (read_ow_counter s bank lbn page) ow_limit
        then ok in_place
        else if n_sects == sectors_per_page
        then overwrite_complete_page_in_ow_log s lpn
        else moved

  -- overwriteToLogBlk, with overwriteCompletePageOld and overwritePartialPageOld.
  unfoldable pub overwrite_to_log_blk : ℕ → ℕ → ℕ → Ftl → Run Ftl
  overwrite_to_log_blk lpn sect_offset n_sects s =
      if old_version_is_in_ow_log_in_order s lpn sect_offset n_sects
      then overwrite_page_old_in_order_in_ow_log s lpn sect_offset n_sects
      else if n_sects == sectors_per_page
      then overwrite_complete_page_in_ow_log s lpn
      else overwrite_partial_page_old_not_in_order s lpn sect_offset n_sects
