-- ===== src/Trim.antt =====
-- What trimRange of ftl_seal/ftl.c does with a chunk.
pub mod Drop
mod Tests
use msst2015_ftl.Base.{ℕ, ◌%◌, update, invalid}
use msst2015_ftl.Base.Run.{Run, ok, ◌>>=◌}
use msst2015_ftl.Params.{chunks_per_page}
use msst2015_ftl.Layout.{chunks_map_table}
use msst2015_ftl.Chunk.{
  ChunkLocation, invalid_chunk, flash_w_log, dram_w_log, dram_ow_log, flash_ow_log,
  find_chunk_location, chunk_to_bank, chunk_to_lbn, clear_ow_bit,
}
use msst2015_ftl.Heap.Ops.{decrement_valid_chunks}
use msst2015_ftl.State.{Ftl, LogBufMeta}

-- logBufMeta[bank].dataLpn[chunk] = INVALID
abbrev pub forget_chunk : (ℕ → LogBufMeta) → ℕ → ℕ → ℕ → LogBufMeta
forget_chunk metas bank chunk =
    update metas bank
      (record (metas bank) { data_lpn = update (metas bank).data_lpn chunk invalid })

-- The switch of trimRange over the place of the old chunk.
unfoldable pub drop_chunk : ChunkLocation → ℕ → Ftl → Run Ftl
drop_chunk invalid_chunk old s = ok s
drop_chunk flash_w_log old s = do
  h ← decrement_valid_chunks s.heap_write (chunk_to_bank old) (chunk_to_lbn old)
  ok (record s { heap_write = h })
drop_chunk dram_w_log old s = ok (record s {
  log_buf_meta = forget_chunk s.log_buf_meta (chunk_to_bank old) (old % chunks_per_page);
})
drop_chunk flash_ow_log old s = do
  let chunk = clear_ow_bit old
  h ← decrement_valid_chunks s.heap_overwrite (chunk_to_bank chunk) (chunk_to_lbn chunk)
  ok (record s { heap_overwrite = h })
drop_chunk dram_ow_log old s =
    let chunk = clear_ow_bit old in
    ok (record s {
      ow_log_buf_meta =
          forget_chunk s.ow_log_buf_meta (chunk_to_bank chunk) (chunk % chunks_per_page);
    })

unfoldable pub trim_chunk : ℕ → ℕ → Ftl → Run Ftl
trim_chunk lpn chunk_idx s = do
  let slot = chunks_map_table lpn chunk_idx
  let old = s.chunk_map slot
  s' ← drop_chunk (find_chunk_location old) old s
  ok (record s' { chunk_map = update s'.chunk_map slot invalid })
