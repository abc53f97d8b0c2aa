-- ===== src/Read.antt =====
-- ftl_seal/read.c: a page of the host is put together in FTL_BUF(0), and sent from there to a read
-- buffer. Chunks that lie in one flash page are read together. The private data of the file live as
-- long as a call of rebuildPageToFtlBuf: lpn_, mode_, lastChunk_ and chunkIdx_ are arguments here.
pub mod Bytes
mod Step
mod Gather
mod Flash
mod Rebuild
pub mod Sends
mod Tests
use msst2015_ftl.Base.{
  ℕ, zero, suc, ◌+◌, ◌-◌, ◌*◌, ◌/◌, ◌%◌, Bool, true, false, ltb, ◌==◌, ◌&&◌, if◌then◌else◌, update,
  invalid, List, [], ◌∷◌, ◌++◌, length,
}
use msst2015_ftl.Base.Run.{Run, ok, stray, ◌>>=◌}
use msst2015_ftl.Params.{
  chunks_per_page, sectors_per_chunk, sectors_per_page, bytes_per_chunk, bytes_per_sector,
}
use msst2015_ftl.Layout.{chunks_map_table, temp_buf_addr, num_rd_buffers}
use msst2015_ftl.Chunk.{
  ChunkLocation, invalid_chunk, flash_w_log, dram_w_log, dram_ow_log, flash_ow_log,
  find_chunk_location, chunk_to_bank, chunk_to_lbn, chunk_to_page_offset, chunk_to_sect_offset,
  clear_ow_bit,
}
use msst2015_ftl.Heap.Ops.{decrement_valid_chunks}
use msst2015_ftl.Blocks.{get_log_vbn}
use msst2015_ftl.State.{Ftl}
use msst2015_ftl.Memory.{
  ftl_buf, log_buf, ow_log_buf, rd_buf_ptr, mem_copy, mem_set_dram, nand_page_ptread,
}
use msst2015_ftl.Trim.{forget_chunk}

pub data Mode : Type 0 where
  gc_mode read_mode : Mode

-- The state, and chunksDone_.
pub record Reading : Type 0 where
  pub ftl : Ftl
  pub chunks_done : ℕ → Bool

-- An entry of srcChunkByteOffsets, chunkIdxs and decreaseInOW.
pub record Part : Type 0 where
  pub offset : ℕ
  pub idx : ℕ
  pub in_ow : Bool

unfoldable pub chunks_in_same_flash_page : ℕ → ℕ → Bool
chunks_in_same_flash_page a b =
    (chunk_to_bank a == chunk_to_bank b)
    && ((chunk_to_lbn a == chunk_to_lbn b) && (chunk_to_page_offset a == chunk_to_page_offset b))

-- The place of a chunk in FTL_BUF(0).
abbrev pub chunk_dst : ℕ → ℕ
chunk_dst idx = ftl_buf 0 + idx * bytes_per_chunk

unfoldable pub chunk_invalid : Ftl → ℕ → Ftl
chunk_invalid s idx = mem_set_dram s (chunk_dst idx) invalid bytes_per_chunk

unfoldable pub chunk_in_w_dram_buf : Mode → Ftl → ℕ → ℕ → Ftl
chunk_in_w_dram_buf mode s idx old =
    let bank = chunk_to_bank old in
    let s' =
      mem_copy s (chunk_dst idx) (log_buf bank + chunk_to_sect_offset old * bytes_per_sector)
        bytes_per_chunk in
    elim mode [
      | read_mode ↦ s'
      | gc_mode ↦ record s' {
        log_buf_meta = forget_chunk s'.log_buf_meta bank (old % chunks_per_page);
      }
    ]

unfoldable pub chunk_in_ow_dram_buf : Mode → Ftl → ℕ → ℕ → Ftl
chunk_in_ow_dram_buf mode s idx old =
    let bank = chunk_to_bank old in
    let s' =
      mem_copy s (chunk_dst idx) (ow_log_buf bank + chunk_to_sect_offset old * bytes_per_sector)
        bytes_per_chunk in
    elim mode [
      | read_mode ↦ s'
      | gc_mode ↦ record s' {
        ow_log_buf_meta = forget_chunk s'.ow_log_buf_meta bank (old % chunks_per_page);
      }
    ]

-- In GcMode, the block that the chunk is taken from loses a valid chunk.
unfoldable pub count_out : Mode → Bool → Ftl → ℕ → Run Ftl
count_out read_mode in_ow s old = ok s
count_out gc_mode true s old = do
  h ← decrement_valid_chunks s.heap_overwrite (chunk_to_bank old) (chunk_to_lbn old)
  ok (record s { heap_overwrite = h })
count_out gc_mode false s old = do
  h ← decrement_valid_chunks s.heap_write (chunk_to_bank old) (chunk_to_lbn old)
  ok (record s { heap_write = h })

-- The switch of setupFlashPageRead: what chunk `i`, of address `next`, adds to the arrays.
unfoldable pub gather_chunk : ChunkLocation → ℕ → ℕ → ℕ → List Part
gather_chunk invalid_chunk old next i = []
gather_chunk flash_w_log old next i =
    if chunks_in_same_flash_page old next
    then (record { offset = chunk_to_sect_offset next * bytes_per_sector; idx = i; in_ow = false }
        ∷ [])
    else []
gather_chunk dram_w_log old next i = []
gather_chunk dram_ow_log old next i = []
gather_chunk flash_ow_log old next i =
    let chunk = clear_ow_bit next in
    if chunks_in_same_flash_page old chunk
    then (record { offset = chunk_to_sect_offset chunk * bytes_per_sector; idx = i; in_ow = true }
        ∷ [])
    else []

-- The loop of setupFlashPageRead over the chunks from `i` on, of which `rounds` are left.
unfoldable pub setup_flash_page_read : ℕ → Reading → ℕ → ℕ → ℕ → List Part
setup_flash_page_read zero r lpn old i = []
setup_flash_page_read (suc rounds) r lpn old i =
    let next = r.ftl.chunk_map (chunks_map_table lpn i) in
    (if r.chunks_done i then [] else gather_chunk (find_chunk_location next) old next i)
    ++ setup_flash_page_read rounds r lpn old (i + 1)

-- The loop of readCompletePage.
unfoldable pub copy_parts : Mode → Reading → ℕ → List Part → Run Reading
copy_parts mode r old [] = ok r
copy_parts mode r old (p ∷ ps) = do
  s ←
      count_out mode p.in_ow
        (mem_copy r.ftl (chunk_dst p.idx) (temp_buf_addr + p.offset) bytes_per_chunk) old
  copy_parts mode (record { ftl = s; chunks_done = update r.chunks_done p.idx true }) old ps

unfoldable pub read_complete_page : Mode → Reading → ℕ → List Part → Run Reading
read_complete_page mode r old parts =
    let bank = chunk_to_bank old in
    let s =
      nand_page_ptread r.ftl bank (get_log_vbn r.ftl.blocks bank (chunk_to_lbn old))
        (chunk_to_page_offset old) 0 sectors_per_page temp_buf_addr in
    copy_parts mode (record r { ftl = s }) old parts

unfoldable pub read_one_chunk : Mode → Reading → ℕ → Part → Run Reading
read_one_chunk mode r old p = do
  let bank = chunk_to_bank old
  s ←
      count_out mode p.in_ow
        (nand_page_ptread r.ftl bank (get_log_vbn r.ftl.blocks bank (chunk_to_lbn old))
          (chunk_to_page_offset old) (p.offset / bytes_per_sector) sectors_per_chunk
          (chunk_dst p.idx - p.offset))
        old
  ok (record r { ftl = s })

-- chunkInFlashLog: with more than two chunks of the page to read, the whole page is read.
unfoldable pub chunk_in_flash_log : Mode → Bool → Reading → ℕ → ℕ → ℕ → ℕ → Run Reading
chunk_in_flash_log mode in_ow r lpn last_chunk idx old =
    let first : Part = record {
      offset = chunk_to_sect_offset old * bytes_per_sector;
      idx = idx;
      in_ow = in_ow;
    } in
    let others = setup_flash_page_read (last_chunk - (idx + 1)) r lpn old (idx + 1) in
    if ltb 2 (length (first ∷ others))
    then read_complete_page mode r old (first ∷ others)
    else read_one_chunk mode r old first

-- The switch of rebuildPageToFtlBuf.
unfoldable pub rebuild_chunk : ChunkLocation → Mode → Reading → ℕ → ℕ → ℕ → ℕ → Run Reading
rebuild_chunk invalid_chunk mode r lpn last_chunk idx old =
    ok (record r { ftl = chunk_invalid r.ftl idx })
rebuild_chunk flash_w_log mode r lpn last_chunk idx old =
    chunk_in_flash_log mode false r lpn last_chunk idx old
rebuild_chunk dram_w_log mode r lpn last_chunk idx old =
    ok (record r { ftl = chunk_in_w_dram_buf mode r.ftl idx old })
rebuild_chunk dram_ow_log mode r lpn last_chunk idx old =
    ok (record r { ftl = chunk_in_ow_dram_buf mode r.ftl idx (clear_ow_bit old) })
rebuild_chunk flash_ow_log mode r lpn last_chunk idx old =
    chunk_in_flash_log mode true r lpn last_chunk idx (clear_ow_bit old)

-- Its loop, from chunk `idx` on, with `rounds` chunks left.
unfoldable pub rebuild_loop : ℕ → Mode → Reading → ℕ → ℕ → ℕ → Run Reading
rebuild_loop zero mode r lpn last_chunk idx = ok r
rebuild_loop (suc rounds) mode r lpn last_chunk idx =
    let old = r.ftl.chunk_map (chunks_map_table lpn idx) in
    let read : Run Reading =
      rebuild_chunk (find_chunk_location old) mode
        (record r { chunks_done = update r.chunks_done idx true }) lpn last_chunk idx old in
    (if r.chunks_done idx then ok r else read) >>= λ r'.
    rebuild_loop rounds mode r' lpn last_chunk (idx + 1)

unfoldable pub rebuild_page_to_ftl_buf : Ftl → ℕ → ℕ → ℕ → Mode → Run Ftl
rebuild_page_to_ftl_buf s lpn sect_offset n_sects mode = do
  let first_chunk = sect_offset / sectors_per_chunk
  let last_chunk = (sect_offset + n_sects + sectors_per_chunk - 1) / sectors_per_chunk
  r ←
      rebuild_loop (last_chunk - first_chunk) mode (record { ftl = s; chunks_done = λ _. false })
        lpn last_chunk first_chunk
  ok r.ftl

unfoldable pub read_from_log_blk : ℕ → ℕ → ℕ → Ftl → Run Ftl
read_from_log_blk lpn sect_offset n_sects s = do
  s' ← rebuild_page_to_ftl_buf s lpn sect_offset n_sects read_mode
  let sent =
      mem_copy s' (rd_buf_ptr s'.read_buf_id + sect_offset * bytes_per_sector)
        (ftl_buf 0 + sect_offset * bytes_per_sector) (n_sects * bytes_per_sector)
  ok (record sent { read_buf_id = (sent.read_buf_id + 1) % num_rd_buffers })
