-- ===== src/Log.antt =====
-- The log pages of ftl_seal/log.c: for each bank the pages to write next in its sequential (SW), random
-- (RW) and overwrite (OW) log block. `collect` stands for garbageCollectLog.
pub mod Steps
pub mod Pages
mod Allocate
mod Seal
mod Sealed
mod Start
mod Tests
use msst2015_ftl.Base.{
  ℕ, zero, suc, ◌+◌, ◌-◌, ◌*◌, ◌/◌, ◌%◌, Bool, true, false, ltb, leb, ◌==◌, ◌&&◌, not,
  if◌then◌else◌, update, u32, invalid,
}
use msst2015_ftl.Base.Run.{Run, ok, hang, ◌>>=◌}
use msst2015_ftl.Params.{
  pages_per_blk, used_pages_per_log_blk, chunks_per_page, chunks_per_blk, chunks_per_log_blk,
  chunk_addr_bytes, ow_counters_per_blk,
}
use msst2015_ftl.Layout.{chunks_map_table, chunk_in_lpns_list, ow_counter_addr}
use msst2015_ftl.Chunk.{
  ChunkLocation, flash_ow_log, invalid_chunk, flash_w_log, dram_w_log, dram_ow_log,
  find_chunk_location, clear_ow_bit, block_chunk_addr,
}
use msst2015_ftl.Heap.Ops.{
  insert_blk_in_heap, get_victim, get_victim_valid_pages_number, reset_valid_chunks_and_remove,
  set_valid_chunks,
}
use msst2015_ftl.CleanList.{clean_list_pop, clean_list_size}
use msst2015_ftl.Blocks.{get_log_vbn}
use msst2015_ftl.State.{Ftl, SwCtrlBlock, RwCtrlBlock, OwCtrlBlock}

-- LogPageToOffset and get_log_lbn
unfoldable pub log_page_to_offset : ℕ → ℕ
log_page_to_offset log_lpn = log_lpn % pages_per_blk

unfoldable pub get_log_lbn : ℕ → ℕ
get_log_lbn log_lpn = log_lpn / pages_per_blk

-- mem_set_dram(list, INVALID, CHUNKS_PER_BLK * CHUNK_ADDR_BYTES)
unfoldable pub clear_list : Ftl → ℕ → Ftl
clear_list s list = record s {
  lpns_lists = λ a.
      if leb list a && ltb a (list + chunks_per_blk * chunk_addr_bytes)
      then invalid
      else s.lpns_lists a;
}

-- resetOwCounter
unfoldable pub reset_ow_counter : Ftl → ℕ → ℕ → Ftl
reset_ow_counter s bank lbn =
    let first = ow_counter_addr bank lbn 0 in
    record s {
      ow_counters =
          λ a. if leb first a && ltb a (first + ow_counters_per_blk) then 0 else s.ow_counters a;
    }

-- nand_page_ptprogram and nand_page_ptread of a list: the words of a page's first eight sectors.
unfoldable pub program_list : Ftl → ℕ → ℕ → ℕ → ℕ → Ftl
program_list s bank vbn page list = record s {
  flash_lists = λ b v p i.
      if (b == bank) && ((v == vbn) && ((p == page) && ltb i chunks_per_blk))
      then s.lpns_lists (list + i * chunk_addr_bytes)
      else s.flash_lists b v p i;
}

unfoldable pub read_list : Ftl → ℕ → ℕ → ℕ → ℕ → Ftl
read_list s bank vbn page list = record s {
  lpns_lists = λ a.
      if leb list a && ltb a (list + chunks_per_blk * chunk_addr_bytes)
      then s.flash_lists bank vbn page ((a - list) / chunk_addr_bytes)
      else s.lpns_lists a;
}

-- cleanListPop, and the page number of the block's first page.
unfoldable pub pop_clean : Ftl → ℕ → Run (ℕ × Ftl)
pop_clean s bank = do
  popped ← clean_list_pop s.clean_lists bank
  ok (u32 (popped.0 * pages_per_blk), record s { clean_lists = popped.1 })

abbrev pub few_clean : Ftl → ℕ → Bool
few_clean s bank = leb (clean_list_size s.clean_lists bank) 1

unfoldable pub set_sw : Ftl → ℕ → ℕ → ℕ → Ftl
set_sw s bank log_lpn next_data_lpn = record s {
  sw_ctrl =
      update s.sw_ctrl bank
        (record (s.sw_ctrl bank) { log_lpn = log_lpn; next_data_lpn = next_data_lpn });
}

unfoldable pub set_rw : Ftl → ℕ → ℕ → Bool → Ftl
set_rw s bank log_lpn is_ow_blk = record s {
  rw_ctrl =
      update s.rw_ctrl bank (record (s.rw_ctrl bank) { log_lpn = log_lpn; is_ow_blk = is_ow_blk });
}

unfoldable pub set_ow : Ftl → ℕ → ℕ → Ftl
set_ow s bank log_lpn = record s {
  ow_ctrl = update s.ow_ctrl bank (record (s.ow_ctrl bank) { log_lpn = log_lpn });
}

-- The SW block becomes the RW block: page and list change places, isOwBlk stays.
unfoldable pub swap_sw_to_rw : Ftl → ℕ → Ftl
swap_sw_to_rw s bank =
    let sw = s.sw_ctrl bank in
    let rw_blk = s.rw_ctrl bank in
    record s {
      rw_ctrl =
          update s.rw_ctrl bank
            (record rw_blk { log_lpn = sw.log_lpn; lpns_list_ptr = sw.lpns_list_ptr });
      sw_ctrl = update s.sw_ctrl bank (record {
        log_lpn = invalid;
        next_data_lpn = invalid;
        lpns_list_ptr = rw_blk.lpns_list_ptr;
      });
    }

abbrev pub is_flash_ow_log : ChunkLocation → Bool
is_flash_ow_log flash_ow_log = true
is_flash_ow_log flash_w_log = false
is_flash_ow_log dram_w_log = false
is_flash_ow_log dram_ow_log = false
is_flash_ow_log invalid_chunk = false

-- The loop of sealOWBlk over the chunks of a data page: the first one that the table maps to `chunk` of
-- the overwrite log is mapped to it in the write log. `rounds` chunks are left, from `i` on.
unfoldable pub seal_entry : ℕ → (ℕ → ℕ) → ℕ → ℕ → ℕ → ℕ → ℕ
seal_entry zero map data_lpn i chunk = map
seal_entry (suc rounds) map data_lpn i chunk =
    let slot = chunks_map_table data_lpn i in
    let rest = seal_entry rounds map data_lpn (i + 1) chunk in
    let in_ow_log = is_flash_ow_log (find_chunk_location (map slot)) in
    if in_ow_log && (clear_ow_bit (map slot) == chunk)
    then update map slot (clear_ow_bit (map slot))
    else rest

-- The loop over the chunks of a page of the block, with the list of their data pages.
unfoldable pub seal_page : ℕ → (ℕ → ℕ) → (ℕ → ℕ) → ℕ → ℕ → ℕ → ℕ → ℕ → ℕ → ℕ
seal_page zero lists map list bank lbn page i = map
seal_page (suc rounds) lists map list bank lbn page i =
    let data_lpn = lists (chunk_in_lpns_list list page i) in
    let map' =
      if data_lpn == invalid
      then map
      else seal_entry chunks_per_page map data_lpn 0 (block_chunk_addr bank lbn page i) in
    seal_page rounds lists map' list bank lbn page (i + 1)

-- The loop over the pages, from `page` on, behind page 0: the odd ones below 124.
unfoldable pub seal_pages : ℕ → (ℕ → ℕ) → (ℕ → ℕ) → ℕ → ℕ → ℕ → ℕ → ℕ → ℕ
seal_pages zero lists map list bank lbn page = map
seal_pages (suc rounds) lists map list bank lbn page =
    seal_pages rounds lists (seal_page chunks_per_page lists map list bank lbn page 0) list bank lbn
      (page + 2)

-- The loops of sealOWBlk over the pages that an overwrite block uses.
unfoldable pub seal_map : (ℕ → ℕ) → (ℕ → ℕ) → ℕ → ℕ → ℕ → ℕ → ℕ
seal_map lists map list bank lbn =
    seal_pages 62 lists (seal_page chunks_per_page lists map list bank lbn 0 0) list bank lbn 1

-- sealOWBlk: the victim of the overwrite heap becomes the RW block.
unfoldable pub seal_ow_blk : Ftl → ℕ → Run Ftl
seal_ow_blk s bank = do
  n ← get_victim_valid_pages_number s.heap_overwrite bank
  lbn ← get_victim s.heap_overwrite bank
  ow ←
      if lbn == invalid
      then hang
      else reset_valid_chunks_and_remove s.heap_overwrite bank lbn (chunks_per_log_blk - 8)
  let s1 = reset_ow_counter (record s { heap_overwrite = ow }) bank lbn
  w ← set_valid_chunks s1.heap_write bank lbn n
  let s2 = set_rw (record s1 { heap_write = w }) bank (u32 (lbn * pages_per_blk + 2)) true
  let list = (s2.rw_ctrl bank).lpns_list_ptr
  let s3 = read_list (clear_list s2 list) bank (get_log_vbn s2.blocks bank lbn) 125 list
  ok (record s3 { chunk_map = seal_map s3.lpns_lists s3.chunk_map list bank lbn })
