-- ===== src/Collect.antt =====
-- garbageCollectLog of ftl_seal/garbage_collection.c: the valid chunks of the block with the fewest are
-- written elsewhere, and the block is clean again. Finding a new RW block for them may call the
-- collector again, which `collect` stands for, up to two deep on each bank. The number of chunks that
-- the call returns is only printed.
mod Found
mod Empty
mod Tests
use msst2015_ftl.Base.{
  ℕ, zero, suc, ◌+◌, ◌-◌, ◌*◌, ltb, ◌==◌, ◌||◌, Bool, true, false, if◌then◌else◌, update, u8,
  invalid, Option, none, some, List, [], ◌∷◌,
}
use msst2015_ftl.Base.Run.{Run, ok, hang, out_of_fuel, ◌>>=◌}
use msst2015_ftl.Params.{
  num_banks, chunks_per_page, pages_per_blk, used_pages_per_log_blk, chunks_per_log_blk,
}
use msst2015_ftl.Layout.{chunks_map_table, chunk_in_lpns_list}
use msst2015_ftl.Chunk.{
  ChunkLocation, invalid_chunk, flash_w_log, dram_w_log, dram_ow_log, flash_ow_log,
  find_chunk_location, clear_ow_bit, block_chunk_addr, log_chunk_addr,
}
use msst2015_ftl.Heap.Ops.{get_victim, get_victim_valid_pages_number, reset_valid_chunks_and_remove}
use msst2015_ftl.CleanList.{clean_list_push}
use msst2015_ftl.Blocks.{get_log_vbn, exchange_vbn}
use msst2015_ftl.State.{Ftl}
use msst2015_ftl.Memory.{
  gc_buf, victim_lpn_list, nand_page_read, nand_page_program, nand_block_erase,
}
use msst2015_ftl.Log.{log_page_to_offset, get_log_lbn, reset_ow_counter, read_list}
use msst2015_ftl.Log.Steps.{get_rw_lpn, increase_rw_lpn}
use msst2015_ftl.Write.{write_chunk_on_log_block_during_gc}
use msst2015_ftl.Write.Buffers.{choose_new_bank, set_map, set_list}

-- The address that the collector compares: without the bit of the overwrite log.
unfoldable pub plain_addr : ChunkLocation → ℕ → ℕ
plain_addr invalid_chunk addr = addr
plain_addr flash_w_log addr = addr
plain_addr dram_w_log addr = addr
plain_addr dram_ow_log addr = clear_ow_bit addr
plain_addr flash_ow_log addr = clear_ow_bit addr

-- The loop over the chunks of data page `lpn`, from `i` on: the one that is mapped to `chunk`.
unfoldable pub find_mapped : ℕ → (ℕ → ℕ) → ℕ → ℕ → ℕ → Option ℕ
find_mapped zero map lpn chunk i = none
find_mapped (suc rounds) map lpn chunk i =
    let addr = map (chunks_map_table lpn i) in
    let rest = find_mapped rounds map lpn chunk (i + 1) in
    if plain_addr (find_chunk_location addr) addr == chunk then some i else rest

-- A valid chunk of the victim: an entry of dataLpns and dataChunkOffsets, and its place in the page.
pub record Valid : Type 0 where
  pub place : ℕ
  pub data_lpn : ℕ
  pub chunk_idx : ℕ

abbrev pub add_valid : ℕ → ℕ → Option ℕ → List Valid → List Valid
add_valid place lpn none rest = rest
add_valid place lpn (some i) rest = record { place = place; data_lpn = lpn; chunk_idx = i } ∷ rest

-- The loop that finds the valid chunks of a page of the victim, from place `i` on.
unfoldable pub find_valid : ℕ → Ftl → ℕ → ℕ → ℕ → ℕ → ℕ → List Valid
find_valid zero s bank lbn list page i = []
find_valid (suc rounds) s bank lbn list page i =
    let lpn = s.lpns_lists (chunk_in_lpns_list list page i) in
    let found =
      if lpn == invalid
      then none
      else find_mapped chunks_per_page s.chunk_map lpn (block_chunk_addr bank lbn page i) 0 in
    add_valid i lpn found (find_valid rounds s bank lbn list page (i + 1))

abbrev pub count : List Valid → ℕ
count [] = 0
count (v ∷ vs) = count vs + 1

-- The victim gets another virtual block, its own one is erased, and it is clean.
unfoldable pub free_victim : Ftl → ℕ → ℕ → ℕ → Run Ftl
free_victim s bank lbn vbn = do
  let exchanged = record s { blocks = exchange_vbn s.blocks bank lbn vbn }
  let erased = nand_block_erase exchanged bank vbn
  l ← clean_list_push erased.clean_lists bank lbn
  ok (record erased { clean_lists = l })

unfoldable pub leave : Ftl → ℕ → Ftl
leave s bank = record s {
  gc_nest_level = update s.gc_nest_level bank (u8 (s.gc_nest_level bank + 255));
}

-- The chunks of a page that is valid as a whole are mapped to the page that it is copied to.
unfoldable pub map_copied : Ftl → ℕ → ℕ → List Valid → Ftl
map_copied s dst_bank dst_lpn [] = s
map_copied s dst_bank dst_lpn (v ∷ vs) =
    map_copied
      (set_map
        (set_list s
          (chunk_in_lpns_list (s.rw_ctrl dst_bank).lpns_list_ptr (log_page_to_offset dst_lpn)
            v.place)
          v.data_lpn)
        (chunks_map_table v.data_lpn v.chunk_idx) (log_chunk_addr dst_bank dst_lpn v.place))
      dst_bank dst_lpn vs

-- What the first part of the call decides: the victim, the chunks to copy, and the state without the
-- victim in its heap.
pub record Victim : Type 0 where
  pub lbn : ℕ
  pub vbn : ℕ
  pub n_valid : ℕ
  pub ftl : Ftl

module _ (collect : Ftl → ℕ → Run Ftl) where
  unfoldable pub write_valid : Ftl → List Valid → ℕ → Run Ftl
  write_valid s [] buf = ok s
  write_valid s (v ∷ vs) buf = do
    s' ← write_chunk_on_log_block_during_gc collect s v.data_lpn v.chunk_idx v.place buf
    write_valid s' vs buf

  -- The loop over the pages of the victim, from `page` on, with `n` valid chunks found before. It ends
  -- when the last of the victim's valid chunks is copied, or behind the last page.
  unfoldable pub collect_pages : ℕ → Ftl → ℕ → Victim → ℕ → ℕ → Run Ftl
  collect_pages zero s bank v n page = do s' ← free_victim s bank v.lbn v.vbn; ok (leave s' bank)
  collect_pages (suc rounds) s bank v n page =
      let nest = s.gc_nest_level bank in
      let valid = find_valid chunks_per_page s bank v.lbn (victim_lpn_list bank nest) page 0 in
      let n' = n + count valid in
      let all_found = n' == v.n_valid in
      let copied : Run Ftl = do
        let (dst_bank, s1) = choose_new_bank s
        got ← get_rw_lpn collect s1 dst_bank
        let dst_lpn = got.0
        let s2 = nand_page_read got.1 bank v.vbn page (gc_buf bank nest)
        let s3 =
            nand_page_program s2 dst_bank (get_log_vbn s2.blocks dst_bank (get_log_lbn dst_lpn))
              (log_page_to_offset dst_lpn) (gc_buf bank nest)
        let s4 = map_copied s3 dst_bank dst_lpn valid
        let last : Run Ftl = do
          s5 ← free_victim s4 bank v.lbn v.vbn
          increase_rw_lpn collect (leave s5 bank) dst_bank
        let go_on : Run Ftl = do
          s5 ← increase_rw_lpn collect s4 dst_bank
          collect_pages rounds s5 bank v n' (page + 1)
        if all_found then last else go_on
      in let written : Run Ftl = do
        let s1 = nand_page_read s bank v.vbn page (gc_buf bank nest)
        s2 ← if all_found then free_victim s1 bank v.lbn v.vbn else ok s1
        s3 ← write_valid s2 valid (gc_buf bank nest)
        let go_on : Run Ftl = collect_pages rounds s3 bank v n' (page + 1)
        if all_found then ok (leave s3 bank) else go_on
        in let skipped : Run Ftl = collect_pages rounds s bank v n' (page + 1) in
          if count valid == 8 then copied else if ltb 0 (count valid) then written else skipped

  -- The choice of the victim: a block of the overwrite heap, if it has fewer chunks to copy, or else
  -- one of the write heap.
  unfoldable pub choose_victim : Ftl → ℕ → Run Victim
  choose_victim s bank = do
    n ← get_victim_valid_pages_number s.heap_write bank
    n_ow ← get_victim_valid_pages_number s.heap_overwrite bank
    let list = victim_lpn_list bank (s.gc_nest_level bank)
    let of_overwrite : Run Victim = do
      lbn ← get_victim s.heap_overwrite bank
      let vbn = get_log_vbn s.blocks bank lbn
      h ← reset_valid_chunks_and_remove s.heap_overwrite bank lbn (chunks_per_log_blk - 8)
      let s1 = reset_ow_counter (record s { heap_overwrite = h }) bank lbn
      ok (record {
        lbn = lbn;
        vbn = vbn;
        n_valid = n_ow - 504;
        ftl = if ltb 0 (n_ow - 504) then read_list s1 bank vbn 125 list else s1;
      })
    let of_write : Run Victim = do
      lbn ← get_victim s.heap_write bank
      let vbn = get_log_vbn s.blocks bank lbn
      h ← reset_valid_chunks_and_remove s.heap_write bank lbn chunks_per_log_blk
      let s1 = record s { heap_write = h }
      ok (record {
        lbn = lbn;
        vbn = vbn;
        n_valid = n;
        ftl = if ltb 0 n then read_list s1 bank vbn (pages_per_blk - 1) list else s1;
      })
    if ltb n_ow 504 then hang else if ltb (n_ow - 504) n then of_overwrite else of_write

  unfoldable pub garbage_collect_log : Ftl → ℕ → Run Ftl
  garbage_collect_log s bank =
      let nest = u8 (s.gc_nest_level bank + 1) in
      let entered = record s { gc_nest_level = update s.gc_nest_level bank nest } in
      let go_on : Run Ftl = do
        v ← choose_victim entered bank
        collect_pages (if ltb 0 v.n_valid then used_pages_per_log_blk else 0) v.ftl bank v 0 0
      in if (nest == 0) || ltb 2 nest then hang else go_on

-- The collector with calls of itself that are at most `depth` deep.
unfoldable pub collector : ℕ → Ftl → ℕ → Run Ftl
collector zero s bank = out_of_fuel
collector (suc depth) s bank = garbage_collect_log (collector depth) s bank

-- backgroundCleaning, for the banks from `bank` on: `busy` tells which banks are busy. A bank that is
-- not, and whose victim has no valid chunk, is collected.
module _ (collect : Ftl → ℕ → Run Ftl) (busy : ℕ → Bool) where
  unfoldable pub clean_banks : ℕ → Ftl → ℕ → Run Ftl
  clean_banks zero s bank = ok s
  clean_banks (suc rounds) s bank = do
    let clean : Run Ftl = do
      n ← get_victim_valid_pages_number s.heap_write bank
      if n == 0 then collect s bank else ok s
    s' ← if busy bank then ok s else clean
    clean_banks rounds s' (bank + 1)

  unfoldable pub background_cleaning : Ftl → Run Ftl
  background_cleaning s = clean_banks num_banks s 0
