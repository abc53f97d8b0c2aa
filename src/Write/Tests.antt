-- ===== src/Write/Tests.antt =====
-- Writes to a state whose chunks are mapped to one address.
use msst2015_ftl.Base.{
  ℕ, ◌+◌, ◌*◌, ◌<◌, ◌≡◌, ◌≢◌, arith, refl, Bool, true, if◌then◌else◌, false, invalid, update, ◌==◌,
}
use msst2015_ftl.Base.Run.{Run, hang, Yields, ◌>>=◌}
use msst2015_ftl.Params.{num_banks, pages_per_blk, chunks_per_page}
use msst2015_ftl.Layout.{chunks_map_table}
use msst2015_ftl.Chunk.{
  block_chunk_addr, buffer_chunk_addr, log_chunk_addr, find_chunk_location, chunk_to_bank,
  chunk_to_lbn, flash_w_log, flash_ow_log,
}
use msst2015_ftl.State.{Ftl}
use msst2015_ftl.State.Samples.{idle_heap, idle_heap-IsValidData, mapped_to}
use msst2015_ftl.Read.{read_from_log_blk}
use msst2015_ftl.Write.{write_chunk_old, flush_log_buffer, write_complete_page, write_to_log_blk}
use msst2015_ftl.Write.Old.{Writes, IsCounted}
use msst2015_ftl.Write.Chunk.{write_chunk_old-Writes}
use msst2015_ftl.Write.Flush.{IsBuffered, HasCount}
use msst2015_ftl.Write.Kept.{IsUnused, Keeps, flush_log_buffer-Keeps}
use msst2015_ftl.Write.Page.{Stores, write_complete_page-Stores}
use msst2015_ftl.Write.ReadBack.{IsReadBack}
use msst2015_ftl.Write.Partial.{write_to_log_blk-read_from_log_blk}
use msst2015_ftl.Write.Turns.{chosen_after, choose_new_bank-turn}

abbrev never_collect : Ftl → ℕ → Run Ftl
never_collect s bank = hang

-- A chunk of log page 7 of log block 5 of bank 3.
abbrev in_flash : Ftl
in_flash = mapped_to (block_chunk_addr 3 5 7 2)

in_flash-IsCounted :
    IsCounted (find_chunk_location (block_chunk_addr 3 5 7 2)) in_flash (block_chunk_addr 3 5 7 2)
unfolding find_chunk_location block_chunk_addr chunk_to_bank chunk_to_lbn
in_flash-IsCounted = (idle_heap-IsValidData, refl, omega arith, omega arith, omega arith)

write_chunk_old-Writes_example :
    Yields
      (Writes in_flash (chunks_map_table 100 4) 34 5)
      (write_chunk_old never_collect in_flash 6 100 34 5)
write_chunk_old-Writes_example =
    write_chunk_old-Writes never_collect in_flash 6 100 34 5 (omega arith) (omega arith)
      (omega arith) (omega arith) (omega arith) in_flash-IsCounted

turned-IsCounted :
    IsCounted
      (find_chunk_location (block_chunk_addr 3 5 7 2))
      (record in_flash { reference_bank = 1 })
      (block_chunk_addr 3 5 7 2)
unfolding find_chunk_location block_chunk_addr chunk_to_bank chunk_to_lbn
turned-IsCounted = (idle_heap-IsValidData, refl, omega arith, omega arith, omega arith)

write_to_log_blk-read_from_log_blk_example :
    Yields
      (IsReadBack in_flash 34 5)
      (write_to_log_blk never_collect 100 34 5 in_flash >>= λ s'. read_from_log_blk 100 34 5 s')
write_to_log_blk-read_from_log_blk_example =
    write_to_log_blk-read_from_log_blk never_collect in_flash 100 34 5 (omega arith) (omega arith)
      (omega arith) (omega arith) (omega arith) (omega arith) turned-IsCounted

choose_new_bank-turn_example : (k : ℕ) × (k < num_banks) × (chosen_after k in_flash ≡ 5)
choose_new_bank-turn_example = choose_new_bank-turn in_flash 5 (omega arith)

-- Bank 3 is at page 7 of log block 5; of its write buffer only chunk 0 is wanted, chunk 4 of page 100.
abbrev buffered : Ftl
buffered = record (mapped_to invalid) {
  chunk_map = update (λ _. invalid) (chunks_map_table 100 4) (buffer_chunk_addr 3 0);
  log_buf_meta = λ _. record { data_lpn = update (λ _. invalid) 0 100; chunk_idx = λ _. 4 };
  rw_ctrl =
      λ _. record { log_lpn = 5 * pages_per_blk + 7; lpns_list_ptr = 8192; is_ow_blk = false };
}

buffered-IsBuffered : IsBuffered buffered 3
unfolding buffer_chunk_addr log_chunk_addr
buffered-IsBuffered = record {
  mapped = λ i i_ok wanted. ground (arith, wanted);
  listed = λ e i i_ok at. ground (arith, at, i_ok);
}

not_written :
    (here : Bool)
    → find_chunk_location (if here then buffer_chunk_addr 3 0 else invalid) ≢ flash_w_log
unfolding find_chunk_location buffer_chunk_addr log_chunk_addr
not_written true at = cc
not_written false at = cc

not_overwritten :
    (here : Bool)
    → find_chunk_location (if here then buffer_chunk_addr 3 0 else invalid) ≢ flash_ow_log
unfolding find_chunk_location buffer_chunk_addr log_chunk_addr
not_overwritten true at = cc
not_overwritten false at = cc

buffered-IsUnused : (vbn : ℕ) → IsUnused buffered 3 vbn 7
unfolding find_chunk_location buffer_chunk_addr log_chunk_addr
buffered-IsUnused vbn = record {
  by_write = λ e at _. absurd (not_written (chunks_map_table 100 4 == e) at);
  by_overwrite = λ e at _. absurd (not_overwritten (chunks_map_table 100 4 == e) at);
}

buffered-HasCount : HasCount idle_heap 3 5 chunks_per_page
buffered-HasCount = record {
  valid = idle_heap-IsValidData;
  first = refl;
  in_range = omega arith;
  enough = omega arith;
}

flush_log_buffer-Keeps_example :
    Yields (Keeps buffered 3) (flush_log_buffer never_collect buffered 3)
flush_log_buffer-Keeps_example =
    flush_log_buffer-Keeps buffered 3 5 7 (omega arith) (omega arith) (omega arith) never_collect
      refl buffered-IsBuffered (buffered-IsUnused _) buffered-HasCount

write_complete_page-Stores_example :
    Yields (Stores buffered 200) (write_complete_page never_collect buffered 3 200)
write_complete_page-Stores_example =
    write_complete_page-Stores buffered 3 5 7 200 (omega arith) (omega arith) (omega arith)
      never_collect refl (buffered-IsUnused _)
