-- ===== src/Chunk/Location.antt =====
-- findChunkLocation of ftl_seal/log.c on the addresses that the writers build.
use msst2015_ftl.Base.{ℕ, ◌+◌, ◌*◌, ◌-◌, ◌<◌, ◌≡◌, arith, subst}
use msst2015_ftl.Params.{num_banks, chunks_per_page, log_buf_lpn, log_blk_per_bank, pages_per_blk}
use msst2015_ftl.Chunk.{
  flash_w_log, flash_ow_log, dram_w_log, dram_ow_log, find_chunk_location, set_ow_bit,
  log_chunk_addr, buffer_chunk_addr, block_chunk_addr,
}
use msst2015_ftl.Chunk.Fields.{log_chunk_addr-eq-block_chunk_addr}

module _ (bank log_lpn chunk_offset : ℕ) (bank_ok : bank < num_banks)
    (offset_ok : chunk_offset < chunks_per_page) where
  -- The chunks of a bank's log pages, its last page excepted, are found in flash: in the overwrite
  -- log if and only if the overwrite bit was set.
  pub find_chunk_location-log_chunk_addr :
      log_lpn < log_buf_lpn
      → (find_chunk_location (log_chunk_addr bank log_lpn chunk_offset) ≡ flash_w_log)
        × (find_chunk_location (set_ow_bit (log_chunk_addr bank log_lpn chunk_offset))
            ≡ flash_ow_log)
  unfolding find_chunk_location log_chunk_addr set_ow_bit
  find_chunk_location-log_chunk_addr h = ground arith

module _ (bank chunk_ptr : ℕ) (bank_ok : bank < num_banks)
    (ptr_ok : chunk_ptr < chunks_per_page) where
  -- A chunk at the DRAM buffer's address is found in the write buffer, or, with the overwrite bit set,
  -- in the overwrite buffer.
  pub find_chunk_location-buffer_chunk_addr :
      (find_chunk_location (buffer_chunk_addr bank chunk_ptr) ≡ dram_w_log)
      × (find_chunk_location (set_ow_bit (buffer_chunk_addr bank chunk_ptr)) ≡ dram_ow_log)
  unfolding find_chunk_location buffer_chunk_addr set_ow_bit
  find_chunk_location-buffer_chunk_addr = ground arith

-- The same of the address that is built from a block and a page within it.
pub find_chunk_location-block_chunk_addr :
    (bank lbn page chunk : ℕ)
    → bank < num_banks
    → lbn < log_blk_per_bank
    → page < pages_per_blk - 1
    → chunk < chunks_per_page
    → (find_chunk_location (block_chunk_addr bank lbn page chunk) ≡ flash_w_log)
      × (find_chunk_location (set_ow_bit (block_chunk_addr bank lbn page chunk)) ≡ flash_ow_log)
find_chunk_location-block_chunk_addr bank lbn page chunk bank_ok lbn_ok page_ok chunk_ok =
    subst
      (λ a.
        (find_chunk_location a ≡ flash_w_log) × (find_chunk_location (set_ow_bit a) ≡ flash_ow_log))
      (log_chunk_addr-eq-block_chunk_addr bank lbn page chunk)
      (find_chunk_location-log_chunk_addr bank (lbn * pages_per_blk + page) chunk bank_ok chunk_ok
        (omega arith))
