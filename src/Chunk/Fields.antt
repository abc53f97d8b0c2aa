-- ===== src/Chunk/Fields.antt =====
-- The macros of ftl_seal/ftl_parameters.h take a chunk address apart into what it was built from.
use msst2015_ftl.Base.{ℕ, ◌+◌, ◌*◌, ◌<◌, ◌^◌, ◌≡◌, arith}
use msst2015_ftl.Params.{log_blk_per_bank, pages_per_blk, chunks_per_page, sectors_per_chunk}
use msst2015_ftl.Chunk.{
  chunk_to_bank, chunk_to_lbn, chunk_to_lpn, chunk_to_page_offset, chunk_to_sect_offset,
  chunk_to_chunk_offset, block_chunk_addr, log_chunk_addr, set_ow_bit, clear_ow_bit,
}

-- What the macros read off an address.
pub record HasFields (chunk bank lbn page_offset chunk_offset : ℕ) : Type 0 where
  pub bank_is : chunk_to_bank chunk ≡ bank
  pub lbn_is : chunk_to_lbn chunk ≡ lbn
  pub lpn_is : chunk_to_lpn chunk ≡ lbn * pages_per_blk + page_offset
  pub page_is : chunk_to_page_offset chunk ≡ page_offset
  pub offset_is : chunk_to_chunk_offset chunk ≡ chunk_offset
  pub sector_is : chunk_to_sect_offset chunk ≡ chunk_offset * sectors_per_chunk

module _ (bank lbn page_offset chunk_offset : ℕ) (lbn_ok : lbn < log_blk_per_bank)
    (page_ok : page_offset < pages_per_blk) (offset_ok : chunk_offset < chunks_per_page) where
  -- The macros give back the bank, block, page and chunk of an address built from a block number
  -- within the bank, a page within the block and a chunk within the page.
  pub block_chunk_addr-HasFields :
      HasFields
        (block_chunk_addr bank lbn page_offset chunk_offset)
        bank
        lbn
        page_offset
        chunk_offset
  unfolding block_chunk_addr chunk_to_bank chunk_to_lbn chunk_to_lpn chunk_to_page_offset
      chunk_to_chunk_offset chunk_to_sect_offset
  block_chunk_addr-HasFields = omega arith

-- The writer's formula, over a page number of the bank's log, gives the same address as the
-- collector's, over a block and a page within it.
pub log_chunk_addr-eq-block_chunk_addr :
    (bank lbn page_offset chunk_offset : ℕ)
    → log_chunk_addr bank (lbn * pages_per_blk + page_offset) chunk_offset
      ≡ block_chunk_addr bank lbn page_offset chunk_offset
unfolding log_chunk_addr block_chunk_addr
log_chunk_addr-eq-block_chunk_addr bank lbn page_offset chunk_offset = omega arith

-- Clearing the overwrite bit after setting it gives back an address below it.
pub clear_ow_bit-set_ow_bit : (chunk : ℕ) → chunk < 2 ^ 31 → clear_ow_bit (set_ow_bit chunk) ≡ chunk
unfolding clear_ow_bit set_ow_bit
clear_ow_bit-set_ow_bit chunk h = ground arith
