-- ===== src/Chunk.antt =====
-- Chunk addresses: the macros of ftl_seal/ftl_parameters.h that split a chunk address, the formulas
-- by which ftl_seal/write.c, ftl_seal/overwrite.c and ftl_seal/garbage_collection.c build one, and
-- findChunkLocation of ftl_seal/log.c. A UINT32 is a number below 2 ^ 32; bit 31 marks a chunk of
-- the overwrite log.
pub mod Fields
pub mod Location
mod Tests
use msst2015_ftl.Base.{ℕ, ◌+◌, ◌-◌, ◌*◌, ◌/◌, ◌%◌, ◌^◌, Bool, leb, ◌==◌, if◌then◌else◌, invalid}
use msst2015_ftl.Params.{
  log_blk_per_bank, chunks_per_blk, chunks_per_page, pages_per_blk, sectors_per_chunk, log_buf_lpn,
  start_ow_log_lpn,
}

pub data ChunkLocation : Type 0 where
  invalid_chunk flash_w_log dram_w_log dram_ow_log flash_ow_log : ChunkLocation

unfoldable pub chunk_to_bank : ℕ → ℕ
chunk_to_bank chunk = chunk / (log_blk_per_bank * chunks_per_blk)

unfoldable pub chunk_to_chunk_offset_in_bank : ℕ → ℕ
chunk_to_chunk_offset_in_bank chunk = chunk % (log_blk_per_bank * chunks_per_blk)

unfoldable pub chunk_to_lbn : ℕ → ℕ
unfolding chunk_to_chunk_offset_in_bank
chunk_to_lbn chunk = chunk_to_chunk_offset_in_bank chunk / chunks_per_page / pages_per_blk

unfoldable pub chunk_to_lpn : ℕ → ℕ
unfolding chunk_to_chunk_offset_in_bank
chunk_to_lpn chunk = chunk_to_chunk_offset_in_bank chunk / chunks_per_page

unfoldable pub chunk_to_page_offset : ℕ → ℕ
unfolding chunk_to_chunk_offset_in_bank
chunk_to_page_offset chunk = (chunk_to_chunk_offset_in_bank chunk / chunks_per_page) % pages_per_blk

unfoldable pub chunk_to_sect_offset : ℕ → ℕ
unfolding chunk_to_chunk_offset_in_bank
chunk_to_sect_offset chunk =
    (chunk_to_chunk_offset_in_bank chunk % chunks_per_page) * sectors_per_chunk

unfoldable pub chunk_to_chunk_offset : ℕ → ℕ
chunk_to_chunk_offset chunk = chunk % chunks_per_page

-- chunkAddr & StartOwLogLpn, as a test
unfoldable pub has_ow_bit : ℕ → Bool
has_ow_bit chunk = leb start_ow_log_lpn chunk

-- chunkAddr | StartOwLogLpn
unfoldable pub set_ow_bit : ℕ → ℕ
set_ow_bit chunk = if leb start_ow_log_lpn chunk then chunk else chunk + start_ow_log_lpn

-- chunkAddr & 0x7FFFFFFF
unfoldable pub clear_ow_bit : ℕ → ℕ
clear_ow_bit chunk = chunk % 2 ^ 31

-- The address of a chunk of page `log_lpn` of the bank's log.
unfoldable pub log_chunk_addr : ℕ → ℕ → ℕ → ℕ
log_chunk_addr bank log_lpn chunk_offset =
    bank * log_blk_per_bank * chunks_per_blk + log_lpn * chunks_per_page + chunk_offset

-- The address of a chunk of page `page_offset` of log block `lbn`, as the collector compares it.
unfoldable pub block_chunk_addr : ℕ → ℕ → ℕ → ℕ → ℕ
block_chunk_addr bank lbn page_offset chunk_offset =
    bank * log_blk_per_bank * chunks_per_blk
    + lbn * chunks_per_blk
    + (page_offset * chunks_per_page + chunk_offset)

-- The address of a chunk that waits in the bank's DRAM write buffer.
unfoldable pub buffer_chunk_addr : ℕ → ℕ → ℕ
unfolding log_chunk_addr
buffer_chunk_addr bank chunk_ptr = log_chunk_addr bank log_buf_lpn chunk_ptr

unfoldable pub find_chunk_location : ℕ → ChunkLocation
unfolding has_ow_bit clear_ow_bit chunk_to_chunk_offset_in_bank
find_chunk_location chunk_addr =
    if chunk_addr == invalid
    then invalid_chunk
    else if has_ow_bit chunk_addr
    then (if leb (log_buf_lpn * chunks_per_page)
          (chunk_to_chunk_offset_in_bank (clear_ow_bit chunk_addr))
        then dram_ow_log
        else flash_ow_log)
    else if leb (log_buf_lpn * chunks_per_page) (chunk_to_chunk_offset_in_bank chunk_addr)
    then dram_w_log
    else flash_w_log
