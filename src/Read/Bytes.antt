-- ===== src/Read/Bytes.antt =====
-- The bytes of a chunk, by its address in the chunks map table.
use msst2015_ftl.Base.{ℕ, ◌+◌, ◌*◌, ◌/◌, ◌%◌, ◌≤◌, ◌<◌, arith}
use msst2015_ftl.Params.{bytes_per_sector, bytes_per_page, bytes_per_chunk}
use msst2015_ftl.Layout.{temp_buf_addr, chunks_map_table, num_rd_buffers}
use msst2015_ftl.Chunk.{
  ChunkLocation, invalid_chunk, flash_w_log, dram_w_log, dram_ow_log, flash_ow_log,
  find_chunk_location, chunk_to_bank, chunk_to_lbn, chunk_to_page_offset, chunk_to_sect_offset,
  clear_ow_bit,
}
use msst2015_ftl.Blocks.{get_log_vbn}
use msst2015_ftl.State.{Ftl}
use msst2015_ftl.Memory.{ftl_buf, log_buf, ow_log_buf, rd_buf_ptr}

-- Byte `i` of the flash page of a chunk.
unfoldable pub flash_page_byte : Ftl → ℕ → ℕ → ℕ
flash_page_byte s addr i =
    s.flash (chunk_to_bank addr) (get_log_vbn s.blocks (chunk_to_bank addr) (chunk_to_lbn addr))
      (chunk_to_page_offset addr) i

-- Byte `j` of a chunk: of a place in a flash page, in a DRAM buffer, or nowhere.
unfoldable pub located_byte : ChunkLocation → Ftl → ℕ → ℕ → ℕ
located_byte invalid_chunk s addr j = 0xff
located_byte flash_w_log s addr j =
    flash_page_byte s addr (chunk_to_sect_offset addr * bytes_per_sector + j)
located_byte dram_w_log s addr j =
    s.buffers (log_buf (chunk_to_bank addr) + chunk_to_sect_offset addr * bytes_per_sector + j)
located_byte dram_ow_log s addr j =
    let chunk = clear_ow_bit addr in
    s.buffers (ow_log_buf (chunk_to_bank chunk) + chunk_to_sect_offset chunk * bytes_per_sector + j)
located_byte flash_ow_log s addr j =
    let chunk = clear_ow_bit addr in
    flash_page_byte s chunk (chunk_to_sect_offset chunk * bytes_per_sector + j)

unfoldable pub chunk_byte : Ftl → ℕ → ℕ → ℕ
chunk_byte s addr j = located_byte (find_chunk_location addr) s addr j

-- Byte `b` of a page of the host: what its chunk is mapped to.
unfoldable pub page_byte : Ftl → ℕ → ℕ → ℕ
page_byte s lpn b =
    chunk_byte s (s.chunk_map (chunks_map_table lpn (b / bytes_per_chunk))) (b % bytes_per_chunk)

-- Where the buffers lie: read buffers, FTL_BUF(0), TEMP_BUF, and those of the logs.
pub ftl_buf-le-temp_buf : ftl_buf 0 + bytes_per_page ≤ temp_buf_addr
unfolding ftl_buf
ftl_buf-le-temp_buf = omega arith

pub temp_buf-le-log_buf : (bank : ℕ) → temp_buf_addr + bytes_per_page ≤ log_buf bank
unfolding log_buf
temp_buf-le-log_buf bank = omega arith

pub temp_buf-le-ow_log_buf : (bank : ℕ) → temp_buf_addr + bytes_per_page ≤ ow_log_buf bank
unfolding ow_log_buf
temp_buf-le-ow_log_buf bank = omega arith

-- A chunk lies within its page.
pub chunk_to_sect_offset-le :
    (chunk : ℕ) → chunk_to_sect_offset chunk * bytes_per_sector + bytes_per_chunk ≤ bytes_per_page
unfolding chunk_to_sect_offset
chunk_to_sect_offset-le chunk = omega arith

pub ftl_buf-ge : bytes_per_page ≤ ftl_buf 0
unfolding ftl_buf
ftl_buf-ge = omega arith

pub rd_buf-le-ftl_buf :
    (buf_id : ℕ) → buf_id < num_rd_buffers → rd_buf_ptr buf_id + bytes_per_page ≤ ftl_buf 0
unfolding ftl_buf rd_buf_ptr
rd_buf-le-ftl_buf buf_id h = omega arith
