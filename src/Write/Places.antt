-- ===== src/Write/Places.antt =====
-- Where the chunks of a bank's DRAM write buffer lie, and which chunk an address names there.
use msst2015_ftl.Base.{ℕ, ◌+◌, ◌*◌, ◌%◌, ◌<◌, ◌≤◌, ◌≡◌, ◌⊎◌, arith}
use msst2015_ftl.Params.{
  num_banks, chunks_per_page, bytes_per_chunk, bytes_per_sector, bytes_per_page,
}
use msst2015_ftl.Layout.{num_wr_buffers}
use msst2015_ftl.Chunk.{
  dram_w_log, find_chunk_location, chunk_to_bank, chunk_to_sect_offset,
  chunk_to_chunk_offset_in_bank, clear_ow_bit, has_ow_bit, log_chunk_addr, buffer_chunk_addr,
}
use msst2015_ftl.Memory.{log_buf, ow_log_buf, wr_buf_ptr}

-- The byte address of chunk `ptr` of the buffer of a bank.
abbrev pub w_dst : ℕ → ℕ → ℕ
w_dst bank ptr = log_buf bank + ptr * bytes_per_chunk

-- An address of the write log that names a chunk of a buffer names it by its bank and number.
pub dram_w_log_addr :
    (addr : ℕ)
    → dram_w_log ≡ find_chunk_location addr
    → addr ≡ buffer_chunk_addr (chunk_to_bank addr) (addr % chunks_per_page)
unfolding find_chunk_location has_ow_bit chunk_to_chunk_offset_in_bank clear_ow_bit chunk_to_bank
    buffer_chunk_addr log_chunk_addr
dram_w_log_addr addr at = ground arith

pub sect_offset_chunk :
    (addr : ℕ)
    → chunk_to_sect_offset addr * bytes_per_sector ≡ addr % chunks_per_page * bytes_per_chunk
unfolding chunk_to_sect_offset chunk_to_chunk_offset_in_bank
sect_offset_chunk addr = omega arith

pub buffer_chunk_addr-chunk_to_bank :
    (bank ptr : ℕ) → ptr < chunks_per_page → chunk_to_bank (buffer_chunk_addr bank ptr) ≡ bank
unfolding buffer_chunk_addr log_chunk_addr chunk_to_bank
buffer_chunk_addr-chunk_to_bank bank ptr h = omega arith

pub buffer_chunk_addr-chunk :
    (bank ptr : ℕ) → ptr < chunks_per_page → buffer_chunk_addr bank ptr % chunks_per_page ≡ ptr
unfolding buffer_chunk_addr log_chunk_addr
buffer_chunk_addr-chunk bank ptr h = omega arith

pub wr_buf-le-log_buf :
    (buf_id bank : ℕ) → buf_id < num_wr_buffers → wr_buf_ptr buf_id + bytes_per_page ≤ log_buf bank
unfolding wr_buf_ptr log_buf
wr_buf-le-log_buf buf_id bank h = omega arith

pub log_buf-le-ow_log_buf :
    (bank bank' : ℕ) → bank < num_banks → log_buf bank + bytes_per_page ≤ ow_log_buf bank'
unfolding log_buf ow_log_buf
log_buf-le-ow_log_buf bank bank' h = omega arith

-- The chunks of two buffers do not overlap.
pub w_dst_disjoint :
    (bank ptr bank' ptr' : ℕ)
    → ptr < chunks_per_page
    → ptr' < chunks_per_page
    → ((bank ≡ bank') × (ptr ≡ ptr'))
      ⊎ ((w_dst bank ptr + bytes_per_chunk ≤ w_dst bank' ptr')
          ⊎ (w_dst bank' ptr' + bytes_per_chunk ≤ w_dst bank ptr))
unfolding log_buf
w_dst_disjoint bank ptr bank' ptr' p p' = ground arith

pub log_buf-ge : (bank : ℕ) → bytes_per_page ≤ log_buf bank
unfolding log_buf
log_buf-ge bank = omega arith
