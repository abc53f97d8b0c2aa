-- ===== src/Write/ReadBack.antt =====
-- A chunk that is written (writeChunkOld of ftl_seal/write.c) and read (readFromLogBlk of
-- ftl_seal/read.c).
use msst2015_ftl.Base.{ℕ, ◌+◌, ◌*◌, ◌/◌, ◌%◌, ◌<◌, ◌≤◌, ◌≡◌, sym, ap, subst, ◌∙◌, arith}
use msst2015_ftl.Base.Run.{Run, Yields, Yields-step, Yields-weaken, ◌>>=◌}
use msst2015_ftl.Params.{
  num_banks, chunks_per_page, sectors_per_chunk, sectors_per_page, bytes_per_chunk,
  bytes_per_sector,
}
use msst2015_ftl.Layout.{num_rd_buffers, num_wr_buffers, chunks_map_table}
use msst2015_ftl.Chunk.{find_chunk_location}
use msst2015_ftl.State.{Ftl}
use msst2015_ftl.Memory.{rd_buf_ptr, wr_buf_ptr}
use msst2015_ftl.Read.{read_from_log_blk}
use msst2015_ftl.Read.Bytes.{page_byte, chunk_byte}
use msst2015_ftl.Read.Sends.{read_from_log_blk-Sends}
use msst2015_ftl.Write.{write_chunk_old}
use msst2015_ftl.Write.Fill.{merged}
use msst2015_ftl.Write.Old.{Writes, IsCounted}
use msst2015_ftl.Write.Chunk.{write_chunk_old-Writes}

-- The sectors are in the read buffer as the host left them in the write buffer.
pub record IsReadBack (s : Ftl) (sect_offset n : ℕ) (s' : Ftl) : Type 0 where
  pub sectors :
      (b : ℕ)
      → sect_offset * bytes_per_sector ≤ b
      → b < (sect_offset + n) * bytes_per_sector
      → s'.buffers (rd_buf_ptr s.read_buf_id + b) ≡ s.buffers (wr_buf_ptr s.write_buf_id + b)

module _ (collect : Ftl → ℕ → Run Ftl) (s : Ftl) (bank lpn sect_offset n : ℕ)
    (bank_ok : bank < num_banks) (room : s.chunk_ptr bank + 1 < chunks_per_page)
    (id_ok : s.write_buf_id < num_wr_buffers) (read_id_ok : s.read_buf_id < num_rd_buffers)
    (sect_ok : sect_offset < sectors_per_page)
    (fits : sect_offset % sectors_per_chunk + n ≤ sectors_per_chunk) where
  abbrev old_addr : ℕ
  old_addr = s.chunk_map (chunks_map_table lpn (sect_offset / sectors_per_chunk))

  pub written_byte :
      (s' : Ftl) (b : ℕ)
      → Writes s (chunks_map_table lpn (sect_offset / sectors_per_chunk)) sect_offset n s'
      → sect_offset * bytes_per_sector ≤ b
      → b < (sect_offset + n) * bytes_per_sector
      → page_byte s' lpn b ≡ s.buffers (wr_buf_ptr s.write_buf_id + b)
  unfolding page_byte
  written_byte s' b w low high =
      let same : b / bytes_per_chunk ≡ sect_offset / sectors_per_chunk = omega arith in
      let from : wr_buf_ptr s.write_buf_id
            + sect_offset / sectors_per_chunk * bytes_per_chunk
            + b % bytes_per_chunk
          ≡ wr_buf_ptr s.write_buf_id + b =
        omega arith in
      let new : merged s sect_offset n (chunk_byte s old_addr) (b % bytes_per_chunk)
          ≡ s.buffers (wr_buf_ptr s.write_buf_id + b) =
        ground (arith, low, high, from) in
      ap (λ i. chunk_byte s' (s'.chunk_map (chunks_map_table lpn i)) (b % bytes_per_chunk)) same
      ∙ w.bytes (b % bytes_per_chunk) (omega arith)
      ∙ new

  -- The sectors of a chunk that are written are read back: after writeChunkOld, readFromLogBlk of the
  -- same sectors puts the bytes of the write buffer in the read buffer, wherever the old version of
  -- the chunk was. The write buffer of the bank does not become full; the block of an old version in
  -- flash must count it.
  pub write_chunk_old-read_from_log_blk :
      IsCounted (find_chunk_location old_addr) s old_addr
      → Yields (IsReadBack s sect_offset n) (
          write_chunk_old collect s bank lpn sect_offset n >>= λ s'.
          read_from_log_blk lpn sect_offset n s')
  write_chunk_old-read_from_log_blk c =
      Yields-step _
        (write_chunk_old-Writes collect s bank lpn sect_offset n bank_ok room id_ok sect_ok fits c)
        λ s' w.
          Yields-weaken
            (λ s'' r. record {
              sectors = λ b low high.
                  ap (λ i. s''.buffers (rd_buf_ptr i + b)) (sym w.read_buf_same)
                  ∙ r.sent b low high
                  ∙ written_byte s' b w low high;
            })
            (read_from_log_blk-Sends s' lpn sect_offset n (omega arith)
              (subst (λ i. i < num_rd_buffers) (sym w.read_buf_same) read_id_ok))
