-- ===== src/Write/Partial.antt =====
-- A request for sectors of one chunk, by writeToLogBlk of ftl_seal/write.c, and a read of them.
use msst2015_ftl.Base.{
  ℕ, zero, suc, ◌+◌, ◌-◌, ◌/◌, ◌%◌, ◌<◌, ◌≤◌, ◌≡◌, refl, sym, ap, subst, ◌∙◌, arith, false, ◌==◌,
  u32,
}
use msst2015_ftl.Base.Run.{Run, ok, Yields, yields, Yields-step, Yields-weaken, ◌>>=◌}
use msst2015_ftl.Params.{num_banks, chunks_per_page, sectors_per_chunk, sectors_per_page}
use msst2015_ftl.Layout.{num_rd_buffers, num_wr_buffers, chunks_map_table}
use msst2015_ftl.Chunk.{
  ChunkLocation, invalid_chunk, flash_w_log, dram_w_log, dram_ow_log, flash_ow_log,
  find_chunk_location,
}
use msst2015_ftl.State.{Ftl}
use msst2015_ftl.Memory.{rd_buf_ptr, next_write_buf}
use msst2015_ftl.Request.{sects_in_chunk}
use msst2015_ftl.Read.{read_from_log_blk}
use msst2015_ftl.Read.Bytes.{flash_page_byte, located_byte, chunk_byte, page_byte}
use msst2015_ftl.Read.Sends.{read_from_log_blk-Sends}
use msst2015_ftl.Write.{write_chunks, write_partial_page_old, write_to_new_bank, write_to_log_blk}
use msst2015_ftl.Write.Buffers.{choose_new_bank}
use msst2015_ftl.Write.Old.{Writes, IsCounted}
use msst2015_ftl.Write.Chunk.{write_chunk_old-Writes}
use msst2015_ftl.Write.ReadBack.{IsReadBack, written_byte}

-- The bank whose turn it is.
abbrev pub next_bank : Ftl → ℕ
next_bank s = (s.reference_bank + 1) % num_banks

-- Passing the write buffer on changes nothing that a read sees.
passed_located :
    (location : ChunkLocation) (s : Ftl) (addr j : ℕ)
    → located_byte location (next_write_buf s) addr j ≡ located_byte location s addr j
unfolding next_write_buf located_byte flash_page_byte
passed_located invalid_chunk s addr j = refl
passed_located flash_w_log s addr j = refl
passed_located dram_w_log s addr j = refl
passed_located dram_ow_log s addr j = refl
passed_located flash_ow_log s addr j = refl

passed_page_byte : (s : Ftl) (lpn b : ℕ) → page_byte (next_write_buf s) lpn b ≡ page_byte s lpn b
unfolding page_byte chunk_byte next_write_buf
passed_page_byte s lpn b = passed_located (find_chunk_location _) s _ _

one_chunk : (offset n : ℕ) → offset + n ≤ sectors_per_chunk → sects_in_chunk offset n ≡ n
unfolding sects_in_chunk
one_chunk offset n fits = ground arith

module _ (collect : Ftl → ℕ → Run Ftl) where
  write_chunks-done :
      (fuel : ℕ) (s : Ftl) (bank lpn sect_offset : ℕ)
      → write_chunks collect fuel s bank lpn sect_offset 0 ≡ ok s
  unfolding write_chunks
  write_chunks-done zero s bank lpn sect_offset = refl
  write_chunks-done (suc fuel) s bank lpn sect_offset = refl

  module _ (s : Ftl) (lpn sect_offset n : ℕ)
      (room : s.chunk_ptr (next_bank s) + 1 < chunks_per_page)
      (id_ok : s.write_buf_id < num_wr_buffers) (read_id_ok : s.read_buf_id < num_rd_buffers)
      (some_ok : 0 < n) (not_last : sect_offset + n < sectors_per_page)
      (fits : sect_offset % sectors_per_chunk + n ≤ sectors_per_chunk) where
    abbrev turned : Ftl
    turned = record s { reference_bank = next_bank s }

    abbrev slot : ℕ
    slot = chunks_map_table lpn (sect_offset / sectors_per_chunk)

    write_chunks-Writes :
        (fuel : ℕ)
        → IsCounted (find_chunk_location (s.chunk_map slot)) turned (s.chunk_map slot)
        → Yields
            (Writes turned slot sect_offset n)
            (write_chunks collect (suc fuel) turned (next_bank s) lpn sect_offset n)
    unfolding write_chunks
    write_chunks-Writes fuel c =
        let todo : (n == 0) ≡ false = ground (arith, some_ok) in
        let taken : sects_in_chunk (sect_offset % sectors_per_chunk) n ≡ n =
          one_chunk (sect_offset % sectors_per_chunk) n fits in
        let over : n - n ≡ 0 = omega arith in
        rw (todo, taken, over)
          (Yields-step _
            (write_chunk_old-Writes collect turned (next_bank s) lpn sect_offset n (omega arith)
              room id_ok (omega arith) fits c)
            λ s' w. rw (write_chunks-done fuel s' (next_bank s) lpn (sect_offset + n)) (yields w))

    partial-Writes :
        IsCounted (find_chunk_location (s.chunk_map slot)) turned (s.chunk_map slot)
        → Yields
            (λ s'. (t : Ftl) × (s' ≡ next_write_buf t) × Writes turned slot sect_offset n t)
            (write_to_log_blk collect lpn sect_offset n s)
    unfolding write_to_log_blk write_to_new_bank choose_new_bank write_partial_page_old
    partial-Writes c =
        let inside : (u32 (sect_offset + n) == sectors_per_page) ≡ false =
          ground (arith, not_last) in
        let part : (n == sectors_per_page) ≡ false = ground (arith, fits) in
        let count : suc (n - 1) ≡ n = omega arith in
        rw (inside, part)
          (Yields-step _
            (subst
              (λ fuel.
                Yields (Writes turned slot sect_offset n)
                  (write_chunks collect fuel turned (next_bank s) lpn sect_offset n))
              count (write_chunks-Writes (n - 1) c))
            λ t w. yields (t, refl, w))

    read_back :
        (s' t : Ftl)
        → s' ≡ next_write_buf t
        → Writes turned slot sect_offset n t
        → Yields (IsReadBack s sect_offset n) (read_from_log_blk lpn sect_offset n s')
    unfolding next_write_buf
    read_back s' t same w =
        let id_same : s'.read_buf_id ≡ s.read_buf_id =
          ap (λ (x : Ftl). x.read_buf_id) same ∙ w.read_buf_same in
        Yields-weaken
          (λ s'' r. record {
            sectors = λ b low high.
                ap (λ i. s''.buffers (rd_buf_ptr i + b)) (sym id_same)
                ∙ r.sent b low high
                ∙ ap (λ x. page_byte x lpn b) same
                ∙ passed_page_byte t lpn b
                ∙ written_byte collect turned (next_bank s) lpn sect_offset n (omega arith) room
                    id_ok read_id_ok (omega arith) fits t b w low high;
          })
          (read_from_log_blk-Sends s' lpn sect_offset n (omega arith)
            (subst (λ i. i < num_rd_buffers) (sym id_same) read_id_ok))

    -- A request for sectors of one chunk is read back: after writeToLogBlk, readFromLogBlk of the same
    -- sectors puts the bytes of the host's write buffer in the read buffer, wherever the old version of
    -- the chunk was. The request does not reach the end of its page, the write buffer of the bank whose
    -- turn it is does not become full, and the block of an old version in flash counts it.
    pub write_to_log_blk-read_from_log_blk :
        IsCounted (find_chunk_location (s.chunk_map slot)) turned (s.chunk_map slot)
        → Yields (IsReadBack s sect_offset n) (
            write_to_log_blk collect lpn sect_offset n s >>= λ s'.
            read_from_log_blk lpn sect_offset n s')
    write_to_log_blk-read_from_log_blk c =
        Yields-step _ (partial-Writes c) λ s' w. read_back s' w.0 w.1 w.2
