-- ===== src/Read/Rebuild.antt =====
-- Each case of the switch of rebuildPageToFtlBuf puts its chunk in place.
use msst2015_ftl.Base.{
  ℕ, ◌+◌, ◌*◌, ◌-◌, ◌<◌, ◌≤◌, ◌≡◌, inr, refl, sym, ap, ◌∙◌, arith, Bool, true, false, ltb, ◌∷◌,
  length,
}
use msst2015_ftl.Base.Run.{Yields, yields, Yields-test}
use msst2015_ftl.Params.{bytes_per_chunk, bytes_per_page, bytes_per_sector, chunks_per_page}
use msst2015_ftl.Layout.{temp_buf_addr, chunks_map_table}
use msst2015_ftl.Chunk.{
  ChunkLocation, invalid_chunk, flash_w_log, dram_w_log, dram_ow_log, flash_ow_log,
  find_chunk_location, chunk_to_bank, chunk_to_sect_offset, clear_ow_bit,
}
use msst2015_ftl.State.{Ftl}
use msst2015_ftl.Memory.{mem_copy, mem_set_dram}
use msst2015_ftl.Read.{
  Reading, Part, chunk_dst, read_mode, setup_flash_page_read, chunk_in_flash_log, chunk_invalid,
  chunk_in_w_dram_buf, chunk_in_ow_dram_buf, rebuild_chunk,
}
use msst2015_ftl.Read.Bytes.{
  flash_page_byte, located_byte, chunk_byte, ftl_buf-le-temp_buf, temp_buf-le-log_buf,
  temp_buf-le-ow_log_buf, chunk_to_sect_offset-le,
}
use msst2015_ftl.Read.Step.{IsReading}
use msst2015_ftl.Read.Gather.{IsPartOf, Continues, setup_flash_page_read-IsPartOf}
use msst2015_ftl.Read.Flash.{marked, one_chunk, complete_page, one_flash_chunk}

module _ (s : Ftl) (lpn : ℕ) where
  flash_chunk :
      (r : Reading) (h : IsReading s lpn r) (last_chunk idx old : ℕ) (in_ow : Bool)
      → idx < last_chunk
      → last_chunk ≤ chunks_per_page
      → ((j : ℕ)
          → chunk_byte s (s.chunk_map (chunks_map_table lpn idx)) j
            ≡ flash_page_byte s old (chunk_to_sect_offset old * bytes_per_sector + j))
      → Yields
          (Continues s lpn (marked r idx))
          (chunk_in_flash_log read_mode in_ow (marked r idx) lpn last_chunk idx old)
  unfolding chunk_in_flash_log
  flash_chunk r h last_chunk idx old in_ow idx_ok last_ok is =
      let first : Part = record {
        offset = chunk_to_sect_offset old * bytes_per_sector;
        idx = idx;
        in_ow = in_ow;
      } in
      let others =
        setup_flash_page_read (last_chunk - (idx + 1)) (marked r idx) lpn old (idx + 1) in
      let part : IsPartOf s lpn old first = record {
        idx_ok = omega arith;
        within = chunk_to_sect_offset-le old;
        aligned = omega arith;
        bytes = λ j j_ok. sym (is j);
      } in
      Yields-test (ltb 2 (length (first ∷ others)))
        (λ _. complete_page s lpn r h old first others part (
          setup_flash_page_read-IsPartOf s (last_chunk - (idx + 1)) (marked r idx) lpn old (idx + 1)
            (ap (λ (x : Ftl). x.chunk_map) h.same) (omega arith)))
        (λ _. one_flash_chunk s lpn r h old first part)

  module _ (r : Reading) (h : IsReading s lpn r) (idx : ℕ) (idx_ok : idx < chunks_per_page) where
    -- A chunk of a DRAM buffer behind TEMP_BUF.
    buffer_chunk :
        (src : ℕ)
        → temp_buf_addr + bytes_per_page ≤ src
        → ((j : ℕ) → chunk_byte s (s.chunk_map (chunks_map_table lpn idx)) j ≡ s.buffers (src + j))
        → Continues s lpn
            (marked r idx)
            (record (marked r idx) { ftl = mem_copy r.ftl (chunk_dst idx) src bytes_per_chunk })
    unfolding mem_copy
    buffer_chunk src behind is =
        one_chunk s lpn r h idx _ idx_ok
          (ap
            (λ (x : Ftl). record x {
              buffers = (mem_copy r.ftl (chunk_dst idx) src bytes_per_chunk).buffers;
            })
            h.same)
          (λ a out. ground (arith, out))
          (λ j j_ok.
            let in_place : chunk_dst idx + j - chunk_dst idx ≡ j = omega arith in
            let kept : r.ftl.buffers (src + j) ≡ s.buffers (src + j) =
              h.outside (src + j) (inr (omega (arith, ftl_buf-le-temp_buf)), inr (omega arith)) in
            ground (arith, j_ok, in_place, kept) ∙ sym (is j))

    no_chunk :
        ((j : ℕ) → chunk_byte s (s.chunk_map (chunks_map_table lpn idx)) j ≡ 0xff)
        → Continues s lpn (marked r idx) (record (marked r idx) { ftl = chunk_invalid r.ftl idx })
    unfolding chunk_invalid mem_set_dram
    no_chunk is =
        one_chunk s lpn r h idx _ idx_ok
          (ap (λ (x : Ftl). record x { buffers = (chunk_invalid r.ftl idx).buffers }) h.same)
          (λ a out. ground (arith, out)) (λ j j_ok. ground (arith, j_ok) ∙ sym (is j))

  pub chunk-Continues :
      (r : Reading) (last_chunk idx : ℕ) (location : ChunkLocation)
      → IsReading s lpn r
      → idx < last_chunk
      → last_chunk ≤ chunks_per_page
      → location ≡ find_chunk_location (s.chunk_map (chunks_map_table lpn idx))
      → Yields (Continues s lpn (marked r idx)) (
          rebuild_chunk location read_mode
            (marked r idx)
            lpn
            last_chunk
            idx
            (s.chunk_map (chunks_map_table lpn idx)))
  unfolding rebuild_chunk chunk_byte located_byte chunk_in_w_dram_buf chunk_in_ow_dram_buf
  chunk-Continues r last_chunk idx invalid_chunk h idx_ok last_ok at =
      yields (no_chunk r h idx (omega arith) (λ j. rw (sym at) refl))
  chunk-Continues r last_chunk idx flash_w_log h idx_ok last_ok at =
      flash_chunk r h last_chunk idx (s.chunk_map (chunks_map_table lpn idx)) false idx_ok last_ok
        (λ j. rw (sym at) refl)
  chunk-Continues r last_chunk idx dram_w_log h idx_ok last_ok at =
      let old = s.chunk_map (chunks_map_table lpn idx) in
      yields (
        buffer_chunk r h idx (omega arith) _
          (omega (arith, temp_buf-le-log_buf (chunk_to_bank old))) (λ j. rw (sym at) refl))
  chunk-Continues r last_chunk idx dram_ow_log h idx_ok last_ok at =
      let old = clear_ow_bit (s.chunk_map (chunks_map_table lpn idx)) in
      yields (
        buffer_chunk r h idx (omega arith) _
          (omega (arith, temp_buf-le-ow_log_buf (chunk_to_bank old))) (λ j. rw (sym at) refl))
  chunk-Continues r last_chunk idx flash_ow_log h idx_ok last_ok at =
      flash_chunk r h last_chunk idx (clear_ow_bit (s.chunk_map (chunks_map_table lpn idx))) true
        idx_ok last_ok (λ j. rw (sym at) refl)
