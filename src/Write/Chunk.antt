-- ===== src/Write/Chunk.antt =====
-- What a read sees of a chunk that is written to a DRAM write buffer.
use msst2015_ftl.Base.{
  ℕ, ◌+◌, ◌*◌, ◌/◌, ◌%◌, ◌<◌, ◌≤◌, ◌≡◌, ◌⊎◌, inl, inr, refl, sym, ap, subst, ◌∙◌, arith, ◌==◌,
  Bool-cases, eqb→eq, false, if◌then◌else◌, update, update_self, update-ne,
}
use msst2015_ftl.Base.Run.{Run, Yields, yields, Yields-step, ◌>>=◌}
use msst2015_ftl.Params.{
  num_banks, chunks_per_page, sectors_per_chunk, bytes_per_chunk, bytes_per_sector,
  sectors_per_page,
}
use msst2015_ftl.Layout.{num_wr_buffers, chunks_map_table}
use msst2015_ftl.Chunk.{
  ChunkLocation, invalid_chunk, flash_w_log, dram_w_log, dram_ow_log, flash_ow_log,
  find_chunk_location, chunk_to_bank, chunk_to_sect_offset, clear_ow_bit, buffer_chunk_addr,
}
use msst2015_ftl.State.{Ftl}
use msst2015_ftl.Memory.{log_buf, ow_log_buf, mem_copy}
use msst2015_ftl.Trim.{drop_chunk}
use msst2015_ftl.Read.Bytes.{flash_page_byte, located_byte, chunk_byte}
use msst2015_ftl.Write.{update_chunk_ptr, write_located_chunk, write_chunk_old}
use msst2015_ftl.Write.Buffers.{
  update_dram_buf_metadata, set_map, write_chunk_new, write_partial_chunk_when_old_is_in_w_buf,
  write_partial_chunk_when_old_is_in_ow_buf, write_partial_chunk_when_old_is_in_flash_log,
}
use msst2015_ftl.Write.Places.{w_dst, dram_w_log_addr, sect_offset_chunk, wr_buf-le-log_buf}
use msst2015_ftl.Write.Fill.{
  merged, Fills, copy_over, write_chunk_new_whole, write_chunk_new-Fills, old_in_ow_buf-Fills,
  old_in_flash-Fills,
}
use msst2015_ftl.Write.Old.{
  Writes, IsCounted, with_counts, drop_chunk-with_counts, other_addr, buffer_byte, merged_same,
}

module _ (collect : Ftl → ℕ → Run Ftl) (s : Ftl) (bank lpn sect_offset n : ℕ)
    (bank_ok : bank < num_banks) (room : s.chunk_ptr bank + 1 < chunks_per_page)
    (id_ok : s.write_buf_id < num_wr_buffers) (sect_ok : sect_offset < sectors_per_page)
    (fits : sect_offset % sectors_per_chunk + n ≤ sectors_per_chunk) where
  abbrev pub slot : ℕ
  slot = chunks_map_table lpn (sect_offset / sectors_per_chunk)

  abbrev addr : ℕ
  addr = buffer_chunk_addr bank (s.chunk_ptr bank)

  finish :
      (t : Ftl) (b old : ℕ → ℕ)
      → Fills s (w_dst bank (s.chunk_ptr bank)) sect_offset n old (record s { buffers = b })
      → ((j : ℕ) → j < bytes_per_chunk → chunk_byte s (s.chunk_map slot) j ≡ old j)
      → Yields (Writes s slot sect_offset n) (
          update_chunk_ptr collect
            (update_dram_buf_metadata (with_counts s t b) bank lpn sect_offset)
            bank)
  unfolding update_chunk_ptr update_dram_buf_metadata set_map chunk_byte
  finish t b old f is =
      let not_full : ((s.chunk_ptr bank + 1) % chunks_per_page == 0) ≡ false = ground arith in
      let final : Ftl = record (update_dram_buf_metadata (with_counts s t b) bank lpn sect_offset) {
        chunk_ptr = update s.chunk_ptr bank ((s.chunk_ptr bank + 1) % chunks_per_page);
      } in
      let w : Writes s slot sect_offset n final = record {
        bytes = λ j j_ok.
            subst
              (λ x.
                chunk_byte final x j ≡ merged s sect_offset n (chunk_byte s (s.chunk_map slot)) j)
              (sym (update_self s.chunk_map slot addr))
              (buffer_byte final bank (s.chunk_ptr bank) j bank_ok (omega arith)
                ∙ (f.filled j j_ok
                    ∙ sym (
                        merged_same s sect_offset n j (chunk_byte s (s.chunk_map slot)) old
                          (is j j_ok))));
        read_buf_same = refl;
        map_same = λ a ne. update-ne s.chunk_map slot addr a ne;
        others = λ x j j_ok ne.
            other_addr s final bank (s.chunk_ptr bank) x j (find_chunk_location x) bank_ok
              (omega arith) refl refl f.outside j_ok
              (λ e. ne (e ∙ sym (update_self s.chunk_map slot addr))) refl;
      } in
      rw not_full (yields w)

  -- A chunk is filled, and its old version is dropped.
  through :
      (t0 : Ftl) (old : ℕ → ℕ) (location : ChunkLocation) (old_addr : ℕ)
      → Fills s (w_dst bank (s.chunk_ptr bank)) sect_offset n old t0
      → IsCounted location t0 old_addr
      → ((j : ℕ) → j < bytes_per_chunk → chunk_byte s (s.chunk_map slot) j ≡ old j)
      → Yields (Writes s slot sect_offset n) (
          drop_chunk location old_addr t0 >>= λ s'.
          update_chunk_ptr collect (update_dram_buf_metadata s' bank lpn sect_offset) bank)
  through t0 old location old_addr f c is =
      Yields-step _ (drop_chunk-with_counts t0 location old_addr c) λ t e.
        let same : with_counts s t t0.buffers ≡ t =
          sym (e ∙ ap (λ (x : Ftl). with_counts x t t0.buffers) f.same) in
        subst
          (λ x.
            Yields (Writes s slot sect_offset n)
              (update_chunk_ptr collect (update_dram_buf_metadata x bank lpn sect_offset) bank))
          same (finish t t0.buffers old (subst (Fills s _ sect_offset n old) f.same f) is)

  -- Either the whole chunk is new, or it is filled over the old version.
  whole_or_part :
      (part : Ftl) (old : ℕ → ℕ) (location : ChunkLocation) (old_addr : ℕ)
      → Fills s (w_dst bank (s.chunk_ptr bank)) sect_offset n old part
      → ((t : Ftl) → t ≡ record s { buffers = t.buffers } → IsCounted location t old_addr)
      → ((j : ℕ) → j < bytes_per_chunk → chunk_byte s (s.chunk_map slot) j ≡ old j)
      → Yields (Writes s slot sect_offset n) (
          drop_chunk location old_addr
            (if n == sectors_per_chunk then write_chunk_new s bank sect_offset n else part)
          >>= λ s'.
              update_chunk_ptr collect (update_dram_buf_metadata s' bank lpn sect_offset) bank)
  whole_or_part part old location old_addr f counted is =
      elim (Bool-cases (n == sectors_per_chunk)) [
        | inl whole ↦
            let g =
              write_chunk_new_whole s bank sect_offset n id_ok sect_ok fits old
                (eqb→eq n sectors_per_chunk whole) in
            rw whole (through _ old location old_addr g (counted _ g.same) is)
        | inr partial ↦ rw partial (through part old location old_addr f (counted part f.same) is)
      ]

  located-Writes :
      (location : ChunkLocation)
      → location ≡ find_chunk_location (s.chunk_map slot)
      → IsCounted location s (s.chunk_map slot)
      → Yields
          (Writes s slot sect_offset n)
          (write_located_chunk collect location s bank lpn sect_offset n (s.chunk_map slot))
  unfolding write_located_chunk drop_chunk located_byte chunk_byte mem_copy
      write_partial_chunk_when_old_is_in_w_buf
  located-Writes invalid_chunk at c =
      through (write_chunk_new s bank sect_offset n) (λ j. 0xff) invalid_chunk (s.chunk_map slot)
        (write_chunk_new-Fills s bank sect_offset n id_ok sect_ok fits) tt (λ j _. rw (sym at) refl)
  located-Writes flash_w_log at c =
      let old = s.chunk_map slot in
      whole_or_part (write_partial_chunk_when_old_is_in_flash_log s bank sect_offset n old)
        (λ j. flash_page_byte s old (chunk_to_sect_offset old * bytes_per_sector + j)) flash_w_log
        old (old_in_flash-Fills s bank sect_offset n id_ok sect_ok fits old (omega arith))
        (λ t e. subst (λ x. IsCounted flash_w_log x old) (sym e) c) (λ j _. rw (sym at) refl)
  located-Writes flash_ow_log at c =
      let old = s.chunk_map slot in
      let chunk = clear_ow_bit old in
      whole_or_part (write_partial_chunk_when_old_is_in_flash_log s bank sect_offset n chunk)
        (λ j. flash_page_byte s chunk (chunk_to_sect_offset chunk * bytes_per_sector + j))
        flash_ow_log old
        (old_in_flash-Fills s bank sect_offset n id_ok sect_ok fits chunk (omega arith))
        (λ t e. subst (λ x. IsCounted flash_ow_log x old) (sym e) c) (λ j _. rw (sym at) refl)
  located-Writes dram_ow_log at c =
      let old = s.chunk_map slot in
      let chunk = clear_ow_bit old in
      whole_or_part (write_partial_chunk_when_old_is_in_ow_buf s bank sect_offset n chunk)
        (λ j.
          s.buffers
            (ow_log_buf (chunk_to_bank chunk) + chunk_to_sect_offset chunk * bytes_per_sector + j))
        dram_ow_log old
        (old_in_ow_buf-Fills s bank sect_offset n id_ok sect_ok fits chunk bank_ok (omega arith))
        (λ t e. tt) (λ j _. rw (sym at) refl)
  located-Writes dram_w_log at c =
      let old = s.chunk_map slot in
      let there = chunk_to_bank old in
      let ptr = old % chunks_per_page in
      let here : buffer_chunk_addr there ptr ≡ old = sym (dram_w_log_addr old at) in
      let dst = log_buf there + chunk_to_sect_offset old * bytes_per_sector in
      let place : dst ≡ w_dst there ptr = ap (λ k. log_buf there + k) (sect_offset_chunk old) in
      let final = write_partial_chunk_when_old_is_in_w_buf s sect_offset n old in
      let f : Fills s dst sect_offset n (λ j. s.buffers (dst + j)) final =
        copy_over s s dst sect_offset n (λ j. s.buffers (dst + j)) sect_ok fits
          (omega (arith, wr_buf-le-log_buf s.write_buf_id there id_ok))
          (record { same = refl; outside = λ a _. refl; holds = λ j _. refl }) in
      let byte : (x : Ftl) (j : ℕ) → chunk_byte x old j ≡ x.buffers (dst + j) =
        λ x j. ap (λ l. located_byte l x old j) (sym at) in
      let w : Writes s slot sect_offset n final = record {
        bytes = λ j j_ok.
            byte final j
            ∙ (f.filled j j_ok
                ∙ sym (
                    merged_same s sect_offset n j (chunk_byte s old) (λ k. s.buffers (dst + k))
                      (byte s j)));
        read_buf_same = refl;
        map_same = λ a _. refl;
        others = λ x j j_ok ne.
            other_addr s final there ptr x j (find_chunk_location x) c (omega arith) refl refl
              (λ a out.
                f.outside a (subst (λ d. (a < d) ⊎ (d + bytes_per_chunk ≤ a)) (sym place) out))
              j_ok (λ e. ne (e ∙ here)) refl;
      } in
      yields w

  -- writeChunkOld, while the write buffer of the bank does not become full: then a read of the chunk sees
  -- the sectors of the request, and in its other bytes what it saw before (0xFF if the chunk was not
  -- mapped), wherever the old version was. No other entry of the chunks map table changes, and no byte
  -- at another address does. The block of an old version in flash must count it.
  pub write_chunk_old-Writes :
      IsCounted (find_chunk_location (s.chunk_map slot)) s (s.chunk_map slot)
      → Yields (Writes s slot sect_offset n) (write_chunk_old collect s bank lpn sect_offset n)
  unfolding write_chunk_old
  write_chunk_old-Writes c = located-Writes (find_chunk_location (s.chunk_map slot)) refl c
