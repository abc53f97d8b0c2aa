-- ===== src/Write/Fill.antt =====
-- The new version of a chunk in the DRAM write buffer: the sectors of the request over the old bytes.
use msst2015_ftl.Base.{
  ℕ, ◌+◌, ◌*◌, ◌-◌, ◌/◌, ◌%◌, ◌<◌, ◌≤◌, ◌≡◌, ◌⊎◌, inl, inr, refl, ap, subst, ◌∙◌, arith, ltb, leb,
  ◌==◌, ◌&&◌, Bool-cases, eqb→eq, if◌then◌else◌, invalid,
}
use msst2015_ftl.Params.{
  num_banks, chunks_per_page, sectors_per_chunk, bytes_per_chunk, bytes_per_sector, bytes_per_page,
  sectors_per_page,
}
use msst2015_ftl.Layout.{num_wr_buffers}
use msst2015_ftl.Chunk.{
  chunk_to_bank, chunk_to_lbn, chunk_to_page_offset, chunk_to_sect_offset, chunk_to_chunk_offset,
}
use msst2015_ftl.Blocks.{get_log_vbn}
use msst2015_ftl.State.{Ftl}
use msst2015_ftl.Memory.{ow_log_buf, wr_buf_ptr, mem_copy, mem_set_dram, nand_page_ptread}
use msst2015_ftl.Read.Bytes.{flash_page_byte}
use msst2015_ftl.Write.Buffers.{
  write_chunk_new, write_partial_chunk_when_old_is_in_ow_buf,
  write_partial_chunk_when_old_is_in_flash_log,
}
use msst2015_ftl.Write.Places.{w_dst, wr_buf-le-log_buf, log_buf-ge, sect_offset_chunk}

-- Byte `j` of a chunk after `n` sectors from `sect_offset` on are written over `old`.
abbrev pub merged : Ftl → ℕ → ℕ → (ℕ → ℕ) → ℕ → ℕ
merged s sect_offset n old j =
    if leb (sect_offset % sectors_per_chunk * bytes_per_sector) j
      && ltb j ((sect_offset % sectors_per_chunk + n) * bytes_per_sector)
    then s.buffers
        (wr_buf_ptr s.write_buf_id + sect_offset / sectors_per_chunk * bytes_per_chunk + j)
    else old j

-- From `s` to `t`, the bytes at `dst` become the new version of the chunk, and nothing else changes.
pub record Fills (s : Ftl) (dst sect_offset n : ℕ) (old : ℕ → ℕ) (t : Ftl) : Type 0 where
  pub same : t ≡ record s { buffers = t.buffers }
  pub outside : (a : ℕ) → (a < dst) ⊎ (dst + bytes_per_chunk ≤ a) → t.buffers a ≡ s.buffers a
  pub filled : (j : ℕ) → j < bytes_per_chunk → t.buffers (dst + j) ≡ merged s sect_offset n old j

-- From `s` to `t`, the bytes at `dst` become those of the old version, and nothing else changes.
pub record Bases (s : Ftl) (dst : ℕ) (old : ℕ → ℕ) (t : Ftl) : Type 0 where
  pub same : t ≡ record s { buffers = t.buffers }
  pub outside : (a : ℕ) → (a < dst) ⊎ (dst + bytes_per_chunk ≤ a) → t.buffers a ≡ s.buffers a
  pub holds : (j : ℕ) → j < bytes_per_chunk → t.buffers (dst + j) ≡ old j

-- The sectors of the request are copied over the old version.
pub copy_over :
    (s t : Ftl) (dst sect_offset n : ℕ) (old : ℕ → ℕ)
    → sect_offset < sectors_per_page
    → sect_offset % sectors_per_chunk + n ≤ sectors_per_chunk
    → wr_buf_ptr s.write_buf_id + bytes_per_page ≤ dst
    → Bases s dst old t
    → let start = (sect_offset % sectors_per_chunk) * bytes_per_sector in
      let src = wr_buf_ptr s.write_buf_id + sect_offset / sectors_per_chunk * bytes_per_chunk in
      Fills s dst sect_offset n old (mem_copy t (dst + start) (src + start) (n * bytes_per_sector))
unfolding mem_copy
copy_over s t dst sect_offset n old sect_ok fits below b =
    let start = (sect_offset % sectors_per_chunk) * bytes_per_sector in
    let src = wr_buf_ptr s.write_buf_id + sect_offset / sectors_per_chunk * bytes_per_chunk in
    let copied = mem_copy t (dst + start) (src + start) (n * bytes_per_sector) in
    record {
      same = ap (λ (x : Ftl). record x { buffers = copied.buffers }) b.same;
      outside = λ a out. ground (arith, out) ∙ b.outside a out;
      filled = λ j j_ok.
          elim (Bool-cases
            (leb start j && ltb j ((sect_offset % sectors_per_chunk + n) * bytes_per_sector))) [
              | inl new ↦
                  let from : src + start + (dst + j - (dst + start)) ≡ src + j =
                    ground (arith, new) in
                  ground (arith, new, j_ok, from, b.outside (src + j) (inl (omega arith)))
              | inr kept ↦ ground (arith, kept, j_ok, b.holds j j_ok)
            ];
    }

old_bytes-Bases :
    (s : Ftl) (dst src : ℕ)
    → Bases s dst (λ j. s.buffers (src + j)) (mem_copy s dst src bytes_per_chunk)
unfolding mem_copy
old_bytes-Bases s dst src = record {
  same = refl;
  outside = λ a out. ground (arith, out);
  holds = λ j j_ok. let at : dst + j - dst ≡ j = omega arith in ground (arith, j_ok, at);
}

module _ (s : Ftl) (bank sect_offset n : ℕ) (id_ok : s.write_buf_id < num_wr_buffers)
    (sect_ok : sect_offset < sectors_per_page)
    (fits : sect_offset % sectors_per_chunk + n ≤ sectors_per_chunk) where
  abbrev pub ptr : ℕ
  ptr = s.chunk_ptr bank

  pub write_chunk_new_whole :
      (old : ℕ → ℕ)
      → n ≡ sectors_per_chunk
      → Fills s (w_dst bank ptr) sect_offset n old (write_chunk_new s bank sect_offset n)
  unfolding write_chunk_new mem_copy
  write_chunk_new_whole old whole =
      let start : sect_offset % sectors_per_chunk ≡ 0 = omega arith in
      rw (whole, start)
        (record {
          same = refl;
          outside = λ a out. ground (arith, out);
          filled = λ j j_ok.
              let from : wr_buf_ptr s.write_buf_id
                    + sect_offset * bytes_per_sector
                    + (w_dst bank ptr + j - (w_dst bank ptr + 0 * bytes_per_sector))
                  ≡ wr_buf_ptr s.write_buf_id
                    + sect_offset / sectors_per_chunk * bytes_per_chunk
                    + j =
                omega arith in
              ground (arith, j_ok, from);
        })

  below : wr_buf_ptr s.write_buf_id + bytes_per_page ≤ w_dst bank ptr
  below = omega (arith, wr_buf-le-log_buf s.write_buf_id bank id_ok)

  -- writeChunkNew: bytes that the host did not write are 0xFF.
  pub write_chunk_new-Fills :
      Fills s (w_dst bank ptr) sect_offset n (λ j. 0xff) (write_chunk_new s bank sect_offset n)
  unfolding write_chunk_new mem_set_dram
  write_chunk_new-Fills = elim (Bool-cases (n == sectors_per_chunk)) [
    | inl whole ↦ write_chunk_new_whole (λ j. 0xff) (eqb→eq n sectors_per_chunk whole)
    | inr partial ↦
        let dst = w_dst bank ptr in
        let start = (sect_offset % sectors_per_chunk) * bytes_per_sector in
        let from : wr_buf_ptr s.write_buf_id
              + sect_offset / sectors_per_chunk * bytes_per_chunk
              + start
            ≡ wr_buf_ptr s.write_buf_id + sect_offset * bytes_per_sector =
          omega arith in
        let cleared = mem_set_dram s dst invalid bytes_per_chunk in
        rw partial (
          subst
            (λ src.
              Fills s dst sect_offset n (λ j. 0xff)
                (mem_copy cleared (dst + start) src (n * bytes_per_sector)))
            from
            (copy_over s cleared dst sect_offset n (λ j. 0xff) sect_ok fits below
              (record {
                same = refl;
                outside = λ a out. ground (arith, out);
                holds = λ j j_ok. ground (arith, j_ok);
              })))
  ]

  pub old_in_ow_buf-Fills :
      (chunk : ℕ)
      → bank < num_banks
      → ptr < chunks_per_page
      → Fills s
          (w_dst bank ptr)
          sect_offset
          n
          (λ j.
            s.buffers (
              ow_log_buf (chunk_to_bank chunk) + chunk_to_sect_offset chunk * bytes_per_sector + j))
          (write_partial_chunk_when_old_is_in_ow_buf s bank sect_offset n chunk)
  unfolding write_partial_chunk_when_old_is_in_ow_buf
  old_in_ow_buf-Fills chunk bank_ok ptr_ok =
      let dst = w_dst bank ptr in
      let src = ow_log_buf (chunk_to_bank chunk) + chunk_to_sect_offset chunk * bytes_per_sector in
      copy_over s (mem_copy s dst src bytes_per_chunk) dst sect_offset n (λ j. s.buffers (src + j))
        sect_ok fits below (old_bytes-Bases s dst src)

  pub old_in_flash-Fills :
      (chunk : ℕ)
      → ptr < chunks_per_page
      → Fills s
          (w_dst bank ptr)
          sect_offset
          n
          (λ j. flash_page_byte s chunk (chunk_to_sect_offset chunk * bytes_per_sector + j))
          (write_partial_chunk_when_old_is_in_flash_log s bank sect_offset n chunk)
  unfolding write_partial_chunk_when_old_is_in_flash_log nand_page_ptread flash_page_byte
      chunk_to_chunk_offset
  old_in_flash-Fills chunk ptr_ok =
      let dst = w_dst bank ptr in
      let buf = dst - chunk % chunks_per_page * bytes_per_chunk in
      let sect = sect_offset_chunk chunk in
      let from : buf + chunk_to_sect_offset chunk * bytes_per_sector ≡ dst =
        omega (arith, sect, log_buf-ge bank) in
      let old_bank = chunk_to_bank chunk in
      let read =
        nand_page_ptread s old_bank (get_log_vbn s.blocks old_bank (chunk_to_lbn chunk))
          (chunk_to_page_offset chunk) (chunk_to_sect_offset chunk) sectors_per_chunk buf in
      copy_over s read dst sect_offset n
        (λ j. flash_page_byte s chunk (chunk_to_sect_offset chunk * bytes_per_sector + j)) sect_ok
        fits below
        (record {
          same = refl;
          outside = λ a out. ground (arith, out, from);
          holds = λ j j_ok.
              let at : dst + j - buf ≡ chunk_to_sect_offset chunk * bytes_per_sector + j =
                omega (arith, sect, log_buf-ge bank) in
              ground (arith, j_ok, from, at);
        })
