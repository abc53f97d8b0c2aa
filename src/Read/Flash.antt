-- ===== src/Read/Flash.antt =====
-- A chunk in flash is read, alone or with its page.
use msst2015_ftl.Base.{
  ℕ, ◌+◌, ◌*◌, ◌/◌, ◌-◌, ◌<◌, ◌≤◌, ◌≡◌, ◌≢◌, ◌⊎◌, ap, ◌∙◌, arith, true, update, List, ◌∷◌,
}
use msst2015_ftl.Base.Run.{Yields, yields, Yields-weaken}
use msst2015_ftl.Params.{
  bytes_per_chunk, bytes_per_page, bytes_per_sector, chunks_per_page, sectors_per_page,
  sectors_per_chunk,
}
use msst2015_ftl.Layout.{temp_buf_addr, chunks_map_table}
use msst2015_ftl.Chunk.{chunk_to_bank, chunk_to_lbn, chunk_to_page_offset}
use msst2015_ftl.Blocks.{get_log_vbn}
use msst2015_ftl.State.{Ftl}
use msst2015_ftl.Memory.{mem_copy, nand_page_ptread}
use msst2015_ftl.Read.{
  Reading, Part, chunk_dst, read_mode, copy_parts, count_out, read_complete_page, read_one_chunk,
}
use msst2015_ftl.Read.Bytes.{flash_page_byte, chunk_byte, ftl_buf-ge}
use msst2015_ftl.Read.Step.{IsReading, done-IsReading}
use msst2015_ftl.Read.Gather.{IsPartOf, All, HoldsPage, Continues, copy_part, copy_parts-Continues}

-- Chunk `i` is marked as done before it is read.
abbrev pub marked : Reading → ℕ → Reading
marked r i = record r { chunks_done = update r.chunks_done i true }

marked_old :
    (r : Reading) (i k : ℕ) → i ≢ k → update r.chunks_done i true k ≡ true → r.chunks_done k ≡ true
marked_old r i k ne d = ground (arith, ne, d)

pub marked_still :
    (r : Reading) (i k : ℕ) → r.chunks_done k ≡ true → update r.chunks_done i true k ≡ true
marked_still r i k d = ground (arith, d)

module _ (s : Ftl) (lpn : ℕ) (r : Reading) (h : IsReading s lpn r) where
  -- One chunk is read, and the state is as `marked` says.
  pub one_chunk :
      (i : ℕ) (t : Ftl)
      → i < chunks_per_page
      → t ≡ record s { buffers = t.buffers }
      → ((a : ℕ)
          → (a < chunk_dst i) ⊎ (chunk_dst i + bytes_per_chunk ≤ a)
          → t.buffers a ≡ r.ftl.buffers a)
      → ((j : ℕ)
          → j < bytes_per_chunk
          → t.buffers (chunk_dst i + j) ≡ chunk_byte s (s.chunk_map (chunks_map_table lpn i)) j)
      → Continues s lpn (marked r i) (record { ftl = t; chunks_done = update r.chunks_done i true })
  one_chunk i t i_ok same kept new = record {
    reading =
        done-IsReading r i t (update r.chunks_done i true) h i_ok same (λ a out _. kept a out) new
          (marked_old r i);
    still = λ k d. d;
  }

  flash_byte_same : (old i : ℕ) → flash_page_byte r.ftl old i ≡ flash_page_byte s old i
  unfolding flash_page_byte
  flash_byte_same old i = ap (λ (x : Ftl). flash_page_byte x old i) h.same

  module _ (old : ℕ) where
    page_read : Ftl
    page_read =
        nand_page_ptread r.ftl (chunk_to_bank old)
          (get_log_vbn r.ftl.blocks (chunk_to_bank old) (chunk_to_lbn old))
          (chunk_to_page_offset old) 0 sectors_per_page temp_buf_addr

    page_read_same : page_read ≡ record s { buffers = page_read.buffers }
    unfolding page_read nand_page_ptread
    page_read_same = ap (λ (x : Ftl). record x { buffers = page_read.buffers }) h.same

    page_read-HoldsPage : HoldsPage s old page_read.buffers
    unfolding page_read nand_page_ptread flash_page_byte
    page_read-HoldsPage i i_ok =
        let at : temp_buf_addr + i - temp_buf_addr ≡ i = omega arith in
        ground (arith, i_ok, at, flash_byte_same old i)

    page_read_kept :
        (a : ℕ)
        → (a < temp_buf_addr) ⊎ (temp_buf_addr + bytes_per_page ≤ a)
        → page_read.buffers a ≡ r.ftl.buffers a
    unfolding page_read nand_page_ptread
    page_read_kept a out = ground (arith, out)

    pub complete_page :
        (p : Part) (ps : List Part)
        → IsPartOf s lpn old p
        → All (IsPartOf s lpn old) ps
        → Yields
            (Continues s lpn (marked r p.idx))
            (read_complete_page read_mode (marked r p.idx) old (p ∷ ps))
    unfolding read_complete_page copy_parts count_out page_read
    complete_page p ps part parts =
        let done' = update (update r.chunks_done p.idx true) p.idx true in
        let copied =
          copy_part r page_read old p done' h page_read_same page_read-HoldsPage page_read_kept part
            (λ k ne d. marked_old r p.idx k ne (marked_old (marked r p.idx) p.idx k ne d)) in
        Yields-weaken
          (λ r' c. record {
            reading = c.reading;
            still = λ k d. c.still k (marked_still (marked r p.idx) p.idx k d);
          })
          (copy_parts-Continues
            (record {
              ftl = mem_copy page_read (chunk_dst p.idx) (temp_buf_addr + p.offset) bytes_per_chunk;
              chunks_done = done';
            })
            old ps copied.0 copied.1 parts)

    pub one_flash_chunk :
        (p : Part)
        → IsPartOf s lpn old p
        → Yields
            (Continues s lpn (marked r p.idx))
            (read_one_chunk read_mode (marked r p.idx) old p)
    unfolding read_one_chunk count_out nand_page_ptread flash_page_byte
    one_flash_chunk p part =
        let buf = chunk_dst p.idx - p.offset in
        let idx_ok = part.idx_ok in
        let within = part.within in
        let aligned = part.aligned in
        let first : buf + p.offset / bytes_per_sector * bytes_per_sector ≡ chunk_dst p.idx =
          omega (arith, ftl_buf-ge) in
        let b =
          (nand_page_ptread r.ftl (chunk_to_bank old)
            (get_log_vbn r.ftl.blocks (chunk_to_bank old) (chunk_to_lbn old))
            (chunk_to_page_offset old) (p.offset / bytes_per_sector) sectors_per_chunk
            buf).buffers in
        yields (
          one_chunk p.idx _ idx_ok (ap (λ (x : Ftl). record x { buffers = b }) h.same)
            (λ a out. ground (arith, out, first))
            (λ j j_ok.
              let from : chunk_dst p.idx + j - buf ≡ p.offset + j = omega (arith, ftl_buf-ge) in
              ground (arith, j_ok, first, from, flash_byte_same old (p.offset + j))
              ∙ part.bytes j j_ok))
