-- ===== src/Write/Old.antt =====
-- The bytes at an address before and after a write to a DRAM write buffer, and the old version of a
-- chunk.
use msst2015_ftl.Base.{
  ℕ, ◌+◌, ◌*◌, ◌/◌, ◌%◌, ◌<◌, ◌≤◌, ◌≡◌, ◌≢◌, ◌⊎◌, inl, inr, refl, sym, ap, ◌∙◌, arith, ltb, leb,
  ◌&&◌, if◌then◌else◌,
}
use msst2015_ftl.Base.Run.{Yields, yields, Yields-step}
use msst2015_ftl.Params.{
  num_banks, chunks_per_page, sectors_per_chunk, bytes_per_chunk, bytes_per_sector,
}
use msst2015_ftl.Chunk.{
  ChunkLocation, invalid_chunk, flash_w_log, dram_w_log, dram_ow_log, flash_ow_log,
  find_chunk_location, chunk_to_bank, chunk_to_lbn, chunk_to_sect_offset, clear_ow_bit,
  buffer_chunk_addr,
}
use msst2015_ftl.Chunk.Location.{find_chunk_location-buffer_chunk_addr}
use msst2015_ftl.Heap.Sift.Order.{block_value}
use msst2015_ftl.Heap.Ops.Data.{IsValidData}
use msst2015_ftl.State.{Ftl}
use msst2015_ftl.Memory.{log_buf, wr_buf_ptr}
use msst2015_ftl.Trim.{drop_chunk}
use msst2015_ftl.Trim.Drop.{decrement_from_zero}
use msst2015_ftl.Read.Bytes.{flash_page_byte, located_byte, chunk_byte}
use msst2015_ftl.Write.Places.{
  w_dst, dram_w_log_addr, sect_offset_chunk, buffer_chunk_addr-chunk_to_bank,
  buffer_chunk_addr-chunk, log_buf-le-ow_log_buf, w_dst_disjoint,
}
use msst2015_ftl.Write.Fill.{merged}

-- The sectors of the request are in the chunk of `slot`, whose other bytes are the old ones; the other
-- entries of the table stay, and so do the bytes at every address but the new one.
pub record Writes (s : Ftl) (slot sect_offset n : ℕ) (s' : Ftl) : Type 0 where
  pub bytes :
      (j : ℕ)
      → j < bytes_per_chunk
      → chunk_byte s' (s'.chunk_map slot) j
        ≡ merged s sect_offset n (chunk_byte s (s.chunk_map slot)) j
  pub map_same : (a : ℕ) → slot ≢ a → s'.chunk_map a ≡ s.chunk_map a
  pub read_buf_same : s'.read_buf_id ≡ s.read_buf_id
  pub others :
      (addr j : ℕ)
      → j < bytes_per_chunk
      → addr ≢ s'.chunk_map slot
      → chunk_byte s' addr j ≡ chunk_byte s addr j

-- The block of an old chunk in flash counts a valid chunk.
abbrev pub IsCounted : ChunkLocation → Ftl → ℕ → Type 0
IsCounted invalid_chunk s old = Unit
IsCounted flash_w_log s old =
    IsValidData s.heap_write
    × (s.heap_write.first_lbn ≡ 0)
    × (chunk_to_bank old < num_banks)
    × (chunk_to_lbn old < s.heap_write.log_blks_per_bank)
    × (0 < block_value (s.heap_write.banks (chunk_to_bank old)) (chunk_to_lbn old))
IsCounted dram_w_log s old = chunk_to_bank old < num_banks
IsCounted dram_ow_log s old = Unit
IsCounted flash_ow_log s old =
    IsValidData s.heap_overwrite
    × (s.heap_overwrite.first_lbn ≡ 0)
    × (chunk_to_bank (clear_ow_bit old) < num_banks)
    × (chunk_to_lbn (clear_ow_bit old) < s.heap_overwrite.log_blks_per_bank)
    × (0
        < block_value (s.heap_overwrite.banks (chunk_to_bank (clear_ow_bit old)))
            (chunk_to_lbn (clear_ow_bit old)))

-- The state `s` with what the heaps and the metadata of the buffers became, and with other bytes in the
-- buffers.
abbrev pub with_counts : Ftl → Ftl → (ℕ → ℕ) → Ftl
with_counts s t b = record s {
  heap_write = t.heap_write;
  heap_overwrite = t.heap_overwrite;
  log_buf_meta = t.log_buf_meta;
  ow_log_buf_meta = t.ow_log_buf_meta;
  buffers = b;
}

pub drop_chunk-with_counts :
    (s : Ftl) (location : ChunkLocation) (old : ℕ)
    → IsCounted location s old
    → Yields (λ t. t ≡ with_counts s t s.buffers) (drop_chunk location old s)
unfolding drop_chunk
drop_chunk-with_counts s invalid_chunk old c = yields refl
drop_chunk-with_counts s flash_w_log old c =
    Yields-step _
      (decrement_from_zero s.heap_write (chunk_to_bank old) (chunk_to_lbn old) c.0 c.2 c.1 c.3 c.4)
      λ h _. yields refl
drop_chunk-with_counts s dram_w_log old c = yields refl
drop_chunk-with_counts s dram_ow_log old c = yields refl
drop_chunk-with_counts s flash_ow_log old c =
    let chunk = clear_ow_bit old in
    Yields-step _
      (decrement_from_zero s.heap_overwrite (chunk_to_bank chunk) (chunk_to_lbn chunk) c.0 c.2 c.1
        c.3 c.4)
      λ h _. yields refl

-- Bytes outside of one chunk of a write buffer stay, so the bytes at other addresses do.
pub other_addr :
    (s t : Ftl) (bank ptr addr j : ℕ) (location : ChunkLocation)
    → bank < num_banks
    → ptr < chunks_per_page
    → t.flash ≡ s.flash
    → t.blocks ≡ s.blocks
    → ((a : ℕ)
        → (a < w_dst bank ptr) ⊎ (w_dst bank ptr + bytes_per_chunk ≤ a)
        → t.buffers a ≡ s.buffers a)
    → j < bytes_per_chunk
    → addr ≢ buffer_chunk_addr bank ptr
    → location ≡ find_chunk_location addr
    → located_byte location t addr j ≡ located_byte location s addr j
unfolding located_byte flash_page_byte
other_addr s t bank ptr addr j invalid_chunk bank_ok ptr_ok flash blocks kept j_ok ne at = refl
other_addr s t bank ptr addr j flash_w_log bank_ok ptr_ok flash blocks kept j_ok ne at = cc
other_addr s t bank ptr addr j flash_ow_log bank_ok ptr_ok flash blocks kept j_ok ne at = cc
other_addr s t bank ptr addr j dram_w_log bank_ok ptr_ok flash blocks kept j_ok ne at =
    let there = chunk_to_bank addr in
    let sect = sect_offset_chunk addr in
    kept _ (elim (w_dst_disjoint bank ptr there (addr % chunks_per_page) ptr_ok (omega arith)) [
      | inl both ↦ absurd (
          ne (
            dram_w_log_addr addr at
            ∙ ap (λ k. buffer_chunk_addr k (addr % chunks_per_page)) (sym both.0)
            ∙ ap (λ k. buffer_chunk_addr bank k) (sym both.1)))
      | inr apart ↦ ground (arith, apart, sect, j_ok)
    ])
other_addr s t bank ptr addr j dram_ow_log bank_ok ptr_ok flash blocks kept j_ok ne at =
    kept _
      (inr (omega (arith, log_buf-le-ow_log_buf bank (chunk_to_bank (clear_ow_bit addr)) bank_ok)))

-- A byte at the address of a chunk of a write buffer.
pub buffer_byte :
    (s : Ftl) (bank ptr j : ℕ)
    → bank < num_banks
    → ptr < chunks_per_page
    → chunk_byte s (buffer_chunk_addr bank ptr) j ≡ s.buffers (w_dst bank ptr + j)
unfolding chunk_byte located_byte
buffer_byte s bank ptr j bank_ok ptr_ok =
    let addr = buffer_chunk_addr bank ptr in
    let place : log_buf (chunk_to_bank addr) + chunk_to_sect_offset addr * bytes_per_sector + j
        ≡ w_dst bank ptr + j =
      rw
        (
          sect_offset_chunk addr,
          buffer_chunk_addr-chunk_to_bank bank ptr ptr_ok,
          buffer_chunk_addr-chunk bank ptr ptr_ok,
        )
        refl in
    ap (λ l. located_byte l s addr j)
      (find_chunk_location-buffer_chunk_addr bank ptr bank_ok ptr_ok).0
    ∙ ap s.buffers place

pub merged_same :
    (s : Ftl) (sect_offset n j : ℕ) (old old' : ℕ → ℕ)
    → old j ≡ old' j
    → merged s sect_offset n old j ≡ merged s sect_offset n old' j
merged_same s sect_offset n j old old' e =
    ap
      (λ v.
        if leb (sect_offset % sectors_per_chunk * bytes_per_sector) j
          && ltb j ((sect_offset % sectors_per_chunk + n) * bytes_per_sector)
        then s.buffers
            (wr_buf_ptr s.write_buf_id + sect_offset / sectors_per_chunk * bytes_per_chunk + j)
        else v)
      e
