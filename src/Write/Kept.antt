-- ===== src/Write/Kept.antt =====
-- What a read sees before and after the write buffer of a bank is flushed (flushLogBuffer of
-- ftl_seal/write.c).
use msst2015_ftl.Base.{
  ℕ, ◌+◌, ◌-◌, ◌*◌, ◌<◌, ◌≡◌, ◌≢◌, ◌⊎◌, inl, inr, refl, sym, ap, subst, ◌∙◌, arith, ◌==◌, ◌&&◌, ltb,
  Bool, false, Bool-cases, if◌then◌else◌, invalid,
}
use msst2015_ftl.Base.Run.{Run, ok, Yields, yields, Yields-step}
use msst2015_ftl.Params.{
  num_banks, chunks_per_page, bytes_per_chunk, bytes_per_page, bytes_per_sector, sectors_per_chunk,
  pages_per_blk, log_blk_per_bank, used_pages_per_log_blk,
}
use msst2015_ftl.Chunk.{
  ChunkLocation, invalid_chunk, flash_w_log, dram_w_log, dram_ow_log, flash_ow_log,
  find_chunk_location, chunk_to_bank, chunk_to_lbn, chunk_to_page_offset, chunk_to_sect_offset,
  clear_ow_bit, log_chunk_addr, buffer_chunk_addr,
}
use msst2015_ftl.Chunk.Fields.{
  HasFields, block_chunk_addr-HasFields, log_chunk_addr-eq-block_chunk_addr,
}
use msst2015_ftl.Chunk.Location.{find_chunk_location-log_chunk_addr}
use msst2015_ftl.Heap.Defs.{HeapData}
use msst2015_ftl.Blocks.{get_log_vbn}
use msst2015_ftl.State.{Ftl}
use msst2015_ftl.Memory.{log_buf, nand_page_program}
use msst2015_ftl.Log.{log_page_to_offset, get_log_lbn, set_rw}
use msst2015_ftl.Log.Steps.{get_rw_lpn, increase_rw_lpn}
use msst2015_ftl.Log.Pages.{increase_rw_lpn-next}
use msst2015_ftl.Read.Bytes.{flash_page_byte, located_byte, chunk_byte}
use msst2015_ftl.Write.{flush_log_buffer}
use msst2015_ftl.Write.Places.{w_dst}
use msst2015_ftl.Write.Old.{buffer_byte}
use msst2015_ftl.Write.Flush.{
  IsBuffered, HasCount, IsMoved, IsLeft, with_map, Flushed, flush_chunks-Flushed,
}

-- A chunk in flash lies in page `page` of virtual block `vbn` of a bank.
abbrev pub IsOnPage : Ftl → ℕ → ℕ → ℕ → ℕ → Type 0
IsOnPage s bank vbn page chunk =
    (chunk_to_bank chunk ≡ bank)
    × (get_log_vbn s.blocks (chunk_to_bank chunk) (chunk_to_lbn chunk) ≡ vbn)
    × (chunk_to_page_offset chunk ≡ page)

-- No chunk of the host is mapped to this page.
pub record IsUnused (s : Ftl) (bank vbn page : ℕ) : Type 0 where
  pub by_write :
      (e : ℕ)
      → find_chunk_location (s.chunk_map e) ≡ flash_w_log
      → ¬ IsOnPage s bank vbn page (s.chunk_map e)
  pub by_overwrite :
      (e : ℕ)
      → find_chunk_location (s.chunk_map e) ≡ flash_ow_log
      → ¬ IsOnPage s bank vbn page (clear_ow_bit (s.chunk_map e))

-- Every entry of the map leads to the bytes that it led to before, and none to the buffer of the bank.
pub record Keeps (s : Ftl) (bank : ℕ) (s' : Ftl) : Type 0 where
  pub bytes :
      (e j : ℕ)
      → j < bytes_per_chunk
      → chunk_byte s' (s'.chunk_map e) j ≡ chunk_byte s (s.chunk_map e) j
  pub emptied : (e i : ℕ) → i < chunks_per_page → s'.chunk_map e ≢ buffer_chunk_addr bank i

-- The step of the RW block, the map, the lists and the heap are nothing that the bytes at an address
-- depend on.
module _ (p : Ftl) (map lists : ℕ → ℕ) (heap : HeapData) (bank next : ℕ) (sealed : Bool) where
  abbrev stepped : Ftl
  stepped = set_rw (with_map p map lists heap) bank next sealed

  same_located :
      (location : ChunkLocation) (addr j : ℕ)
      → located_byte location stepped addr j ≡ located_byte location p addr j
  unfolding set_rw located_byte flash_page_byte
  same_located invalid_chunk addr j = refl
  same_located flash_w_log addr j = refl
  same_located dram_w_log addr j = refl
  same_located dram_ow_log addr j = refl
  same_located flash_ow_log addr j = refl

  pub same_bytes : (addr j : ℕ) → chunk_byte stepped addr j ≡ chunk_byte p addr j
  unfolding chunk_byte
  same_bytes addr j = same_located (find_chunk_location addr) addr j

module _ (s : Ftl) (bank lbn off : ℕ) (bank_ok : bank < num_banks) (lbn_ok : lbn < log_blk_per_bank)
    (off_ok : off < used_pages_per_log_blk - 1) where
  abbrev vbn : ℕ
  vbn = get_log_vbn s.blocks bank lbn

  abbrev programmed : Ftl
  programmed = nand_page_program s bank vbn off (log_buf bank)

  abbrev log_lpn : ℕ
  log_lpn = lbn * pages_per_blk + off

  flash_kept :
      (chunk i : ℕ)
      → ¬ IsOnPage s bank vbn off chunk
      → flash_page_byte programmed chunk i ≡ flash_page_byte s chunk i
  unfolding flash_page_byte nand_page_program
  flash_kept chunk i elsewhere =
      let test =
        (chunk_to_bank chunk == bank)
        && ((get_log_vbn s.blocks (chunk_to_bank chunk) (chunk_to_lbn chunk) == vbn)
            && ((chunk_to_page_offset chunk == off) && ltb i bytes_per_page)) in
      elim (Bool-cases test) [
        | inl on ↦ absurd (elsewhere (ground (arith, on), ground (arith, on), ground (arith, on)))
        | inr out ↦ rw out refl
      ]

  left_byte :
      (e j : ℕ) (location : ChunkLocation)
      → location ≡ find_chunk_location (s.chunk_map e)
      → IsUnused s bank vbn off
      → located_byte location programmed (s.chunk_map e) j
        ≡ located_byte location s (s.chunk_map e) j
  unfolding located_byte nand_page_program
  left_byte e j invalid_chunk at u = refl
  left_byte e j flash_w_log at u = flash_kept (s.chunk_map e) _ (u.by_write e (sym at))
  left_byte e j dram_w_log at u = refl
  left_byte e j dram_ow_log at u = refl
  left_byte e j flash_ow_log at u =
      flash_kept (clear_ow_bit (s.chunk_map e)) _ (u.by_overwrite e (sym at))

  programmed_byte :
      (chunk i j : ℕ)
      → HasFields chunk bank lbn off i
      → i < chunks_per_page
      → j < bytes_per_chunk
      → flash_page_byte programmed chunk (chunk_to_sect_offset chunk * bytes_per_sector + j)
        ≡ s.buffers (w_dst bank i + j)
  unfolding flash_page_byte nand_page_program
  programmed_byte chunk i j f i_ok j_ok =
      let place : log_buf bank + (i * sectors_per_chunk * bytes_per_sector + j) ≡ w_dst bank i + j =
        omega arith in
      rw (f.bank_is, f.lbn_is, f.page_is, f.sector_is) (ground (arith, i_ok, j_ok, place))

  moved_byte :
      (i j : ℕ)
      → i < chunks_per_page
      → j < bytes_per_chunk
      → chunk_byte programmed (log_chunk_addr bank log_lpn i) j
        ≡ chunk_byte s (buffer_chunk_addr bank i) j
  unfolding chunk_byte located_byte
  moved_byte i j i_ok j_ok =
      let addr = log_chunk_addr bank log_lpn i in
      let f : HasFields addr bank lbn off i =
        subst (λ x. HasFields x bank lbn off i)
          (sym (log_chunk_addr-eq-block_chunk_addr bank lbn off i))
          (block_chunk_addr-HasFields bank lbn off i lbn_ok (omega arith) i_ok) in
      let at = (find_chunk_location-log_chunk_addr bank log_lpn i bank_ok i_ok (omega arith)).0 in
      ap (λ l. located_byte l programmed addr j) at
      ∙ programmed_byte addr i j f i_ok j_ok
      ∙ sym (buffer_byte s bank i j bank_ok i_ok)

  pub get_rw_lpn-here :
      (collect : Ftl → ℕ → Run Ftl)
      → (s.rw_ctrl bank).log_lpn ≡ log_lpn
      → get_rw_lpn collect s bank ≡ ok (log_lpn, s)
  unfolding get_rw_lpn
  get_rw_lpn-here collect at =
      let allocated : (log_lpn == invalid) ≡ false = ground arith in rw (at, allocated) refl

  not_buffered :
      (i k : ℕ)
      → i < chunks_per_page
      → k < chunks_per_page
      → log_chunk_addr bank log_lpn i ≢ buffer_chunk_addr bank k
  unfolding buffer_chunk_addr log_chunk_addr
  not_buffered i k i_ok k_ok e = omega arith

  entry_byte :
      (t : Ftl) (e j : ℕ)
      → IsUnused s bank vbn off
      → j < bytes_per_chunk
      → ((i : ℕ) × IsMoved programmed bank log_lpn e (t.chunk_map e) i)
        ⊎ IsLeft programmed bank e (t.chunk_map e) chunks_per_page
      → chunk_byte programmed (t.chunk_map e) j ≡ chunk_byte s (s.chunk_map e) j
  unfolding chunk_byte nand_page_program
  entry_byte t e j u j_ok (inl m) =
      ap (λ a. chunk_byte programmed a j) m.1.after
      ∙ moved_byte m.0 j m.1.in_page j_ok
      ∙ ap (λ a. chunk_byte s a j) (sym m.1.before)
  entry_byte t e j u j_ok (inr l) =
      ap (λ a. chunk_byte programmed a j) l.still
      ∙ left_byte e j (find_chunk_location (s.chunk_map e)) refl u

  entry_emptied :
      (t : Ftl) (e i : ℕ)
      → i < chunks_per_page
      → ((k : ℕ) × IsMoved programmed bank log_lpn e (t.chunk_map e) k)
        ⊎ IsLeft programmed bank e (t.chunk_map e) chunks_per_page
      → t.chunk_map e ≢ buffer_chunk_addr bank i
  entry_emptied t e i i_ok (inl m) at = not_buffered m.0 i m.1.in_page i_ok (sym m.1.after ∙ at)
  entry_emptied t e i i_ok (inr l) at = l.other i i_ok (sym l.still ∙ at)

  pub get_log_lbn-here : get_log_lbn log_lpn ≡ lbn
  unfolding get_log_lbn
  get_log_lbn-here = omega arith

  pub log_page_to_offset-here : log_page_to_offset log_lpn ≡ off
  unfolding log_page_to_offset
  log_page_to_offset-here = omega arith

  buffered : IsBuffered s bank → IsBuffered programmed bank
  unfolding nand_page_program
  buffered b = record { mapped = b.mapped; listed = b.listed }

  -- The step to the next page changes nothing that a read sees.
  flushed :
      (collect : Ftl → ℕ → Run Ftl)
      → (s.rw_ctrl bank).log_lpn ≡ log_lpn
      → IsUnused s bank vbn off
      → (t : Ftl) → Flushed programmed bank log_lpn chunks_per_page t
      → Yields (Keeps s bank) (increase_rw_lpn collect t bank)
  unfolding set_rw nand_page_program
  flushed collect at u t f =
      let sealed = (t.rw_ctrl bank).is_ow_blk in
      let next = lbn * pages_per_blk + (if sealed then off + 2 else off + 1) in
      let at' : (t.rw_ctrl bank).log_lpn ≡ log_lpn =
        ap (λ (x : Ftl). (x.rw_ctrl bank).log_lpn) f.same ∙ at in
      let final = set_rw t bank next sealed in
      let w : Keeps s bank final = record {
        bytes = λ e j j_ok.
            ap (λ (x : Ftl). chunk_byte (set_rw x bank next sealed) (t.chunk_map e) j) f.same
            ∙ same_bytes programmed t.chunk_map t.lpns_lists t.heap_write bank next sealed
                (t.chunk_map e) j
            ∙ entry_byte t e j u j_ok (f.entry e);
        emptied = λ e i i_ok. entry_emptied t e i i_ok (f.entry e);
      } in
      rw (increase_rw_lpn-next collect t bank lbn lbn_ok off (omega arith) (λ e. omega arith) at')
        (yields w)

  -- flushLogBuffer, at any page of the bank's RW block but the last one: it returns, and each entry of
  -- the chunks map table then leads to the bytes that it led to before, while none leads to the write
  -- buffer of the bank any more, which is free for new chunks. The metadata of the buffer and the map
  -- agree, no chunk is mapped to the page, and the block counts a page of valid chunks.
  pub flush_log_buffer-Keeps :
      (collect : Ftl → ℕ → Run Ftl)
      → (s.rw_ctrl bank).log_lpn ≡ log_lpn
      → IsBuffered s bank
      → IsUnused s bank vbn off
      → HasCount s.heap_write bank lbn chunks_per_page
      → Yields (Keeps s bank) (flush_log_buffer collect s bank)
  unfolding flush_log_buffer nand_page_program
  flush_log_buffer-Keeps collect at b u c =
      let block : get_log_lbn log_lpn ≡ lbn = get_log_lbn-here in
      let page : log_page_to_offset log_lpn ≡ off = log_page_to_offset-here in
      let b' : IsBuffered programmed bank = buffered b in
      rw (get_rw_lpn-here collect at, block, page)
        (Yields-step _
          (flush_chunks-Flushed programmed bank log_lpn bank_ok b' chunks_per_page 0 s.chunk_map
            s.lpns_lists s.heap_write refl
            (λ e. inr (record { still = refl; other = λ i lt. absurd (omega arith) }))
            (subst (λ l. HasCount s.heap_write bank l chunks_per_page) (sym block) c))
          λ t f. flushed collect at u t f)
