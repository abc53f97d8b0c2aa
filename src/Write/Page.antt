-- ===== src/Write/Page.antt =====
-- A whole page of the host that goes to a page of the log (writeCompletePage of ftl_seal/write.c).
use msst2015_ftl.Base.{
  ℕ, zero, suc, ◌+◌, ◌-◌, ◌*◌, ◌/◌, ◌%◌, ◌<◌, ◌≤◌, ◌≡◌, ◌≢◌, Bool, inl, inr, refl, sym, ap, subst,
  ◌∙◌, arith, ◌==◌, ◌&&◌, ltb, leb, Bool-cases, eqb→eq, if◌then◌else◌, update_self, update-ne,
}
use msst2015_ftl.Base.Run.{Run, Yields, yields}
use msst2015_ftl.Params.{
  num_banks, chunks_per_page, bytes_per_chunk, bytes_per_page, bytes_per_sector, sectors_per_chunk,
  sectors_per_page, pages_per_blk, log_blk_per_bank, used_pages_per_log_blk,
}
use msst2015_ftl.Layout.{chunks_map_table}
use msst2015_ftl.Chunk.{
  ChunkLocation, invalid_chunk, flash_w_log, dram_w_log, dram_ow_log, flash_ow_log,
  find_chunk_location, chunk_to_bank, chunk_to_lbn, chunk_to_page_offset, chunk_to_sect_offset,
  clear_ow_bit, log_chunk_addr,
}
use msst2015_ftl.Chunk.Fields.{
  HasFields, block_chunk_addr-HasFields, log_chunk_addr-eq-block_chunk_addr,
}
use msst2015_ftl.Chunk.Location.{find_chunk_location-log_chunk_addr}
use msst2015_ftl.Blocks.{get_log_vbn}
use msst2015_ftl.State.{Ftl}
use msst2015_ftl.Memory.{
  wr_buf_ptr, next_write_buf, nand_page_ptprogram, nand_page_ptprogram_from_host,
}
use msst2015_ftl.Log.{set_rw}
use msst2015_ftl.Log.Pages.{increase_rw_lpn-next}
use msst2015_ftl.Read.Bytes.{flash_page_byte, located_byte, chunk_byte, page_byte}
use msst2015_ftl.Write.{write_complete_page}
use msst2015_ftl.Write.Buffers.{map_page, set_map, set_list}
use msst2015_ftl.Write.Flush.{with_map}
use msst2015_ftl.Write.Kept.{
  IsOnPage, IsUnused, same_bytes, get_rw_lpn-here, get_log_lbn-here, log_page_to_offset-here,
}

slot_injective : (lpn i k : ℕ) → i ≢ k → chunks_map_table lpn i ≢ chunks_map_table lpn k
unfolding chunks_map_table
slot_injective lpn i k ne e = ne (omega arith)

module _ (bank log_lpn lpn : ℕ) where
  map_page-same :
      (rounds : ℕ) (s : Ftl) (i : ℕ)
      → let t = map_page rounds s bank log_lpn lpn i in
        t ≡ with_map s t.chunk_map t.lpns_lists s.heap_write
  unfolding map_page set_map set_list
  map_page-same zero s i = refl
  map_page-same (suc rounds) s i = map_page-same rounds _ (i + 1)

  map_page-other :
      (rounds : ℕ) (s : Ftl) (i e : ℕ)
      → ((k : ℕ) → i ≤ k → k < i + rounds → chunks_map_table lpn k ≢ e)
      → (map_page rounds s bank log_lpn lpn i).chunk_map e ≡ s.chunk_map e
  unfolding map_page set_map set_list
  map_page-other zero s i e others = refl
  map_page-other (suc rounds) s i e others =
      map_page-other rounds _ (i + 1) e (λ k ge lt. others k (omega arith) (omega arith))
      ∙ update-ne s.chunk_map (chunks_map_table lpn i) (log_chunk_addr bank log_lpn i) e
          (others i (omega arith) (omega arith))

  map_page-mapped :
      (rounds : ℕ) (s : Ftl) (i k : ℕ)
      → i ≤ k
      → k < i + rounds
      → (map_page rounds s bank log_lpn lpn i).chunk_map (chunks_map_table lpn k)
        ≡ log_chunk_addr bank log_lpn k
  unfolding map_page set_map set_list
  map_page-mapped zero s i k ge lt = absurd (omega arith)
  map_page-mapped (suc rounds) s i k ge lt = elim (Bool-cases (i == k)) [
    | inl eq ↦
        subst
          (λ x.
            (map_page (suc rounds) s bank log_lpn lpn i).chunk_map (chunks_map_table lpn x)
            ≡ log_chunk_addr bank log_lpn x)
          (eqb→eq i k eq)
          (map_page-other rounds _ (i + 1) (chunks_map_table lpn i)
              (λ j after _. slot_injective lpn j i (λ same. omega arith))
            ∙ update_self s.chunk_map (chunks_map_table lpn i) (log_chunk_addr bank log_lpn i))
    | inr ne ↦ map_page-mapped rounds _ (i + 1) k (ground (arith, ne, ge)) (omega arith)
  ]

-- What the write of a page does: a read of the page sees the write buffer, and the other entries of the
-- map lead to what they led to before.
pub record Stores (s : Ftl) (lpn : ℕ) (s' : Ftl) : Type 0 where
  pub page :
      (b : ℕ) → b < bytes_per_page → page_byte s' lpn b ≡ s.buffers (wr_buf_ptr s.write_buf_id + b)
  pub others :
      (e j : ℕ)
      → ((k : ℕ) → k < chunks_per_page → chunks_map_table lpn k ≢ e)
      → (s'.chunk_map e ≡ s.chunk_map e)
        × (chunk_byte s' (s'.chunk_map e) j ≡ chunk_byte s (s.chunk_map e) j)
  pub passed_on : s'.write_buf_id ≡ (next_write_buf s).write_buf_id

module _ (s : Ftl) (bank lbn off lpn : ℕ) (bank_ok : bank < num_banks)
    (lbn_ok : lbn < log_blk_per_bank) (off_ok : off < used_pages_per_log_blk - 1) where
  abbrev log_lpn : ℕ
  log_lpn = lbn * pages_per_blk + off

  abbrev vbn : ℕ
  vbn = get_log_vbn s.blocks bank lbn

  abbrev programmed : Ftl
  programmed = nand_page_ptprogram_from_host s bank vbn off 0 sectors_per_page

  flash_kept :
      (chunk i : ℕ)
      → ¬ IsOnPage s bank vbn off chunk
      → flash_page_byte programmed chunk i ≡ flash_page_byte s chunk i
  unfolding flash_page_byte nand_page_ptprogram_from_host nand_page_ptprogram next_write_buf
  flash_kept chunk i elsewhere =
      let test =
        (chunk_to_bank chunk == bank)
        && ((get_log_vbn s.blocks (chunk_to_bank chunk) (chunk_to_lbn chunk) == vbn)
            && ((chunk_to_page_offset chunk == off)
                && (leb (0 * bytes_per_sector) i
                    && ltb i ((0 + sectors_per_page) * bytes_per_sector)))) in
      elim (Bool-cases test) [
        | inl on ↦ absurd (elsewhere (ground (arith, on), ground (arith, on), ground (arith, on)))
        | inr out ↦ rw out refl
      ]

  left_byte :
      (e j : ℕ) (location : ChunkLocation)
      → location ≡ find_chunk_location (s.chunk_map e)
      → IsUnused s bank vbn off
      → located_byte location programmed (s.chunk_map e) j
        ≡ located_byte location s (s.chunk_map e) j
  unfolding located_byte nand_page_ptprogram_from_host nand_page_ptprogram next_write_buf
  left_byte e j invalid_chunk at u = refl
  left_byte e j flash_w_log at u = flash_kept (s.chunk_map e) _ (u.by_write e (sym at))
  left_byte e j dram_w_log at u = refl
  left_byte e j dram_ow_log at u = refl
  left_byte e j flash_ow_log at u =
      flash_kept (clear_ow_bit (s.chunk_map e)) _ (u.by_overwrite e (sym at))

  programmed_byte :
      (chunk i j : ℕ)
      → HasFields chunk bank lbn off i
      → i < chunks_per_page
      → j < bytes_per_chunk
      → flash_page_byte programmed chunk (chunk_to_sect_offset chunk * bytes_per_sector + j)
        ≡ s.buffers (wr_buf_ptr s.write_buf_id + (i * bytes_per_chunk + j))
  unfolding flash_page_byte nand_page_ptprogram_from_host nand_page_ptprogram next_write_buf
  programmed_byte chunk i j f i_ok j_ok =
      let place : i * sectors_per_chunk * bytes_per_sector + j ≡ i * bytes_per_chunk + j =
        omega arith in
      rw (f.bank_is, f.lbn_is, f.page_is, f.sector_is, place) (ground (arith, i_ok, j_ok))

  new_byte :
      (i j : ℕ)
      → i < chunks_per_page
      → j < bytes_per_chunk
      → chunk_byte programmed (log_chunk_addr bank log_lpn i) j
        ≡ s.buffers (wr_buf_ptr s.write_buf_id + (i * bytes_per_chunk + j))
  unfolding chunk_byte located_byte
  new_byte i j i_ok j_ok =
      let addr = log_chunk_addr bank log_lpn i in
      let f : HasFields addr bank lbn off i =
        subst (λ x. HasFields x bank lbn off i)
          (sym (log_chunk_addr-eq-block_chunk_addr bank lbn off i))
          (block_chunk_addr-HasFields bank lbn off i lbn_ok (omega arith) i_ok) in
      ap (λ l. located_byte l programmed addr j)
        (find_chunk_location-log_chunk_addr bank log_lpn i bank_ok i_ok (omega arith)).0
      ∙ programmed_byte addr i j f i_ok j_ok

  abbrev mapped : Ftl
  mapped = map_page chunks_per_page programmed bank log_lpn lpn 0

  final_byte :
      (next addr j : ℕ) (sealed : Bool)
      → chunk_byte (set_rw mapped bank next sealed) addr j ≡ chunk_byte programmed addr j
  final_byte next addr j sealed =
      ap (λ (x : Ftl). chunk_byte (set_rw x bank next sealed) addr j)
        (map_page-same bank log_lpn lpn chunks_per_page programmed 0)
      ∙ same_bytes programmed mapped.chunk_map mapped.lpns_lists programmed.heap_write bank next
          sealed addr j

  stored :
      (next : ℕ) (sealed : Bool)
      → IsUnused s bank vbn off
      → Stores s lpn (set_rw mapped bank next sealed)
  unfolding page_byte chunk_byte set_rw nand_page_ptprogram_from_host nand_page_ptprogram
      next_write_buf
  stored next sealed u = record {
    page = λ b b_ok.
        let i = b / bytes_per_chunk in
        let j = b % bytes_per_chunk in
        let place : i * bytes_per_chunk + j ≡ b = omega arith in
        final_byte next (mapped.chunk_map (chunks_map_table lpn i)) j sealed
        ∙ ap (λ a. chunk_byte programmed a j)
            (map_page-mapped bank log_lpn lpn chunks_per_page programmed 0 i (omega arith)
              (omega arith))
        ∙ new_byte i j (omega arith) (omega arith)
        ∙ ap (λ k. s.buffers (wr_buf_ptr s.write_buf_id + k)) place;
    others = λ e j other.
        let same : mapped.chunk_map e ≡ s.chunk_map e =
          map_page-other bank log_lpn lpn chunks_per_page programmed 0 e
            (λ k _ lt. other k (omega arith)) in
        (
          same,
          final_byte next (mapped.chunk_map e) j sealed
              ∙ ap (λ a. chunk_byte programmed a j) same
              ∙ left_byte e j (find_chunk_location (s.chunk_map e)) refl u,
        );
    passed_on =
        ap (λ (x : Ftl). x.write_buf_id)
          (map_page-same bank log_lpn lpn chunks_per_page programmed 0);
  }

  still : (s.rw_ctrl bank).log_lpn ≡ log_lpn → (programmed.rw_ctrl bank).log_lpn ≡ log_lpn
  unfolding nand_page_ptprogram_from_host nand_page_ptprogram next_write_buf
  still at = at

  -- writeCompletePage, at any page of the bank's RW block but the last one: it returns, and a read of
  -- the page then sees the bytes of the write buffer, which is passed on. Every other entry of the
  -- chunks map table stays and leads to the bytes that it led to before, if no chunk was mapped to the
  -- page of the log.
  pub write_complete_page-Stores :
      (collect : Ftl → ℕ → Run Ftl)
      → (s.rw_ctrl bank).log_lpn ≡ log_lpn
      → IsUnused s bank vbn off
      → Yields (Stores s lpn) (write_complete_page collect s bank lpn)
  unfolding write_complete_page
  write_complete_page-Stores collect at u =
      let sealed = (mapped.rw_ctrl bank).is_ow_blk in
      let next = lbn * pages_per_blk + (if sealed then off + 2 else off + 1) in
      let block = get_log_lbn-here s bank lbn off bank_ok lbn_ok off_ok in
      let page = log_page_to_offset-here s bank lbn off bank_ok lbn_ok off_ok in
      let at' : (mapped.rw_ctrl bank).log_lpn ≡ log_lpn =
        ap (λ (x : Ftl). (x.rw_ctrl bank).log_lpn)
          (map_page-same bank log_lpn lpn chunks_per_page programmed 0)
        ∙ still at in
      rw (get_rw_lpn-here s bank lbn off bank_ok lbn_ok off_ok collect at, block, page)
        (rw
          (increase_rw_lpn-next collect mapped bank lbn lbn_ok off (omega arith) (λ e. omega arith)
            at')
          (yields (stored next sealed u)))
