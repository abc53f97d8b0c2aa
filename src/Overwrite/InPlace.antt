-- ===== src/Overwrite/InPlace.antt =====
-- Sectors that are overwritten in place in a page of the overwrite log (overwritePageOldInOrderInOwLog
-- of ftl_seal/overwrite.c, while the counter of the page is below its limit).
use msst2015_ftl.Base.{
  ℕ, ◌+◌, ◌*◌, ◌-◌, ◌/◌, ◌%◌, ◌<◌, ◌≤◌, ◌≡◌, inl, inr, refl, ap, sym, subst, ◌≢◌, ◌⊎◌, update-ne,
  eqb_refl, ◌∙◌, arith, ltb, leb, ◌==◌, ◌&&◌, true, Bool-cases, eqb→eq, if◌then◌else◌, update_self,
  u8,
}
use msst2015_ftl.Base.Run.{Run, Yields, yields}
use Prim.Native.Nat.{bit_and}
use msst2015_ftl.Params.{
  chunks_per_page, sectors_per_chunk, bytes_per_chunk, bytes_per_sector, sectors_per_page, ow_limit,
}
use msst2015_ftl.Layout.{chunks_map_table, ow_counter_addr, num_wr_buffers}
use msst2015_ftl.Chunk.{
  flash_ow_log, find_chunk_location, chunk_to_bank, chunk_to_lbn, chunk_to_page_offset,
  chunk_to_sect_offset, chunk_to_chunk_offset, chunk_to_chunk_offset_in_bank, clear_ow_bit,
}
use msst2015_ftl.Blocks.{get_log_vbn}
use msst2015_ftl.Log.{is_flash_ow_log}
use msst2015_ftl.State.{Ftl}
use msst2015_ftl.Memory.{wr_buf_ptr, next_write_buf, nand_page_reprogram_from_host}
use msst2015_ftl.Read.Bytes.{flash_page_byte, located_byte, chunk_byte, page_byte}
use msst2015_ftl.Overwrite.{overwrite_page_old_in_order_in_ow_log, overwrite_to_log_blk}
use msst2015_ftl.Overwrite.Buffers.{
  counted_page, increase_ow_counter, read_ow_counter, in_order_from,
  old_version_is_in_ow_log_in_order,
}
use msst2015_ftl.Overwrite.InOrder.{
  IsAtPlace, is_flash_ow_log-eq, at_place, in_order_from-IsAtPlace,
}

-- The chunk of the address in the map, without the bit of the overwrite log.
abbrev pub old_chunk : Ftl → ℕ → ℕ → ℕ
old_chunk s lpn sect_offset =
    clear_ow_bit (s.chunk_map (chunks_map_table lpn (sect_offset / sectors_per_chunk)))

all-IsAtPlace :
    (s : Ftl) (lpn sect_offset n_sects : ℕ)
    → 0 < n_sects
    → sect_offset + n_sects ≤ sectors_per_page
    → old_version_is_in_ow_log_in_order s lpn sect_offset n_sects ≡ true
    → (k : ℕ) → sect_offset / sectors_per_chunk ≤ k
    → k ≤ (sect_offset + n_sects - 1) / sectors_per_chunk
    → IsAtPlace (old_chunk s lpn sect_offset) k (s.chunk_map (chunks_map_table lpn k))
unfolding old_version_is_in_ow_log_in_order chunk_to_chunk_offset
all-IsAtPlace s lpn sect_offset n_sects some_ok fits ordered k ge le =
    let first = sect_offset / sectors_per_chunk in
    let last = (sect_offset + n_sects - 1) / sectors_per_chunk in
    let addr = s.chunk_map (chunks_map_table lpn first) in
    let chunk = clear_ow_bit addr in
    let bank = chunk_to_bank chunk in
    let offset = chunk_to_chunk_offset_in_bank chunk in
    let facts : (is_flash_ow_log (find_chunk_location addr) ≡ true)
        × (chunk_to_chunk_offset chunk ≡ first)
        × (in_order_from (last - first) s lpn (first + 1) bank offset ≡ true) =
      (ground (arith, ordered), ground (arith, ordered), ground (arith, ordered)) in
    let at : chunk % chunks_per_page ≡ first = facts.1 in
    elim (Bool-cases (first == k)) [
      | inl eq ↦
          let here = at_place chunk chunk first (omega arith) refl (omega arith) (omega arith) in
          subst (λ x. IsAtPlace chunk x (s.chunk_map (chunks_map_table lpn x))) (eqb→eq first k eq)
            (record {
              in_flash = is_flash_ow_log-eq _ facts.0;
              bank_same = refl;
              lbn_same = refl;
              page_same = refl;
              place = here.2;
            })
      | inr ne ↦
          let step : offset + (first + 1 - 1 - chunk % chunks_per_page) ≡ offset = omega arith in
          in_order_from-IsAtPlace (last - first) s lpn chunk (first + 1) (omega arith) (omega arith)
            (ap (λ o. in_order_from (last - first) s lpn (first + 1) bank o) step ∙ facts.2) k
            (ground (arith, ne, ge)) (omega arith)
    ]

-- The request only clears bits: each of its bytes has no bit that the old byte of the page does not
-- have, which is all that the flash can take without an erase.
abbrev pub OnlyClears : Ftl → ℕ → ℕ → ℕ → Type 0
OnlyClears s lpn sect_offset n_sects =
    (b : ℕ)
    → sect_offset * bytes_per_sector ≤ b
    → b < (sect_offset + n_sects) * bytes_per_sector
    → bit_and (page_byte s lpn b) (s.buffers (wr_buf_ptr s.write_buf_id + b))
      ≡ s.buffers (wr_buf_ptr s.write_buf_id + b)

-- What the call does: the sectors of the request replace their bytes in the page, whose counter goes up
-- by one, and the write buffer is released. Nothing else changes.
pub record Replaces (s : Ftl) (lpn sect_offset n_sects : ℕ) (s' : Ftl) : Type 0 where
  pub bytes :
      (b : ℕ)
      → sect_offset / sectors_per_chunk * bytes_per_chunk ≤ b
      → b < ((sect_offset + n_sects - 1) / sectors_per_chunk + 1) * bytes_per_chunk
      → page_byte s' lpn b ≡ (
          if leb (sect_offset * bytes_per_sector) b
            && ltb b ((sect_offset + n_sects) * bytes_per_sector)
          then s.buffers (wr_buf_ptr s.write_buf_id + b)
          else page_byte s lpn b)
  pub flash_same :
      let chunk = old_chunk s lpn sect_offset in
      (bank v page i : ℕ)
      → (bank ≢ chunk_to_bank chunk)
        ⊎ ((v ≢ get_log_vbn s.blocks (chunk_to_bank chunk) (chunk_to_lbn chunk))
            ⊎ ((page ≢ chunk_to_page_offset chunk)
                ⊎ ((i < sect_offset * bytes_per_sector)
                    ⊎ ((sect_offset + n_sects) * bytes_per_sector ≤ i))))
      → s'.flash bank v page i ≡ s.flash bank v page i
  pub counted :
      let chunk = old_chunk s lpn sect_offset in
      read_ow_counter s' (chunk_to_bank chunk) (chunk_to_lbn chunk) (chunk_to_page_offset chunk)
      ≡ read_ow_counter s (chunk_to_bank chunk) (chunk_to_lbn chunk) (chunk_to_page_offset chunk)
        + 1
  pub counters_same :
      let chunk = old_chunk s lpn sect_offset in
      (a : ℕ)
      → ow_counter_addr
          (chunk_to_bank chunk)
          (chunk_to_lbn chunk)
          (counted_page (chunk_to_page_offset chunk))
        ≢ a
      → s'.ow_counters a ≡ s.ow_counters a
  pub released : s'.write_buf_id ≡ (s.write_buf_id + 1) % num_wr_buffers
  pub rest_same :
      s'
      ≡ record s { flash = s'.flash; ow_counters = s'.ow_counters; write_buf_id = s'.write_buf_id }

flash_ow_byte :
    (s : Ftl) (addr j : ℕ)
    → find_chunk_location addr ≡ flash_ow_log
    → chunk_byte s addr j
      ≡ flash_page_byte s
          (clear_ow_bit addr)
          (chunk_to_sect_offset (clear_ow_bit addr) * bytes_per_sector + j)
unfolding chunk_byte located_byte
flash_ow_byte s addr j at = rw at refl

-- Byte `b` of the page of the host is byte `b` of the flash page.
page_byte-IsAtPlace :
    (s : Ftl) (lpn chunk b : ℕ)
    → IsAtPlace chunk
        (b / bytes_per_chunk)
        (s.chunk_map (chunks_map_table lpn (b / bytes_per_chunk)))
    → page_byte s lpn b ≡ flash_page_byte s chunk b
unfolding page_byte flash_page_byte
page_byte-IsAtPlace s lpn chunk b p =
    let there : b / bytes_per_chunk * sectors_per_chunk * bytes_per_sector + b % bytes_per_chunk
        ≡ b =
      omega arith in
    flash_ow_byte s (s.chunk_map (chunks_map_table lpn (b / bytes_per_chunk))) (b % bytes_per_chunk)
      p.in_flash
    ∙ rw (flash_page_byte, p.bank_same, p.lbn_same, p.page_same, p.place, there) refl

increase_ow_counter-read :
    (s : Ftl) (bank lbn page : ℕ)
    → read_ow_counter s bank lbn page < 255
    → read_ow_counter (increase_ow_counter s bank lbn page) bank lbn page
      ≡ read_ow_counter s bank lbn page + 1
unfolding increase_ow_counter read_ow_counter
increase_ow_counter-read s bank lbn page low =
    let addr = ow_counter_addr bank lbn (counted_page page) in
    let small : u8 (s.ow_counters addr + 1) ≡ s.ow_counters addr + 1 = omega (arith, low) in
    update_self s.ow_counters addr (u8 (s.ow_counters addr + 1)) ∙ small

-- A byte of the page after the command.
reprogrammed :
    (s : Ftl) (lpn sect_offset n_sects b : ℕ)
    → let chunk = old_chunk s lpn sect_offset in
      let host = s.buffers (wr_buf_ptr s.write_buf_id + b) in
      page_byte s lpn b ≡ flash_page_byte s chunk b
      → (sect_offset * bytes_per_sector ≤ b
          → b < (sect_offset + n_sects) * bytes_per_sector
          → bit_and (page_byte s lpn b) host ≡ host)
      → flash_page_byte
          (nand_page_reprogram_from_host s
            (chunk_to_bank chunk)
            (get_log_vbn s.blocks (chunk_to_bank chunk) (chunk_to_lbn chunk))
            (chunk_to_page_offset chunk)
            sect_offset
            n_sects)
          chunk
          b
        ≡ (if leb (sect_offset * bytes_per_sector) b
              && ltb b ((sect_offset + n_sects) * bytes_per_sector)
            then host
            else page_byte s lpn b)
unfolding nand_page_reprogram_from_host next_write_buf flash_page_byte
reprogrammed s lpn sect_offset n_sects b old takes =
    let within =
      leb (sect_offset * bytes_per_sector) b
      && ltb b ((sect_offset + n_sects) * bytes_per_sector) in
    elim (Bool-cases within) [
      | inl inside ↦
          let host = s.buffers (wr_buf_ptr s.write_buf_id + b) in
          let t = takes (ground (arith, inside)) (ground (arith, inside)) in
          rw
            (
              inside,
              eqb_refl (chunk_to_bank (old_chunk s lpn sect_offset)),
              eqb_refl (
                  get_log_vbn s.blocks (chunk_to_bank (old_chunk s lpn sect_offset))
                    (chunk_to_lbn (old_chunk s lpn sect_offset))),
              eqb_refl (chunk_to_page_offset (old_chunk s lpn sect_offset)),
            )
            (ap (λ x. bit_and x host) (sym old) ∙ t)
      | inr outside ↦ ground (arith, outside, old)
    ]

in_place :
    (s : Ftl) (lpn sect_offset n_sects : ℕ)
    → 0 < n_sects
    → sect_offset + n_sects ≤ sectors_per_page
    → old_version_is_in_ow_log_in_order s lpn sect_offset n_sects ≡ true
    → let chunk = old_chunk s lpn sect_offset in
      read_ow_counter s (chunk_to_bank chunk) (chunk_to_lbn chunk) (chunk_to_page_offset chunk)
        < ow_limit
      → OnlyClears s lpn sect_offset n_sects
      → Replaces s lpn sect_offset n_sects (
          let chunk = old_chunk s lpn sect_offset in
          let bank = chunk_to_bank chunk in
          let lbn = chunk_to_lbn chunk in
          let page = chunk_to_page_offset chunk in
          increase_ow_counter
            (nand_page_reprogram_from_host s bank
              (get_log_vbn s.blocks bank lbn)
              page
              sect_offset
              n_sects)
            bank
            lbn
            page)
unfolding increase_ow_counter read_ow_counter nand_page_reprogram_from_host next_write_buf
    flash_page_byte
in_place s lpn sect_offset n_sects some_ok fits ordered low clears =
    let chunk = old_chunk s lpn sect_offset in
    let bank = chunk_to_bank chunk in
    let lbn = chunk_to_lbn chunk in
    let page = chunk_to_page_offset chunk in
    let s' =
      increase_ow_counter
        (nand_page_reprogram_from_host s bank (get_log_vbn s.blocks bank lbn) page sect_offset
          n_sects)
        bank lbn page in
    record {
      bytes = λ b low_b high_b.
          let p =
            all-IsAtPlace s lpn sect_offset n_sects some_ok fits ordered (b / bytes_per_chunk)
              (omega arith) (omega arith) in
          let old : page_byte s lpn b ≡ flash_page_byte s chunk b =
            page_byte-IsAtPlace s lpn chunk b p in
          let takes = clears b in
          page_byte-IsAtPlace s' lpn chunk b p ∙ reprogrammed s lpn sect_offset n_sects b old takes;
      flash_same = λ b v p i other. ground (arith, other);
      counters_same = λ a other. update-ne s.ow_counters _ _ a other;
      released = refl;
      rest_same = refl;
      counted = increase_ow_counter-read s bank lbn page (omega (arith, low));
    }

-- overwriteToLogBlk, when the old versions of the chunks are in order in one page of the overwrite log,
-- the counter of the page is below its limit, and the request only clears bits of the old bytes: it
-- returns, and then the page of the host has, in the chunks that the request touches, the bytes of the
-- write buffer at its sectors and its old bytes elsewhere. The counter of the page goes up by one
-- and the write buffer is released; no other byte of the flash, no other counter and no other part
-- of the state changes.
pub overwrite_to_log_blk-Replaces :
    (collect : Ftl → ℕ → Run Ftl) (s : Ftl) (lpn sect_offset n_sects : ℕ)
    → 0 < n_sects
    → sect_offset + n_sects ≤ sectors_per_page
    → old_version_is_in_ow_log_in_order s lpn sect_offset n_sects ≡ true
    → let chunk = old_chunk s lpn sect_offset in
      read_ow_counter s (chunk_to_bank chunk) (chunk_to_lbn chunk) (chunk_to_page_offset chunk)
        < ow_limit
      → OnlyClears s lpn sect_offset n_sects
      → Yields
          (Replaces s lpn sect_offset n_sects)
          (overwrite_to_log_blk collect lpn sect_offset n_sects s)
unfolding overwrite_to_log_blk overwrite_page_old_in_order_in_ow_log
overwrite_to_log_blk-Replaces collect s lpn sect_offset n_sects some_ok fits ordered low clears =
    let chunk = old_chunk s lpn sect_offset in
    let allowed : ltb
          (read_ow_counter s (chunk_to_bank chunk) (chunk_to_lbn chunk)
            (chunk_to_page_offset chunk))
          ow_limit
        ≡ true =
      ground (arith, low) in
    rw (ordered, allowed)
      (yields (in_place s lpn sect_offset n_sects some_ok fits ordered low clears))
