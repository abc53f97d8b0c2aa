-- ===== src/Overwrite/InOrder.antt =====
-- What oldVersionIsInOwLogInOrder of ftl_seal/overwrite.c finds: the chunks are in one page of the
-- overwrite log, each at its own place in the page.
use msst2015_ftl.Base.{
  ℕ, zero, suc, ◌+◌, ◌*◌, ◌-◌, ◌%◌, ◌<◌, ◌≤◌, ◌≡◌, inl, inr, refl, sym, ap, subst, ◌∙◌, arith, ◌==◌,
  true, Bool-cases, eqb→eq,
}
use msst2015_ftl.Params.{chunks_per_page, sectors_per_chunk}
use msst2015_ftl.Layout.{chunks_map_table}
use msst2015_ftl.Chunk.{
  ChunkLocation, invalid_chunk, flash_w_log, dram_w_log, dram_ow_log, flash_ow_log,
  find_chunk_location, chunk_to_bank, chunk_to_lbn, chunk_to_page_offset, chunk_to_sect_offset,
  chunk_to_chunk_offset_in_bank, clear_ow_bit,
}
use msst2015_ftl.Log.{is_flash_ow_log}
use msst2015_ftl.State.{Ftl}
use msst2015_ftl.Overwrite.Buffers.{in_order_from}

-- The chunk of address `addr` is chunk `i` of the flash page that is the page of chunk `first`.
pub record IsAtPlace (first i addr : ℕ) : Type 0 where
  pub in_flash : find_chunk_location addr ≡ flash_ow_log
  pub bank_same : chunk_to_bank (clear_ow_bit addr) ≡ chunk_to_bank first
  pub lbn_same : chunk_to_lbn (clear_ow_bit addr) ≡ chunk_to_lbn first
  pub page_same : chunk_to_page_offset (clear_ow_bit addr) ≡ chunk_to_page_offset first
  pub place : chunk_to_sect_offset (clear_ow_bit addr) ≡ i * sectors_per_chunk

pub is_flash_ow_log-eq : (l : ChunkLocation) → is_flash_ow_log l ≡ true → l ≡ flash_ow_log
is_flash_ow_log-eq flash_ow_log h = refl
is_flash_ow_log-eq flash_w_log h = cc
is_flash_ow_log-eq dram_w_log h = cc
is_flash_ow_log-eq dram_ow_log h = cc
is_flash_ow_log-eq invalid_chunk h = cc

-- The next chunks of the bank, up to the end of the page.
pub at_place :
    (first chunk i : ℕ)
    → i < chunks_per_page
    → chunk_to_bank chunk ≡ chunk_to_bank first
    → first % chunks_per_page ≤ i
    → chunk_to_chunk_offset_in_bank chunk
      ≡ chunk_to_chunk_offset_in_bank first + (i - first % chunks_per_page)
    → (chunk_to_lbn chunk ≡ chunk_to_lbn first)
      × (chunk_to_page_offset chunk ≡ chunk_to_page_offset first)
      × (chunk_to_sect_offset chunk ≡ i * sectors_per_chunk)
unfolding chunk_to_lbn chunk_to_page_offset chunk_to_sect_offset chunk_to_chunk_offset_in_bank
at_place first chunk i i_ok bank le offset = (omega arith, omega arith, omega arith)

pub in_order_from-IsAtPlace :
    (rounds : ℕ) (s : Ftl) (lpn first i : ℕ)
    → first % chunks_per_page < i
    → i + rounds ≤ chunks_per_page
    → in_order_from rounds s lpn i
        (chunk_to_bank first)
        (chunk_to_chunk_offset_in_bank first + (i - 1 - first % chunks_per_page))
      ≡ true
    → (k : ℕ) → i ≤ k
    → k < i + rounds
    → IsAtPlace first k (s.chunk_map (chunks_map_table lpn k))
unfolding in_order_from
in_order_from-IsAtPlace zero s lpn first i after fits ordered k ge lt = absurd (omega arith)
in_order_from-IsAtPlace (suc rounds) s lpn first i after fits ordered k ge lt =
    let addr = s.chunk_map (chunks_map_table lpn i) in
    let chunk = clear_ow_bit addr in
    let offset = chunk_to_chunk_offset_in_bank first + (i - 1 - first % chunks_per_page) in
    let facts : (is_flash_ow_log (find_chunk_location addr) ≡ true)
        × (chunk_to_bank chunk ≡ chunk_to_bank first)
        × (chunk_to_chunk_offset_in_bank chunk ≡ offset + 1)
        × (in_order_from rounds s lpn (i + 1) (chunk_to_bank first) (offset + 1) ≡ true) =
      (
        ground (arith, ordered),
        ground (arith, ordered),
        ground (arith, ordered),
        ground (arith, ordered),
      ) in
    elim (Bool-cases (i == k)) [
      | inl eq ↦
          let here =
            at_place first chunk i (omega arith) facts.1 (omega arith) (omega (arith, facts.2)) in
          subst (λ x. IsAtPlace first x (s.chunk_map (chunks_map_table lpn x))) (eqb→eq i k eq)
            (record {
              in_flash = is_flash_ow_log-eq _ facts.0;
              bank_same = facts.1;
              lbn_same = here.0;
              page_same = here.1;
              place = here.2;
            })
      | inr ne ↦
          let step : offset + 1
              ≡ chunk_to_chunk_offset_in_bank first + (i + 1 - 1 - first % chunks_per_page) =
            omega arith in
          in_order_from-IsAtPlace rounds s lpn first (i + 1) (omega arith) (omega arith)
            (ap (λ o. in_order_from rounds s lpn (i + 1) (chunk_to_bank first) o) (sym step)
              ∙ facts.3)
            k (ground (arith, ne, ge)) (omega arith)
    ]
