-- ===== src/Log/Seal.antt =====
-- What the loops of sealOWBlk do to the chunks map table.
use msst2015_ftl.Base.{
  ℕ, zero, suc, ◌+◌, ◌*◌, ◌%◌, ◌<◌, ◌≤◌, ◌≡◌, ◌≢◌, refl, arith, Bool, true, false, ◌==◌, ◌&&◌,
  Bool-cases, inl, inr, ◌⊎◌, sym, ap, ◌∙◌, subst, eqb→eq, invalid,
}
use msst2015_ftl.Params.{chunks_per_page}
use msst2015_ftl.Layout.{chunks_map_table, chunk_in_lpns_list}
use msst2015_ftl.Chunk.{
  ChunkLocation, flash_ow_log, flash_w_log, dram_w_log, dram_ow_log, invalid_chunk,
  find_chunk_location, clear_ow_bit, block_chunk_addr,
}
use msst2015_ftl.Log.{is_flash_ow_log, seal_entry, seal_page, seal_pages, seal_map}

-- A page that an overwrite block uses: the first one, and the odd ones below its list.
abbrev pub IsOwPage : ℕ → Type 0
IsOwPage page = (page ≡ 0) ⊎ ((page % 2 ≡ 1) × (page < 124))

-- The entry was of the overwrite log, at a chunk of a page that the block uses, and has lost its
-- overwrite bit.
pub record IsSealed (bank lbn before after : ℕ) : Type 0 where
  pub page : ℕ
  pub chunk : ℕ
  pub page_ok : IsOwPage page
  pub chunk_ok : chunk < chunks_per_page
  pub was : find_chunk_location before ≡ flash_ow_log
  pub points : clear_ow_bit before ≡ block_chunk_addr bank lbn page chunk
  pub cleared : after ≡ clear_ow_bit before

-- Each entry of the table stays or is sealed.
pub record SealsOnly (bank lbn : ℕ) (map map' : ℕ → ℕ) : Type 0 where
  pub entry : (slot : ℕ) → (map' slot ≡ map slot) ⊎ IsSealed bank lbn (map slot) (map' slot)

-- An address without the overwrite bit is not in the overwrite log.
pub cleared_not_ow : (chunk : ℕ) → find_chunk_location (clear_ow_bit chunk) ≢ flash_ow_log
unfolding find_chunk_location clear_ow_bit
cleared_not_ow chunk e = ground arith

SealsOnly-refl : (bank lbn : ℕ) (map : ℕ → ℕ) → SealsOnly bank lbn map map
SealsOnly-refl bank lbn map = record { entry = λ slot. inl refl }

pub SealsOnly-trans :
    (bank lbn : ℕ) (a b c : ℕ → ℕ)
    → SealsOnly bank lbn a b
    → SealsOnly bank lbn b c
    → SealsOnly bank lbn a c
SealsOnly-trans bank lbn a b c first second = record {
  entry = λ slot. elim (first.entry slot) [
    | inl same ↦ elim (second.entry slot) [
      | inl same' ↦ inl (same' ∙ same)
      | inr done ↦ inr (subst (λ x. IsSealed bank lbn x (c slot)) same done)
    ]
    | inr done ↦ elim (second.entry slot) [
      | inl same' ↦ inr (subst (λ x. IsSealed bank lbn (a slot) x) (sym same') done)
      | inr again ↦ absurd (
          cleared_not_ow (a slot)
            (subst (λ x. find_chunk_location x ≡ flash_ow_log) done.cleared again.was))
    ]
  ];
}

located : (x : ChunkLocation) → is_flash_ow_log x ≡ true → x ≡ flash_ow_log
located flash_ow_log e = refl
located flash_w_log e = cc
located dram_w_log e = cc
located dram_ow_log e = cc
located invalid_chunk e = cc

both_left : (a b : Bool) → (a && b) ≡ true → a ≡ true
both_left true b e = refl
both_left false b e = e

both_right : (a b : Bool) → (a && b) ≡ true → b ≡ true
both_right true b e = e
both_right false b e = cc

module _ (bank lbn page chunk : ℕ) (page_ok : IsOwPage page)
    (chunk_ok : chunk < chunks_per_page) where
  pub seal_entry-SealsOnly :
      (rounds : ℕ) (map : ℕ → ℕ) (data_lpn i : ℕ)
      → SealsOnly bank lbn map
          (seal_entry rounds map data_lpn i (block_chunk_addr bank lbn page chunk))
  unfolding seal_entry
  seal_entry-SealsOnly zero map data_lpn i = SealsOnly-refl bank lbn map
  seal_entry-SealsOnly (suc rounds) map data_lpn i =
      let slot = chunks_map_table data_lpn i in
      let fits =
        is_flash_ow_log (find_chunk_location (map slot))
        && (clear_ow_bit (map slot) == block_chunk_addr bank lbn page chunk) in
      elim (Bool-cases fits) [
        | inl fit ↦ rw fit (record {
          entry = λ a. elim (Bool-cases (slot == a)) [
            | inl here ↦
                let e = eqb→eq slot a here in
                inr (record {
                  page = page;
                  chunk = chunk;
                  page_ok = page_ok;
                  chunk_ok = chunk_ok;
                  was =
                      subst (λ k. find_chunk_location (map k) ≡ flash_ow_log) e
                        (located _ (both_left _ _ fit));
                  points =
                      subst (λ k. clear_ow_bit (map k) ≡ block_chunk_addr bank lbn page chunk) e
                        (eqb→eq _ _ (both_right _ _ fit));
                  cleared = rw here (ap (λ k. clear_ow_bit (map k)) e);
                })
            | inr there ↦ inl (rw there refl)
          ];
        })
        | inr other ↦ rw other (seal_entry-SealsOnly rounds map data_lpn (i + 1))
      ]

module _ (bank lbn list : ℕ) (lists : ℕ → ℕ) where
  pub seal_page-SealsOnly :
      (rounds : ℕ) (map : ℕ → ℕ) (page i : ℕ)
      → IsOwPage page
      → i + rounds ≤ chunks_per_page
      → SealsOnly bank lbn map (seal_page rounds lists map list bank lbn page i)
  unfolding seal_page
  seal_page-SealsOnly zero map page i page_ok fits = SealsOnly-refl bank lbn map
  seal_page-SealsOnly (suc rounds) map page i page_ok fits =
      let data_lpn = lists (chunk_in_lpns_list list page i) in
      let addr = block_chunk_addr bank lbn page i in
      let rest = λ (m : ℕ → ℕ). seal_page-SealsOnly rounds m page (i + 1) page_ok (omega arith) in
      elim (Bool-cases (data_lpn == invalid)) [
        | inl none ↦ rw none (rest map)
        | inr some ↦ rw some (
            SealsOnly-trans bank lbn map (seal_entry chunks_per_page map data_lpn 0 addr) _
              (seal_entry-SealsOnly bank lbn page i page_ok (omega arith) chunks_per_page map
                data_lpn 0)
              (rest _))
      ]

  pub seal_pages-SealsOnly :
      (rounds : ℕ) (map : ℕ → ℕ) (page : ℕ)
      → page % 2 ≡ 1
      → page + 2 * rounds < 126
      → SealsOnly bank lbn map (seal_pages rounds lists map list bank lbn page)
  unfolding seal_pages
  seal_pages-SealsOnly zero map page odd fits = SealsOnly-refl bank lbn map
  seal_pages-SealsOnly (suc rounds) map page odd fits =
      SealsOnly-trans bank lbn map (seal_page chunks_per_page lists map list bank lbn page 0) _
        (seal_page-SealsOnly chunks_per_page map page 0 (inr (odd, omega arith)) (omega arith))
        (seal_pages-SealsOnly rounds _ (page + 2) (omega arith) (omega arith))

  -- The loops of sealOWBlk only clear the overwrite bit of entries of the chunks map table that point
  -- to a chunk of this block in the overwrite log, in one of the pages 0, 1, 3, ..., 123; every other
  -- entry stays.
  pub seal_map-SealsOnly : (map : ℕ → ℕ) → SealsOnly bank lbn map (seal_map lists map list bank lbn)
  unfolding seal_map
  seal_map-SealsOnly map =
      SealsOnly-trans bank lbn map (seal_page chunks_per_page lists map list bank lbn 0 0) _
        (seal_page-SealsOnly chunks_per_page map 0 0 (inl refl) (omega arith))
        (seal_pages-SealsOnly 62 _ 1 (omega arith) (omega arith))
