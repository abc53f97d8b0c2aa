-- ===== src/Collect/Found.antt =====
-- Which chunks of its victim the collector copies (the search of garbageCollectLog of
-- ftl_seal/garbage_collection.c).
use mathlib.Core.List.{Memᴰ}
use mathlib.Core.List.Memᴰ.{head, tail, cases_cons, not-nil}
use msst2015_ftl.Base.{
  ℕ, zero, suc, ◌+◌, ◌-◌, ◌^◌, ◌<◌, ◌≤◌, ◌≡◌, ◌≢◌, ◌⊎◌, inl, inr, refl, sym, ap, subst, ◌∙◌, arith,
  ◌==◌, Bool-cases, eqb→eq, invalid, Option, none, some, List,
}
use msst2015_ftl.Params.{chunks_per_page, num_banks, log_blk_per_bank, pages_per_blk}
use msst2015_ftl.Layout.{chunks_map_table, chunk_in_lpns_list}
use msst2015_ftl.Chunk.{
  find_chunk_location, block_chunk_addr, ChunkLocation, flash_w_log, dram_w_log, dram_ow_log,
  flash_ow_log, invalid_chunk, clear_ow_bit, set_ow_bit,
}
use msst2015_ftl.Chunk.Location.{find_chunk_location-block_chunk_addr}
use msst2015_ftl.State.{Ftl}
use msst2015_ftl.Collect.{Valid, add_valid, plain_addr, find_mapped, find_valid}

-- Chunk `k` of the page `lpn` of the host is mapped to the chunk `chunk` of a log block,
-- as one of the write log, or, with bit 31, as one of the overwrite log.
abbrev pub IsMappedTo : (ℕ → ℕ) → ℕ → ℕ → ℕ → Type 0
IsMappedTo map lpn chunk k =
    let addr = map (chunks_map_table lpn k) in (addr ≡ chunk) ⊎ (addr ≡ 2 ^ 31 + chunk)

-- An address in the overwrite log has bit 31.
in_ow_log :
    (addr : ℕ)
    → addr < 2 ^ 32
    → (find_chunk_location addr ≡ dram_ow_log) ⊎ (find_chunk_location addr ≡ flash_ow_log)
    → addr ≡ 2 ^ 31 + clear_ow_bit addr
unfolding find_chunk_location clear_ow_bit
in_ow_log addr small (inl e) = ground (arith, e)
in_ow_log addr small (inr e) = ground (arith, e)

-- What the collector compares equal is mapped there, and the other way round.
compared-mapped :
    (location : ChunkLocation) (addr chunk : ℕ)
    → addr < 2 ^ 32
    → find_chunk_location addr ≡ location
    → plain_addr location addr ≡ chunk
    → (addr ≡ chunk) ⊎ (addr ≡ 2 ^ 31 + chunk)
unfolding plain_addr
compared-mapped invalid_chunk addr chunk small at e = inl e
compared-mapped flash_w_log addr chunk small at e = inl e
compared-mapped dram_w_log addr chunk small at e = inl e
compared-mapped dram_ow_log addr chunk small at e =
    inr (in_ow_log addr small (inl at) ∙ ap (λ x. 2 ^ 31 + x) e)
compared-mapped flash_ow_log addr chunk small at e =
    inr (in_ow_log addr small (inr at) ∙ ap (λ x. 2 ^ 31 + x) e)

-- The address of a chunk of a page of the block, the last page excepted.
pub record IsInFlash (chunk : ℕ) : Type 0 where
  pub small : chunk < 2 ^ 31
  pub of_write : find_chunk_location chunk ≡ flash_w_log
  pub of_overwrite : find_chunk_location (2 ^ 31 + chunk) ≡ flash_ow_log

mapped-compared :
    (addr chunk : ℕ)
    → IsInFlash chunk
    → (addr ≡ chunk) ⊎ (addr ≡ 2 ^ 31 + chunk)
    → plain_addr (find_chunk_location addr) addr ≡ chunk
unfolding plain_addr clear_ow_bit
mapped-compared addr chunk f (inl e) = rw (e, f.of_write) refl
mapped-compared addr chunk f (inr e) = rw (e, f.of_overwrite) (omega (arith, f.small))

-- What the search for a chunk tells.
pub data Search (Good : ℕ → Type 0) (first end : ℕ) : Option ℕ → Type 0 where
  is_found : {k : ℕ} → first ≤ k → k < end → Good k → Search Good first end (some k)
  is_missing : ((k : ℕ) → first ≤ k → k < end → ¬ Good k) → Search Good first end none

module _ (map : ℕ → ℕ) (words : (a : ℕ) → map a < 2 ^ 32) (lpn chunk : ℕ)
    (in_flash : IsInFlash chunk) where
  later :
      (i rounds : ℕ) {found : Option ℕ}
      → ¬ IsMappedTo map lpn chunk i
      → Search (IsMappedTo map lpn chunk) (i + 1) (i + 1 + rounds) found
      → Search (IsMappedTo map lpn chunk) i (i + suc rounds) found
  later i rounds ne (is_found ge lt g) = is_found (omega arith) (omega arith) g
  later i rounds ne (is_missing none_there) = is_missing λ k ge lt g. elim (Bool-cases (i == k)) [
    | inl eq ↦ ne (subst (IsMappedTo map lpn chunk) (sym (eqb→eq i k eq)) g)
    | inr other ↦ none_there k (ground (arith, other, ge)) (omega arith) g
  ]

  find_mapped-Search :
      (rounds i : ℕ)
      → Search (IsMappedTo map lpn chunk) i (i + rounds) (find_mapped rounds map lpn chunk i)
  unfolding find_mapped
  find_mapped-Search zero i = is_missing λ k ge lt g. omega arith
  find_mapped-Search (suc rounds) i =
      let addr = map (chunks_map_table lpn i) in
      let compared = plain_addr (find_chunk_location addr) addr in
      elim (Bool-cases (compared == chunk)) [
        | inl here ↦ rw here (
            is_found (omega arith) (omega arith) (
              compared-mapped (find_chunk_location addr) addr chunk (words _) refl
                (eqb→eq compared chunk here)))
        | inr not_here ↦ rw not_here (
            later i rounds
              (λ g. let e = mapped-compared addr chunk in_flash g in ground (arith, not_here, e))
              (find_mapped-Search rounds (i + 1)))
      ]

-- An entry of dataLpns and dataChunkOffsets of a page of the victim: the list of the block names the
-- page of the host, of which this chunk is still mapped to this place of the block.
pub record IsValidChunk (s : Ftl) (bank lbn list page first : ℕ) (v : Valid) : Type 0 where
  pub after : first ≤ v.place
  pub in_page : v.place < chunks_per_page
  pub lpn_is : v.data_lpn ≡ s.lpns_lists (chunk_in_lpns_list list page v.place)
  pub in_use : v.data_lpn ≢ invalid
  pub idx_ok : v.chunk_idx < chunks_per_page
  pub mapped :
      IsMappedTo s.chunk_map v.data_lpn (block_chunk_addr bank lbn page v.place) v.chunk_idx

-- What is found of a page, from place `first` on: valid chunks, and no valid one is missing.
pub record Finds (s : Ftl) (bank lbn list page first : ℕ) (found : List Valid) : Type 0 where
  pub sound : (v : Valid) → Memᴰ v found → IsValidChunk s bank lbn list page first v
  pub complete :
      (w : Valid)
      → IsValidChunk s bank lbn list page first w
      → (v : Valid) × (v.place ≡ w.place) × Memᴰ v found

module _ (s : Ftl) (bank lbn list page : ℕ) (words : (a : ℕ) → s.chunk_map a < 2 ^ 32)
    (bank_ok : bank < num_banks) (lbn_ok : lbn < log_blk_per_bank)
    (page_ok : page < pages_per_blk - 1) where
  abbrev entry : ℕ → ℕ
  entry i = s.lpns_lists (chunk_in_lpns_list list page i)

  abbrev addr : ℕ → ℕ
  addr i = block_chunk_addr bank lbn page i

  in_flash : (i : ℕ) → i < chunks_per_page → IsInFlash (addr i)
  unfolding set_ow_bit block_chunk_addr
  in_flash i i_ok =
      let at = find_chunk_location-block_chunk_addr bank lbn page i bank_ok lbn_ok page_ok i_ok in
      let small : addr i < 2 ^ 31 = omega arith in
      let bit : set_ow_bit (addr i) ≡ 2 ^ 31 + addr i = ground (arith, small) in
      record {
        small = small;
        of_write = at.0;
        of_overwrite = subst (λ a. find_chunk_location a ≡ flash_ow_log) bit at.1;
      }

  still_valid :
      (i : ℕ) (v : Valid)
      → IsValidChunk s bank lbn list page (i + 1) v
      → IsValidChunk s bank lbn list page i v
  still_valid i v h = record {
    after = omega (arith, h.after);
    in_page = h.in_page;
    lpn_is = h.lpn_is;
    in_use = h.in_use;
    idx_ok = h.idx_ok;
    mapped = h.mapped;
  }

  -- The entry at place `i` is one of the chunks from place `i` on that `w` can be.
  from_here :
      (i : ℕ) (w : Valid)
      → IsValidChunk s bank lbn list page i w
      → (i ≡ w.place) ⊎ IsValidChunk s bank lbn list page (i + 1) w
  from_here i w h = elim (Bool-cases (i == w.place)) [
    | inl eq ↦ inl (eqb→eq i w.place eq)
    | inr ne ↦ inr (record {
      after = ground (arith, ne, h.after);
      in_page = h.in_page;
      lpn_is = h.lpn_is;
      in_use = h.in_use;
      idx_ok = h.idx_ok;
      mapped = h.mapped;
    })
  ]

  none_here :
      (i : ℕ) (rest : List Valid)
      → ((w : Valid) → IsValidChunk s bank lbn list page i w → i ≢ w.place)
      → Finds s bank lbn list page (i + 1) rest
      → Finds s bank lbn list page i rest
  none_here i rest nothing f = record {
    sound = λ v m. still_valid i v (f.sound v m);
    complete = λ w h. elim (from_here i w h) [
      | inl eq ↦ absurd (nothing w h eq)
      | inr later ↦ f.complete w later
    ];
  }

  one_here :
      (i k : ℕ) (rest : List Valid)
      → i < chunks_per_page
      → entry i ≢ invalid
      → k < chunks_per_page
      → IsMappedTo s.chunk_map (entry i) (addr i) k
      → Finds s bank lbn list page (i + 1) rest
      → Finds s bank lbn list page i (add_valid i (entry i) (some k) rest)
  one_here i k rest i_ok in_use k_ok mapped f =
      let new : Valid = record { place = i; data_lpn = entry i; chunk_idx = k } in
      let good : IsValidChunk s bank lbn list page i new = record {
        after = omega arith;
        in_page = i_ok;
        lpn_is = refl;
        in_use = in_use;
        idx_ok = k_ok;
        mapped = mapped;
      } in
      record {
        sound = λ v m. elim (cases_cons m) [
          | inl eq ↦ subst (IsValidChunk s bank lbn list page i) (sym eq) good
          | inr old ↦ still_valid i v (f.sound v old)
        ];
        complete = λ w h. elim (from_here i w h) [
          | inl eq ↦ (new, eq, head refl)
          | inr later ↦ let c = f.complete w later in (c.0, c.1, tail c.2)
        ];
      }

  at_place :
      (i : ℕ) (w : Valid)
      → IsValidChunk s bank lbn list page i w
      → i ≡ w.place
      → IsMappedTo s.chunk_map (entry i) (addr i) w.chunk_idx
  at_place i w h eq =
      subst (λ x. IsMappedTo s.chunk_map (entry x) (addr x) w.chunk_idx) (sym eq)
        (subst (λ l. IsMappedTo s.chunk_map l (addr w.place) w.chunk_idx) h.lpn_is h.mapped)

  searched :
      (i : ℕ) (found : Option ℕ) (rest : List Valid)
      → i < chunks_per_page
      → entry i ≢ invalid
      → Search (IsMappedTo s.chunk_map (entry i) (addr i)) 0 chunks_per_page found
      → Finds s bank lbn list page (i + 1) rest
      → Finds s bank lbn list page i (add_valid i (entry i) found rest)
  searched i found rest i_ok in_use (is_found ge lt g) f = one_here i _ rest i_ok in_use lt g f
  searched i found rest i_ok in_use (is_missing missing) f =
      none_here i rest (λ w h eq. missing w.chunk_idx (omega arith) h.idx_ok (at_place i w h eq)) f

  find_valid_from :
      (rounds i : ℕ)
      → i + rounds ≡ chunks_per_page
      → Finds s bank lbn list page i (find_valid rounds s bank lbn list page i)
  unfolding find_valid
  find_valid_from zero i count = record {
    sound = λ v m. absurd (not-nil m);
    complete = λ w h. absurd (omega (arith, h.after, h.in_page));
  }
  find_valid_from (suc rounds) i count =
      let f = find_valid_from rounds (i + 1) (omega arith) in
      elim (Bool-cases (entry i == invalid)) [
        | inl unused ↦ rw unused (
            none_here i _
              (λ w h eq. h.in_use (h.lpn_is ∙ ap entry (sym eq) ∙ eqb→eq (entry i) invalid unused))
              f)
        | inr in_use ↦ rw in_use (
            searched i _ _ (omega arith) (ground (arith, in_use))
              (find_mapped-Search s.chunk_map words (entry i) (addr i) (in_flash i (omega arith))
                chunks_per_page 0)
              f)
      ]

  -- The search of garbageCollectLog over a page of the victim finds chunks that are valid: the list of
  -- the block names their page of the host, a chunk of which is mapped to this place of the block, in
  -- the write log or, by bit 31, in the overwrite log. And it misses none: each place of such a
  -- chunk has an entry. The map holds 32-bit words, and the page is not the last one of its block.
  pub find_valid-Finds :
      Finds s bank lbn list page 0 (find_valid chunks_per_page s bank lbn list page 0)
  find_valid-Finds = find_valid_from chunks_per_page 0 refl
