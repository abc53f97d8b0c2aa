-- ===== src/Layout/Segments.antt =====
-- The segments of ftl_seal/dram_layout.h in their order, and sanity_check of ftl_seal/ftl.c.
use msst2015_ftl.Base.{
  ℕ, zero, suc, ◌+◌, ◌≤◌, ◌<◌, ◌≡◌, ap, refl, List, [], ◌∷◌, arith, ltb, if◌then◌else◌,
}
use msst2015_ftl.Base.Run.{Run, ok, hang}
use msst2015_ftl.Params.{dram_base, dram_size}
use msst2015_ftl.Layout.{
  dram_bytes_other, rd_buf_addr, rd_buf_bytes, wr_buf_addr, wr_buf_bytes, copy_buf_addr,
  copy_buf_bytes, ftl_buf_addr, ftl_buf_bytes, gc_buf_addr, gc_buf_bytes, hil_buf_addr,
  hil_buf_bytes, temp_buf_addr, temp_buf_bytes, log_buf_addr, log_buf_bytes, ow_log_buf_addr,
  lpns_in_log_1_addr, lpns_in_log_2_addr, lpns_in_log_3_addr, lpns_in_log_bytes,
  victim_lpn_list_addr, victim_lpn_list_bytes, bad_blk_bmp_addr, bad_blk_bmp_bytes, log_bmt_addr,
  log_bmt_bytes, free_bmt_addr, free_bmt_bytes, chunks_map_table_addr, chunks_map_table_bytes,
  heap_valid_chunks_addr_write, heap_valid_chunks_bytes, heap_valid_chunks_positions_write,
  heap_valid_chunks_positions_bytes, heap_valid_chunks_addr_overwrite,
  heap_valid_chunks_positions_overwrite, clean_list_nodes_addr, clean_list_nodes_bytes,
  ow_count_addr, ow_count_bytes, end_addr,
}

-- Where a segment starts, and its bytes.
unfoldable pub segments : List (ℕ × ℕ)
segments =
    (rd_buf_addr, rd_buf_bytes)
    ∷ (wr_buf_addr, wr_buf_bytes)
    ∷ (copy_buf_addr, copy_buf_bytes)
    ∷ (ftl_buf_addr, ftl_buf_bytes)
    ∷ (gc_buf_addr, gc_buf_bytes)
    ∷ (hil_buf_addr, hil_buf_bytes)
    ∷ (temp_buf_addr, temp_buf_bytes)
    ∷ (log_buf_addr, log_buf_bytes)
    ∷ (ow_log_buf_addr, log_buf_bytes)
    ∷ (lpns_in_log_1_addr, lpns_in_log_bytes)
    ∷ (lpns_in_log_2_addr, lpns_in_log_bytes)
    ∷ (lpns_in_log_3_addr, lpns_in_log_bytes)
    ∷ (victim_lpn_list_addr, victim_lpn_list_bytes)
    ∷ (bad_blk_bmp_addr, bad_blk_bmp_bytes)
    ∷ (log_bmt_addr, log_bmt_bytes)
    ∷ (free_bmt_addr, free_bmt_bytes)
    ∷ (chunks_map_table_addr, chunks_map_table_bytes)
    ∷ (heap_valid_chunks_addr_write, heap_valid_chunks_bytes)
    ∷ (heap_valid_chunks_positions_write, heap_valid_chunks_positions_bytes)
    ∷ (heap_valid_chunks_addr_overwrite, heap_valid_chunks_bytes)
    ∷ (heap_valid_chunks_positions_overwrite, heap_valid_chunks_positions_bytes)
    ∷ (clean_list_nodes_addr, clean_list_nodes_bytes)
    ∷ (ow_count_addr, ow_count_bytes)
    ∷ []

-- sanity_check halts if the layout needs more than the DRAM.
pub sanity_check : Run (Unit {0})
sanity_check =
    if ltb dram_size dram_bytes_other
    then hang
    else if ltb dram_size (rd_buf_bytes + wr_buf_bytes + dram_bytes_other)
    then hang
    else ok tt

-- The address lies in segment `i` of the list.
abbrev pub IsInSegment : List (ℕ × ℕ) → ℕ → ℕ → Type 0
IsInSegment [] i a = ⊥
IsInSegment ((start, bytes) ∷ rest) zero a = (start ≤ a) × (a < start + bytes)
IsInSegment (s ∷ rest) (suc i) a = IsInSegment rest i a

-- Each segment starts where the one before it ends, the first at `from`, the last ends at `to`.
abbrev IsChain : ℕ → List (ℕ × ℕ) → ℕ → Type 0
IsChain from [] to = from ≡ to
IsChain from ((start, bytes) ∷ rest) to = (start ≡ from) × IsChain (start + bytes) rest to

chain_bounds :
    (from to i a : ℕ) (segs : List (ℕ × ℕ))
    → IsChain from segs to
    → IsInSegment segs i a
    → (from ≤ a) × (a < to)
chain_bounds from to i a [] c h = absurd h
chain_bounds from to zero a ((start, bytes) ∷ rest) c h =
    (omega arith, omega (arith, chain_le (start + bytes) to rest c.1))
  where
    chain_le : (from to : ℕ) (segs : List (ℕ × ℕ)) → IsChain from segs to → from ≤ to
    chain_le from to [] c = omega arith
    chain_le from to ((start, bytes) ∷ rest) c = omega (arith, chain_le (start + bytes) to rest c.1)
chain_bounds from to (suc i) a ((start, bytes) ∷ rest) c h =
    omega (arith, chain_bounds (start + bytes) to i a rest c.1 h)

chain_disjoint :
    (from to i j a : ℕ) (segs : List (ℕ × ℕ))
    → IsChain from segs to
    → IsInSegment segs i a
    → IsInSegment segs j a
    → i ≡ j
chain_disjoint from to i j a [] c h k = absurd h
chain_disjoint from to zero zero a (s ∷ rest) c h k = refl
chain_disjoint from to (suc i) (suc j) a ((start, bytes) ∷ rest) c h k =
    ap suc (chain_disjoint (start + bytes) to i j a rest c.1 h k)
chain_disjoint from to zero (suc j) a ((start, bytes) ∷ rest) c h k =
    absurd (omega (arith, chain_bounds (start + bytes) to j a rest c.1 k))
chain_disjoint from to (suc i) zero a ((start, bytes) ∷ rest) c h k =
    absurd (omega (arith, chain_bounds (start + bytes) to i a rest c.1 h))

segments-IsChain : IsChain dram_base segments end_addr
unfolding segments
segments-IsChain = omega arith

-- The layout passes the firmware's check, and no address belongs to two segments: one in segments
-- `i` and `j` has `i` equal to `j`. An address of a segment lies in the DRAM.
pub segments_disjoint :
    (i j a : ℕ)
    → IsInSegment segments i a
    → IsInSegment segments j a
    → (sanity_check ≡ ok tt) × (i ≡ j) × (dram_base ≤ a) × (a < dram_base + dram_size)
unfolding sanity_check
segments_disjoint i j a h k =
    let bounds = chain_bounds dram_base end_addr i a segments segments-IsChain h in
    (
      refl,
      chain_disjoint dram_base end_addr i j a segments segments-IsChain h k,
      bounds.0,
      omega arith,
    )
