-- ===== src/Trim/Drop.antt =====
-- A trimmed chunk is unmapped, and its place in the log loses a valid chunk or is free again.
use msst2015_ftl.Base.{
  ℕ, ◌+◌, ◌-◌, ◌<◌, ◌≡◌, ◌≢◌, ◌^◌, refl, arith, update, update_self, update-ne, invalid, subst, sym,
  ap, ◌∙◌,
}
use msst2015_ftl.Base.Run.{Run, ok, Yields, yields, Yields-step, ◌>>=◌}
use msst2015_ftl.Params.{num_banks, log_blk_per_bank, pages_per_blk, chunks_per_page}
use msst2015_ftl.Layout.{chunks_map_table}
use msst2015_ftl.Chunk.{block_chunk_addr, set_ow_bit}
use msst2015_ftl.Chunk.Fields.{block_chunk_addr-HasFields, clear_ow_bit-set_ow_bit}
use msst2015_ftl.Chunk.Location.{find_chunk_location-block_chunk_addr}
use msst2015_ftl.Heap.Sift.Order.{block_value, in_heap}
use msst2015_ftl.Heap.Defs.{HeapData}
use msst2015_ftl.Heap.Ops.{decrement_valid_chunks}
use msst2015_ftl.Heap.Ops.Data.{IsValidData, ChangesBlock, decrement_valid_chunks-ChangesBlock}
use msst2015_ftl.State.{Ftl}
use msst2015_ftl.Trim.{drop_chunk, trim_chunk}

-- The chunk of a data page is not mapped, and the other entries of the table stay.
pub record IsUnmapped (slot : ℕ) (s s' : Ftl) : Type 0 where
  pub unmapped : s'.chunk_map slot ≡ invalid
  pub others : (a : ℕ) → slot ≢ a → s'.chunk_map a ≡ s.chunk_map a

unmapped :
    (slot : ℕ) (s t : Ftl)
    → t.chunk_map ≡ s.chunk_map
    → IsUnmapped slot s (record t { chunk_map = update t.chunk_map slot invalid })
unmapped slot s t same = record {
  unmapped = update_self t.chunk_map slot invalid;
  others = λ a ne. update-ne t.chunk_map slot invalid a ne ∙ ap (λ (f : ℕ → ℕ). f a) same;
}

-- All that changes when a chunk of the write log is dropped, and when one of the overwrite log is, is
-- the chunks map table and one heap.
pub record IsWriteDrop (s s' : Ftl) : Type 0 where
  pub rest_same : s' ≡ record s { heap_write = s'.heap_write; chunk_map = s'.chunk_map }

pub record IsOverwriteDrop (s s' : Ftl) : Type 0 where
  pub rest_same : s' ≡ record s { heap_overwrite = s'.heap_overwrite; chunk_map = s'.chunk_map }

-- Only a heap changes.
with_heap_write :
    {Good : HeapData → Type 0} (s : Ftl) {r : Run HeapData}
    → Yields Good r
    → Yields
        (λ s'. (h : HeapData) × (s' ≡ record s { heap_write = h }) × Good h)
        (r >>= λ h. ok (record s { heap_write = h }))
with_heap_write s y = Yields-step _ y λ h good. yields (h, refl, good)

with_heap_overwrite :
    {Good : HeapData → Type 0} (s : Ftl) {r : Run HeapData}
    → Yields Good r
    → Yields
        (λ s'. (h : HeapData) × (s' ≡ record s { heap_overwrite = h }) × Good h)
        (r >>= λ h. ok (record s { heap_overwrite = h }))
with_heap_overwrite s y = Yields-step _ y λ h good. yields (h, refl, good)

-- decrementValidChunks on a heap that counts from block 0.
pub decrement_from_zero :
    (d : HeapData) (bank lbn : ℕ)
    → IsValidData d
    → bank < num_banks
    → d.first_lbn ≡ 0
    → lbn < d.log_blks_per_bank
    → 0 < block_value (d.banks bank) lbn
    → Yields
        (ChangesBlock d bank lbn (block_value (d.banks bank) lbn - 1) (in_heap (d.banks bank) lbn))
        (decrement_valid_chunks d bank lbn)
decrement_from_zero d bank lbn valid bank_ok first lbn_ok some =
    let number : d.first_lbn + lbn ≡ lbn = omega arith in
    subst
      (λ n.
        Yields
          (ChangesBlock d bank lbn (block_value (d.banks bank) lbn - 1)
            (in_heap (d.banks bank) lbn))
          (decrement_valid_chunks d bank n))
      number (decrement_valid_chunks-ChangesBlock d valid bank bank_ok lbn lbn_ok some)

module _ (s : Ftl) (lpn chunk_idx bank lbn page chunk : ℕ) (bank_ok : bank < num_banks)
    (lbn_ok : lbn < log_blk_per_bank) (page_ok : page < pages_per_blk - 1)
    (chunk_ok : chunk < chunks_per_page) where
  abbrev slot : ℕ
  slot = chunks_map_table lpn chunk_idx

  abbrev addr : ℕ
  addr = block_chunk_addr bank lbn page chunk

  -- The block has one valid chunk less in the write heap, or in the overwrite heap.
  abbrev pub WriteDropped : Ftl → Type 0
  WriteDropped s' =
      ChangesBlock s.heap_write bank lbn (block_value (s.heap_write.banks bank) lbn - 1)
        (in_heap (s.heap_write.banks bank) lbn) s'.heap_write
      × IsUnmapped slot s s'
      × IsWriteDrop s s'

  abbrev pub OverwriteDropped : Ftl → Type 0
  OverwriteDropped s' =
      ChangesBlock s.heap_overwrite bank lbn (block_value (s.heap_overwrite.banks bank) lbn - 1)
        (in_heap (s.heap_overwrite.banks bank) lbn) s'.heap_overwrite
      × IsUnmapped slot s s'
      × IsOverwriteDrop s s'

  addr_small : addr < 2 ^ 31
  unfolding block_chunk_addr
  addr_small = omega arith

  -- Trimming a chunk that is mapped to a page of a write log block, its last page excepted, unmaps the
  -- chunk and takes one off the count of that block, if the write heap is valid, counts from block
  -- 0 and has a valid chunk in the block. No other entry of the table and no other part of the state
  -- changes.
  pub trim_chunk-IsWriteDrop :
      IsValidData s.heap_write
      → s.heap_write.first_lbn ≡ 0
      → lbn < s.heap_write.log_blks_per_bank
      → 0 < block_value (s.heap_write.banks bank) lbn
      → s.chunk_map slot ≡ addr
      → Yields WriteDropped (trim_chunk lpn chunk_idx s)
  unfolding trim_chunk drop_chunk
  trim_chunk-IsWriteDrop valid first in_range some mapped =
      let f = block_chunk_addr-HasFields bank lbn page chunk lbn_ok (omega arith) chunk_ok in
      let located =
        find_chunk_location-block_chunk_addr bank lbn page chunk bank_ok lbn_ok page_ok chunk_ok in
      rw (mapped, located.0, f.bank_is, f.lbn_is)
        (Yields-step _
          (with_heap_write s
            (decrement_from_zero s.heap_write bank lbn valid bank_ok first in_range some))
          λ s' t. yields (
            subst (λ x. WriteDropped (record x { chunk_map = update x.chunk_map slot invalid }))
              (sym t.1)
              (
                t.2,
                unmapped slot s (record s { heap_write = t.0 }) refl,
                record { rest_same = refl },
              )))

  -- Trimming a chunk that is mapped to a page of an overwrite log block, its last page excepted,
  -- unmaps the chunk and takes one off the count of that block, if the overwrite heap is valid,
  -- counts from block 0 and has a valid chunk in the block. No other entry of the table and no other
  -- part of the state changes.
  pub trim_chunk-IsOverwriteDrop :
      IsValidData s.heap_overwrite
      → s.heap_overwrite.first_lbn ≡ 0
      → lbn < s.heap_overwrite.log_blks_per_bank
      → 0 < block_value (s.heap_overwrite.banks bank) lbn
      → s.chunk_map slot ≡ set_ow_bit addr
      → Yields OverwriteDropped (trim_chunk lpn chunk_idx s)
  unfolding trim_chunk drop_chunk
  trim_chunk-IsOverwriteDrop valid first in_range some mapped =
      let f = block_chunk_addr-HasFields bank lbn page chunk lbn_ok (omega arith) chunk_ok in
      let located =
        find_chunk_location-block_chunk_addr bank lbn page chunk bank_ok lbn_ok page_ok chunk_ok in
      rw (mapped, located.1, clear_ow_bit-set_ow_bit addr addr_small, f.bank_is, f.lbn_is)
        (Yields-step _
          (with_heap_overwrite s
            (decrement_from_zero s.heap_overwrite bank lbn valid bank_ok first in_range some))
          λ s' t. yields (
            subst (λ x. OverwriteDropped (record x { chunk_map = update x.chunk_map slot invalid }))
              (sym t.1)
              (
                t.2,
                unmapped slot s (record s { heap_overwrite = t.0 }) refl,
                record { rest_same = refl },
              )))
