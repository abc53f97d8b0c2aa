-- ===== src/Log/Pages.antt =====
-- The steps from page to page of the log blocks of ftl_seal/log.c.
use msst2015_ftl.Base.{
  ℕ, ◌+◌, ◌-◌, ◌*◌, ◌/◌, ◌%◌, ◌<◌, ◌≤◌, ◌≡◌, ◌≢◌, refl, arith, Bool, true, false, ◌==◌,
  if◌then◌else◌, update_self, u32, subst, sym, ap, invalid,
}
use msst2015_ftl.Base.Run.{Run, ok, Yields, yields, Yields-step}
use msst2015_ftl.Params.{
  num_banks, pages_per_blk, used_pages_per_log_blk, log_blk_per_bank, chunks_per_blk,
  chunk_addr_bytes,
}
use msst2015_ftl.Heap.Sift.Order.{block_value, in_heap}
use msst2015_ftl.Heap.Ops.Data.{IsValidData, ChangesBlock, insert_blk_in_heap-ChangesBlock}
use msst2015_ftl.Heap.Defs.{HeapData}
use msst2015_ftl.Heap.Ops.{insert_blk_in_heap}
use msst2015_ftl.Blocks.{get_log_vbn}
use msst2015_ftl.State.{Ftl, SwCtrlBlock}
use msst2015_ftl.Log.{
  log_page_to_offset, get_log_lbn, clear_list, program_list, set_sw, set_rw, set_ow,
}
use msst2015_ftl.Log.Steps.{
  close_list, insert_in_write_heap, increase_sw_lpn, get_ow_lpn, increase_ow_lpn, get_rw_lpn,
  increase_rw_lpn,
}

-- The page offset of the k-th page that an overwrite block uses.
abbrev pub ow_offset : ℕ → ℕ
ow_offset k = if k == 0 then 0 else 2 * k - 1

-- The page offset of the k-th page that an RW block uses, which is sealed or was clean.
abbrev pub rw_offset : Bool → ℕ → ℕ
rw_offset sealed k = if sealed then 2 + 2 * k else k

module _ (collect : Ftl → ℕ → Run Ftl) (s : Ftl) (bank lbn : ℕ)
    (lbn_ok : lbn < log_blk_per_bank) where
  -- An overwrite block is written at the pages 0, 1, 3, 5, ..., 123: from the k-th of these 63 pages,
  -- the last one excepted, increaseOWLpn goes to the next one of the same block, and nothing else
  -- changes.
  pub increase_ow_lpn-ow_offset :
      (k : ℕ)
      → k < 62
      → (s.ow_ctrl bank).log_lpn ≡ lbn * pages_per_blk + ow_offset k
      → increase_ow_lpn collect s bank
        ≡ ok (set_ow s bank (lbn * pages_per_blk + ow_offset (k + 1)))
  unfolding increase_ow_lpn get_ow_lpn log_page_to_offset
  increase_ow_lpn-ow_offset k k_ok at =
      let lpn = lbn * pages_per_blk + ow_offset k in
      let allocated : (lpn == invalid) ≡ false = ground arith in
      let not_last : (lpn % pages_per_blk == 123) ≡ false = ground arith in
      let next : u32 (if lpn % pages_per_blk == 0 then lpn + 1 else lpn + 2)
          ≡ lbn * pages_per_blk + ow_offset (k + 1) =
        ground arith in
      rw (at, allocated, allocated, not_last, next) refl

  -- The next page of a block that is not sealed, and the one after it of a sealed block.
  pub increase_rw_lpn-next :
      (off : ℕ)
      → off < pages_per_blk
      → off ≢ used_pages_per_log_blk - 1
      → (s.rw_ctrl bank).log_lpn ≡ lbn * pages_per_blk + off
      → increase_rw_lpn collect s bank
        ≡ ok (
            set_rw s bank
              (lbn * pages_per_blk + (if (s.rw_ctrl bank).is_ow_blk then off + 2 else off + 1))
              (s.rw_ctrl bank).is_ow_blk)
  unfolding increase_rw_lpn get_rw_lpn log_page_to_offset
  increase_rw_lpn-next off off_ok inside at =
      let lpn = lbn * pages_per_blk + off in
      let sealed = (s.rw_ctrl bank).is_ow_blk in
      let allocated : (lpn == invalid) ≡ false = ground arith in
      let not_last : (lpn % pages_per_blk == used_pages_per_log_blk - 1) ≡ false = ground arith in
      let next : u32 (if sealed then lpn + 2 else lpn + 1)
          ≡ lbn * pages_per_blk + (if sealed then off + 2 else off + 1) =
        ground arith in
      rw (at, allocated, allocated, not_last, next) refl

close_list-flash_lists :
    (s : Ftl) (bank lbn i : ℕ)
    → i < chunks_per_blk
    → (list : ℕ)
    → (close_list s bank lbn (pages_per_blk - 1) list).flash_lists bank
        (get_log_vbn s.blocks bank lbn)
        (pages_per_blk - 1)
        i
      ≡ s.lpns_lists (list + i * chunk_addr_bytes)
unfolding close_list clear_list program_list
close_list-flash_lists s bank lbn i i_ok list = ground (arith, i_ok)

close_list-lpns_lists :
    (s : Ftl) (bank lbn list a : ℕ)
    → list ≤ a
    → a < list + chunks_per_blk * chunk_addr_bytes
    → (close_list s bank lbn (pages_per_blk - 1) list).lpns_lists a ≡ invalid
unfolding close_list clear_list
close_list-lpns_lists s bank lbn list a low high = ground (arith, low, high)

-- Only the heap changes when a block is inserted in it.
inserted :
    {Good : HeapData → Type 0} (s : Ftl) (bank lbn : ℕ)
    → Yields Good (insert_blk_in_heap s.heap_write bank lbn)
    → Yields
        (λ s'. (h : HeapData) × (s' ≡ record s { heap_write = h }) × Good h)
        (insert_in_write_heap s bank lbn)
unfolding insert_in_write_heap
inserted s bank lbn y = Yields-step _ y λ h good. yields (h, refl, good)

module _ (s : Ftl) (bank lbn : ℕ) (bank_ok : bank < num_banks) where
  -- The block is in the write heap, with the count that was kept for it and nothing else changed there;
  -- its list of page numbers is in the last page of its virtual block; and it is no SW block now.
  pub record IsClosed (s' : Ftl) : Type 0 where
    pub heap :
        ChangesBlock s.heap_write bank lbn
          (block_value (s.heap_write.banks bank) lbn)
          true
          s'.heap_write
    pub listed :
        (i : ℕ)
        → i < chunks_per_blk
        → s'.flash_lists bank (get_log_vbn s.blocks bank lbn) (pages_per_blk - 1) i
          ≡ s.lpns_lists ((s.sw_ctrl bank).lpns_list_ptr + i * chunk_addr_bytes)
    pub cleared :
        (a : ℕ)
        → (s.sw_ctrl bank).lpns_list_ptr ≤ a
        → a < (s.sw_ctrl bank).lpns_list_ptr + chunks_per_blk * chunk_addr_bytes
        → s'.lpns_lists a ≡ invalid
    pub no_block : (s'.sw_ctrl bank).log_lpn ≡ invalid

  -- From the last page but one of a sequential block, which is set aside in a valid write heap that
  -- counts from block 0, increaseSWLpn closes the block: its list of page numbers is programmed in
  -- its last page and cleared, the block enters the heap, and the bank has no SW block.
  pub increase_sw_lpn-IsClosed :
      IsValidData s.heap_write
      → s.heap_write.first_lbn ≡ 0
      → lbn < s.heap_write.log_blks_per_bank
      → in_heap (s.heap_write.banks bank) lbn ≡ false
      → (s.sw_ctrl bank).log_lpn ≡ lbn * pages_per_blk + (used_pages_per_log_blk - 1)
      → Yields IsClosed (increase_sw_lpn s bank)
  unfolding increase_sw_lpn log_page_to_offset get_log_lbn close_list clear_list program_list set_sw
  increase_sw_lpn-IsClosed valid first lbn_ok outside at =
      let small = valid.small in
      let lpn = lbn * pages_per_blk + (used_pages_per_log_blk - 1) in
      let allocated : (lpn == invalid) ≡ false = ground (arith, small) in
      let is_last : (lpn % pages_per_blk == used_pages_per_log_blk - 1) ≡ true = ground arith in
      let block : lpn / pages_per_blk ≡ lbn = omega arith in
      let number : s.heap_write.first_lbn + lbn ≡ lbn = omega arith in
      let entered =
        subst
          (λ n.
            Yields
              (ChangesBlock s.heap_write bank lbn (block_value (s.heap_write.banks bank) lbn) true)
              (insert_blk_in_heap s.heap_write bank n))
          number
          (insert_blk_in_heap-ChangesBlock s.heap_write valid bank bank_ok lbn lbn_ok outside) in
      let list = (s.sw_ctrl bank).lpns_list_ptr in
      let closed = close_list s bank lbn (pages_per_blk - 1) list in
      rw (at, allocated, is_last, block)
        (Yields-step _ (inserted closed bank lbn entered) λ s1 t. yields (
          subst (λ x. IsClosed (set_sw x bank invalid invalid)) (sym t.1)
            (record {
              heap = t.2;
              listed = λ i i_ok. close_list-flash_lists s bank lbn i i_ok list;
              cleared = λ a low high. close_list-lpns_lists s bank lbn list a low high;
              no_block =
                  ap (λ (w : SwCtrlBlock). w.log_lpn)
                    (update_self closed.sw_ctrl bank (record (closed.sw_ctrl bank) {
                      log_lpn = invalid;
                      next_data_lpn = invalid;
                    }));
            })))
