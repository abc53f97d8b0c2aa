-- ===== src/Log/Steps.antt =====
-- The page to write next, and the step to the page after it, of ftl_seal/log.c.
use msst2015_ftl.Base.{ℕ, zero, suc, ◌+◌, ◌-◌, false, ltb, ◌==◌, if◌then◌else◌, u32, invalid}
use msst2015_ftl.Base.Run.{Run, ok, hang, ◌>>=◌}
use msst2015_ftl.Params.{pages_per_blk, used_pages_per_log_blk}
use msst2015_ftl.Heap.Ops.{insert_blk_in_heap, get_victim_valid_pages_number}
use msst2015_ftl.CleanList.{clean_list_size}
use msst2015_ftl.Blocks.{get_log_vbn}
use msst2015_ftl.State.{Ftl}
use msst2015_ftl.Log.{
  log_page_to_offset, get_log_lbn, clear_list, program_list, pop_clean, few_clean, set_sw, set_rw,
  set_ow, swap_sw_to_rw, seal_ow_blk,
}

-- The block at its end: its list of page numbers goes to the flash page `page` and is cleared.
unfoldable pub close_list : Ftl → ℕ → ℕ → ℕ → ℕ → Ftl
close_list s bank lbn page list =
    clear_list (program_list s bank (get_log_vbn s.blocks bank lbn) page list) list

unfoldable pub insert_in_write_heap : Ftl → ℕ → ℕ → Run Ftl
insert_in_write_heap s bank lbn = do
  h ← insert_blk_in_heap s.heap_write bank lbn
  ok (record s { heap_write = h })

unfoldable pub insert_in_overwrite_heap : Ftl → ℕ → ℕ → Run Ftl
insert_in_overwrite_heap s bank lbn = do
  h ← insert_blk_in_heap s.heap_overwrite bank lbn
  ok (record s { heap_overwrite = h })

-- A clean block becomes the RW block.
unfoldable pub take_rw : Ftl → ℕ → Run Ftl
take_rw s bank = do popped ← pop_clean s bank; ok (set_rw popped.1 bank popped.0 false)

-- The step of increaseSWLpn; the block that is full leaves no SW block behind.
unfoldable pub increase_sw_lpn : Ftl → ℕ → Run Ftl
increase_sw_lpn s bank =
    let lpn = (s.sw_ctrl bank).log_lpn in
    let full : Run Ftl = do
      s' ←
          insert_in_write_heap
            (close_list s bank (get_log_lbn lpn) (pages_per_blk - 1) (s.sw_ctrl bank).lpns_list_ptr)
            bank (get_log_lbn lpn)
      ok (set_sw s' bank invalid invalid)
    in if lpn == invalid
      then hang
      else if log_page_to_offset lpn == used_pages_per_log_blk - 1
      then full
      else ok (set_sw s bank (u32 (lpn + 1)) (s.sw_ctrl bank).next_data_lpn)

module _ (collect : Ftl → ℕ → Run Ftl) where
  -- The loop `while(cleanListSize(...) <= 1)`: it gives up after ten collections.
  unfoldable pub free_blocks : ℕ → Ftl → ℕ → Run Ftl
  free_blocks zero s bank = if few_clean s bank then hang else ok s
  free_blocks (suc rounds) s bank =
      let again : Run Ftl = collect s bank >>= λ s'. free_blocks rounds s' bank in
      if few_clean s bank then again else ok s

  unfoldable pub get_sw_lpn : Ftl → ℕ → Run (ℕ × Ftl)
  get_sw_lpn s bank =
      let lpn = (s.sw_ctrl bank).log_lpn in
      let allocate : Run (ℕ × Ftl) = do
        s1 ← free_blocks 10 s bank
        popped ← pop_clean s1 bank
        ok (popped.0, set_sw popped.1 bank popped.0 invalid)
      in if lpn == invalid then allocate else ok (lpn, s)

  unfoldable pub get_ow_lpn : Ftl → ℕ → Run (ℕ × Ftl)
  get_ow_lpn s bank =
      let lpn = (s.ow_ctrl bank).log_lpn in
      let allocate : Run (ℕ × Ftl) = do
        s1 ← free_blocks 10 s bank
        popped ← pop_clean s1 bank
        let s2 = set_ow popped.1 bank popped.0
        ok (popped.0, clear_list s2 (s2.ow_ctrl bank).lpns_list_ptr)
      in if lpn == invalid then allocate else ok (lpn, s)

  unfoldable pub increase_ow_lpn : Ftl → ℕ → Run Ftl
  increase_ow_lpn s bank = do
    got ← get_ow_lpn s bank
    let lpn = got.0
    let s1 = got.1
    let full : Run Ftl = do
      s2 ←
          insert_in_overwrite_heap
            (program_list s1 bank (get_log_vbn s1.blocks bank (get_log_lbn lpn)) 125
              (s1.ow_ctrl bank).lpns_list_ptr)
            bank (get_log_lbn lpn)
      s3 ← free_blocks 10 (set_ow s2 bank invalid) bank
      popped ← pop_clean s3 bank
      let s4 = clear_list popped.1 (popped.1.ow_ctrl bank).lpns_list_ptr
      ok (set_ow s4 bank popped.0)
    if lpn == invalid
        then hang
        else if log_page_to_offset lpn == 123
        then full
        else ok (set_ow s1 bank (u32 (if log_page_to_offset lpn == 0 then lpn + 1 else lpn + 2)))

  -- How getRWLpn and increaseRWLpn find a new RW block. With at most one clean block left, it is the
  -- victim of the overwrite heap if that has less to copy than the victim of the write heap, else
  -- the SW block, else the last clean block, to which the collector then copies.
  unfoldable pub new_rw_blk : Ftl → ℕ → Run Ftl
  new_rw_blk s bank =
      let reuse : Run Ftl = do
        n ← get_victim_valid_pages_number s.heap_write bank
        n_ow ← get_victim_valid_pages_number s.heap_overwrite bank
        let collected : Run Ftl = take_rw s bank >>= λ s'. collect s' bank
        if ltb n_ow 504
            then hang
            else if ltb (n_ow - 504) n
            then seal_ow_blk s bank
            else if (s.sw_ctrl bank).log_lpn == invalid
            then collected
            else ok (swap_sw_to_rw s bank)
      in if few_clean s bank then reuse else take_rw s bank

  unfoldable pub get_rw_lpn : Ftl → ℕ → Run (ℕ × Ftl)
  get_rw_lpn s bank =
      let lpn = (s.rw_ctrl bank).log_lpn in
      let allocate : Run (ℕ × Ftl) = do s' ← new_rw_blk s bank; ok ((s'.rw_ctrl bank).log_lpn, s')
      in if lpn == invalid then allocate else ok (lpn, s)

  unfoldable pub increase_rw_lpn : Ftl → ℕ → Run Ftl
  increase_rw_lpn s bank = do
    got ← get_rw_lpn s bank
    let lpn = got.0
    let s1 = got.1
    let full : Run Ftl = do
      s2 ←
          insert_in_write_heap
            (close_list s1 bank (get_log_lbn lpn) (pages_per_blk - 1)
              (s1.rw_ctrl bank).lpns_list_ptr)
            bank (get_log_lbn lpn)
      s3 ← new_rw_blk s2 bank
      if ltb (clean_list_size s3.clean_lists bank) 1 then hang else ok s3
    let is_ow_blk = (s1.rw_ctrl bank).is_ow_blk
    if lpn == invalid
        then hang
        else if log_page_to_offset lpn == used_pages_per_log_blk - 1
        then full
        else ok (set_rw s1 bank (u32 (if is_ow_blk then lpn + 2 else lpn + 1)) is_ow_blk)
