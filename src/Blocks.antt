-- ===== src/Blocks.antt =====
-- The virtual blocks behind the log blocks: ftl_seal/blk_management.c (a ring of free virtual blocks
-- for each bank), the log block mapping table of ftl_seal/log.c, and the exchange by which
-- garbageCollectLog of ftl_seal/garbage_collection.c recycles the virtual block of a victim.
-- `dram16 a` is the 16-bit word of the DRAM at the byte address `a`.
mod Ring
pub mod Recycle
pub mod Samples
mod Tests
use msst2015_ftl.Base.{ℕ, zero, suc, ◌+◌, ◌%◌, ltb, if◌then◌else◌, update, u16, invalid}
use msst2015_ftl.Params.{free_blk_per_bank, log_blk_per_bank}
use msst2015_ftl.Layout.{free_bmt_slot, log_bmt_slot}

pub record Blocks : Type 0 where
  pub dram16 : ℕ → ℕ
  pub free_list_head : ℕ → ℕ
  pub free_list_tail : ℕ → ℕ

-- The free virtual block, and the state after it is taken.
unfoldable pub get_free_vbn : Blocks → ℕ → ℕ × Blocks
get_free_vbn s bank =
    let free_blk_offset = s.free_list_tail bank in
    (
      s.dram16 (free_bmt_slot bank free_blk_offset),
      record s {
        free_list_tail = update s.free_list_tail bank ((free_blk_offset + 1) % free_blk_per_bank);
      },
    )

unfoldable pub ret_free_vbn : Blocks → ℕ → ℕ → Blocks
ret_free_vbn s bank vblock =
    let free_blk_offset = s.free_list_head bank in
    record s {
      dram16 = update s.dram16 (free_bmt_slot bank free_blk_offset) (u16 vblock);
      free_list_head = update s.free_list_head bank ((free_blk_offset + 1) % free_blk_per_bank);
    }

unfoldable pub set_log_vbn : Blocks → ℕ → ℕ → ℕ → Blocks
set_log_vbn s bank log_lbn vblock = record s {
  dram16 = update s.dram16 (log_bmt_slot bank log_lbn) (u16 vblock);
}

unfoldable pub get_log_vbn : Blocks → ℕ → ℕ → ℕ
get_log_vbn s bank log_lbn =
    if ltb log_lbn log_blk_per_bank then s.dram16 (log_bmt_slot bank log_lbn) else invalid

-- The victim gets a free virtual block, and `vbn` is returned to the free ones.
unfoldable pub exchange_vbn : Blocks → ℕ → ℕ → ℕ → Blocks
exchange_vbn s bank lbn vbn =
    let taken = get_free_vbn s bank in ret_free_vbn (set_log_vbn taken.1 bank lbn taken.0) bank vbn

-- What garbageCollectLog does to the blocks when the victim is clean, with the virtual block that is
-- behind the victim: the result is this block, which the collector erases, and the state.
unfoldable pub recycle_victim : Blocks → ℕ → ℕ → ℕ × Blocks
recycle_victim s bank victim_lbn =
    let victim_vbn = get_log_vbn s bank victim_lbn in
    (victim_vbn, exchange_vbn s bank victim_lbn victim_vbn)
