-- ===== src/State.antt =====
-- The state of the FTL outside the heaps and lists: ftl_seal/ftl_metadata.h and the tables of the DRAM.
pub mod Samples
use msst2015_ftl.Base.{ℕ, Bool}
use msst2015_ftl.Heap.Defs.{HeapData}
use msst2015_ftl.CleanList.{ListData}
use msst2015_ftl.Blocks.{Blocks}

pub record SwCtrlBlock : Type 0 where
  pub log_lpn : ℕ
  pub next_data_lpn : ℕ
  pub lpns_list_ptr : ℕ

pub record RwCtrlBlock : Type 0 where
  pub log_lpn : ℕ
  pub lpns_list_ptr : ℕ
  pub is_ow_blk : Bool

pub record OwCtrlBlock : Type 0 where
  pub log_lpn : ℕ
  pub lpns_list_ptr : ℕ

-- logBufMetaT
pub record LogBufMeta : Type 0 where
  pub data_lpn : ℕ → ℕ
  pub chunk_idx : ℕ → ℕ

pub record Ftl : Type 0 where
  pub heap_write : HeapData
  pub heap_overwrite : HeapData
  pub clean_lists : ListData
  pub blocks : Blocks
  pub sw_ctrl : ℕ → SwCtrlBlock
  pub rw_ctrl : ℕ → RwCtrlBlock
  pub ow_ctrl : ℕ → OwCtrlBlock
  pub log_buf_meta : ℕ → LogBufMeta
  pub ow_log_buf_meta : ℕ → LogBufMeta
  -- The words of the chunks map table and of the lists of page numbers, by their addresses.
  pub chunk_map : ℕ → ℕ
  pub lpns_lists : ℕ → ℕ
  -- The words of the lists that are programmed in a page of a virtual block, by bank, virtual block,
  -- page and word.
  pub flash_lists : ℕ → ℕ → ℕ → ℕ → ℕ
  -- The overwrite counters, by their addresses.
  pub ow_counters : ℕ → ℕ
  -- The chunk of the DRAM write and overwrite buffer of a bank that is filled next, and how deep the
  -- collector is nested on a bank.
  pub chunk_ptr : ℕ → ℕ
  pub ow_chunk_ptr : ℕ → ℕ
  pub gc_nest_level : ℕ → ℕ
  -- referenceBank, g_ftl_read_buf_id and g_ftl_write_buf_id.
  pub reference_bank : ℕ
  pub read_buf_id : ℕ
  pub write_buf_id : ℕ
  -- The bytes of the buffers in the DRAM, by their addresses, and those of the flash pages, by bank,
  -- virtual block, page and byte.
  pub buffers : ℕ → ℕ
  pub flash : ℕ → ℕ → ℕ → ℕ → ℕ
