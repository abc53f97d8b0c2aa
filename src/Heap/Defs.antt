-- ===== src/Heap/Defs.antt =====
-- The data of ftl_seal/heap.c and the accesses to it. `data` is a HeapData, and what the C code
-- keeps for a bank (nElInHeap[bank] and the bank's parts of the two DRAM tables) is a BankHeap.
-- A position is a UINT16; the callers pass it reduced by `u16`. Messages are left out, and so are
-- the tests of an address against the end of the DRAM, which only print one (see Layout/Slots).
use msst2015_ftl.Base.{ℕ, ◌-◌, ltb, leb, ◌==◌, if◌then◌else◌, update}
use msst2015_ftl.Base.Run.{Run, ok, hang, stray, ◌>>=◌}
use msst2015_ftl.Params.{log_blk_per_bank}

-- heapEl; as a 32-bit word it is `value + lbn * 2 ^ 16`, by the union stubUnion.
pub record HeapEl : Type 0 where
  pub value : ℕ
  pub lbn : ℕ

pub record BankHeap : Type 0 where
  pub n_el : ℕ
  pub cells : ℕ → HeapEl
  pub positions : ℕ → ℕ

pub record HeapData : Type 0 where
  pub log_blks_per_bank : ℕ
  pub first_lbn : ℕ
  pub banks : ℕ → BankHeap

-- The word at HeapPositions(positionsPtr, bank, lbn).
unfoldable pub read_position : BankHeap → ℕ → Run ℕ
read_position b lbn = if ltb lbn log_blk_per_bank then ok (b.positions lbn) else stray

unfoldable pub write_position : BankHeap → ℕ → ℕ → Run BankHeap
write_position b lbn pos =
    if ltb lbn log_blk_per_bank
    then ok (record b { positions = update b.positions lbn pos })
    else stray

-- setHeapEl; `m` is data->logBlksPerBank. Positions start from 1, slots from 0.
unfoldable pub set_heap_el : ℕ → BankHeap → ℕ → HeapEl → Run BankHeap
set_heap_el m b pos el =
    if pos == 0
    then hang
    else if ltb m pos
    then hang
    else ok (record b { cells = update b.cells (pos - 1) el })

unfoldable pub get_heap_el : ℕ → BankHeap → ℕ → Run HeapEl
get_heap_el m b pos =
    if pos == 0
    then hang
    else if ltb m pos
    then hang
    else if leb log_blk_per_bank (b.cells (pos - 1)).lbn
    then hang
    else ok (b.cells (pos - 1))

-- swap: `el1` is the element at `pos1`, `el2` the one at `pos2`.
unfoldable pub swap : ℕ → BankHeap → HeapEl → ℕ → HeapEl → ℕ → Run BankHeap
swap m b el1 pos1 el2 pos2 = do
  b1 ← set_heap_el m b pos1 el2
  b2 ← set_heap_el m b1 pos2 el1
  b3 ← write_position b2 el1.lbn pos2
  write_position b3 el2.lbn pos1
