-- ===== src/Heap/Ops.antt =====
-- The operations of ftl_seal/heap.c: each on the heap of one bank, with `m` for
-- data->logBlksPerBank, and then on the data of all banks.
pub mod Spec
pub mod Locate
pub mod Change
pub mod Move
pub mod Init
pub mod Data
use msst2015_ftl.Base.{
  ℕ, zero, suc, ◌+◌, ◌-◌, ltb, leb, ◌==◌, if◌then◌else◌, update, u16, u32, sub32, invalid,
}
use msst2015_ftl.Base.Run.{Run, ok, hang, ◌>>=◌}
use msst2015_ftl.Params.{num_banks}
use msst2015_ftl.Heap.Defs.{
  HeapEl, BankHeap, HeapData, read_position, write_position, set_heap_el, get_heap_el, swap,
}
use msst2015_ftl.Heap.Sift.{bubble_down, bubble_up}

-- UINT16 logLbn = realLogLbn - data->firstLbn
unfoldable pub to_log_lbn : ℕ → ℕ → ℕ
to_log_lbn first_lbn real_log_lbn = u16 (sub32 (u16 real_log_lbn) first_lbn)

-- The block's position, which the operations check before they use it.
unfoldable pub checked_position : ℕ → BankHeap → ℕ → Run ℕ
checked_position m b log_lbn = do pos ← read_position b log_lbn; if ltb m pos then hang else ok pos

-- The element at the position, which must be the block's.
unfoldable pub checked_el : ℕ → BankHeap → ℕ → ℕ → Run HeapEl
checked_el m b pos log_lbn = do
  el ← get_heap_el m b (u16 pos)
  if el.lbn == log_lbn then ok el else hang

-- Where decrementValidChunks and decrementValidChunksByN write the smaller value back and sift.
unfoldable pub put_lower : ℕ → BankHeap → ℕ → HeapEl → Run BankHeap
put_lower m b pos el = do
  b' ← set_heap_el m b (u16 pos) el
  if leb pos b'.n_el then bubble_up m b' (u16 pos) else ok b'

unfoldable pub decrement_in_bank : ℕ → BankHeap → ℕ → Run BankHeap
decrement_in_bank m b log_lbn = do
  pos ← checked_position m b log_lbn
  el ← checked_el m b pos log_lbn
  if el.value == 0 then hang else put_lower m b pos (record el { value = el.value - 1 })

-- The test is against 0 only: a larger `n` wraps the UINT16 value around.
unfoldable pub decrement_by_n_in_bank : ℕ → BankHeap → ℕ → ℕ → Run BankHeap
decrement_by_n_in_bank m b log_lbn n = do
  pos ← checked_position m b log_lbn
  el ← checked_el m b pos log_lbn
  if el.value == 0
      then hang
      else put_lower m b pos (record el { value = u16 (sub32 el.value (u16 n)) })

unfoldable pub set_in_bank : ℕ → BankHeap → ℕ → ℕ → Run BankHeap
set_in_bank m b log_lbn initial_value = do
  pos ← checked_position m b log_lbn
  el ← if leb pos b.n_el then hang else checked_el m b pos log_lbn
  set_heap_el m b (u16 pos) (record el { value = u16 initial_value })

unfoldable pub remove_from_bank : ℕ → BankHeap → ℕ → ℕ → Run BankHeap
remove_from_bank m b log_lbn initial_value = do
  pos ← checked_position m b log_lbn
  found ← checked_el m b pos log_lbn
  let el = record found { value = u16 initial_value }
  b1 ← set_heap_el m b (u16 pos) el
  let last_pos = u16 b1.n_el
  last_el ← get_heap_el m b1 last_pos
  b2 ← swap m b1 el (u16 pos) last_el last_pos
  bubble_down m (record b2 { n_el = b2.n_el - 1 }) (u16 pos)

unfoldable pub insert_in_bank : ℕ → BankHeap → ℕ → Run BankHeap
insert_in_bank m b0 log_lbn = do
  let b = record b0 { n_el = b0.n_el + 1 }
  pos ← checked_position m b log_lbn
  el ← checked_el m b pos log_lbn
  let last_pos = u16 b.n_el
  last_el ← if ltb m last_pos then hang else get_heap_el m b last_pos
  b' ← swap m b el (u16 pos) last_el last_pos
  if ltb 1 b'.n_el then bubble_up m b' last_pos else ok b'

-- The loop of ValidChunksHeapInit over the blocks of a bank: `rounds` are left, `i` is the next.
unfoldable pub init_blocks : ℕ → ℕ → ℕ → ℕ → BankHeap → Run BankHeap
init_blocks zero m i initial_value b = ok b
init_blocks (suc rounds) m i initial_value b = do
  b1 ← write_position b i (u16 (i + 1))
  b2 ← set_heap_el m b1 (u16 (i + 1)) (record { value = u16 initial_value; lbn = u16 i })
  init_blocks rounds m (i + 1) initial_value b2

unfoldable pub init_bank : ℕ → ℕ → BankHeap → Run BankHeap
init_bank m initial_value b = do b' ← init_blocks m m 0 initial_value b; ok (record b' { n_el = 0 })

-- An operation on the heap of `bank`.
unfoldable pub on_bank : HeapData → ℕ → (BankHeap → Run BankHeap) → Run HeapData
on_bank d bank f = do b ← f (d.banks bank); ok (record d { banks = update d.banks bank b })

unfoldable pub decrement_valid_chunks : HeapData → ℕ → ℕ → Run HeapData
decrement_valid_chunks d bank real_log_lbn =
    on_bank d bank
      λ b. decrement_in_bank d.log_blks_per_bank b (to_log_lbn d.first_lbn real_log_lbn)

unfoldable pub decrement_valid_chunks_by_n : HeapData → ℕ → ℕ → ℕ → Run HeapData
decrement_valid_chunks_by_n d bank real_log_lbn n =
    on_bank d bank
      λ b. decrement_by_n_in_bank d.log_blks_per_bank b (to_log_lbn d.first_lbn real_log_lbn) n

unfoldable pub set_valid_chunks : HeapData → ℕ → ℕ → ℕ → Run HeapData
set_valid_chunks d bank real_log_lbn initial_value =
    on_bank d bank
      λ b. set_in_bank d.log_blks_per_bank b (to_log_lbn d.first_lbn real_log_lbn) initial_value

unfoldable pub reset_valid_chunks_and_remove : HeapData → ℕ → ℕ → ℕ → Run HeapData
reset_valid_chunks_and_remove d bank real_log_lbn initial_value =
    on_bank d bank λ b.
      remove_from_bank d.log_blks_per_bank b (to_log_lbn d.first_lbn real_log_lbn) initial_value

unfoldable pub insert_blk_in_heap : HeapData → ℕ → ℕ → Run HeapData
insert_blk_in_heap d bank real_log_lbn =
    on_bank d bank λ b. insert_in_bank d.log_blks_per_bank b (to_log_lbn d.first_lbn real_log_lbn)

unfoldable pub get_victim : HeapData → ℕ → Run ℕ
get_victim d bank = do
  el ← get_heap_el d.log_blks_per_bank (d.banks bank) 1
  ok (if ltb 0 (d.banks bank).n_el then u32 (el.lbn + d.first_lbn) else invalid)

unfoldable pub get_victim_valid_pages_number : HeapData → ℕ → Run ℕ
get_victim_valid_pages_number d bank = do
  el ← get_heap_el d.log_blks_per_bank (d.banks bank) 1
  ok (if ltb 0 (d.banks bank).n_el then el.value else invalid)

-- The loop of ValidChunksHeapInit over the banks.
unfoldable pub init_banks : ℕ → ℕ → ℕ → HeapData → Run HeapData
init_banks zero bank initial_value d = ok d
init_banks (suc rounds) bank initial_value d = do
  d' ← on_bank d bank (init_bank d.log_blks_per_bank initial_value)
  init_banks rounds (bank + 1) initial_value d'

unfoldable pub valid_chunks_heap_init : HeapData → ℕ → ℕ → ℕ → Run HeapData
valid_chunks_heap_init d blks_per_bank first_lbn initial_value =
    init_banks num_banks 0 initial_value
      (record d { log_blks_per_bank = blks_per_bank; first_lbn = first_lbn })
