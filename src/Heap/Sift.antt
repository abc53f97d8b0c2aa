-- ===== src/Heap/Sift.antt =====
-- bubbleDown and bubbleUp of ftl_seal/heap.c. The loops take fuel, and the
-- calls end before it runs out. Their counters only print a warning every 100000 rounds.
pub mod Swap
pub mod Order
pub mod Up
pub mod Down
use msst2015_ftl.Base.{ℕ, zero, suc, ◌+◌, ◌*◌, ◌/◌, Bool, ltb, leb, ◌==◌, ◌&&◌, if◌then◌else◌, u16}
use msst2015_ftl.Base.Run.{Run, ok, out_of_fuel, ◌>>=◌}
use msst2015_ftl.Heap.Defs.{HeapEl, BankHeap, get_heap_el, swap}

-- The while loop of bubbleDown, from the father's position.
unfoldable pub bubble_down_loop : ℕ → ℕ → BankHeap → ℕ → Run BankHeap
bubble_down_loop zero m b father = out_of_fuel
bubble_down_loop (suc fuel) m b father =
    let child1 = u16 (father * 2) in
    let child2 = u16 (father * 2 + 1) in
    let sink1 : HeapEl → HeapEl → Run BankHeap =
      λ f c. swap m b f father c child1 >>= λ b'. bubble_down_loop fuel m b' child1 in
    let sink2 : HeapEl → HeapEl → Run BankHeap =
      λ f c. swap m b f father c child2 >>= λ b'. bubble_down_loop fuel m b' child2 in
    let one_child : Run BankHeap = do
      f ← get_heap_el m b father
      c1 ← get_heap_el m b child1
      if leb f.value c1.value then ok b else sink1 f c1
    in let two_children : Run BankHeap = do
      f ← get_heap_el m b father
      c1 ← get_heap_el m b child1
      c2 ← get_heap_el m b child2
      if leb f.value c1.value && leb f.value c2.value
          then ok b
          else if ltb c1.value c2.value
          then sink1 f c1
          else sink2 f c2
      in if ltb b.n_el child1 then ok b else if ltb b.n_el child2 then one_child else two_children

unfoldable pub bubble_down : ℕ → BankHeap → ℕ → Run BankHeap
bubble_down m b pos = bubble_down_loop (b.n_el + 1) m b pos

-- The while loop of bubbleUp, with the two elements that it has read.
unfoldable pub bubble_up_loop : ℕ → ℕ → BankHeap → ℕ → HeapEl → HeapEl → Run BankHeap
bubble_up_loop zero m b pos child father = out_of_fuel
bubble_up_loop (suc fuel) m b pos child father =
    let next : BankHeap → Run BankHeap = λ b'. do
      c ← get_heap_el m b' (pos / 2)
      f ← get_heap_el m b' (pos / 2 / 2)
      bubble_up_loop fuel m b' (pos / 2) c f
    in let rise : Run BankHeap = do
      b' ← swap m b child pos father (pos / 2)
      if pos / 2 == 1 then ok b' else next b'
      in if ltb child.value father.value then rise else ok b

unfoldable pub bubble_up : ℕ → BankHeap → ℕ → Run BankHeap
bubble_up m b pos =
    let go : Run BankHeap = do
      child ← get_heap_el m b pos
      father ← get_heap_el m b (pos / 2)
      bubble_up_loop pos m b pos child father
    in if pos == 1 then ok b else go
