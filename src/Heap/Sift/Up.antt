-- ===== src/Heap/Sift/Up.antt =====
-- bubbleUp of ftl_seal/heap.c.
use msst2015_ftl.Base.{ℕ, zero, suc, ◌/◌, ◌≤◌, ◌<◌, ◌≡◌, ◌≢◌, arith, ltb, ◌==◌}
use msst2015_ftl.Base.Run.{Yields, yields, Yields-test}
use msst2015_ftl.Heap.Defs.{BankHeap}
use msst2015_ftl.Heap.Sift.{bubble_up_loop, bubble_up}
use msst2015_ftl.Heap.Sift.Swap.{
  at, IsIndexed, swapped, get_heap_el-ok, swap-ok, at-swapped, swapped-IsIndexed,
}
use msst2015_ftl.Heap.Sift.Order.{Sifted, SameBlocks-refl, swapped-SameBlocks, Sifted-after}

-- Only the element at `i` may be below its father; its sons are not below that father.
pub record UpInv (b : BankHeap) (i : ℕ) : Type 0 where
  pub low : 0 < i
  pub inside : i ≤ b.n_el
  pub edges : (c : ℕ) → 1 < c → c ≤ b.n_el → c ≢ i → (at b (c / 2)).value ≤ (at b c).value
  pub bridged :
      (c : ℕ) → 1 < c → c ≤ b.n_el → c / 2 ≡ i → 1 < i → (at b (i / 2)).value ≤ (at b c).value

module _ (m : ℕ) (b : BankHeap) (v : IsIndexed m b) (i : ℕ) (u : UpInv b i) (high : 1 < i) where
  swapped-UpInv : (at b i).value < (at b (i / 2)).value → UpInv (swapped b i (i / 2)) (i / 2)
  swapped-UpInv below =
      let size = v.size in
      let inside = u.inside in
      let look = at-swapped m b v i (i / 2) u.low (omega arith) (omega arith) (omega arith) in
      record {
        low = omega arith;
        inside = omega arith;
        edges = λ c lo hi ne.
            ground (arith, look c, look (c / 2), u.edges c, u.bridged c, u.edges (i / 2));
        bridged =
            λ c lo hi e h. ground (arith, look c, look (i / 2 / 2), u.edges c, u.edges (i / 2));
      }

  settled-Sifted : (at b (i / 2)).value ≤ (at b i).value → Sifted m b b
  settled-Sifted above = record {
    indexed = v;
    heap = λ c lo hi. ground (arith, u.edges c);
    same = SameBlocks-refl m b;
  }

bubble_up_loop-Sifted :
    (fuel m : ℕ) (b : BankHeap) (i : ℕ)
    → i ≤ fuel
    → IsIndexed m b
    → UpInv b i
    → 1 < i
    → Yields (Sifted m b) (bubble_up_loop fuel m b i (at b i) (at b (i / 2)))
unfolding bubble_up_loop
bubble_up_loop-Sifted zero m b i f v u high = absurd (omega arith)
bubble_up_loop-Sifted (suc fuel) m b i f v u high =
    let size = v.size in
    let inside = u.inside in
    Yields-test (ltb (at b i).value (at b (i / 2)).value)
      (λ below.
        let w = swapped-IsIndexed m b v i (i / 2) u.low (omega arith) (omega arith) (omega arith) in
        let u' = swapped-UpInv m b v i u high (ground arith) in
        let keep = swapped-SameBlocks m b v i (i / 2) u.low inside (omega arith) (omega arith) in
        rw (swap-ok m b v i (i / 2) u.low (omega arith) (omega arith) (omega arith)) (
          Yields-test (i / 2 == 1)
            (λ root.
              yields
                (record { indexed = w; heap = λ c lo hi. ground (arith, u'.edges c); same = keep }))
            (λ deeper.
              rw
                (
                  get_heap_el-ok m _ w (i / 2) (omega arith) (omega arith),
                  get_heap_el-ok m _ w (i / 2 / 2) (ground arith) (omega arith),
                )
                (Sifted-after keep (
                  bubble_up_loop-Sifted fuel m (swapped b i (i / 2)) (i / 2) (omega arith) w u'
                    (ground arith))))))
      (λ settled. yields (settled-Sifted m b v i u high (ground arith)))

-- bubbleUp turns a heap whose element at `i` may be too small for its place into an ordered heap,
-- and keeps each block's value, and whether it is in the heap.
pub bubble_up-Sifted :
    (m : ℕ) (b : BankHeap) (i : ℕ)
    → IsIndexed m b
    → UpInv b i
    → Yields (Sifted m b) (bubble_up m b i)
unfolding bubble_up
bubble_up-Sifted m b i v u =
    let size = v.size in
    let inside = u.inside in
    let low = u.low in
    Yields-test (i == 1)
      (λ root. yields (record {
        indexed = v;
        heap = λ c lo hi. ground (arith, u.edges c);
        same = SameBlocks-refl m b;
      }))
      (λ deeper.
        rw
          (
            get_heap_el-ok m b v i (omega arith) (omega arith),
            get_heap_el-ok m b v (i / 2) (ground arith) (omega arith),
          )
          (bubble_up_loop-Sifted i m b i (omega arith) v u (ground arith)))
