-- ===== src/Heap/Sift/Down.antt =====
-- bubbleDown of ftl_seal/heap.c.
use msst2015_ftl.Base.{
  ℕ, zero, suc, ◌+◌, ◌-◌, ◌*◌, ◌/◌, ◌≤◌, ◌<◌, ◌≡◌, refl, ◌≢◌, ◌⊎◌, inl, inr, arith, ltb, leb, ◌&&◌,
  u16-small,
}
use msst2015_ftl.Base.Run.{Yields, yields, Yields-test, ◌>>=◌}
use msst2015_ftl.Heap.Defs.{BankHeap, swap}
use msst2015_ftl.Heap.Sift.{bubble_down_loop, bubble_down}
use msst2015_ftl.Heap.Sift.Swap.{
  at, IsIndexed, swapped, get_heap_el-ok, swap-ok, at-swapped, swapped-IsIndexed,
}
use msst2015_ftl.Heap.Sift.Order.{Sifted, SameBlocks-refl, swapped-SameBlocks, Sifted-after}

-- Only the sons of `i` may be below their father; none of them is below the father of `i`.
pub record DownInv (b : BankHeap) (i : ℕ) : Type 0 where
  pub low : 0 < i
  pub edges : (c : ℕ) → 1 < c → c ≤ b.n_el → c / 2 ≢ i → (at b (c / 2)).value ≤ (at b c).value
  pub bridged :
      (c : ℕ) → 1 < c → c ≤ b.n_el → c / 2 ≡ i → 1 < i → (at b (i / 2)).value ≤ (at b c).value

module _ (m : ℕ) (b : BankHeap) (v : IsIndexed m b) (i : ℕ) (d : DownInv b i) where
  settled-Sifted :
      ((c : ℕ) → 1 < c → c ≤ b.n_el → c / 2 ≡ i → (at b i).value ≤ (at b c).value) → Sifted m b b
  settled-Sifted sons = record {
    indexed = v;
    heap = λ c lo hi. ground (arith, d.edges c, sons c);
    same = SameBlocks-refl m b;
  }

  -- `s` is the son of `i` to exchange it with.
  record IsLeastSon (s : ℕ) : Type 0 where
    inside : s ≤ b.n_el
    son : s / 2 ≡ i
    below : (at b s).value < (at b i).value
    least : (c : ℕ) → 1 < c → c ≤ b.n_el → c / 2 ≡ i → (at b s).value ≤ (at b c).value

  swapped-DownInv : (s : ℕ) → IsLeastSon s → DownInv (swapped b i s) s
  swapped-DownInv s k =
      let size = v.size in
      let low = d.low in
      let inside = k.inside in
      let son = k.son in
      let look = at-swapped m b v i s low (omega arith) (omega arith) (omega arith) in
      record {
        low = omega arith;
        edges = λ c lo hi ne.
            ground (arith, look c, look (c / 2), d.edges c, d.bridged s, k.below, k.least c);
        bridged = λ c lo hi e h. ground (arith, look c, look (s / 2), d.edges c);
      }

-- A bound of both sons of `i` bounds every element whose father is `i`.
sons_bound :
    (b : BankHeap) (i x c : ℕ)
    → c / 2 ≡ i
    → x ≤ (at b (i * 2)).value
    → x ≤ (at b (i * 2 + 1)).value
    → x ≤ (at b c).value
sons_bound b i x c e h k =
    let son : (c ≡ i * 2) ⊎ (c ≡ i * 2 + 1) = omega arith in
    elim son [ inl first ↦ rw first h | inr second ↦ rw second k ]

-- The exchange with the least son, and the rounds that follow it.
sink-Sifted :
    (fuel m : ℕ) (b : BankHeap) (v : IsIndexed m b) (i : ℕ) (d : DownInv b i) (s : ℕ)
    → ((b' : BankHeap)
        → IsIndexed m b'
        → DownInv b' s
        → b'.n_el ≡ b.n_el
        → Yields (Sifted m b') (bubble_down_loop fuel m b' s))
    → IsLeastSon m b v i d s
    → Yields (Sifted m b) (swap m b (at b i) i (at b s) s >>= λ b'. bubble_down_loop fuel m b' s)
sink-Sifted fuel m b v i d s rounds k =
    let size = v.size in
    let low = d.low in
    let inside = k.inside in
    let son = k.son in
    rw (swap-ok m b v i s low (omega arith) (omega arith) (omega arith)) (
      Sifted-after (swapped-SameBlocks m b v i s low (omega arith) (omega arith) inside) (
        rounds (swapped b i s)
          (swapped-IsIndexed m b v i s low (omega arith) (omega arith) (omega arith))
          (swapped-DownInv m b v i d s k) refl))

bubble_down_loop-Sifted :
    (fuel m : ℕ) (b : BankHeap) (i : ℕ)
    → b.n_el - i < fuel
    → IsIndexed m b
    → i ≤ m
    → DownInv b i
    → Yields (Sifted m b) (bubble_down_loop fuel m b i)
unfolding bubble_down_loop
bubble_down_loop-Sifted zero m b i f v hi d = absurd (omega arith)
bubble_down_loop-Sifted (suc fuel) m b i f v hi d =
    let size = v.size in
    let fits = v.fits in
    let low = d.low in
    let sink = λ (s : ℕ) (s_le : s ≤ m) (falls : b.n_el - s < fuel).
      sink-Sifted fuel m b v i d s
        (λ b' v' d' n_same. bubble_down_loop-Sifted fuel m b' s (omega arith) v' s_le d') in
    rw (u16-small (i * 2) (omega arith), u16-small (i * 2 + 1) (omega arith))
      (Yields-test (ltb b.n_el (i * 2))
        (λ leaf. yields (settled-Sifted m b v i d (λ c lo le e. absurd (ground arith))))
        (λ inner.
          rw
            (
              get_heap_el-ok m b v i low hi,
              get_heap_el-ok m b v (i * 2) (omega arith) (ground arith),
            )
            (Yields-test (ltb b.n_el (i * 2 + 1))
              (λ one.
                Yields-test (leb (at b i).value (at b (i * 2)).value)
                  (λ above. yields (
                    settled-Sifted m b v i d
                      (λ c lo le e. let only : c ≡ i * 2 = ground arith in rw only (ground arith))))
                  (λ below. sink (i * 2) (ground arith) (ground arith) (record {
                    inside = ground arith;
                    son = omega arith;
                    below = ground arith;
                    least =
                        λ c lo le e. let only : c ≡ i * 2 = ground arith in rw only (omega arith);
                  })))
              (λ two. rw (get_heap_el-ok m b v (i * 2 + 1) (omega arith) (ground arith)) (
                Yields-test
                  (leb (at b i).value (at b (i * 2)).value
                    && leb (at b i).value (at b (i * 2 + 1)).value)
                  (λ above. yields (
                    settled-Sifted m b v i d
                      (λ c lo le e. sons_bound b i _ c e (ground arith) (ground arith))))
                  (λ below.
                    Yields-test (ltb (at b (i * 2)).value (at b (i * 2 + 1)).value)
                      (λ first. sink (i * 2) (ground arith) (ground arith) (record {
                        inside = ground arith;
                        son = omega arith;
                        below = ground arith;
                        least = λ c lo le e. sons_bound b i _ c e (ground arith) (ground arith);
                      }))
                      (λ second. sink (i * 2 + 1) (ground arith) (ground arith) (record {
                        inside = ground arith;
                        son = omega arith;
                        below = ground arith;
                        least = λ c lo le e. sons_bound b i _ c e (ground arith) (ground arith);
                      }))))))))

-- bubbleDown turns a heap whose element at `i` may be too large for its place into an ordered heap,
-- and keeps each block's value, and whether it is in the heap.
pub bubble_down-Sifted :
    (m : ℕ) (b : BankHeap) (i : ℕ)
    → IsIndexed m b
    → i ≤ m
    → DownInv b i
    → Yields (Sifted m b) (bubble_down m b i)
unfolding bubble_down
bubble_down-Sifted m b i v hi d =
    let low = d.low in bubble_down_loop-Sifted (b.n_el + 1) m b i (omega arith) v hi d
