-- ===== src/Heap/Sift/Swap.antt =====
-- The two tables of ftl_seal/heap.c agree, and an exchange of two elements keeps that.
use msst2015_ftl.Base.{ℕ, ◌-◌, ◌^◌, ◌≤◌, ◌<◌, ◌≡◌, arith, update, ◌==◌, if◌then◌else◌}
use msst2015_ftl.Base.Run.{ok}
use msst2015_ftl.Params.{log_blk_per_bank}
use msst2015_ftl.Heap.Defs.{HeapEl, BankHeap, get_heap_el, set_heap_el, write_position, swap}

-- The element at a position.
abbrev pub at : BankHeap → ℕ → HeapEl
at b pos = b.cells (pos - 1)

-- The elements at positions 1 .. m are those of the blocks 0 .. m - 1, each block once, and the
-- table of positions says where.
pub record IsIndexed (m : ℕ) (b : BankHeap) : Type 0 where
  pub fits : m ≤ log_blk_per_bank
  pub size : b.n_el ≤ m
  pub cell_value : (p : ℕ) → 0 < p → p ≤ m → (at b p).value < 2 ^ 16
  pub cell_lbn : (p : ℕ) → 0 < p → p ≤ m → (at b p).lbn < m
  pub cell_position : (p : ℕ) → 0 < p → p ≤ m → b.positions (at b p).lbn ≡ p
  pub position_pos : (l : ℕ) → l < m → 0 < b.positions l
  pub position_le : (l : ℕ) → l < m → b.positions l ≤ m
  pub position_cell : (l : ℕ) → l < m → (at b (b.positions l)).lbn ≡ l

-- The bank with the elements at `p` and `q` exchanged.
abbrev pub swapped : BankHeap → ℕ → ℕ → BankHeap
swapped b p q = record b {
  cells = update (update b.cells (p - 1) (at b q)) (q - 1) (at b p);
  positions = update (update b.positions (at b p).lbn q) (at b q).lbn p;
}

module _ (m : ℕ) (b : BankHeap) (v : IsIndexed m b) where
  pub get_heap_el-ok : (p : ℕ) → 0 < p → p ≤ m → get_heap_el m b p ≡ ok (at b p)
  unfolding get_heap_el
  get_heap_el-ok p lo hi = ground (arith, v.fits, v.cell_lbn p)

  module _ (p q : ℕ) (p_pos : 0 < p) (p_le : p ≤ m) (q_pos : 0 < q) (q_le : q ≤ m) where
    pub swap-ok : swap m b (at b p) p (at b q) q ≡ ok (swapped b p q)
    unfolding swap set_heap_el write_position
    swap-ok = ground (arith, v.fits, v.cell_lbn p, v.cell_lbn q)

    pub at-swapped :
        (r : ℕ)
        → 0 < r
        → at (swapped b p q) r ≡ (if q == r then at b p else if p == r then at b q else at b r)
    at-swapped r h = ground arith

    pub swapped-IsIndexed : IsIndexed m (swapped b p q)
    swapped-IsIndexed = record {
      fits = v.fits;
      size = v.size;
      cell_value = λ r lo hi. ground (arith, v.cell_value r, v.cell_value p, v.cell_value q);
      cell_lbn = λ r lo hi. ground (arith, v.cell_lbn r, v.cell_lbn p, v.cell_lbn q);
      cell_position =
          λ r lo hi. ground (arith, v.cell_position r, v.cell_position p, v.cell_position q);
      position_pos = λ l h. ground (arith, v.position_pos l);
      position_le = λ l h. ground (arith, v.position_le l);
      position_cell = λ l h.
          ground (arith, v.position_pos l, v.position_cell l, v.cell_position p, v.cell_position q);
    }

    -- An exchange changes the place of a block, never its value.
    pub swapped_value :
        (l : ℕ)
        → l < m
        → (at (swapped b p q) ((swapped b p q).positions l)).value ≡ (at b (b.positions l)).value
    swapped_value l h =
        ground (arith, v.position_pos l, v.position_cell l, v.cell_position p, v.cell_position q)
