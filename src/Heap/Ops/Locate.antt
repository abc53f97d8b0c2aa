-- ===== src/Heap/Ops/Locate.antt =====
-- The checks that open every operation pass on a valid heap.
use msst2015_ftl.Base.{ℕ, ◌<◌, ◌≡◌, ◌^◌, arith, u16-small}
use msst2015_ftl.Base.Run.{ok}
use msst2015_ftl.Heap.Defs.{BankHeap, read_position}
use msst2015_ftl.Heap.Sift.Swap.{at, IsIndexed, get_heap_el-ok}
use msst2015_ftl.Heap.Ops.{checked_position, checked_el}

module _ (m : ℕ) (b : BankHeap) (v : IsIndexed m b) (l : ℕ) (l_ok : l < m) where
  pub checked_position-ok : checked_position m b l ≡ ok (b.positions l)
  unfolding checked_position read_position
  checked_position-ok = ground (arith, v.fits, v.position_le l)

  pub position-small : b.positions l < 2 ^ 16
  position-small = let fits = v.fits in omega (arith, v.position_le l l_ok)

  pub checked_el-ok : checked_el m b (b.positions l) l ≡ ok (at b (b.positions l))
  unfolding checked_el
  checked_el-ok =
      rw
        (
          u16-small (b.positions l) position-small,
          get_heap_el-ok m b v (b.positions l) (v.position_pos l l_ok) (v.position_le l l_ok),
        )
        (ground (arith, v.position_cell l))
