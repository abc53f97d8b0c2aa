-- ===== src/Heap/Ops/Move.antt =====
-- insertBlkInHeap and resetValidChunksAndRemove of ftl_seal/heap.c on a bank.
use msst2015_ftl.Base.{
  ℕ, ◌+◌, ◌-◌, ◌^◌, ◌≤◌, ◌<◌, ◌≡◌, arith, ltb, ge→ltb, true, false, u16, u16-small,
}
use msst2015_ftl.Base.Run.{ok, Yields, yields, Yields-weaken, Yields-test}
use msst2015_ftl.Heap.Defs.{BankHeap, swap}
use msst2015_ftl.Heap.Sift.Swap.{
  at, IsIndexed, swapped, get_heap_el-ok, swap-ok, swapped-IsIndexed, swapped_value,
}
use msst2015_ftl.Heap.Sift.Order.{block_value, in_heap}
use msst2015_ftl.Heap.Sift.Up.{UpInv, bubble_up-Sifted}
use msst2015_ftl.Heap.Sift.Down.{DownInv, bubble_down-Sifted}
use msst2015_ftl.Heap.Ops.{insert_in_bank, remove_from_bank}
use msst2015_ftl.Heap.Ops.Spec.{IsValid, Shows, Changes, Changes-Sifted}
use msst2015_ftl.Heap.Ops.Locate.{checked_position-ok, position-small, checked_el-ok}
use msst2015_ftl.Heap.Ops.Change.{written, set_heap_el-ok, written-IsIndexed, written-Shows}

abbrev resized : BankHeap → ℕ → BankHeap
resized b n = record b { n_el = n }

resized-IsIndexed : (m n : ℕ) (b : BankHeap) → IsIndexed m b → n ≤ m → IsIndexed m (resized b n)
resized-IsIndexed m n b v h = record {
  fits = v.fits;
  size = h;
  cell_value = v.cell_value;
  cell_lbn = v.cell_lbn;
  cell_position = v.cell_position;
  position_pos = v.position_pos;
  position_le = v.position_le;
  position_cell = v.position_cell;
}

module _ (m : ℕ) (b : BankHeap) (valid : IsValid m b) (l : ℕ) (l_ok : l < m)
    (outside : in_heap b l ≡ false) where
  abbrev grown : BankHeap
  grown = resized b (b.n_el + 1)

  abbrev entered : BankHeap
  entered = swapped grown (b.positions l) (b.n_el + 1)

  room : b.n_el + 1 ≤ m
  room = ground (arith, valid.indexed.position_le l)

  behind : b.n_el + 1 ≤ b.positions l
  behind = ground arith

  entered-Shows : Shows m b l (block_value b l) true entered
  entered-Shows =
      let v = valid.indexed in
      record {
        value_is = λ k h. ground (
          arith,
          swapped_value m grown (resized-IsIndexed m (b.n_el + 1) b v room) (b.positions l)
              (b.n_el + 1) (v.position_pos l l_ok) (v.position_le l l_ok) (omega arith) room k,
        );
        heap_is = λ k h. ground (
          arith,
          behind,
          v.position_pos k,
          v.position_cell k,
          v.position_cell l,
          v.cell_position (b.n_el + 1),
          room,
        );
        size_is = ground arith;
      }

  entered-UpInv : UpInv entered (b.n_el + 1)
  entered-UpInv = record {
    low = omega arith;
    inside = omega arith;
    edges = λ c lo hi ne. ground (arith, behind, valid.heap c);
    bridged = λ c lo hi e h. absurd (omega arith);
  }

  -- A block that is set aside enters the heap with the count that was kept for it.
  pub insert_in_bank-Changes : Yields (Changes m b l (block_value b l) true) (insert_in_bank m b l)
  unfolding insert_in_bank
  insert_in_bank-Changes =
      let v = valid.indexed in
      let g = resized-IsIndexed m (b.n_el + 1) b v room in
      let fits = v.fits in
      let space = room in
      let low = v.position_pos l l_ok in
      let high = v.position_le l l_ok in
      let w =
        swapped-IsIndexed m grown g (b.positions l) (b.n_el + 1) low high (omega arith) room in
      rw
        (
          checked_position-ok m grown g l l_ok,
          checked_el-ok m grown g l l_ok,
          u16-small (b.n_el + 1) (omega arith),
          u16-small (b.positions l) (position-small m b v l l_ok),
          ge→ltb m (b.n_el + 1) room,
          get_heap_el-ok m grown g (b.n_el + 1) (omega arith) room,
          swap-ok m grown g (b.positions l) (b.n_el + 1) low high (omega arith) room,
        )
        (Yields-test (ltb 1 (b.n_el + 1))
          (λ _.
            Yields-weaken (λ c t. Changes-Sifted c entered-Shows t)
              (bubble_up-Sifted m entered (b.n_el + 1) w entered-UpInv))
          (λ single. yields (record {
            valid = record { indexed = w; heap = λ c lo hi. absurd (ground arith) };
            shows = entered-Shows;
          })))

module _ (m : ℕ) (b : BankHeap) (valid : IsValid m b) (l : ℕ) (l_ok : l < m)
    (root : b.positions l ≡ 1) (nonempty : 0 < b.n_el) (x : ℕ) (x_ok : x < 2 ^ 16) where
  abbrev marked : BankHeap
  marked = written b (b.positions l) x

  -- The block at the root changes places with the last of the heap, which then ends before it.
  abbrev left : BankHeap
  left = resized (swapped marked 1 b.n_el) (b.n_el - 1)

  marked-IsIndexed : IsIndexed m marked
  marked-IsIndexed = written-IsIndexed m b valid.indexed l l_ok x x_ok

  left-Shows : Shows m b l x false left
  left-Shows =
      let v = valid.indexed in
      let size = v.size in
      record {
        value_is = λ k h. ground (
          arith,
          root,
          swapped_value m marked marked-IsIndexed 1 b.n_el (omega arith) (omega arith) nonempty size
              k,
          (written-Shows m b v l l_ok x x_ok).value_is k,
        );
        heap_is = λ k h. ground (
          arith,
          root,
          v.position_pos k,
          v.position_cell k,
          v.position_cell l,
          v.cell_position b.n_el,
        );
        size_is = ground arith;
      }

  left-DownInv : DownInv left 1
  left-DownInv = record {
    low = omega arith;
    edges = λ c lo hi ne. ground (arith, root, valid.heap c);
    bridged = λ c lo hi e h. absurd (omega arith);
  }

  swap_root :
      swap m marked
        (record (at b (b.positions l)) { value = x })
        (u16 (b.positions l))
        (at marked b.n_el)
        b.n_el
      ≡ ok (swapped marked 1 b.n_el)
  swap_root =
      let size = valid.indexed.size in
      let low : 1 ≤ m = omega arith in
      let here : at marked 1 ≡ record (at b (b.positions l)) { value = x } = ground (arith, root) in
      let first : u16 (b.positions l) ≡ 1 = ground (arith, root) in
      cc (swap-ok m marked marked-IsIndexed 1 b.n_el (omega arith) low nonempty size, here, first)

  -- The block at the root of the heap leaves it with the new count.
  pub remove_from_bank-Changes : Yields (Changes m b l x false) (remove_from_bank m b l x)
  unfolding remove_from_bank
  remove_from_bank-Changes =
      let v = valid.indexed in
      let fits = v.fits in
      let size = v.size in
      let low : 1 ≤ m = omega arith in
      let first : u16 (b.positions l) ≡ 1 = ground (arith, root) in
      let w =
        swapped-IsIndexed m marked marked-IsIndexed 1 b.n_el (omega arith) low nonempty size in
      rw
        (
          checked_position-ok m b v l l_ok,
          checked_el-ok m b v l l_ok,
          u16-small x x_ok,
          set_heap_el-ok m b v l l_ok x x_ok,
          u16-small b.n_el (omega arith),
          get_heap_el-ok m marked marked-IsIndexed b.n_el nonempty size,
          swap_root,
          first,
        )
        (Yields-weaken (λ c t. Changes-Sifted c left-Shows t)
          (bubble_down-Sifted m left 1
            (resized-IsIndexed m (b.n_el - 1) (swapped marked 1 b.n_el) w (omega arith)) low
            left-DownInv))
