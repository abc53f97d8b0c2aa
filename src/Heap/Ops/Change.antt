-- ===== src/Heap/Ops/Change.antt =====
-- decrementValidChunks, decrementValidChunksByN and setValidChunks of ftl_seal/heap.c on a bank.
use msst2015_ftl.Base.{
  ℕ, ◌+◌, ◌-◌, ◌^◌, ◌≤◌, ◌<◌, ◌≡◌, arith, update, leb, ◌==◌, false, u16, u16-small, sub32,
}
use msst2015_ftl.Base.Run.{ok, hang, Yields, yields, Yields-weaken, Yields-test}
use msst2015_ftl.Heap.Defs.{BankHeap, set_heap_el}
use msst2015_ftl.Heap.Sift.Swap.{at, IsIndexed}
use msst2015_ftl.Heap.Sift.Order.{block_value, in_heap}
use msst2015_ftl.Heap.Sift.Up.{bubble_up-Sifted}
use msst2015_ftl.Heap.Ops.{put_lower, decrement_in_bank, decrement_by_n_in_bank, set_in_bank}
use msst2015_ftl.Heap.Ops.Spec.{IsValid, Shows, Changes, Changes-Sifted}
use msst2015_ftl.Heap.Ops.Locate.{checked_position-ok, position-small, checked_el-ok}

-- The bank with the value at position `p` replaced.
abbrev pub written : BankHeap → ℕ → ℕ → BankHeap
written b p x = record b { cells = update b.cells (p - 1) (record (at b p) { value = x }) }

module _ (m : ℕ) (b : BankHeap) (v : IsIndexed m b) (l : ℕ) (l_ok : l < m) (x : ℕ)
    (x_ok : x < 2 ^ 16) where
  pub set_heap_el-ok :
      set_heap_el m b (u16 (b.positions l)) (record (at b (b.positions l)) { value = x })
      ≡ ok (written b (b.positions l) x)
  unfolding set_heap_el
  set_heap_el-ok =
      rw (u16-small (b.positions l) (position-small m b v l l_ok))
        (ground (arith, v.position_pos l l_ok, v.position_le l l_ok))

  pub written-IsIndexed : IsIndexed m (written b (b.positions l) x)
  written-IsIndexed =
      let low = v.position_pos l l_ok in
      record {
        fits = v.fits;
        size = v.size;
        cell_value = λ r lo hi. ground (arith, v.cell_value r);
        cell_lbn = λ r lo hi. ground (arith, v.cell_lbn r);
        cell_position = λ r lo hi. ground (arith, v.cell_position r);
        position_pos = v.position_pos;
        position_le = v.position_le;
        position_cell = λ k h. ground (arith, v.position_pos k, v.position_cell k);
      }

  pub written-Shows : Shows m b l x (in_heap b l) (written b (b.positions l) x)
  written-Shows = record {
    value_is = λ k h.
        ground (arith, v.position_pos k, v.position_pos l, v.position_cell k, v.position_cell l);
    heap_is = λ k h. ground arith;
    size_is = ground arith;
  }

-- A smaller value is written, and the heap is in order again.
put_lower-Changes :
    (m : ℕ) (b : BankHeap)
    → IsValid m b
    → (l : ℕ) → l < m
    → (x : ℕ) → x ≤ block_value b l
    → Yields
        (Changes m b l x (in_heap b l))
        (put_lower m b (b.positions l) (record (at b (b.positions l)) { value = x }))
unfolding put_lower
put_lower-Changes m b valid l l_ok x lower =
    let v = valid.indexed in
    let low = v.position_pos l l_ok in
    let x_ok : x < 2 ^ 16 =
      omega (arith, v.cell_value (b.positions l) low (v.position_le l l_ok)) in
    let w = written-IsIndexed m b v l l_ok x x_ok in
    let s = written-Shows m b v l l_ok x x_ok in
    rw (set_heap_el-ok m b v l l_ok x x_ok, u16-small (b.positions l) (position-small m b v l l_ok))
      (Yields-test (leb (b.positions l) b.n_el)
        (λ inside.
          Yields-weaken (λ c t. Changes-Sifted c s t)
            (bubble_up-Sifted m (written b (b.positions l) x) (b.positions l) w (record {
              low = low;
              inside = ground arith;
              edges = λ c lo hi ne. ground (arith, valid.heap c);
              bridged = λ c lo hi e h. ground (arith, valid.heap c, valid.heap (b.positions l));
            })))
        (λ outside. yields (record {
          valid = record { indexed = w; heap = λ c lo hi. ground (arith, valid.heap c) };
          shows = s;
        })))

module _ (m : ℕ) (b : BankHeap) (valid : IsValid m b) (l : ℕ) (l_ok : l < m) where
  -- Decrementing the count of a block with valid chunks takes one off it and changes nothing else.
  pub decrement_in_bank-Changes :
      0 < block_value b l
      → Yields (Changes m b l (block_value b l - 1) (in_heap b l)) (decrement_in_bank m b l)
  unfolding decrement_in_bank
  decrement_in_bank-Changes some_left =
      let v = valid.indexed in
      rw (checked_position-ok m b v l l_ok, checked_el-ok m b v l l_ok)
        (Yields-test (block_value b l == 0) (λ none_left. absurd (ground arith))
          (λ _. put_lower-Changes m b valid l l_ok (block_value b l - 1) (omega arith)))

  pub decrement_in_bank-zero : block_value b l ≡ 0 → decrement_in_bank m b l ≡ hang
  unfolding decrement_in_bank
  decrement_in_bank-zero none_left =
      let v = valid.indexed in
      rw (checked_position-ok m b v l l_ok, checked_el-ok m b v l l_ok) (ground arith)

  pub decrement_by_n_in_bank-Changes :
      (n : ℕ)
      → 0 < block_value b l
      → n ≤ block_value b l
      → Yields (Changes m b l (block_value b l - n) (in_heap b l)) (decrement_by_n_in_bank m b l n)
  unfolding decrement_by_n_in_bank
  decrement_by_n_in_bank-Changes n some_left enough =
      let v = valid.indexed in
      let small = v.cell_value (b.positions l) (v.position_pos l l_ok) (v.position_le l l_ok) in
      let exact : u16 (sub32 (block_value b l) (u16 n)) ≡ block_value b l - n = omega arith in
      rw (checked_position-ok m b v l l_ok, checked_el-ok m b v l l_ok, exact)
        (Yields-test (block_value b l == 0) (λ none_left. absurd (ground arith))
          (λ _. put_lower-Changes m b valid l l_ok (block_value b l - n) (omega arith)))

  set_aside-Changes :
      (x : ℕ)
      → x < 2 ^ 16
      → in_heap b l ≡ false
      → Changes m b l x false (written b (b.positions l) x)
  set_aside-Changes x x_ok outside =
      let v = valid.indexed in
      let s = written-Shows m b v l l_ok x x_ok in
      record {
        valid = record {
          indexed = written-IsIndexed m b v l l_ok x x_ok;
          heap = λ c lo hi. ground (arith, valid.heap c);
        };
        shows = record {
          value_is = s.value_is;
          heap_is = λ k h. ground arith;
          size_is = ground arith;
        };
      }

  pub set_in_bank-Changes :
      (x : ℕ)
      → x < 2 ^ 16
      → in_heap b l ≡ false
      → Yields (Changes m b l x false) (set_in_bank m b l x)
  unfolding set_in_bank
  set_in_bank-Changes x x_ok outside =
      let v = valid.indexed in
      let s = written-Shows m b v l l_ok x x_ok in
      rw
        (
          checked_position-ok m b v l l_ok,
          outside,
          checked_el-ok m b v l l_ok,
          u16-small x x_ok,
          set_heap_el-ok m b v l l_ok x x_ok,
        )
        (yields (set_aside-Changes x x_ok outside))

  -- A count above 0 that is smaller than `n` wraps around: the test against 0 does not stop it.
  pub decrement_by_n_in_bank-wraps :
      (n : ℕ)
      → 0 < block_value b l
      → block_value b l < n
      → n < 2 ^ 16
      → in_heap b l ≡ false
      → Yields (Changes m b l (block_value b l + 2 ^ 16 - n) false) (decrement_by_n_in_bank m b l n)
  unfolding decrement_by_n_in_bank put_lower
  decrement_by_n_in_bank-wraps n some_left short n_ok outside =
      let v = valid.indexed in
      let x = block_value b l + 2 ^ 16 - n in
      let x_ok : x < 2 ^ 16 = omega arith in
      let wrapped : u16 (sub32 (block_value b l) (u16 n)) ≡ x = omega arith in
      rw
        (
          checked_position-ok m b v l l_ok,
          checked_el-ok m b v l l_ok,
          wrapped,
          set_heap_el-ok m b v l l_ok x x_ok,
          outside,
        )
        (Yields-test (block_value b l == 0) (λ none_left. absurd (ground arith))
          (λ _. yields (set_aside-Changes x x_ok outside)))
