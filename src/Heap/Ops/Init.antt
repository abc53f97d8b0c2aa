-- ===== src/Heap/Ops/Init.antt =====
-- ValidChunksHeapInit of ftl_seal/heap.c on a bank.
use msst2015_ftl.Base.{
  ℕ, zero, suc, ◌+◌, ◌-◌, ◌^◌, ◌≤◌, ◌<◌, ◌≡◌, refl, arith, false, ◌==◌, lt→ltb, ge→ltb, u16-small,
}
use msst2015_ftl.Base.Run.{Yields, yields, Yields-step}
use msst2015_ftl.Params.{log_blk_per_bank}
use msst2015_ftl.Heap.Defs.{BankHeap, write_position, set_heap_el}
use msst2015_ftl.Heap.Sift.Order.{block_value, in_heap}
use msst2015_ftl.Heap.Ops.{init_blocks, init_bank}
use msst2015_ftl.Heap.Ops.Spec.{IsValid}

-- A valid bank whose blocks are all set aside, with the count `x`.
pub record IsFresh (m x : ℕ) (b : BankHeap) : Type 0 where
  pub valid : IsValid m b
  pub value_is : (k : ℕ) → k < m → block_value b k ≡ x
  pub heap_is : (k : ℕ) → k < m → in_heap b k ≡ false
  pub empty : b.n_el ≡ 0

-- Blocks 0 .. i - 1 have their element in their own place.
record InPlace (i x : ℕ) (b : BankHeap) : Type 0 where
  lbn_is : (k : ℕ) → k < i → (b.cells k).lbn ≡ k
  cell_is : (k : ℕ) → k < i → (b.cells k).value ≡ x
  position_is : (k : ℕ) → k < i → b.positions k ≡ k + 1

init_blocks-InPlace :
    (rounds m i x : ℕ) (b : BankHeap)
    → i + rounds ≡ m
    → m ≤ log_blk_per_bank
    → x < 2 ^ 16
    → InPlace i x b
    → Yields (InPlace m x) (init_blocks rounds m i x b)
unfolding init_blocks write_position set_heap_el
init_blocks-InPlace zero m i x b e fits x_ok p =
    let done : i ≡ m = omega arith in
    yields (record {
      lbn_is = λ k h. p.lbn_is k (omega arith);
      cell_is = λ k h. p.cell_is k (omega arith);
      position_is = λ k h. p.position_is k (omega arith);
    })
init_blocks-InPlace (suc rounds) m i x b e fits x_ok p =
    let here : i < log_blk_per_bank = omega arith in
    rw
      (
        u16-small (i + 1) (omega arith),
        u16-small i (omega arith),
        u16-small x x_ok,
        lt→ltb i log_blk_per_bank here,
        ge→ltb m (i + 1) (omega arith),
        not_first,
      )
      (init_blocks-InPlace rounds m (i + 1) x _ (omega arith) fits x_ok (record {
        lbn_is = λ k h. ground (arith, p.lbn_is k);
        cell_is = λ k h. ground (arith, p.cell_is k);
        position_is = λ k h. ground (arith, p.position_is k);
      }))
  where
    not_first : (i + 1 == 0) ≡ false
    not_first = ground arith

pub init_bank-IsFresh :
    (m x : ℕ) (b : BankHeap)
    → m ≤ log_blk_per_bank
    → x < 2 ^ 16
    → Yields (IsFresh m x) (init_bank m x b)
unfolding init_bank
init_bank-IsFresh m x b fits x_ok =
    Yields-step _
      (init_blocks-InPlace m m 0 x b (omega arith) fits x_ok
        (record { lbn_is = omega arith; cell_is = omega arith; position_is = omega arith }))
      λ c p. yields (record {
        valid = record {
          indexed = record {
            fits = fits;
            size = omega arith;
            cell_value = λ r lo hi. omega (arith, p.cell_is (r - 1));
            cell_lbn = λ r lo hi. omega (arith, p.lbn_is (r - 1));
            cell_position = λ r lo hi.
                rw (p.lbn_is (r - 1) (omega arith)) (omega (arith, p.position_is (r - 1)));
            position_pos = λ l h. omega (arith, p.position_is l);
            position_le = λ l h. omega (arith, p.position_is l);
            position_cell = λ l h. rw (p.position_is l h) (ground (arith, p.lbn_is l));
          };
          heap = λ r lo hi. absurd (omega arith);
        };
        value_is = λ k h. ground (arith, p.position_is k, p.cell_is k);
        heap_is = λ k h. ground (arith, p.position_is k);
        empty = refl;
      })
