-- ===== src/Heap/Ops/Data.antt =====
-- The operations of ftl_seal/heap.c on the data of all banks, and the victim.
pub mod Victim
pub mod Start
use msst2015_ftl.Base.{
  ℕ, zero, suc, ◌+◌, ◌-◌, ◌^◌, ◌≤◌, ◌<◌, ◌≡◌, ◌≢◌, refl, arith, Bool, true, false, ◌==◌,
  if◌then◌else◌, update_self, update-ne, update-keeps, u16,
}
use msst2015_ftl.Base.Run.{Run, hang, Yields, yields, Yields-step}
use msst2015_ftl.Params.{num_banks, log_blk_per_bank}
use msst2015_ftl.Heap.Defs.{BankHeap, HeapData}
use msst2015_ftl.Heap.Sift.Order.{block_value, in_heap}
use msst2015_ftl.Heap.Ops.{
  to_log_lbn, on_bank, decrement_valid_chunks, decrement_valid_chunks_by_n, set_valid_chunks,
  insert_blk_in_heap,
}
use msst2015_ftl.Heap.Ops.Spec.{IsValid, Shows, Changes}
use msst2015_ftl.Heap.Ops.Change.{
  decrement_in_bank-Changes, decrement_in_bank-zero, decrement_by_n_in_bank-wraps,
  decrement_by_n_in_bank-Changes, set_in_bank-Changes,
}
use msst2015_ftl.Heap.Ops.Move.{insert_in_bank-Changes}

-- Every bank is valid, and the numbers of the log blocks fit a UINT16.
pub record IsValidData (d : HeapData) : Type 0 where
  pub every : (bank : ℕ) → bank < num_banks → IsValid d.log_blks_per_bank (d.banks bank)
  pub small : d.first_lbn + d.log_blks_per_bank ≤ 2 ^ 16

-- Between `d` and `e`, only block `l` of a bank changes: to the value `value`, and to being in the
-- heap as `member` says.
pub record ChangesBlock (d : HeapData) (bank l value : ℕ) (member : Bool) (e : HeapData)
    : Type 0 where
  pub valid : IsValidData e
  pub same_size : e.log_blks_per_bank ≡ d.log_blks_per_bank
  pub same_first : e.first_lbn ≡ d.first_lbn
  pub here : Shows d.log_blks_per_bank (d.banks bank) l value member (e.banks bank)
  pub elsewhere : (other : ℕ) → bank ≢ other → e.banks other ≡ d.banks other

pub to_log_lbn-add : (first l : ℕ) → first + l < 2 ^ 16 → to_log_lbn first (first + l) ≡ l
unfolding to_log_lbn
to_log_lbn-add first l h = omega arith

module _ (d : HeapData) (valid : IsValidData d) (bank : ℕ) (bank_ok : bank < num_banks) (l : ℕ)
    (l_ok : l < d.log_blks_per_bank) where
  pub number_ok : to_log_lbn d.first_lbn (d.first_lbn + l) ≡ l
  number_ok = let small = valid.small in to_log_lbn-add d.first_lbn l (omega arith)

  pub on_bank-ChangesBlock :
      (value : ℕ) (member : Bool) (f : BankHeap → Run BankHeap)
      → Yields (Changes d.log_blks_per_bank (d.banks bank) l value member) (f (d.banks bank))
      → Yields (ChangesBlock d bank l value member) (on_bank d bank f)
  unfolding on_bank
  on_bank-ChangesBlock value member f y = Yields-step _ y λ b c. yields (record {
    valid = record {
      every = λ k h.
          update-keeps (IsValid d.log_blks_per_bank) d.banks bank b k c.valid
            (λ _. valid.every k h);
      small = valid.small;
    };
    same_size = refl;
    same_first = refl;
    here = rw (update_self d.banks bank b) c.shows;
    elsewhere = update-ne d.banks bank b;
  })

  -- decrementValidChunks on a log block with valid chunks takes one off its count, in or out of
  -- the heap, restores the order of the heap, and changes nothing else in any bank.
  pub decrement_valid_chunks-ChangesBlock :
      0 < block_value (d.banks bank) l
      → Yields
          (ChangesBlock d bank l (block_value (d.banks bank) l - 1) (in_heap (d.banks bank) l))
          (decrement_valid_chunks d bank (d.first_lbn + l))
  unfolding decrement_valid_chunks
  decrement_valid_chunks-ChangesBlock some_left = rw number_ok (
      on_bank-ChangesBlock _ _ _ (
        decrement_in_bank-Changes d.log_blks_per_bank (d.banks bank) (valid.every bank bank_ok) l
          l_ok some_left))

  -- On a block without valid chunks, decrementValidChunks ends in its endless loop.
  pub decrement_valid_chunks-zero :
      block_value (d.banks bank) l ≡ 0 → decrement_valid_chunks d bank (d.first_lbn + l) ≡ hang
  unfolding decrement_valid_chunks on_bank
  decrement_valid_chunks-zero none_left =
      rw
        (
          number_ok,
          decrement_in_bank-zero d.log_blks_per_bank (d.banks bank) (valid.every bank bank_ok) l
              l_ok none_left,
        )
        refl

  -- decrementValidChunksByN takes `n` off the count of a log block with at least `n` valid chunks,
  -- and at least one, and changes nothing else.
  pub decrement_valid_chunks_by_n-ChangesBlock :
      (n : ℕ)
      → 0 < block_value (d.banks bank) l
      → n ≤ block_value (d.banks bank) l
      → Yields
          (ChangesBlock d bank l (block_value (d.banks bank) l - n) (in_heap (d.banks bank) l))
          (decrement_valid_chunks_by_n d bank (d.first_lbn + l) n)
  unfolding decrement_valid_chunks_by_n
  decrement_valid_chunks_by_n-ChangesBlock n some_left enough = rw number_ok (
      on_bank-ChangesBlock _ _ _ (
        decrement_by_n_in_bank-Changes d.log_blks_per_bank (d.banks bank) (valid.every bank bank_ok)
          l l_ok n some_left enough))

  -- decrementValidChunksByN by more than the count of a log block that is set aside, where that is
  -- not 0, leaves the block with the count wrapped around, and changes nothing else.
  pub decrement_valid_chunks_by_n-wraps :
      (n : ℕ)
      → 0 < block_value (d.banks bank) l
      → block_value (d.banks bank) l < n
      → n < 2 ^ 16
      → in_heap (d.banks bank) l ≡ false
      → Yields
          (ChangesBlock d bank l (block_value (d.banks bank) l + 2 ^ 16 - n) false)
          (decrement_valid_chunks_by_n d bank (d.first_lbn + l) n)
  unfolding decrement_valid_chunks_by_n
  decrement_valid_chunks_by_n-wraps n some_left short n_ok outside = rw number_ok (
      on_bank-ChangesBlock _ _ _ (
        decrement_by_n_in_bank-wraps d.log_blks_per_bank (d.banks bank) (valid.every bank bank_ok) l
          l_ok n some_left short n_ok outside))

  -- setValidChunks gives a log block that is set aside the new count, and changes nothing else.
  pub set_valid_chunks-ChangesBlock :
      (x : ℕ)
      → x < 2 ^ 16
      → in_heap (d.banks bank) l ≡ false
      → Yields (ChangesBlock d bank l x false) (set_valid_chunks d bank (d.first_lbn + l) x)
  unfolding set_valid_chunks
  set_valid_chunks-ChangesBlock x x_ok outside = rw number_ok (
      on_bank-ChangesBlock _ _ _ (
        set_in_bank-Changes d.log_blks_per_bank (d.banks bank) (valid.every bank bank_ok) l l_ok x
          x_ok outside))

  -- insertBlkInHeap takes a log block that is set aside into the heap with the count that is kept
  -- for it, restores the order of the heap, and changes nothing else.
  pub insert_blk_in_heap-ChangesBlock :
      in_heap (d.banks bank) l ≡ false
      → Yields
          (ChangesBlock d bank l (block_value (d.banks bank) l) true)
          (insert_blk_in_heap d bank (d.first_lbn + l))
  unfolding insert_blk_in_heap
  insert_blk_in_heap-ChangesBlock outside = rw number_ok (
      on_bank-ChangesBlock _ _ _ (
        insert_in_bank-Changes d.log_blks_per_bank (d.banks bank) (valid.every bank bank_ok) l l_ok
          outside))
