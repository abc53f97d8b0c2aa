-- ===== src/Heap/Sift/Order.antt =====
-- The order of the heap, and what sifting keeps.
use msst2015_ftl.Base.{ℕ, zero, suc, ◌/◌, ◌≤◌, ◌<◌, ◌≡◌, ◌∙◌, Bool, leb, arith}
use msst2015_ftl.Base.Run.{Run, Yields, Yields-weaken}
use msst2015_ftl.Heap.Defs.{BankHeap}
use msst2015_ftl.Heap.Sift.Swap.{at, IsIndexed, swapped, swapped_value}

-- No element of the heap is below its father.
abbrev pub IsHeap : BankHeap → Type 0
IsHeap b = (c : ℕ) → 1 < c → c ≤ b.n_el → (at b (c / 2)).value ≤ (at b c).value

-- The number of valid chunks that is kept for a block.
abbrev pub block_value : BankHeap → ℕ → ℕ
block_value b l = (at b (b.positions l)).value

abbrev pub in_heap : BankHeap → ℕ → Bool
in_heap b l = leb (b.positions l) b.n_el

-- What the rest of the firmware sees of a bank is the same in `a` and `b`.
pub record SameBlocks (m : ℕ) (a b : BankHeap) : Type 0 where
  pub n_same : b.n_el ≡ a.n_el
  pub value_same : (l : ℕ) → l < m → block_value b l ≡ block_value a l
  pub heap_same : (l : ℕ) → l < m → in_heap b l ≡ in_heap a l

pub SameBlocks-trans :
    {m : ℕ} {a b c : BankHeap} → SameBlocks m a b → SameBlocks m b c → SameBlocks m a c
SameBlocks-trans s t = record {
  n_same = t.n_same ∙ s.n_same;
  value_same = λ l h. t.value_same l h ∙ s.value_same l h;
  heap_same = λ l h. t.heap_same l h ∙ s.heap_same l h;
}

pub SameBlocks-refl : (m : ℕ) (a : BankHeap) → SameBlocks m a a
SameBlocks-refl m a = record {
  n_same = omega arith;
  value_same = λ l h. omega arith;
  heap_same = λ l h. cc;
}

-- `b` is an ordered heap of the blocks of `a`.
pub record Sifted (m : ℕ) (a b : BankHeap) : Type 0 where
  pub indexed : IsIndexed m b
  pub heap : IsHeap b
  pub same : SameBlocks m a b

pub swapped-SameBlocks :
    (m : ℕ) (b : BankHeap) (v : IsIndexed m b) (p q : ℕ)
    → 0 < p
    → p ≤ b.n_el
    → 0 < q
    → q ≤ b.n_el
    → SameBlocks m b (swapped b p q)
swapped-SameBlocks m b v p q p_pos p_le q_pos q_le =
    let size = v.size in
    record {
      n_same = omega arith;
      value_same = swapped_value m b v p q p_pos (omega arith) q_pos (omega arith);
      heap_same = λ l h. ground (arith, v.position_cell l, v.cell_position p, v.cell_position q);
    }

pub Sifted-after :
    {m : ℕ} {a b : BankHeap} {r : Run BankHeap}
    → SameBlocks m a b
    → Yields (Sifted m b) r
    → Yields (Sifted m a) r
Sifted-after s =
    Yields-weaken
      λ c t. record { indexed = t.indexed; heap = t.heap; same = SameBlocks-trans s t.same }

root_least_below :
    (k : ℕ) (b : BankHeap) (p : ℕ)
    → IsHeap b
    → p < k
    → 0 < p
    → p ≤ b.n_el
    → (at b 1).value ≤ (at b p).value
root_least_below zero b p h f lo hi = absurd (omega arith)
root_least_below (suc k) b (suc zero) h f lo hi = omega arith
root_least_below (suc k) b (suc (suc p)) h f lo hi =
    omega (arith, h (suc (suc p)), root_least_below k b (suc (suc p) / 2) h)
root_least_below (suc k) b zero h f lo hi = absurd (omega arith)

pub root_least :
    (b : BankHeap) (p : ℕ) → IsHeap b → 0 < p → p ≤ b.n_el → (at b 1).value ≤ (at b p).value
root_least b p h lo hi = root_least_below (suc p) b p h (omega arith) lo hi
