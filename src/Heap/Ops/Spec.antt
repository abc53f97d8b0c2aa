-- ===== src/Heap/Ops/Spec.antt =====
-- What ftl_seal/heap.c promises of the heap of a bank.
use msst2015_ftl.Base.{ℕ, ◌+◌, ◌<◌, ◌≡◌, ◌∙◌, Bool, ◌==◌, if◌then◌else◌}
use msst2015_ftl.Heap.Defs.{BankHeap}
use msst2015_ftl.Heap.Sift.Swap.{IsIndexed}
use msst2015_ftl.Heap.Sift.Order.{IsHeap, Sifted, block_value, in_heap}

-- The invariant of the heap of a bank with blocks 0 .. m - 1.
pub record IsValid (m : ℕ) (b : BankHeap) : Type 0 where
  pub indexed : IsIndexed m b
  pub heap : IsHeap b

abbrev pub one_if : Bool → ℕ
one_if b = if b then 1 else 0

-- In `c` block `l` has the value `value`, and is in the heap as `member` says; the other blocks have
-- what they have in `b`. The heap grows or shrinks accordingly. Its positions are left open.
pub record Shows (m : ℕ) (b : BankHeap) (l value : ℕ) (member : Bool) (c : BankHeap) : Type 0 where
  pub value_is : (k : ℕ) → k < m → block_value c k ≡ (if l == k then value else block_value b k)
  pub heap_is : (k : ℕ) → k < m → in_heap c k ≡ (if l == k then member else in_heap b k)
  pub size_is : c.n_el + one_if (in_heap b l) ≡ b.n_el + one_if member

pub record Changes (m : ℕ) (b : BankHeap) (l value : ℕ) (member : Bool) (c : BankHeap)
    : Type 0 where
  pub valid : IsValid m c
  pub shows : Shows m b l value member c

-- Sifting finishes a change.
pub Changes-Sifted :
    {m : ℕ} {b : BankHeap} {l value : ℕ} {member : Bool} {a : BankHeap} (c : BankHeap)
    → Shows m b l value member a
    → Sifted m a c
    → Changes m b l value member c
Changes-Sifted c s t = record {
  valid = record { indexed = t.indexed; heap = t.heap };
  shows = record {
    value_is = λ k h. t.same.value_same k h ∙ s.value_is k h;
    heap_is = λ k h. t.same.heap_same k h ∙ s.heap_is k h;
    size_is = rw (t.same.n_same) s.size_is;
  };
}
