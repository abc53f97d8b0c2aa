-- ===== src/Heap/Ops/Data/Start.antt =====
-- ValidChunksHeapInit of ftl_seal/heap.c for all banks.
use msst2015_ftl.Base.{ℕ, zero, suc, ◌+◌, ◌^◌, ◌≤◌, ◌<◌, ◌≡◌, refl, arith, update-keeps}
use msst2015_ftl.Base.Run.{Yields, yields, Yields-step}
use msst2015_ftl.Params.{num_banks, log_blk_per_bank}
use msst2015_ftl.Heap.Defs.{HeapData}
use msst2015_ftl.Heap.Ops.{on_bank, init_bank, init_banks, valid_chunks_heap_init}
use msst2015_ftl.Heap.Ops.Init.{IsFresh, init_bank-IsFresh}

-- The banks below `n` are fresh, and the parameters are those given.
pub record IsStarted (n m first x : ℕ) (d : HeapData) : Type 0 where
  pub size_is : d.log_blks_per_bank ≡ m
  pub first_is : d.first_lbn ≡ first
  pub fresh : (bank : ℕ) → bank < n → IsFresh m x (d.banks bank)

module _ (m first x : ℕ) (fits : m ≤ log_blk_per_bank) (x_ok : x < 2 ^ 16) where
  step :
      (bank : ℕ) (d : HeapData)
      → IsStarted bank m first x d
      → Yields (IsStarted (bank + 1) m first x) (on_bank d bank (init_bank d.log_blks_per_bank x))
  unfolding on_bank
  step bank d s = rw s.size_is (
      Yields-step _ (init_bank-IsFresh m x (d.banks bank) fits x_ok) λ b f. yields (record {
        size_is = refl;
        first_is = s.first_is;
        fresh =
            λ k h. update-keeps (IsFresh m x) d.banks bank b k f λ other. s.fresh k (omega arith);
      }))

  init_banks-IsStarted :
      (rounds bank : ℕ) (d : HeapData)
      → bank + rounds ≡ num_banks
      → IsStarted bank m first x d
      → Yields (IsStarted num_banks m first x) (init_banks rounds bank x d)
  unfolding init_banks
  init_banks-IsStarted zero bank d e s = yields (record {
    size_is = s.size_is;
    first_is = s.first_is;
    fresh = λ k h. s.fresh k (omega arith);
  })
  init_banks-IsStarted (suc rounds) bank d total s =
      Yields-step _ (step bank d s)
        λ e' s'. init_banks-IsStarted rounds (bank + 1) e' (omega arith) s'

  -- ValidChunksHeapInit with a count that fits a UINT16 leaves every bank with a valid, empty heap
  -- and all its blocks set aside with that count, and the data with the parameters given.
  pub valid_chunks_heap_init-IsStarted :
      (d : HeapData) → Yields (IsStarted num_banks m first x) (valid_chunks_heap_init d m first x)
  unfolding valid_chunks_heap_init
  valid_chunks_heap_init-IsStarted d =
      init_banks-IsStarted num_banks 0 _ refl
        (record { size_is = refl; first_is = refl; fresh = λ k h. absurd (omega arith) })
