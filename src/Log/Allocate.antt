-- ===== src/Log/Allocate.antt =====
-- How the steps of ftl_seal/log.c get a new log block from the clean list.
use msst2015_ftl.Base.{
  ℕ, ◌*◌, ◌<◌, ◌≡◌, refl, arith, false, update, update_self, invalid, List, ◌∷◌, length, ap, ◌∙◌,
}
use msst2015_ftl.Base.Run.{Run, ok, Yields, yields, Yields-step}
use msst2015_ftl.Params.{num_banks, pages_per_blk, log_blk_per_bank}
use msst2015_ftl.CleanList.Queue.{HasQueues}
use msst2015_ftl.CleanList.Pop.{clean_list_pop-HasQueues, clean_list_size-length}
use msst2015_ftl.State.{Ftl, SwCtrlBlock}
use msst2015_ftl.Log.{pop_clean, few_clean, set_sw}
use msst2015_ftl.Log.Steps.{free_blocks, get_sw_lpn}

-- The clean blocks of the banks.
abbrev pub IsClean : ℕ → ℕ → Ftl → (ℕ → List ℕ) → Type 0
IsClean start num s q = HasQueues start num s.clean_lists q

module _ (collect : Ftl → ℕ → Run Ftl) (start num : ℕ) (s : Ftl) (q : ℕ → List ℕ)
    (h : IsClean start num s q) (bank : ℕ) (bank_ok : bank < num_banks) where
  -- The first page of the first clean block, and the rest of the clean blocks.
  pop_clean-first :
      (x : ℕ) (xs : List ℕ)
      → x < log_blk_per_bank
      → q bank ≡ x ∷ xs
      → Yields
          (λ r. (r.0 ≡ x * pages_per_blk) × IsClean start num r.1 (update q bank xs))
          (pop_clean s bank)
  unfolding pop_clean
  pop_clean-first x xs x_ok some =
      Yields-step _ (clean_list_pop-HasQueues start num s.clean_lists q h bank bank_ok x xs some)
        λ r c. yields (let e = c.0 in omega arith, c.1)

  free_blocks-ready : few_clean s bank ≡ false → free_blocks collect 10 s bank ≡ ok s
  unfolding free_blocks
  free_blocks-ready enough = rw enough refl

  -- With no SW block and at least two clean blocks, getSWLpn takes the first clean block off the list,
  -- without a collection, and its first page is the SW page.
  pub get_sw_lpn-first :
      (x y : ℕ) (xs : List ℕ)
      → x < log_blk_per_bank
      → (s.sw_ctrl bank).log_lpn ≡ invalid
      → q bank ≡ x ∷ y ∷ xs
      → Yields
          (λ r.
            (r.0 ≡ x * pages_per_blk)
            × ((r.1.sw_ctrl bank).log_lpn ≡ x * pages_per_blk)
            × IsClean start num r.1 (update q bank (y ∷ xs)))
          (get_sw_lpn collect s bank)
  unfolding get_sw_lpn length set_sw
  get_sw_lpn-first x y xs x_ok none two =
      let size = (clean_list_size-length start num s.clean_lists q h bank bank_ok).0 in
      let len = ap length two in
      let enough : few_clean s bank ≡ false = ground (arith, size, len) in
      rw (none, free_blocks-ready enough)
        (Yields-step _ (pop_clean-first x (y ∷ xs) x_ok two) λ r t. yields (
          t.0,
          ap (λ (w : SwCtrlBlock). w.log_lpn)
                (update_self r.1.sw_ctrl bank
                  (record (r.1.sw_ctrl bank) { log_lpn = r.0; next_data_lpn = invalid }))
              ∙ t.0,
          t.1,
        ))
