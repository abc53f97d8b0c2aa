-- ===== src/Collect/Empty.antt =====
-- A collection of a block without valid chunks (garbageCollectLog of ftl_seal/garbage_collection.c), as
-- backgroundCleaning of ftl_seal/ftl.c starts it.
use msst2015_ftl.Base.{
  ℕ, ◌+◌, ◌-◌, ◌<◌, ◌≤◌, ◌≡◌, refl, ap, subst, ◌∙◌, arith, true, false, ltb, ◌==◌, ◌||◌, List, [],
  ◌∷◌, ◌++◌, length, length-snoc, ◌≢◌, ◌⊎◌, if◌then◌else◌, occurrences, occurrences-snoc, update,
  update_self, u8, u32,
}
use msst2015_ftl.Base.Run.{Run, ok, Yields, yields, Yields-bind, Yields-step, ◌>>=◌}
use msst2015_ftl.Params.{num_banks, chunks_per_log_blk, log_blk_per_bank}
use msst2015_ftl.Heap.Defs.{HeapData}
use msst2015_ftl.Heap.Ops.{get_victim, get_victim_valid_pages_number, reset_valid_chunks_and_remove}
use msst2015_ftl.Heap.Ops.Data.{IsValidData, ChangesBlock}
use msst2015_ftl.Heap.Ops.Data.Victim.{
  IsVictim, victim, victim-IsVictim, get_victim-root, reset_victim,
}
use msst2015_ftl.CleanList.Queue.{HasQueues}
use msst2015_ftl.CleanList.{ListData, clean_list_size}
use msst2015_ftl.CleanList.Pop.{clean_list_size-length}
use msst2015_ftl.Log.Steps.{free_blocks}
use msst2015_ftl.Log.{few_clean}
use msst2015_ftl.Blocks.Recycle.{HasBlocks, recycle_victim-HasBlocks}
use msst2015_ftl.CleanList.Push.{clean_list_push-HasQueues}
use msst2015_ftl.Blocks.{get_log_vbn, recycle_victim}
use msst2015_ftl.State.{Ftl}
use msst2015_ftl.Memory.{nand_block_erase}
use msst2015_ftl.Collect.{free_victim, leave, collect_pages, choose_victim, garbage_collect_log}

-- The virtual blocks `q` of the bank are erased.
pub record AreErased (s : Ftl) (bank : ℕ) (q : List ℕ) : Type 0 where
  pub erased : (v page i : ℕ) → 0 < occurrences v q → s.flash bank v page i ≡ 0xff

-- What the collection does: block `lbn` of the heap is clean, with the virtual block `v` behind it, and
-- its old virtual block is erased and the last of the free ones.
pub record Frees (start num : ℕ) (s : Ftl) (q : ℕ → List ℕ) (bank v : ℕ) (vs : List ℕ) (s' : Ftl)
    : Type 0 where
  pub lbn : ℕ
  pub chosen : IsVictim s.heap_write bank lbn
  pub out_of_heap : ChangesBlock s.heap_write bank lbn chunks_per_log_blk false s'.heap_write
  pub clean : HasQueues start num s'.clean_lists (update q bank (q bank ++ (u32 lbn ∷ [])))
  pub behind :
      (l : ℕ)
      → l < log_blk_per_bank
      → get_log_vbn s'.blocks bank l ≡ (if lbn == l then v else get_log_vbn s.blocks bank l)
  pub distinct : HasBlocks s'.blocks bank (vs ++ (get_log_vbn s.blocks bank lbn ∷ []))
  pub new_erased : (page i : ℕ) → s'.flash bank v page i ≡ 0xff
  pub free_erased : AreErased s' bank (vs ++ (get_log_vbn s.blocks bank lbn ∷ []))
  pub flash_same :
      (b u page i : ℕ)
      → (b ≢ bank) ⊎ (u ≢ get_log_vbn s.blocks bank lbn)
      → (s'.flash b u page i ≡ s.flash b u page i)
        × (s'.flash_lists b u page i ≡ s.flash_lists b u page i)
  pub left : (b : ℕ) → s'.gc_nest_level b ≡ s.gc_nest_level b
  pub rest_same : s' ≡ record s {
    heap_write = s'.heap_write;
    clean_lists = s'.clean_lists;
    blocks = s'.blocks;
    gc_nest_level = s'.gc_nest_level;
    flash = s'.flash;
    flash_lists = s'.flash_lists;
  }

module _ (start num : ℕ) (s : Ftl) (q : ℕ → List ℕ) (bank : ℕ) (bank_ok : bank < num_banks)
    (valid : IsValidData s.heap_write) (first : s.heap_write.first_lbn ≡ 0)
    (blocks_ok : s.heap_write.log_blks_per_bank ≤ log_blk_per_bank)
    (nonempty : 0 < (s.heap_write.banks bank).n_el) (h : HasQueues start num s.clean_lists q)
    (room : length (q bank) < num) (v : ℕ) (vs : List ℕ) (has : HasBlocks s.blocks bank (v ∷ vs))
    (fresh : AreErased s bank (v ∷ vs)) (inside : s.gc_nest_level bank < 2) where
  abbrev entered : Ftl
  entered = record s { gc_nest_level = update s.gc_nest_level bank (u8 (s.gc_nest_level bank + 1)) }

  abbrev lbn_of : ℕ
  lbn_of = victim s.heap_write valid bank bank_ok nonempty

  abbrev vbn_of : ℕ
  vbn_of = get_log_vbn s.blocks bank lbn_of

  lbn_ok : lbn_of < log_blk_per_bank
  lbn_ok =
      let chosen = victim-IsVictim s.heap_write valid bank bank_ok nonempty in
      omega (arith, chosen.inside)

  left_level :
      (b : ℕ)
      → update entered.gc_nest_level bank (u8 (entered.gc_nest_level bank + 255)) b
        ≡ s.gc_nest_level b
  left_level b = ground (arith, inside)

  -- A block that is erased stays so when another one is erased, and the other one is too.
  still_erased :
      (s' : Ftl)
      → ((u page i : ℕ)
          → s'.flash bank u page i ≡ (if u == vbn_of then 0xff else s.flash bank u page i))
      → AreErased s' bank (vs ++ (vbn_of ∷ []))
  unfolding occurrences
  still_erased s' e = record {
    erased = λ u page i some.
        let n = occurrences-snoc u vs vbn_of in
        let old = fresh.erased u page i in ground (arith, e u page i, n, some, old);
  }

  freed :
      (heap : HeapData)
      → ChangesBlock s.heap_write bank lbn_of chunks_per_log_blk false heap
      → Yields (Frees start num s q bank v vs) (
          free_victim
            (record entered { heap_write = heap })
            bank
            lbn_of
            (get_log_vbn s.blocks bank lbn_of)
          >>= λ s'. ok (leave s' bank))
  unfolding free_victim nand_block_erase recycle_victim leave occurrences
  freed heap changes =
      let swapped = recycle_victim-HasBlocks s.blocks bank v vs bank_ok has lbn_of lbn_ok in
      let erased : Ftl =
        nand_block_erase
          (record entered { heap_write = heap; blocks = (recycle_victim s.blocks bank lbn_of).1 })
          bank vbn_of in
      let done : ListData → Ftl = λ l. leave (record erased { clean_lists = l }) bank in
      Yields-bind _ _
        (clean_list_push-HasQueues start num s.clean_lists q h bank bank_ok lbn_of room)
        λ l pushed.
          let flash_is : (u page i : ℕ)
              → (done l).flash bank u page i
                ≡ (if u == vbn_of then 0xff else s.flash bank u page i) =
            λ u page i. ground arith in
          let f : Frees start num s q bank v vs (done l) = record {
            lbn = lbn_of;
            chosen = victim-IsVictim s.heap_write valid bank bank_ok nonempty;
            out_of_heap = changes;
            clean = pushed;
            behind = swapped.1;
            distinct = swapped.2;
            new_erased =
                λ page i. let old = fresh.erased v page i in ground (arith, flash_is v page i, old);
            free_erased = still_erased (done l) flash_is;
            flash_same = λ b u page i other. (ground (arith, other), ground (arith, other));
            left = left_level;
            rest_same = refl;
          } in
          yields f

  pub garbage_collect_log-Frees :
      (collect : Ftl → ℕ → Run Ftl) (n_ow : ℕ)
      → get_victim_valid_pages_number s.heap_write bank ≡ ok 0
      → get_victim_valid_pages_number s.heap_overwrite bank ≡ ok n_ow
      → 504 ≤ n_ow
      → Yields (Frees start num s q bank v vs) (garbage_collect_log collect s bank)
  unfolding garbage_collect_log choose_victim collect_pages
  garbage_collect_log-Frees collect n_ow none ow enough =
      let open_nest : ((u8 (s.gc_nest_level bank + 1) == 0)
            || ltb 2 (u8 (s.gc_nest_level bank + 1)))
          ≡ false =
        ground (arith, inside) in
      let plausible : ltb n_ow 504 ≡ false = ground (arith, enough) in
      let better : ltb (n_ow - 504) 0 ≡ false = ground arith in
      let number : s.heap_write.first_lbn + lbn_of ≡ lbn_of = omega (arith, first) in
      let chosen : get_victim s.heap_write bank ≡ ok lbn_of =
        get_victim-root s.heap_write valid bank bank_ok nonempty ∙ ap (λ n. ok n) number in
      let reset =
        subst
          (λ n.
            Yields (ChangesBlock s.heap_write bank lbn_of chunks_per_log_blk false)
              (reset_valid_chunks_and_remove s.heap_write bank n chunks_per_log_blk))
          number
          (reset_victim s.heap_write valid bank bank_ok nonempty chunks_per_log_blk
            (omega arith)) in
      rw (open_nest, none, ow, plausible, better, chosen)
        (Yields-bind _ _ reset λ heap changes. freed heap changes)

  -- The loop that waits for two clean blocks, with garbageCollectLog as its collector, when one clean
  -- block is left in the bank and under the conditions of garbage_collect_log-Frees: it ends after one
  -- collection, which has freed the victim, with two clean blocks.
  pub free_blocks-Frees :
      (collect : Ftl → ℕ → Run Ftl) (n_ow : ℕ)
      → get_victim_valid_pages_number s.heap_write bank ≡ ok 0
      → get_victim_valid_pages_number s.heap_overwrite bank ≡ ok n_ow
      → 504 ≤ n_ow
      → length (q bank) ≡ 1
      → Yields
          (λ s'. Frees start num s q bank v vs s' × (clean_list_size s'.clean_lists bank ≡ 2))
          (free_blocks (garbage_collect_log collect) 10 s bank)
  unfolding free_blocks
  free_blocks-Frees collect n_ow none ow enough one =
      let size = (clean_list_size-length start num s.clean_lists q h bank bank_ok).0 in
      let few : few_clean s bank ≡ true = ground (arith, size, one) in
      rw few (
        Yields-step _ (garbage_collect_log-Frees collect n_ow none ow enough) λ s' f.
          let longer =
            (clean_list_size-length start num s'.clean_lists _ f.clean bank bank_ok).0
            ∙ ap length (update_self q bank (q bank ++ (u32 f.lbn ∷ [])))
            ∙ length-snoc (q bank) (u32 f.lbn)
            ∙ ap (λ n. n + 1) one in
          let many : few_clean s' bank ≡ false = ground (arith, longer) in
          rw many (yields (f, longer)))
