-- ===== src/Log/Start.antt =====
-- initLog of ftl_seal/log.c: every log block of a bank is clean, and no page is to write next.
use msst2015_ftl.Base.{
  ℕ, zero, suc, ◌+◌, ◌<◌, ◌≤◌, ◌≡◌, ◌≢◌, inl, inr, refl, ap, subst, ◌∙◌, arith, false, ◌==◌,
  Bool-cases, eqb→eq, update, update_self, update-ne, u32, u32-small, invalid, List, [], ◌∷◌, ◌++◌,
  length, length-snoc,
}
use msst2015_ftl.Base.Run.{Run, ok, Yields, yields, Yields-step, ◌>>=◌}
use msst2015_ftl.Params.{num_banks, log_blk_per_bank}
use msst2015_ftl.Layout.{
  clean_list, lpns_buf_base, lpns_in_log_1_addr, lpns_in_log_2_addr, lpns_in_log_3_addr,
}
use msst2015_ftl.CleanList.{ListData, clean_list_init, clean_list_push}
use msst2015_ftl.CleanList.Queue.{HasQueues}
use msst2015_ftl.CleanList.Init.{clean_list_init-HasQueues}
use msst2015_ftl.CleanList.Push.{clean_list_push-HasQueues}
use msst2015_ftl.State.{Ftl}

-- The inner loop, from block `lbn` on.
unfoldable pub push_blocks : ℕ → ListData → ℕ → ℕ → Run ListData
push_blocks zero l bank lbn = ok l
push_blocks (suc rounds) l bank lbn = do
  l' ← clean_list_push l bank lbn
  push_blocks rounds l' bank (lbn + 1)

-- What is assigned for a bank.
unfoldable pub start_bank : Ftl → ℕ → Ftl
start_bank s bank = record s {
  rw_ctrl = update s.rw_ctrl bank (record {
    log_lpn = invalid;
    lpns_list_ptr = lpns_buf_base lpns_in_log_1_addr bank;
    is_ow_blk = false;
  });
  sw_ctrl = update s.sw_ctrl bank (record {
    log_lpn = invalid;
    next_data_lpn = invalid;
    lpns_list_ptr = lpns_buf_base lpns_in_log_2_addr bank;
  });
  ow_ctrl =
      update s.ow_ctrl bank
        (record { log_lpn = invalid; lpns_list_ptr = lpns_buf_base lpns_in_log_3_addr bank });
  chunk_ptr = update s.chunk_ptr bank 0;
  ow_chunk_ptr = update s.ow_chunk_ptr bank 0;
  gc_nest_level = update s.gc_nest_level bank 0;
}

unfoldable pub start_banks : ℕ → Ftl → ℕ → Run Ftl
start_banks zero s bank = ok s
start_banks (suc rounds) s bank = do
  l ← push_blocks log_blk_per_bank s.clean_lists bank 0
  start_banks rounds (start_bank (record s { clean_lists = l }) bank) (bank + 1)

unfoldable pub init_log : Ftl → Run Ftl
init_log s =
    start_banks num_banks
      (record s { clean_lists = clean_list_init s.clean_lists (clean_list 0) log_blk_per_bank }) 0

-- 0, 1, ..., n - 1
unfoldable pub first_numbers : ℕ → List ℕ
first_numbers zero = []
first_numbers (suc n) = first_numbers n ++ (n ∷ [])

first_numbers-length : (n : ℕ) → length (first_numbers n) ≡ n
unfolding first_numbers length
first_numbers-length zero = refl
first_numbers-length (suc n) =
    let next : n + 1 ≡ suc n = omega arith in
    length-snoc (first_numbers n) n ∙ ap (λ m. m + 1) (first_numbers-length n) ∙ next

abbrev pub HasBlocks : ListData → (ℕ → List ℕ) → Type 0
HasBlocks l q = HasQueues (clean_list 0) log_blk_per_bank l q

-- The queue of one bank grows; the others stay.
pub record Pushed (q : ℕ → List ℕ) (bank n : ℕ) (l : ListData) : Type 0 where
  pub queues : ℕ → List ℕ
  pub has : HasBlocks l queues
  pub here : queues bank ≡ first_numbers n
  pub others : (k : ℕ) → bank ≢ k → queues k ≡ q k

push_blocks-Pushed :
    (rounds lbn bank : ℕ) (l : ListData) (q : ℕ → List ℕ)
    → bank < num_banks
    → lbn + rounds ≡ log_blk_per_bank
    → Pushed q bank lbn l
    → Yields (Pushed q bank log_blk_per_bank) (push_blocks rounds l bank lbn)
unfolding push_blocks first_numbers
push_blocks-Pushed zero lbn bank l q bank_ok count p =
    let all : lbn ≡ log_blk_per_bank = omega arith in yields (subst (λ n. Pushed q bank n l) all p)
push_blocks-Pushed (suc rounds) lbn bank l q bank_ok count p =
    let room : length (p.queues bank) < log_blk_per_bank =
      omega (arith, ap (λ x. length x) p.here, first_numbers-length lbn) in
    let next : first_numbers (suc lbn) ≡ first_numbers (lbn + 1) =
      let number : suc lbn ≡ lbn + 1 = omega arith in ap first_numbers number in
    Yields-step _
      (clean_list_push-HasQueues (clean_list 0) log_blk_per_bank l p.queues p.has bank bank_ok lbn
        room)
      λ l' h. push_blocks-Pushed rounds (lbn + 1) bank l' q bank_ok (omega arith) (record {
        queues = update p.queues bank (p.queues bank ++ (u32 lbn ∷ []));
        has = h;
        here =
            update_self p.queues bank (p.queues bank ++ (u32 lbn ∷ []))
            ∙ ap (λ x. x ++ (u32 lbn ∷ [])) p.here
            ∙ ap (λ x. first_numbers lbn ++ (x ∷ [])) (u32-small lbn (omega arith))
            ∙ next;
        others =
            λ k ne. update-ne p.queues bank (p.queues bank ++ (u32 lbn ∷ [])) k ne ∙ p.others k ne;
      })

-- The bank has all its log blocks in the clean list, in order, and no page in a block.
pub record IsStarted (s : Ftl) (q : ℕ → List ℕ) (bank : ℕ) : Type 0 where
  pub all_clean : q bank ≡ first_numbers log_blk_per_bank
  pub no_rw : (s.rw_ctrl bank).log_lpn ≡ invalid
  pub not_sealed : (s.rw_ctrl bank).is_ow_blk ≡ false
  pub no_sw : (s.sw_ctrl bank).log_lpn ≡ invalid
  pub no_next : (s.sw_ctrl bank).next_data_lpn ≡ invalid
  pub no_ow : (s.ow_ctrl bank).log_lpn ≡ invalid
  pub empty_buf : s.chunk_ptr bank ≡ 0
  pub empty_ow_buf : s.ow_chunk_ptr bank ≡ 0
  pub no_collection : s.gc_nest_level bank ≡ 0

-- The banks below `n` are started, and the others have empty lists.
pub record Starts (n : ℕ) (s : Ftl) : Type 0 where
  pub queues : ℕ → List ℕ
  pub has : HasBlocks s.clean_lists queues
  pub started : (bank : ℕ) → bank < n → IsStarted s queues bank
  pub todo : (bank : ℕ) → n ≤ bank → queues bank ≡ []

module _ (s : Ftl) (n : ℕ) (st : Starts n s) (l : ListData)
    (p : Pushed st.queues n log_blk_per_bank l) where
  abbrev next : Ftl
  next = start_bank (record s { clean_lists = l }) n

  this_bank : IsStarted next p.queues n
  unfolding start_bank
  this_bank = record {
    all_clean = p.here;
    no_rw = ap (λ c. c.log_lpn) (update_self s.rw_ctrl n _);
    not_sealed = ap (λ c. c.is_ow_blk) (update_self s.rw_ctrl n _);
    no_sw = ap (λ c. c.log_lpn) (update_self s.sw_ctrl n _);
    no_next = ap (λ c. c.next_data_lpn) (update_self s.sw_ctrl n _);
    no_ow = ap (λ c. c.log_lpn) (update_self s.ow_ctrl n _);
    empty_buf = update_self s.chunk_ptr n 0;
    empty_ow_buf = update_self s.ow_chunk_ptr n 0;
    no_collection = update_self s.gc_nest_level n 0;
  }

  other_bank : (bank : ℕ) → n ≢ bank → bank < n → IsStarted next p.queues bank
  unfolding start_bank
  other_bank bank ne lt =
      let old = st.started bank lt in
      record {
        all_clean = p.others bank ne ∙ old.all_clean;
        no_rw = ap (λ c. c.log_lpn) (update-ne s.rw_ctrl n _ bank ne) ∙ old.no_rw;
        not_sealed = ap (λ c. c.is_ow_blk) (update-ne s.rw_ctrl n _ bank ne) ∙ old.not_sealed;
        no_sw = ap (λ c. c.log_lpn) (update-ne s.sw_ctrl n _ bank ne) ∙ old.no_sw;
        no_next = ap (λ c. c.next_data_lpn) (update-ne s.sw_ctrl n _ bank ne) ∙ old.no_next;
        no_ow = ap (λ c. c.log_lpn) (update-ne s.ow_ctrl n _ bank ne) ∙ old.no_ow;
        empty_buf = update-ne s.chunk_ptr n 0 bank ne ∙ old.empty_buf;
        empty_ow_buf = update-ne s.ow_chunk_ptr n 0 bank ne ∙ old.empty_ow_buf;
        no_collection = update-ne s.gc_nest_level n 0 bank ne ∙ old.no_collection;
      }

  one_more : Starts (n + 1) next
  unfolding start_bank
  one_more = record {
    queues = p.queues;
    has = p.has;
    started = λ bank lt. elim (Bool-cases (n == bank)) [
      | inl eq ↦ subst (IsStarted next p.queues) (eqb→eq n bank eq) this_bank
      | inr ne ↦ other_bank bank (λ e. ground (arith, ne, e)) (ground (arith, ne, lt))
    ];
    todo = λ bank ge. p.others bank (λ e. omega arith) ∙ st.todo bank (omega arith);
  }

start_banks-Starts :
    (rounds n : ℕ) (s : Ftl)
    → n + rounds ≡ num_banks
    → Starts n s
    → Yields (Starts num_banks) (start_banks rounds s n)
unfolding start_banks first_numbers
start_banks-Starts zero n s count st =
    let all : n ≡ num_banks = omega arith in yields (subst (λ x. Starts x s) all st)
start_banks-Starts (suc rounds) n s count st =
    Yields-step _
      (push_blocks-Pushed log_blk_per_bank 0 n s.clean_lists st.queues (omega arith) refl (record {
        queues = st.queues;
        has = st.has;
        here = st.todo n (omega arith);
        others = λ k _. refl;
      }))
      λ l p. start_banks-Starts rounds (n + 1) _ (omega arith) (one_more s n st l p)

-- initLog returns, and leaves every bank with all its log blocks in the clean list, in their order, with
-- no RW, SW or OW block, with empty buffers, and with no collection under way.
pub init_log-Starts : (s : Ftl) → Yields (Starts num_banks) (init_log s)
unfolding init_log clean_list
init_log-Starts s = start_banks-Starts num_banks 0 _ refl (record {
  queues = λ _. [];
  has =
      clean_list_init-HasQueues (clean_list 0) log_blk_per_bank (omega arith) (omega arith)
        s.clean_lists (omega arith) (omega arith);
  started = λ bank lt. absurd (omega arith);
  todo = λ bank _. refl;
})
