-- ===== src/CleanList/Pop.antt =====
-- cleanListPop and cleanListSize
use msst2015_ftl.Base.{
  ℕ, ◌+◌, ◌*◌, ◌<◌, ◌≤◌, ◌≡◌, ◌≢◌, refl, arith, List, [], ◌∷◌, occurrences, length, if◌then◌else◌,
  ◌^◌, update, ◌==◌, ◌∙◌, ◌⊎◌, last, leb, sym, ap, subst, false, occurrences-head, sub32,
}
use msst2015_ftl.Base.Run.{hang, Yields, yields}
use msst2015_ftl.Params.{num_banks, dram_base, dram_size}
use msst2015_ftl.CleanList.{
  BankList, ListData, checked_write, clean_list_pop, clean_list_size, next_at,
}
use msst2015_ftl.CleanList.Chain.{
  node, not_last, IsChain, contents, tail_pointer, IsChain-frame, contents-frame,
}
use msst2015_ftl.CleanList.Queue.{
  HasNodes, HasQueues, bank_base, banks_apart, HasQueues-update, used-lt, length-holds,
}

abbrev popped_words : (ℕ → ℕ) → BankList → ℕ → ℕ
popped_words dram l = update dram (next_at l.clean_list_head) l.clean_list_unused_nodes

abbrev popped_list : (ℕ → ℕ) → BankList → BankList
popped_list dram l = record {
  clean_list_head = dram (next_at l.clean_list_head);
  clean_list_tail = if l.clean_list_head == l.clean_list_tail then 0 else l.clean_list_tail;
  clean_list_unused_nodes = l.clean_list_head;
  size = sub32 l.size 1;
}

tail_after :
    (base u : ℕ) (us : List ℕ)
    → occurrences u (u ∷ us) ≤ 1
    → (if node base u == node base (last u us) then 0 else node base (last u us))
      ≡ tail_pointer base us
unfolding last tail_pointer
tail_after base u [] once = ground arith
tail_after base u (v ∷ vs) once = ground (arith, not_last u v vs once)

module _ (base num : ℕ) (num_ok : num < 2 ^ 32) (u : ℕ) (us free : List ℕ) (dram : ℕ → ℕ)
    (l : BankList) (q : List ℕ) (h : HasNodes base num (u ∷ us) free dram l q) where
  abbrev words : ℕ → ℕ
  words = popped_words dram l

  not_popped : (k : ℕ) → 0 < occurrences k us → k ≢ u
  unfolding occurrences
  not_popped k o e = ground (arith, h.shared k)

  not_free : (k : ℕ) → 0 < occurrences k free → k ≢ u
  unfolding occurrences
  not_free k o e = ground (arith, h.shared k)

  head_is : l.clean_list_head ≡ node base u
  unfolding IsChain
  head_is = h.queued.0

  next_kept : (k : ℕ) → k ≢ u → words (node base k + 4) ≡ dram (node base k + 4)
  next_kept k ne = let e = head_is in ground arith

  lbn_kept : (k : ℕ) → words (node base k) ≡ dram (node base k)
  lbn_kept k = let e = head_is in ground arith

  next_popped : words (node base u + 4) ≡ l.clean_list_unused_nodes
  next_popped = let e = head_is in ground arith

  tail_popped :
      (if l.clean_list_head == l.clean_list_tail then 0 else l.clean_list_tail)
      ≡ tail_pointer base us
  unfolding tail_pointer
  tail_popped = rw (head_is, h.tail_is) (tail_after base u us (ground (arith, h.shared u)))

  pop-HasNodes : HasNodes base num us (u ∷ free) words (popped_list dram l) (contents base dram us)
  unfolding IsChain length occurrences
  pop-HasNodes = record {
    queued =
        subst (λ p. IsChain base words (dram (p + 4)) us) (sym head_is)
          (IsChain-frame base dram words (dram (node base u + 4)) us
            (λ k o. next_kept k (not_popped k o)) h.queued.1);
    tail_is = tail_popped;
    unused = (
      head_is,
      rw next_popped (
          IsChain-frame base dram words l.clean_list_unused_nodes free
            (λ k o. next_kept k (not_free k o)) h.unused),
    );
    holds = contents-frame base dram words us (λ k o. lbn_kept k);
    size_is = let size = h.size_is in let total = h.total in omega arith;
    total = let total = h.total in omega arith;
    shared = λ i. omega (arith, h.shared i);
  }

module _ (start num : ℕ) (s : ListData) (q : ℕ → List ℕ) (h : HasQueues start num s q) (bank : ℕ)
    (bank_ok : bank < num_banks) where
  abbrev base : ℕ
  base = bank_base start num bank

  pop_some :
      (used free : List ℕ) (x : ℕ) (xs : List ℕ)
      → HasNodes base num used free s.dram (s.banks bank) (q bank)
      → q bank ≡ x ∷ xs
      → Yields (λ r. (r.0 ≡ x) × HasQueues start num r.1 (update q bank xs)) (clean_list_pop s bank)
  unfolding clean_list_pop checked_write length IsChain contents
  pop_some [] free x xs n some =
      absurd (let e = ap length some in let e' = length-holds n in omega arith)
  pop_some (u ∷ us) free x xs n some =
      let l = s.banks bank in
      let start_pos = h.start_pos in
      let fits = h.fits in
      let place = banks_apart num bank num_banks bank_ok in
      let u_ok = used-lt n u (occurrences-head u us) in
      let size = n.size_is in
      let head = n.queued.0 in
      let not_null : (l.clean_list_head == 0) ≡ false = ground (arith, head) in
      let next_ok : leb (dram_base + dram_size) (l.clean_list_head + 4) ≡ false =
        ground (arith, head) in
      let not_empty : (l.size == 0) ≡ false = ground arith in
      let list : s.dram (node base u) ∷ contents base s.dram us ≡ x ∷ xs = n.holds ∙ some in
      let first : s.dram (node base u) ≡ x = cc in
      let rest : contents base s.dram us ≡ xs = cc in
      let kept : (a : ℕ) → (a < base) ⊎ (base + 8 * num ≤ a) → popped_words s.dram l a ≡ s.dram a =
        λ a out. ground (arith, head, out) in
      rw (not_null, next_ok, not_empty)
        (yields (
          rw head first,
          HasQueues-update start num s q bank _ _ _ h bank_ok kept (record {
            used = us;
            free = u ∷ free;
            nodes =
                rw (sym rest) (pop-HasNodes base num (omega arith) u us free s.dram l (q bank) n);
          }),
        ))

  pop_none :
      (used free : List ℕ)
      → HasNodes base num used free s.dram (s.banks bank) (q bank)
      → q bank ≡ []
      → clean_list_pop s bank ≡ hang
  unfolding clean_list_pop length IsChain
  pop_none [] free n none = rw n.queued refl
  pop_none (u ∷ us) free n none =
      absurd (let e = length-holds n in let e' = ap length none in omega arith)

  -- cleanListPop returns the first number of the queue of the bank and takes it off the queue, unless
  -- the queue is empty, and changes no other queue.
  pub clean_list_pop-HasQueues :
      (x : ℕ) (xs : List ℕ)
      → q bank ≡ x ∷ xs
      → Yields (λ r. (r.0 ≡ x) × HasQueues start num r.1 (update q bank xs)) (clean_list_pop s bank)
  clean_list_pop-HasQueues x xs some =
      let b = h.every bank bank_ok in pop_some b.used b.free x xs b.nodes some

  -- When the queue of the bank is empty, cleanListPop ends in its endless loop.
  pub clean_list_pop-empty : q bank ≡ [] → clean_list_pop s bank ≡ hang
  clean_list_pop-empty none = let b = h.every bank bank_ok in pop_none b.used b.free b.nodes none

  -- cleanListSize returns the length of the queue, which is at most the number of nodes of a bank.
  pub clean_list_size-length : (clean_list_size s bank ≡ length (q bank)) × (length (q bank) ≤ num)
  unfolding clean_list_size
  clean_list_size-length =
      let n = (h.every bank bank_ok).nodes in
      let e = length-holds n in let total = n.total in (n.size_is ∙ sym e, omega arith)
