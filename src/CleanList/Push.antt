-- ===== src/CleanList/Push.antt =====
-- cleanListPush
use msst2015_ftl.Base.{
  ℕ, ◌+◌, ◌*◌, ◌<◌, ◌≤◌, ◌≡◌, ◌≢◌, refl, arith, List, [], ◌∷◌, ◌++◌, occurrences, length,
  if◌then◌else◌, u32, ◌^◌, update, ◌==◌, ◌∙◌, ◌⊎◌, last, leb, occurrences-last, occurrences-head,
  false, subst, sym, ap, occurrences-snoc, length-snoc,
}
use msst2015_ftl.Base.Run.{ok, hang, Yields, yields}
use msst2015_ftl.Params.{num_banks, dram_base, dram_size}
use msst2015_ftl.CleanList.{
  BankList, ListData, checked_write, append_node, clean_list_push, next_at, lbn_at,
}
use msst2015_ftl.CleanList.Chain.{
  node, IsChain, contents, tail_pointer, IsChain-frame, contents-frame, IsChain-snoc, contents-snoc,
  tail_pointer-snoc,
}
use msst2015_ftl.CleanList.Queue.{
  HasNodes, HasQueues, bank_base, HasQueues-update, banks_apart, free-lt, length-holds, tail_place,
}

-- The words after the writes of cleanListPush.
abbrev pushed_words : (ℕ → ℕ) → ℕ → ℕ → ℕ → ℕ → ℕ
pushed_words dram tail new_node x =
    let fresh = update (update dram (lbn_at new_node) x) (next_at new_node) 0 in
    if tail == 0 then fresh else update fresh (next_at tail) new_node

abbrev pushed_list : (ℕ → ℕ) → BankList → ℕ → BankList
pushed_list dram l new_node =
    append_node (record l { clean_list_unused_nodes = dram (next_at new_node) }) new_node

module _ (base num : ℕ) (base_pos : 0 < base) (num_ok : num < 2 ^ 32) (f : ℕ) (fs : List ℕ)
    (dram : ℕ → ℕ) (l : BankList) (q : List ℕ) (x : ℕ) where
  abbrev words : ℕ → ℕ
  words = pushed_words dram l.clean_list_tail (node base f) x

  -- The node that is pushed is not in the queue, and no node is twice in it or in both lists.
  module _ (used : List ℕ) (h : HasNodes base num used (f ∷ fs) dram l q) where
    once : (k : ℕ) → occurrences k used ≤ 1
    once k = ground (arith, h.shared k)

    not_pushed : (k : ℕ) → 0 < occurrences k used → k ≢ f
    unfolding occurrences
    not_pushed k o e = ground (arith, h.shared k)

    not_free : (k : ℕ) → 0 < occurrences k fs → k ≢ f
    unfolding occurrences
    not_free k o e = ground (arith, h.shared k)

    apart : (k i : ℕ) → 0 < occurrences k fs → 0 < occurrences i used → k ≢ i
    unfolding occurrences
    apart k i o o' e =
        let o2 : 0 < occurrences k used = subst (λ j. 0 < occurrences j used) (sym e) o' in
        ground (arith, h.shared k)

  -- The words of a node that is neither the new one nor the last of the queue stay.
  word_kept :
      (k : ℕ)
      → k ≢ f
      → l.clean_list_tail ≢ node base k
      → words (node base k + 4) ≡ dram (node base k + 4)
  word_kept k new tail = ground arith

  module _ (t : ℕ) (t_new : t ≢ f) (tail_is : l.clean_list_tail ≡ node base t) where
    lbn_kept : (k : ℕ) → k ≢ f → words (node base k) ≡ dram (node base k)
    lbn_kept k new = ground arith

    lbn_new : words (node base f) ≡ x
    lbn_new = ground arith

    next_new : words (node base f + 4) ≡ 0
    next_new = ground arith

    next_tail : words (node base t + 4) ≡ node base f
    next_tail = ground arith

  push-HasNodes :
      (used : List ℕ)
      → HasNodes base num used (f ∷ fs) dram l q
      → HasNodes base num
          (used ++ (f ∷ []))
          fs
          words
          (pushed_list dram l (node base f))
          (q ++ (x ∷ []))
  unfolding append_node occurrences length IsChain contents tail_pointer last
  push-HasNodes [] h =
      let empty : l.clean_list_tail ≡ 0 = h.tail_is in
      record {
        queued = (ground (arith, h.queued), ground (arith, empty));
        tail_is = refl;
        unused =
            IsChain-frame base dram words (dram (node base f + 4)) fs
              (λ k o. word_kept k (not_free [] h k o) (ground (arith, empty))) h.unused.1;
        holds = rw (sym h.holds) (ap (λ v. v ∷ []) (ground (arith, empty)));
        size_is = let size = h.size_is in omega arith;
        total = let total = h.total in omega arith;
        shared = λ i. omega (arith, h.shared i);
      }
  push-HasNodes (u ∷ us) h =
      let tail_is : l.clean_list_tail ≡ node base (last u us) = h.tail_is in
      let o = occurrences-last u us in
      let t_new = not_pushed (u ∷ us) h (last u us) o in
      let same : contents base words (u ∷ us) ≡ q =
        contents-frame base dram words (u ∷ us)
          (λ k ok. lbn_kept (last u us) t_new tail_is k (not_pushed (u ∷ us) h k ok))
        ∙ h.holds in
      record {
        queued = (
          ground (arith, h.queued.0, base_pos),
          (IsChain-snoc base dram words l.clean_list_head u us f (once (u ∷ us) h)
              (λ k ne ok. word_kept k (not_pushed (u ∷ us) h k ok) (ground (arith, tail_is, ne)))
              (next_tail (last u us) t_new tail_is) (next_new (last u us) t_new tail_is)
              h.queued).1,
        );
        tail_is = sym (tail_pointer-snoc base (u ∷ us) f);
        unused =
            IsChain-frame base dram words (dram (node base f + 4)) fs
              (λ k ok.
                let ne = apart (u ∷ us) h k (last u us) ok o in
                word_kept k (not_free (u ∷ us) h k ok) (ground (arith, tail_is)))
              h.unused.1;
        holds =
            contents-snoc base words (u ∷ us) f
            ∙ ap (λ c. c ++ (words (node base f) ∷ [])) same
            ∙ ap (λ v. q ++ (v ∷ [])) (lbn_new (last u us) t_new tail_is);
        size_is =
            rw (length-snoc (u ∷ us) f)
              (let size = h.size_is in let total = h.total in omega arith);
        total = rw (length-snoc (u ∷ us) f) (let total = h.total in omega arith);
        shared = λ i. rw (occurrences-snoc i (u ∷ us) f) (omega (arith, h.shared i));
      }

module _ (start num : ℕ) (s : ListData) (q : ℕ → List ℕ) (h : HasQueues start num s q) (bank : ℕ)
    (bank_ok : bank < num_banks) where
  abbrev base : ℕ
  base = bank_base start num bank

  base_fits : base + 8 * num ≤ dram_base + dram_size
  base_fits = let fits = h.fits in omega (arith, banks_apart num bank num_banks bank_ok)

  push_room :
      (used free : List ℕ) (x : ℕ)
      → HasNodes base num used free s.dram (s.banks bank) (q bank)
      → length (q bank) < num
      → Yields
          (λ s'. HasQueues start num s' (update q bank (q bank ++ (u32 x ∷ []))))
          (clean_list_push s bank x)
  unfolding clean_list_push checked_write length IsChain
  push_room used [] x n room = absurd (let total = n.total in omega (arith, length-holds n))
  push_room used (f ∷ fs) x n room =
      let l = s.banks bank in
      let start_pos = h.start_pos in
      let fits = base_fits in
      let f_ok = free-lt n f (occurrences-head f fs) in
      let not_null : (node base f == 0) ≡ false = ground arith in
      let lbn_ok : leb (dram_base + dram_size) (node base f) ≡ false = ground arith in
      let next_ok : leb (dram_base + dram_size) (node base f + 4) ≡ false = ground arith in
      let tail = tail_place n in
      let kept : (a : ℕ)
          → (a < base) ⊎ (base + 8 * num ≤ a)
          → pushed_words s.dram l.clean_list_tail (node base f) (u32 x) a ≡ s.dram a =
        λ a out. ground (arith, tail, out) in
      let written : (dram2 : ℕ → ℕ)
          → (if l.clean_list_tail == 0
              then ok dram2
              else checked_write dram2 (l.clean_list_tail + 4) (node base f))
            ≡ ok (
                if l.clean_list_tail == 0
                then dram2
                else update dram2 (l.clean_list_tail + 4) (node base f)) =
        λ dram2. ground (arith, tail) in
      rw (n.unused.0, not_null, lbn_ok, next_ok, written _)
        (yields (
          HasQueues-update start num s q bank _ _ _ h bank_ok kept (record {
            used = used ++ (f ∷ []);
            free = fs;
            nodes =
                push-HasNodes base num (omega arith) (omega arith) f fs s.dram l (q bank) (u32 x)
                  used n;
          })))

  push_full :
      (used free : List ℕ) (x : ℕ)
      → HasNodes base num used free s.dram (s.banks bank) (q bank)
      → length (q bank) ≡ num
      → clean_list_push s bank x ≡ hang
  unfolding clean_list_push length IsChain
  push_full used [] x n full = rw n.unused refl
  push_full used (f ∷ fs) x n full = absurd (let total = n.total in omega (arith, length-holds n))

  -- cleanListPush appends the number, as a UINT32, to the queue of the bank, unless all the nodes of
  -- the bank are used, and changes no other queue.
  pub clean_list_push-HasQueues :
      (x : ℕ)
      → length (q bank) < num
      → Yields
          (λ s'. HasQueues start num s' (update q bank (q bank ++ (u32 x ∷ []))))
          (clean_list_push s bank x)
  clean_list_push-HasQueues x room =
      let b = h.every bank bank_ok in push_room b.used b.free x b.nodes room

  -- When all the nodes of the bank are used, cleanListPush ends in its endless loop.
  pub clean_list_push-full : (x : ℕ) → length (q bank) ≡ num → clean_list_push s bank x ≡ hang
  clean_list_push-full x full =
      let b = h.every bank bank_ok in push_full b.used b.free x b.nodes full
