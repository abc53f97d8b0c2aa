-- ===== src/CleanList/Init.antt =====
-- cleanListInit
use msst2015_ftl.Base.{
  ℕ, zero, suc, ◌+◌, ◌*◌, ◌<◌, ◌≤◌, ◌≡◌, refl, arith, [], occurrences, length, range, ◌^◌, update,
  ◌==◌, ◌∙◌, ◌⊎◌, inl, inr, ap, subst, sub32, ◌-◌, Bool-cases, eqb→eq, length-range,
  occurrences-range,
}
use native.Mathlib.Nat.{add-mul}
use msst2015_ftl.Params.{num_banks, dram_base, dram_size}
use msst2015_ftl.CleanList.{
  BankList, ListData, next_at, node_after, link_nodes, init_lists, clean_list_init,
}
use msst2015_ftl.CleanList.Chain.{node, IsChain, IsChain-range, contents, tail_pointer}
use msst2015_ftl.CleanList.Queue.{HasQueue, HasQueues, bank_base, banks_apart, HasQueue-frame}

-- `r` nodes from node `i` on point each to the next.
record Linked (base i r : ℕ) (dram dram' : ℕ → ℕ) (last_node : ℕ) : Type 0 where
  last_is : last_node ≡ node base (i + r)
  linked : (k : ℕ) → i ≤ k → k < i + r → dram' (node base k + 4) ≡ node base (k + 1)
  kept : (a : ℕ) → (a < node base i) ⊎ (node base (i + r) ≤ a) → dram' a ≡ dram a

link_nodes-Linked :
    (r base i : ℕ) (dram : ℕ → ℕ) (p : ℕ)
    → p ≡ node base i
    → Linked base i r dram (link_nodes r dram p).0 (link_nodes r dram p).1
unfolding link_nodes
link_nodes-Linked zero base i dram p e = record {
  last_is = omega arith;
  linked = λ k lo hi. absurd (omega arith);
  kept = λ a out. refl;
}
link_nodes-Linked (suc r) base i dram p e =
    let rest =
      link_nodes-Linked r base (i + 1) (update dram (next_at p) (node_after p)) (node_after p)
        (omega arith) in
    let last_is = rest.last_is in
    record {
      last_is = omega arith;
      linked = λ k lo hi. ground (arith, rest.linked k, rest.kept (node base k + 4));
      kept = λ a out. ground (arith, rest.kept a, out);
    }

module _ (start num : ℕ) (num_pos : 0 < num) (num_ok : num < 2 ^ 32) where
  abbrev linked_words : (ℕ → ℕ) → ℕ → ℕ → ℕ
  linked_words dram addr =
      let linked = link_nodes (sub32 num 1) dram addr in update linked.0 (next_at linked.1) 0

  abbrev empty_list : ℕ → BankList
  empty_list addr = record {
    clean_list_head = 0;
    clean_list_tail = 0;
    clean_list_unused_nodes = addr;
    size = 0;
  }

  module _ (dram : ℕ → ℕ) (addr : ℕ) where
    nodes-Linked :
        Linked addr 0
          (num - 1)
          dram
          (link_nodes (sub32 num 1) dram addr).0
          (link_nodes (sub32 num 1) dram addr).1
    nodes-Linked =
        let rounds : sub32 num 1 ≡ num - 1 = omega arith in
        rw rounds (link_nodes-Linked (num - 1) addr 0 dram addr (omega arith))

    words_kept : (a : ℕ) → (a < addr) ⊎ (addr + 8 * num ≤ a) → linked_words dram addr a ≡ dram a
    words_kept a out =
        let last_is = nodes-Linked.last_is in ground (arith, out, nodes-Linked.kept a)

    addr_after : node_after (link_nodes (sub32 num 1) dram addr).1 ≡ addr + 8 * num
    addr_after = let last_is = nodes-Linked.last_is in omega arith

    fresh : HasQueue addr num (linked_words dram addr) (empty_list addr) []
    unfolding IsChain contents tail_pointer occurrences length
    fresh =
        let last_is = nodes-Linked.last_is in
        record {
          used = [];
          free = range 0 (suc (num - 1));
          nodes = record {
            queued = refl;
            tail_is = refl;
            unused =
                subst (λ p. IsChain addr (linked_words dram addr) p (range 0 (suc (num - 1))))
                  (omega arith)
                  (IsChain-range addr (linked_words dram addr) 0 (num - 1)
                    (λ k lo hi. ground (arith, last_is, nodes-Linked.linked k))
                    (ground (arith, last_is)));
            holds = refl;
            size_is = refl;
            total = omega (arith, length-range 0 (suc (num - 1)));
            shared = λ i. ground (arith, occurrences-range i 0 (suc (num - 1)));
          };
        }

  -- The banks below `n` have empty queues.
  record Ready (n : ℕ) (s : ListData) : Type 0 where
    every : (bank : ℕ) → bank < n → HasQueue (bank_base start num bank) num s.dram (s.banks bank) []

  init_lists-Ready :
      (rounds : ℕ) (s : ListData) (bank addr : ℕ)
      → bank + rounds ≡ num_banks
      → addr ≡ bank_base start num bank
      → Ready bank s
      → Ready num_banks (init_lists rounds s bank addr num)
  unfolding init_lists
  init_lists-Ready zero s bank addr e at ready = record {
    every = λ k k_ok. ready.every k (omega arith);
  }
  init_lists-Ready (suc rounds) s bank addr e at ready =
      init_lists-Ready rounds _ (bank + 1) _ (omega arith)
        (omega (arith, addr_after s.dram addr, add-mul bank 1 (8 * num)))
        (record {
          every = λ k k_ok. elim (Bool-cases (bank == k)) [
            | inl here ↦ rw here (
                subst (λ p. HasQueue p num (linked_words s.dram addr) (empty_list addr) [])
                  (at ∙ ap (bank_base start num) (eqb→eq bank k here)) (fresh s.dram addr))
            | inr there ↦ rw there (
                HasQueue-frame (ready.every k (ground (arith, there))) (linked_words s.dram addr)
                  λ a low high.
                    words_kept s.dram addr a
                      (inl (omega (arith, banks_apart num k bank (ground (arith, there))))))
          ];
        })

  -- cleanListInit with room in the DRAM for the nodes of all banks, at least one a bank, leaves
  -- every bank with an empty queue.
  pub clean_list_init-HasQueues :
      (s : ListData)
      → 0 < start
      → bank_base start num num_banks ≤ dram_base + dram_size
      → HasQueues start num (clean_list_init s start num) (λ _. [])
  unfolding clean_list_init
  clean_list_init-HasQueues s start_pos fits = record {
    start_pos = start_pos;
    fits = fits;
    every =
        (init_lists-Ready num_banks s 0 start refl (omega arith)
          (record { every = λ k k_ok. absurd (omega arith) })).every;
  }
