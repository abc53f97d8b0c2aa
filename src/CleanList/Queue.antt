-- ===== src/CleanList/Queue.antt =====
-- What cleanList.c promises: a queue of numbers for each bank, of bounded length.
use msst2015_ftl.Base.{
  ℕ, ◌+◌, ◌*◌, ◌<◌, ◌≤◌, ◌≡◌, ◌≢◌, arith, List, [], ◌∷◌, occurrences, length, ltb, if◌then◌else◌,
  update, ◌==◌, ◌∙◌, last, occurrences-last, ap, sym, ◌⊎◌, inl, inr, Bool-cases, subst, eqb→eq,
  ltb→lt, ltb→ge,
}
use native.Mathlib.Nat.{mul-le-mul_right, add-mul}
use msst2015_ftl.Params.{num_banks, dram_base, dram_size}
use msst2015_ftl.CleanList.{BankList, ListData}
use msst2015_ftl.CleanList.Chain.{
  node, IsChain, contents, tail_pointer, IsChain-frame, contents-frame, length-contents,
}

-- Of the nodes 0 .. num - 1 of the bank, those of `used`, in this order, hold the queue `q`, and those
-- of `free` are on the stack of unused nodes.
pub record HasNodes (base num : ℕ) (used free : List ℕ) (dram : ℕ → ℕ) (l : BankList) (q : List ℕ)
    : Type 0 where
  pub queued : IsChain base dram l.clean_list_head used
  pub tail_is : l.clean_list_tail ≡ tail_pointer base used
  pub unused : IsChain base dram l.clean_list_unused_nodes free
  pub holds : contents base dram used ≡ q
  pub size_is : l.size ≡ length used
  pub total : length used + length free ≡ num
  pub shared : (i : ℕ) → occurrences i used + occurrences i free ≡ (if ltb i num then 1 else 0)

pub record HasQueue (base num : ℕ) (dram : ℕ → ℕ) (l : BankList) (q : List ℕ) : Type 0 where
  pub used : List ℕ
  pub free : List ℕ
  pub nodes : HasNodes base num used free dram l q

-- The nodes of bank k are behind those of bank k - 1.
abbrev pub bank_base : ℕ → ℕ → ℕ → ℕ
bank_base start num bank = start + bank * (8 * num)

-- The nodes are in the DRAM, and each bank has its queue.
pub record HasQueues (start num : ℕ) (s : ListData) (q : ℕ → List ℕ) : Type 0 where
  pub start_pos : 0 < start
  pub fits : bank_base start num num_banks ≤ dram_base + dram_size
  pub every :
      (bank : ℕ)
      → bank < num_banks
      → HasQueue (bank_base start num bank) num s.dram (s.banks bank) (q bank)

module _ {base num : ℕ} {used free : List ℕ} {dram : ℕ → ℕ} {l : BankList} {q : List ℕ}
    (h : HasNodes base num used free dram l q) where
  pub used-lt : (i : ℕ) → 0 < occurrences i used → i < num
  used-lt i o = ground (arith, h.shared i)

  pub free-lt : (i : ℕ) → 0 < occurrences i free → i < num
  free-lt i o = ground (arith, h.shared i)

  HasNodes-frame :
      (dram' : ℕ → ℕ)
      → ((a : ℕ) → base ≤ a → a < base + 8 * num → dram' a ≡ dram a)
      → HasNodes base num used free dram' l q
  HasNodes-frame dram' same = record {
    queued =
        IsChain-frame base dram dram' l.clean_list_head used
          (λ i o. let i_ok = used-lt i o in same (node base i + 4) (omega arith) (omega arith))
          h.queued;
    tail_is = h.tail_is;
    unused =
        IsChain-frame base dram dram' l.clean_list_unused_nodes free
          (λ i o. let i_ok = free-lt i o in same (node base i + 4) (omega arith) (omega arith))
          h.unused;
    holds =
        contents-frame base dram dram' used
          (λ i o. let i_ok = used-lt i o in same (node base i) (omega arith) (omega arith))
        ∙ h.holds;
    size_is = h.size_is;
    total = h.total;
    shared = h.shared;
  }

  -- The queue is as long as the list of its nodes.
  pub length-holds : length q ≡ length used
  length-holds = ap length (sym h.holds) ∙ length-contents base dram used

-- Where the tail pointer points.
pub tail_place :
    {base num : ℕ} {used free : List ℕ} {dram : ℕ → ℕ} {l : BankList} {q : List ℕ}
    → HasNodes base num used free dram l q
    → (l.clean_list_tail ≡ 0)
      ⊎ ((base ≤ l.clean_list_tail) × (l.clean_list_tail + 8 ≤ base + 8 * num))
unfolding tail_pointer
tail_place {used = []} h = inl h.tail_is
tail_place {used = u ∷ us} h =
    let tail_is = h.tail_is in
    let t_ok = used-lt h (last u us) (occurrences-last u us) in inr (omega arith, omega arith)

-- Only the words of the bank's own nodes matter to its queue.
pub HasQueue-frame :
    {base num : ℕ} {dram : ℕ → ℕ} {l : BankList} {q : List ℕ}
    → HasQueue base num dram l q
    → (dram' : ℕ → ℕ) → ((a : ℕ) → base ≤ a → a < base + 8 * num → dram' a ≡ dram a)
    → HasQueue base num dram' l q
HasQueue-frame h dram' same = record {
  used = h.used;
  free = h.free;
  nodes = HasNodes-frame h.nodes dram' same;
}

-- The nodes of two banks have no word in common.
pub banks_apart : (num i j : ℕ) → i < j → i * (8 * num) + 8 * num ≤ j * (8 * num)
banks_apart num i j h =
    omega
      (arith, mul-le-mul_right {m = i + 1} {n = j} (8 * num) (omega arith), add-mul i 1 (8 * num))

outside :
    (start num bank k a : ℕ)
    → k ≢ bank
    → bank_base start num k ≤ a
    → a < bank_base start num k + 8 * num
    → (a < bank_base start num bank) ⊎ (bank_base start num bank + 8 * num ≤ a)
outside start num bank k a other low high = elim (Bool-cases (ltb k bank)) [
  | inl below ↦ inl (omega (arith, banks_apart num k bank (ltb→lt k bank below)))
  | inr above ↦
      inr (omega (arith, banks_apart num bank k (omega (arith, other, ltb→ge k bank above))))
]

-- A change of the words and the queue of one bank.
pub HasQueues-update :
    (start num : ℕ) (s : ListData) (q : ℕ → List ℕ) (bank : ℕ) (dram' : ℕ → ℕ) (l' : BankList)
    (q' : List ℕ)
    → HasQueues start num s q
    → bank < num_banks
    → ((a : ℕ)
        → (a < bank_base start num bank) ⊎ (bank_base start num bank + 8 * num ≤ a)
        → dram' a ≡ s.dram a)
    → HasQueue (bank_base start num bank) num dram' l' q'
    → HasQueues start num
        (record { dram = dram'; banks = update s.banks bank l' })
        (update q bank q')
HasQueues-update start num s q bank dram' l' q' h bank_ok same new = record {
  start_pos = h.start_pos;
  fits = h.fits;
  every = λ k k_ok. elim (Bool-cases (bank == k)) [
    | inl here ↦
        rw here
          (subst (λ j. HasQueue (bank_base start num j) num dram' l' q') (eqb→eq bank k here) new)
    | inr there ↦ rw there (
        HasQueue-frame (h.every k k_ok) dram'
          λ a low high. same a (outside start num bank k a (ground (arith, there)) low high))
  ];
}
