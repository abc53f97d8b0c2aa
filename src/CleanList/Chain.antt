-- ===== src/CleanList/Chain.antt =====
-- Linked lists in the DRAM. The nodes of a bank are numbered from 0, in the order of their addresses.
use msst2015_ftl.Base.{
  ℕ, zero, suc, ◌+◌, ◌*◌, ◌<◌, ◌≤◌, ◌≡◌, ◌≢◌, refl, arith, List, [], ◌∷◌, ◌++◌, occurrences, range,
  last, occurrences-head, occurrences-tail, occurrences-last, ap, last-snoc, length, sym, subst,
}

-- The address of a node.
abbrev pub node : ℕ → ℕ → ℕ
node base i = base + 8 * i

-- From the pointer `p`, the nodes `is` follow each other, and NULL ends them.
unfoldable pub IsChain : ℕ → (ℕ → ℕ) → ℕ → List ℕ → Type 0
IsChain base dram p [] = p ≡ 0
IsChain base dram p (i ∷ is) = (p ≡ node base i) × IsChain base dram (dram (node base i + 4)) is

-- The numbers in the nodes.
unfoldable pub contents : ℕ → (ℕ → ℕ) → List ℕ → List ℕ
contents base dram [] = []
contents base dram (i ∷ is) = dram (node base i) ∷ contents base dram is

-- The pointer to the last node.
unfoldable pub tail_pointer : ℕ → List ℕ → ℕ
tail_pointer base [] = 0
tail_pointer base (i ∷ is) = node base (last i is)

-- The first node of a chain of two or more is not its last.
pub not_last : (i j : ℕ) (js : List ℕ) → occurrences i (i ∷ j ∷ js) ≤ 1 → i ≢ last j js
unfolding occurrences
not_last i j js once e =
    let o : 0 < occurrences i (j ∷ js) =
      subst (λ k. 0 < occurrences k (j ∷ js)) (sym e) (occurrences-last j js) in
    ground (arith, once, o)

module _ (base : ℕ) (dram dram' : ℕ → ℕ) where
  -- Only the words that the nodes point with matter to a chain.
  pub IsChain-frame :
      (p : ℕ) (is : List ℕ)
      → ((i : ℕ) → 0 < occurrences i is → dram' (node base i + 4) ≡ dram (node base i + 4))
      → IsChain base dram p is
      → IsChain base dram' p is
  unfolding IsChain
  IsChain-frame p [] same chain = chain
  IsChain-frame p (i ∷ is) same (here, rest) = (
    here,
    rw (same i (occurrences-head i is)) (
        IsChain-frame (dram (node base i + 4)) is
          (λ k h. same k (omega (arith, occurrences-tail k i is))) rest),
  )

  pub contents-frame :
      (is : List ℕ)
      → ((i : ℕ) → 0 < occurrences i is → dram' (node base i) ≡ dram (node base i))
      → contents base dram' is ≡ contents base dram is
  unfolding contents
  contents-frame [] same = refl
  contents-frame (i ∷ is) same =
      let rest = contents-frame is λ k h. same k (omega (arith, occurrences-tail k i is)) in
      rw (same i (occurrences-head i is), rest) refl

  -- A new node behind the last one.
  pub IsChain-snoc :
      (p i : ℕ) (is : List ℕ) (new : ℕ)
      → ((k : ℕ) → occurrences k (i ∷ is) ≤ 1)
      → ((k : ℕ)
          → k ≢ last i is
          → 0 < occurrences k (i ∷ is)
          → dram' (node base k + 4) ≡ dram (node base k + 4))
      → dram' (node base (last i is) + 4) ≡ node base new
      → dram' (node base new + 4) ≡ 0
      → IsChain base dram p (i ∷ is)
      → IsChain base dram' p (i ∷ is ++ (new ∷ []))
  unfolding IsChain last
  IsChain-snoc p i [] new once same linked ended (here, rest) = (here, (linked, ended))
  IsChain-snoc p i (j ∷ js) new once same linked ended (here, rest) = (
    here,
    rw (same i (not_last i j js (once i)) (occurrences-head i (j ∷ js))) (
        IsChain-snoc (dram (node base i + 4)) j js new
          (λ k. omega (arith, once k, occurrences-tail k i (j ∷ js)))
          (λ k h o. same k h (omega (arith, occurrences-tail k i (j ∷ js)))) linked ended rest),
  )

pub contents-snoc :
    (base : ℕ) (dram : ℕ → ℕ) (is : List ℕ) (new : ℕ)
    → contents base dram (is ++ (new ∷ [])) ≡ contents base dram is ++ (dram (node base new) ∷ [])
unfolding contents
contents-snoc base dram [] new = refl
contents-snoc base dram (i ∷ is) new =
    ap (λ q. dram (node base i) ∷ q) (contents-snoc base dram is new)

pub tail_pointer-snoc :
    (base : ℕ) (is : List ℕ) (new : ℕ) → tail_pointer base (is ++ (new ∷ [])) ≡ node base new
unfolding tail_pointer last
tail_pointer-snoc base [] new = refl
tail_pointer-snoc base (i ∷ is) new = ap (node base) (last-snoc i is new)

shifted : (i n : ℕ) → i + suc n ≡ i + 1 + n
shifted i n = omega arith

-- Nodes i, i + 1, ..., each pointing to the next, are a chain.
pub IsChain-range :
    (base : ℕ) (dram : ℕ → ℕ) (i n : ℕ)
    → ((k : ℕ) → i ≤ k → k < i + n → dram (node base k + 4) ≡ node base (k + 1))
    → dram (node base (i + n) + 4) ≡ 0
    → IsChain base dram (node base i) (range i (suc n))
unfolding IsChain range
IsChain-range base dram i zero linked ended =
    (refl, subst (λ k. dram (node base k + 4) ≡ 0) (omega arith) ended)
IsChain-range base dram i (suc n) linked ended = (
  refl,
  (
    linked i (omega arith) (omega arith),
    (IsChain-range base dram (i + 1) n (λ k low high. linked k (omega arith) (omega arith))
        (subst (λ k. dram (node base k + 4) ≡ 0) (shifted i n) ended)).1,
  ),
)

pub length-contents :
    (base : ℕ) (dram : ℕ → ℕ) (is : List ℕ) → length (contents base dram is) ≡ length is
unfolding contents length
length-contents base dram [] = refl
length-contents base dram (i ∷ is) = ap (λ n. n + 1) (length-contents base dram is)
