-- ===== src/Blocks/Ring.antt =====
-- The ring of free virtual blocks.
use msst2015_ftl.Base.{
  ℕ, ◌+◌, ◌%◌, ◌<◌, ◌≤◌, ◌≡◌, arith, List, [], ◌∷◌, ◌++◌, length, update_self, u16,
}
use msst2015_ftl.Params.{free_blk_per_bank}
use msst2015_ftl.Layout.{free_bmt_slot}
use msst2015_ftl.Blocks.{Blocks, get_free_vbn, ret_free_vbn}

-- From the offset `i` on, the slots of the ring hold the numbers of the list.
unfoldable pub Slots : (ℕ → ℕ) → ℕ → ℕ → List ℕ → Type 0
Slots dram16 bank i [] = Unit
Slots dram16 bank i (v ∷ vs) =
    (dram16 (free_bmt_slot bank i) ≡ v) × Slots dram16 bank ((i + 1) % free_blk_per_bank) vs

-- The free virtual blocks of the bank, in the order in which they will be taken.
pub record HasFree (s : Blocks) (bank : ℕ) (q : List ℕ) : Type 0 where
  pub tail_lt : s.free_list_tail bank < free_blk_per_bank
  pub head_is : s.free_list_head bank ≡ (s.free_list_tail bank + length q) % free_blk_per_bank
  pub few : length q ≤ free_blk_per_bank
  pub slots : Slots s.dram16 bank (s.free_list_tail bank) q

-- Only the slots of the bank matter to them.
pub Slots-frame :
    (dram16 dram16' : ℕ → ℕ) (bank i : ℕ) (q : List ℕ)
    → i < free_blk_per_bank
    → ((j : ℕ)
        → j < free_blk_per_bank
        → dram16' (free_bmt_slot bank j) ≡ dram16 (free_bmt_slot bank j))
    → Slots dram16 bank i q
    → Slots dram16' bank i q
unfolding Slots
Slots-frame dram16 dram16' bank i [] i_ok same slots = tt
Slots-frame dram16 dram16' bank i (v ∷ vs) i_ok same (here, rest) = (
  rw (same i i_ok) here,
  Slots-frame dram16 dram16' bank ((i + 1) % free_blk_per_bank) vs (omega arith) same rest,
)

-- get_free_vbn takes the first free virtual block of the bank.
pub get_free_vbn-HasFree :
    (s : Blocks) (bank v : ℕ) (vs : List ℕ)
    → HasFree s bank (v ∷ vs)
    → ((get_free_vbn s bank).0 ≡ v) × HasFree (get_free_vbn s bank).1 bank vs
unfolding get_free_vbn Slots length
get_free_vbn-HasFree s bank v vs h =
    let few = h.few in
    let head_is = h.head_is in
    (
      h.slots.0,
      record {
        tail_lt = ground arith;
        head_is = ground (arith, head_is, h.tail_lt);
        few = omega arith;
        slots = rw (update_self s.free_list_tail bank _) h.slots.1;
      },
    )

-- ret_free_vbn adds a virtual block, as a UINT16, behind the free ones of the bank, unless they fill
-- the ring.
pub ret_free_vbn-HasFree :
    (s : Blocks) (bank vblock : ℕ) (q : List ℕ)
    → HasFree s bank q
    → length q < free_blk_per_bank
    → HasFree (ret_free_vbn s bank vblock) bank (q ++ (u16 vblock ∷ []))
unfolding ret_free_vbn Slots length free_bmt_slot
ret_free_vbn-HasFree s bank vblock [] h room =
    let tail_lt = h.tail_lt in
    let head_is = h.head_is in
    record {
      tail_lt = tail_lt;
      head_is = ground arith;
      few = omega arith;
      slots = (ground arith, tt);
    }
ret_free_vbn-HasFree s bank vblock (v ∷ []) h room =
    let tail_lt = h.tail_lt in
    let head_is = h.head_is in
    record {
      tail_lt = tail_lt;
      head_is = ground arith;
      few = omega arith;
      slots = (ground (arith, h.slots), (ground arith, tt));
    }
ret_free_vbn-HasFree s bank vblock (v ∷ w ∷ vs) h room = absurd (omega arith)
