-- ===== src/CleanList.antt =====
-- ftl_seal/cleanList.c: for each bank a singly linked queue of the numbers of the log blocks that
-- are clean, and the stack of the nodes that the queue does not use. The nodes are in the DRAM, of
-- which `dram a` is the 32-bit word at the byte address `a`; NULL is 0.
mod Chain
pub mod Queue
pub mod Push
pub mod Pop
pub mod Init
mod Tests
use msst2015_ftl.Base.{ℕ, zero, suc, ◌+◌, ◌*◌, leb, ◌==◌, if◌then◌else◌, update, u32, sub32}
use msst2015_ftl.Base.Run.{Run, ok, hang, ◌>>=◌}
use msst2015_ftl.Params.{num_banks, dram_base, dram_size}

-- What listData keeps for a bank.
pub record BankList : Type 0 where
  pub clean_list_head : ℕ
  pub clean_list_tail : ℕ
  pub clean_list_unused_nodes : ℕ
  pub size : ℕ

-- The words of the DRAM and listData.
pub record ListData : Type 0 where
  pub dram : ℕ → ℕ
  pub banks : ℕ → BankList

-- &node->lbn and &node->next
abbrev pub lbn_at : ℕ → ℕ
lbn_at node = node

abbrev pub next_at : ℕ → ℕ
next_at node = node + 4

-- node + 1, in the pointer arithmetic of C
abbrev pub node_after : ℕ → ℕ
node_after node = node + 8

-- write_dram_32, behind the test of the address that cleanListPush and cleanListPop make.
unfoldable pub checked_write : (ℕ → ℕ) → ℕ → ℕ → Run (ℕ → ℕ)
checked_write dram addr value =
    if leb (dram_base + dram_size) addr then hang else ok (update dram addr value)

-- The end of cleanListPush: the new node is at the tail.
unfoldable pub append_node : BankList → ℕ → BankList
append_node l new_node = record {
  clean_list_head = if l.clean_list_head == 0 then new_node else l.clean_list_head;
  clean_list_tail = new_node;
  clean_list_unused_nodes = l.clean_list_unused_nodes;
  size = u32 (l.size + 1);
}

unfoldable pub clean_list_push : ListData → ℕ → ℕ → Run ListData
clean_list_push s bank log_lbn =
    let l = s.banks bank in
    let new_node = l.clean_list_unused_nodes in
    let push : Run ListData = do
      let unused = s.dram (next_at new_node)
      dram1 ← checked_write s.dram (lbn_at new_node) (u32 log_lbn)
      dram2 ← checked_write dram1 (next_at new_node) 0
      dram3 ←
          if l.clean_list_tail == 0
          then ok dram2
          else checked_write dram2 (next_at l.clean_list_tail) new_node
      let l' = append_node (record l { clean_list_unused_nodes = unused }) new_node
      ok (record { dram = dram3; banks = update s.banks bank l' })
    in if new_node == 0 then hang else push

-- The number that is popped, and the data after it.
unfoldable pub clean_list_pop : ListData → ℕ → Run (ℕ × ListData)
clean_list_pop s bank =
    let l = s.banks bank in
    let head = l.clean_list_head in
    let pop : Run (ℕ × ListData) = do
      let tail = if head == l.clean_list_tail then 0 else l.clean_list_tail
      let log_lbn = s.dram (lbn_at head)
      let new_head = s.dram (next_at head)
      dram' ← checked_write s.dram (next_at head) l.clean_list_unused_nodes
      let l' : BankList = record {
        clean_list_head = new_head;
        clean_list_tail = tail;
        clean_list_unused_nodes = head;
        size = sub32 l.size 1;
      }
      if l.size == 0
          then hang
          else ok (log_lbn, record { dram = dram'; banks = update s.banks bank l' })
    in if head == 0 then hang else pop

unfoldable pub clean_list_size : ListData → ℕ → ℕ
clean_list_size s bank = (s.banks bank).size

-- The loop of cleanListInit over the nodes of a bank, from `node`: the DRAM and the last node.
unfoldable pub link_nodes : ℕ → (ℕ → ℕ) → ℕ → (ℕ → ℕ) × ℕ
link_nodes zero dram node = (dram, node)
link_nodes (suc rounds) dram node =
    link_nodes rounds (update dram (next_at node) (node_after node)) (node_after node)

-- The loop of cleanListInit over the banks, from `bank`, whose nodes start at `addr`.
unfoldable pub init_lists : ℕ → ListData → ℕ → ℕ → ℕ → ListData
init_lists zero s bank addr num_nodes_per_bank = s
init_lists (suc rounds) s bank addr num_nodes_per_bank =
    let linked = link_nodes (sub32 num_nodes_per_bank 1) s.dram addr in
    let l : BankList = record {
      clean_list_head = 0;
      clean_list_tail = 0;
      clean_list_unused_nodes = addr;
      size = 0;
    } in
    let s' : ListData = record {
      dram = update linked.0 (next_at linked.1) 0;
      banks = update s.banks bank l;
    } in
    init_lists rounds s' (bank + 1) (node_after linked.1) num_nodes_per_bank

unfoldable pub clean_list_init : ListData → ℕ → ℕ → ListData
clean_list_init s start_addr num_nodes_per_bank =
    init_lists num_banks s 0 start_addr num_nodes_per_bank
