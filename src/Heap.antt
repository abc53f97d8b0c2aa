-- ===== src/Heap.antt =====
-- ftl_seal/heap.c: for each bank a binary min-heap of the full log blocks, ordered by their number
-- of valid chunks. All blocks of a bank have an element, heap or not: the elements at positions
-- 1 .. n_el are the heap, those behind it are set aside. A second table gives each block's position.
pub mod Defs
pub mod Sift
pub mod Ops
mod Tests
