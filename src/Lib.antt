-- ===== src/Lib.antt =====
-- The flash translation layer of the MSST 2015 SEAL firmware for the OpenSSD Jasmine board, in C under
-- ftl_seal/. The FTL maps 4 KB chunks of the host's pages to chunks of log blocks in flash, or to a
-- DRAM buffer for each bank. Writes append to a log block; the block of a chunk that is replaced
-- loses a valid chunk; when few clean blocks are left, the collector copies the valid chunks of the
-- block with the fewest and erases it. Some blocks may be overwritten in their low pages without an
-- erase: these are the overwrite log, which has a second heap.
--
-- The parts, and the files that model them:
--   Params      the constants of include/nand.h, include/bank.h, include/jasmine.h,
--               target_spw/target.h and ftl_seal/ftl_parameters.h, each by its macro's formula
--   Layout      the DRAM segments and slots of ftl_seal/dram_layout.h and the start-up check
--               sanity_check of ftl_seal/ftl.c
--   Chunk       chunk addresses: the macros of ftl_seal/ftl_parameters.h, the formulas that build
--               addresses, and findChunkLocation of ftl_seal/log.c
--   Heap        ftl_seal/heap.c: the heap of the log blocks of a bank by valid chunks. Defs has the data
--               and its accesses, Sift bubbleUp and bubbleDown, Ops the operations, first on the
--               heap of a bank (..._in_bank), then on heapData under the C function's name
--   CleanList   ftl_seal/cleanList.c: a queue of clean log blocks for each bank, as linked nodes in
--               the DRAM. Queue states which queue the nodes hold
--   Blocks      ftl_seal/blk_management.c and the log block mapping table of ftl_seal/log.c, with the
--               exchange of a victim's virtual block in ftl_seal/garbage_collection.c
--   State       the metadata of the translation layer: the record Ftl holds the heaps, the clean lists, the
--               control blocks, the tables and the lists of each bank (ftl_seal/ftl_metadata.h).
--   Request     how ftl_read, ftl_write and trimRange split a range (ftl_seal/ftl.c). The handler of a
--               page or a chunk is a parameter, which Read, Write, Overwrite and Trim fill. The loops
--               run on the number of sectors as fuel.
--   Trim        what trimRange does with a chunk (ftl_seal/ftl.c).
--   Log         the current page of the sequential, random and overwrite block of each bank, and sealing
--               of an overwrite block, and initLog, in Start (ftl_seal/log.c). The collector,
--               garbageCollectLog, is a parameter, which Collect.collector fills.
--   Memory      the buffer macros of ftl_seal/dram_layout.h, and what the drivers that the layer calls
--               (target_spw/flash_wrapper.c, target_spw/mem_util.c) do to the bytes of the buffers and
--               of the flash. Bytes are a function of the address, and of bank, block, page and place.
--               Programs is about the program of a page that is erased, and of one that is not.
--   Read        ftl_seal/read.c: a page is put together in FTL_BUF(0). Bytes says which byte a chunk
--               address stands for, from which page_byte, the byte that a read is to see, follows.
--   Write       ftl_seal/write.c: writeToLogBlk with the DRAM write buffers (Buffers). Chunk is about one
--               chunk, Kept about the flush of a buffer, Page about a whole page, Partial about a
--               request that is read back, Turns about the choice of a bank.
--   Overwrite   ftl_seal/overwrite.c: overwriteToLogBlk with the counters of the low pages (Buffers).
--               InPlace is about the overwrite in place.
--   Collect     garbageCollectLog of ftl_seal/garbage_collection.c, and backgroundCleaning of
--               ftl_seal/ftl.c. `collector depth` collects with at most `depth` nested calls; the
--               code stops at two on a bank. Found is about the search for valid chunks, Empty about
--               the collection of a block that has none, alone and in the loop that waits for clean
--               blocks.
--   Host        ftl_trim of ftl_seal/ftl.c, which reads the ranges to trim from the write buffers.
--   Base        shared names: Boolean tests, words, tables, lists, and Run, how a call ends
--
-- State is passed explicitly. A record has the fields of the C structure; an array that goes by bank is
-- a function of the bank, and what an operation changes is written with `update`. The DRAM is a
-- function from byte addresses to words. The numbers are natural numbers; UINT16 and UINT32 arithmetic
-- wraps where the code can reach the wrap, by `u16`, `u32` and `sub32`. A call ends in `ok` with a
-- value, in `hang` where the C code prints an error and loops forever, in `stray` where it would
-- access memory outside the table, or in `out_of_fuel`. The loops of bubbleUp and bubbleDown take as
-- fuel the start position and the size of the heap; the theorems say that the calls end in `ok`, so
-- that the fuel suffices. The other loops are structural recursion on their number of rounds.
--
-- Left out: the messages on the UART, the counters of the loops that only print warnings, the tests of
-- an address against the end of the DRAM that only print an error (Layout.Slots shows that they do
-- not fire), and the SATA, flash and timer hardware.
-- Not modelled: writeToSWBlk (ftl_seal/write.c), which nothing calls, and format, ftl_open and the list of
-- bad blocks (ftl_seal/ftl.c), which drive the flash controller. A command to the flash is done when it
-- is issued: the waits for a bank, which order the commands, are left out. A page takes any byte when it
-- is programmed, since the logs program erased pages; only the overwrite in place programs a page
-- that is not erased, and that only clears bits. The tables, the lists, the nodes and the buffers of
-- the DRAM are address spaces of their own: a store past the end of one, as by trimRange past the
-- end of the disk, changes no other one here.
pub mod Base
pub mod Params
pub mod Chunk
pub mod Layout
pub mod Heap
pub mod CleanList
pub mod Blocks
pub mod State
pub mod Memory
pub mod Request
pub mod Trim
pub mod Log
pub mod Read
pub mod Write
pub mod Overwrite
pub mod Collect
pub mod Host
