-- ===== src/Trim/Tests.antt =====
-- Trimming a chunk of log page 7 of log block 5 of bank 3.
use msst2015_ftl.Base.{refl, arith}
use msst2015_ftl.Base.Run.{Yields}
use msst2015_ftl.Chunk.{block_chunk_addr, set_ow_bit}
use msst2015_ftl.State.Samples.{idle_heap-IsValidData, mapped_to}
use msst2015_ftl.Trim.{trim_chunk}
use msst2015_ftl.Trim.Drop.{
  WriteDropped, OverwriteDropped, trim_chunk-IsWriteDrop, trim_chunk-IsOverwriteDrop,
}

trim_chunk-IsWriteDrop_example :
    Yields
      (WriteDropped
        (mapped_to (block_chunk_addr 3 5 7 2))
        100
        4
        3
        5
        7
        2
        (omega arith)
        (omega arith)
        (omega arith)
        (omega arith))
      (trim_chunk 100 4 (mapped_to (block_chunk_addr 3 5 7 2)))
trim_chunk-IsWriteDrop_example =
    trim_chunk-IsWriteDrop (mapped_to (block_chunk_addr 3 5 7 2)) 100 4 3 5 7 2 (omega arith)
      (omega arith) (omega arith) (omega arith) idle_heap-IsValidData refl (omega arith)
      (omega arith) refl

trim_chunk-IsOverwriteDrop_example :
    Yields
      (OverwriteDropped
        (mapped_to (set_ow_bit (block_chunk_addr 3 5 7 2)))
        100
        4
        3
        5
        7
        2
        (omega arith)
        (omega arith)
        (omega arith)
        (omega arith))
      (trim_chunk 100 4 (mapped_to (set_ow_bit (block_chunk_addr 3 5 7 2))))
trim_chunk-IsOverwriteDrop_example =
    trim_chunk-IsOverwriteDrop (mapped_to (set_ow_bit (block_chunk_addr 3 5 7 2))) 100 4 3 5 7 2
      (omega arith) (omega arith) (omega arith) (omega arith) idle_heap-IsValidData refl
      (omega arith) (omega arith) refl
