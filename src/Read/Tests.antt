-- ===== src/Read/Tests.antt =====
-- Reading sectors 10 to 29 of a page whose chunks are mapped to one chunk in flash.
use msst2015_ftl.Base.{arith}
use msst2015_ftl.Base.Run.{Yields}
use msst2015_ftl.Chunk.{block_chunk_addr}
use msst2015_ftl.State.Samples.{mapped_to}
use msst2015_ftl.Read.{read_from_log_blk}
use msst2015_ftl.Read.Sends.{Sends, read_from_log_blk-Sends}

read_from_log_blk-Sends_example :
    Yields
      (Sends (mapped_to (block_chunk_addr 3 5 7 2)) 100 10 20)
      (read_from_log_blk 100 10 20 (mapped_to (block_chunk_addr 3 5 7 2)))
read_from_log_blk-Sends_example =
    read_from_log_blk-Sends (mapped_to (block_chunk_addr 3 5 7 2)) 100 10 20 (omega arith)
      (omega arith)
