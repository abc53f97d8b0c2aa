-- ===== src/Chunk/Tests.antt =====
-- Chunk addresses at concrete numbers.
use msst2015_ftl.Base.{◌≡◌, arith}
use msst2015_ftl.Chunk.{
  flash_w_log, flash_ow_log, find_chunk_location, set_ow_bit, log_chunk_addr, block_chunk_addr,
}
use msst2015_ftl.Chunk.Fields.{HasFields, block_chunk_addr-HasFields}
use msst2015_ftl.Chunk.Location.{find_chunk_location-log_chunk_addr}

block_chunk_addr-HasFields_example : HasFields (block_chunk_addr 3 72 127 7) 3 72 127 7
block_chunk_addr-HasFields_example =
    block_chunk_addr-HasFields 3 72 127 7 (omega arith) (omega arith) (omega arith)

find_chunk_location-log_chunk_addr_example :
    (find_chunk_location (log_chunk_addr 31 9342 7) ≡ flash_w_log)
    × (find_chunk_location (set_ow_bit (log_chunk_addr 31 9342 7)) ≡ flash_ow_log)
find_chunk_location-log_chunk_addr_example =
    find_chunk_location-log_chunk_addr 31 9342 7 (omega arith) (omega arith) (omega arith)
