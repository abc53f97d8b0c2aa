-- ===== src/Overwrite/Tests.antt =====
-- Overwriting sectors 10 to 29 of a page whose chunks lie in order in a page of an overwrite block.
use msst2015_ftl.Base.{ℕ, ◌/◌, ◌%◌, ◌-◌, ◌≡◌, refl, true, arith, ap, ◌∙◌}
use Prim.Native.Nat.{bit_and}
use msst2015_ftl.Read.Bytes.{flash_page_byte, located_byte, chunk_byte, page_byte}
use msst2015_ftl.Chunk.Location.{find_chunk_location-block_chunk_addr}
use msst2015_ftl.Base.Run.{Run, hang, Yields}
use msst2015_ftl.Layout.{chunks_map_table}
use msst2015_ftl.Chunk.{
  block_chunk_addr, set_ow_bit, find_chunk_location, chunk_to_chunk_offset, chunk_to_bank,
}
use msst2015_ftl.State.{Ftl}
use msst2015_ftl.State.Samples.{mapped_to}
use msst2015_ftl.Overwrite.{overwrite_to_log_blk}
use msst2015_ftl.Overwrite.Buffers.{
  old_version_is_in_ow_log_in_order, in_order_from, read_ow_counter,
}
use msst2015_ftl.Overwrite.InPlace.{OnlyClears, Replaces, overwrite_to_log_blk-Replaces}

abbrev never_collect : Ftl → ℕ → Run Ftl
never_collect s bank = hang

-- Each page of the host has its chunks in page 7 of block 5 of bank 3.
abbrev ordered : Ftl
ordered = record (mapped_to 0) {
  chunk_map = λ a. set_ow_bit (block_chunk_addr 3 5 7 ((a - chunks_map_table 0 0) / 4 % 8));
}

-- The pages hold 0xF0, and the bytes of the host are 0x50.
abbrev to_write : Ftl
to_write = record ordered { buffers = λ a. 0x50; flash = λ b v p i. 0xf0 }

ordered_in_order : old_version_is_in_ow_log_in_order to_write 100 10 20 ≡ true
unfolding old_version_is_in_ow_log_in_order in_order_from find_chunk_location set_ow_bit
    block_chunk_addr chunks_map_table chunk_to_chunk_offset chunk_to_bank
ordered_in_order = refl

byte_there : (b : ℕ) → page_byte to_write 100 b ≡ 0xf0
unfolding page_byte chunk_byte located_byte flash_page_byte
byte_there b =
    let place = (chunks_map_table 100 (b / 4096) - chunks_map_table 0 0) / 4 % 8 in
    rw
      ((find_chunk_location-block_chunk_addr 3 5 7 place (omega arith) (omega arith) (omega arith)
        (omega arith)).1)
      refl

common_bits : bit_and 0xf0 0x50 ≡ 0x50
common_bits = refl

to_write-OnlyClears : OnlyClears to_write 100 10 20
to_write-OnlyClears b low high = ap (λ x. bit_and x 0x50) (byte_there b) ∙ common_bits

overwrite_to_log_blk-Replaces_example :
    Yields (Replaces to_write 100 10 20) (overwrite_to_log_blk never_collect 100 10 20 to_write)
unfolding read_ow_counter
overwrite_to_log_blk-Replaces_example =
    overwrite_to_log_blk-Replaces never_collect to_write 100 10 20 (omega arith) (omega arith)
      ordered_in_order (omega arith) to_write-OnlyClears
