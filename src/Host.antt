-- ===== src/Host.antt =====
-- ftl_trim of ftl_seal/ftl.c: the ranges to trim are the payload of the request, which the host left in
-- the write buffers from the next one on, eight bytes for each range. Waiting for the payload and the
-- messages are left out.
mod Payload
mod Kept
mod Ranges
mod Tests
use msst2015_ftl.Base.{ℕ, zero, suc, ◌+◌, ◌*◌, ◌/◌, ◌%◌, ◌-◌, ◌^◌, ◌==◌, ltb, if◌then◌else◌, u32}
use msst2015_ftl.Base.Run.{Run, ok, ◌>>=◌}
use msst2015_ftl.Params.{num_banks, data_blk_per_bank, sectors_per_vblk, sectors_per_page}
use msst2015_ftl.Layout.{num_wr_buffers}
use msst2015_ftl.State.{Ftl}
use msst2015_ftl.Memory.{wr_buf_ptr, read_dram_32}
use msst2015_ftl.Request.{trim_range}
use msst2015_ftl.Trim.{trim_chunk}

-- The body of the inner loop: the range that starts at word `i` of a buffer. A range that is empty or
-- starts behind the last sector is left out.
unfoldable pub trim_entry : Ftl → ℕ → ℕ → Run Ftl
trim_entry s buf i =
    let range_to_trim = read_dram_32 s (buf + (i + 1) * 4) / 2 ^ 16 % 2 ^ 16 in
    let lba_to_trim = read_dram_32 s (buf + i * 4) in
    if range_to_trim == 0
    then ok s
    else if ltb lba_to_trim (num_banks * data_blk_per_bank * sectors_per_vblk)
    then trim_range trim_chunk lba_to_trim range_to_trim s
    else ok s

unfoldable pub trim_entries : ℕ → Ftl → ℕ → ℕ → Run Ftl
trim_entries zero s buf i = ok s
trim_entries (suc rounds) s buf i = do s' ← trim_entry s buf i; trim_entries rounds s' buf (i + 2)

-- The loop over the buffers, from buffer `n` of the request on. A sector has 64 ranges.
unfoldable pub trim_buffers : ℕ → Ftl → ℕ → ℕ → Run Ftl
trim_buffers zero s n num_sectors = ok s
trim_buffers (suc rounds) s n num_sectors = do
  let in_buf = if ltb sectors_per_page num_sectors then sectors_per_page else num_sectors
  s' ← trim_entries (in_buf * 64) s (wr_buf_ptr ((s.write_buf_id + n) % num_wr_buffers)) 0
  trim_buffers rounds s' (n + 1) (num_sectors - in_buf)

unfoldable pub ftl_trim : ℕ → Ftl → Run Ftl
ftl_trim num_sectors s = do
  let num_sata_buffers = u32 (num_sectors + sectors_per_page - 1) / sectors_per_page
  s' ← trim_buffers num_sata_buffers s 0 num_sectors
  ok (record s' { write_buf_id = (s'.write_buf_id + num_sata_buffers) % num_wr_buffers })
