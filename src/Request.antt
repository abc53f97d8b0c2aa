-- ===== src/Request.antt =====
-- ftl_read, ftl_write and trimRange of ftl_seal/ftl.c: how a range of sectors is split into pages and
-- chunks. What is done with a page (readFromLogBlk, writeToLogBlk, overwriteToLogBlk) or after a
-- write (backgroundCleaning) is a parameter.
mod Split
mod Pages
mod Chunks
pub mod Keeps
mod Tests
use msst2015_ftl.Base.{
  ℕ, zero, suc, ◌+◌, ◌-◌, ◌*◌, ◌/◌, ◌%◌, ◌^◌, Bool, ltb, ◌==◌, ◌&&◌, not, if◌then◌else◌, u32,
}
use msst2015_ftl.Base.Run.{Run, ok, out_of_fuel, ◌>>=◌}
use msst2015_ftl.Params.{sectors_per_page, sectors_per_chunk, chunks_per_page}

-- overwriteBitPosition, for more than 2048 blocks of the user's
abbrev pub overwrite_bit_position : ℕ
overwrite_bit_position = 24

-- (lba & overwriteBitMask) != 0
unfoldable pub is_overwrite : ℕ → Bool
is_overwrite lba = not ((lba / 2 ^ overwrite_bit_position) % 2 == 0)

-- lba & overwriteLbaMask
unfoldable pub overwrite_lba : ℕ → ℕ
overwrite_lba lba = lba % 2 ^ overwrite_bit_position

-- The sectors of the request that fall in the page.
unfoldable pub sects_in_page : ℕ → ℕ → ℕ
sects_in_page sect_offset remain_sects =
    if ltb (u32 (sect_offset + remain_sects)) sectors_per_page
    then remain_sects
    else sectors_per_page - sect_offset

module _ {ℓ} {S : Type ℓ} (on_page : ℕ → ℕ → ℕ → S → Run S) where
  -- The while loop of ftl_read and of the two branches of ftl_write.
  unfoldable pub page_loop : ℕ → ℕ → ℕ → ℕ → S → Run S
  page_loop zero lpn sect_offset remain_sects s = if remain_sects == 0 then ok s else out_of_fuel
  page_loop (suc fuel) lpn sect_offset remain_sects s =
      let n = sects_in_page sect_offset remain_sects in
      let round : Run S = on_page lpn sect_offset n s >>= λ s'.
      page_loop fuel (u32 (lpn + 1)) 0 (remain_sects - n) s' in
      if remain_sects == 0 then ok s else round

  -- A request for `num_sectors` sectors from `lba` on; every round takes at least one.
  unfoldable pub split_pages : ℕ → ℕ → S → Run S
  split_pages lba num_sectors s =
      page_loop num_sectors (lba / sectors_per_page) (lba % sectors_per_page) num_sectors s

module _ {ℓ} {S : Type ℓ} (read_from_log_blk : ℕ → ℕ → ℕ → S → Run S) where
  unfoldable pub ftl_read : ℕ → ℕ → S → Run S
  ftl_read lba num_sectors s = split_pages read_from_log_blk (overwrite_lba lba) num_sectors s

module _ {ℓ} {S : Type ℓ} (count_writes : ℕ → S → S)
    (write_to_log_blk overwrite_to_log_blk : ℕ → ℕ → ℕ → S → Run S)
    (background_cleaning : S → Run S) where
  -- `count_writes` adds the sectors to userSecWrites.
  unfoldable pub ftl_write : ℕ → ℕ → S → Run S
  ftl_write lba n_sects s = do
    s' ←
        if is_overwrite lba
        then split_pages overwrite_to_log_blk (overwrite_lba lba) n_sects (count_writes n_sects s)
        else split_pages write_to_log_blk lba n_sects (count_writes n_sects s)
    background_cleaning s'

-- The sectors of the range that fall in the chunk.
unfoldable pub sects_in_chunk : ℕ → ℕ → ℕ
sects_in_chunk sect_offset_in_chunk remaining_sectors =
    if ltb (u32 (sect_offset_in_chunk + remaining_sectors)) sectors_per_chunk
    then remaining_sectors
    else sectors_per_chunk - sect_offset_in_chunk

module _ {ℓ} {S : Type ℓ} (trim_chunk : ℕ → ℕ → S → Run S) where
  -- The inner loop of trimRange, over the chunks of page `lpn`: the state and the sectors that remain.
  -- It has at most `rounds` rounds: those left in the page.
  unfoldable pub trim_page : ℕ → ℕ → ℕ → ℕ → ℕ → S → Run (ℕ × S)
  trim_page zero lpn chunk_idx sect_offset remaining s = ok (remaining, s)
  trim_page (suc rounds) lpn chunk_idx sect_offset remaining s =
      let in_chunk = sect_offset % sectors_per_chunk in
      let n = sects_in_chunk in_chunk remaining in
      let whole = (in_chunk == 0) && not (ltb n sectors_per_chunk) in
      let round : Run (ℕ × S) = do
        s' ← if whole then trim_chunk lpn chunk_idx s else ok s
        trim_page rounds lpn (chunk_idx + 1) (sect_offset + n) (remaining - n) s'
      in if not (remaining == 0) && ltb chunk_idx chunks_per_page then round else ok (remaining, s)

  -- The outer loop, over the pages.
  unfoldable pub trim_loop : ℕ → ℕ → ℕ → ℕ → S → Run S
  trim_loop zero lpn sect_offset remaining s = if remaining == 0 then ok s else out_of_fuel
  trim_loop (suc fuel) lpn sect_offset remaining s =
      let round : Run S = do
        done ←
            trim_page chunks_per_page lpn (sect_offset / sectors_per_chunk) sect_offset remaining s
        trim_loop fuel (u32 (lpn + 1)) 0 done.0 done.1
      in if remaining == 0 then ok s else round

  unfoldable pub trim_range : ℕ → ℕ → S → Run S
  trim_range lba n_sectors s =
      trim_loop n_sectors (lba / sectors_per_page) (lba % sectors_per_page) n_sectors s
