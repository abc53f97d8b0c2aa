-- ===== src/Request/Keeps.antt =====
-- What every trimmed chunk keeps, trimRange of ftl_seal/ftl.c keeps.
use msst2015_ftl.Base.{ℕ, zero, suc, ◌+◌, ◌-◌, ◌/◌, ◌%◌, ◌==◌, ◌&&◌, not, ltb, u32}
use msst2015_ftl.Base.Run.{Run, Partly, back, ran_out, Partly-step, Partly-test}
use msst2015_ftl.Params.{sectors_per_page, sectors_per_chunk, chunks_per_page}
use msst2015_ftl.Request.{sects_in_chunk, trim_page, trim_loop, trim_range}

module _ {ℓ} {S : Type ℓ} (trim_chunk : ℕ → ℕ → S → Run S) (Kept : S → Type 0)
    (keeps : (lpn chunk_idx : ℕ) (s : S) → Kept s → Partly Kept (trim_chunk lpn chunk_idx s)) where
  trim_page-Partly :
      (rounds lpn chunk_idx sect_offset remaining : ℕ) (s : S)
      → Kept s
      → Partly
          (λ (done : ℕ × S). Kept done.1)
          (trim_page trim_chunk rounds lpn chunk_idx sect_offset remaining s)
  unfolding trim_page
  trim_page-Partly zero lpn chunk_idx sect_offset remaining s k = back k
  trim_page-Partly (suc rounds) lpn chunk_idx sect_offset remaining s k =
      let in_chunk = sect_offset % sectors_per_chunk in
      let n = sects_in_chunk in_chunk remaining in
      Partly-test (not (remaining == 0) && ltb chunk_idx chunks_per_page)
        (Partly-step _
          (Partly-test ((in_chunk == 0) && not (ltb n sectors_per_chunk)) (keeps lpn chunk_idx s k)
            (back k))
          λ s' k'.
            trim_page-Partly rounds lpn (chunk_idx + 1) (sect_offset + n) (remaining - n) s' k')
        (back k)

  trim_loop-Partly :
      (fuel lpn sect_offset remaining : ℕ) (s : S)
      → Kept s
      → Partly Kept (trim_loop trim_chunk fuel lpn sect_offset remaining s)
  unfolding trim_loop
  trim_loop-Partly zero lpn sect_offset remaining s k =
      Partly-test (remaining == 0) (back k) ran_out
  trim_loop-Partly (suc fuel) lpn sect_offset remaining s k =
      Partly-test (remaining == 0) (back k) (
        Partly-step _
          (trim_page-Partly chunks_per_page lpn (sect_offset / sectors_per_chunk) sect_offset
            remaining s k)
          λ (done : ℕ × S) k'. trim_loop-Partly fuel (u32 (lpn + 1)) 0 done.0 done.1 k')

  pub trim_range-Partly :
      (lba n_sectors : ℕ) (s : S) → Kept s → Partly Kept (trim_range trim_chunk lba n_sectors s)
  unfolding trim_range
  trim_range-Partly lba n_sectors s k =
      trim_loop-Partly n_sectors (lba / sectors_per_page) (lba % sectors_per_page) n_sectors s k
