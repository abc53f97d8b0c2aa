-- ===== src/Host/Kept.antt =====
-- Trimming a range leaves the write buffers (ftl_trim of ftl_seal/ftl.c).
use msst2015_ftl.Base.{ℕ, zero, suc, ◌+◌, ◌≡◌}
use msst2015_ftl.Base.Run.{Partly, back, Partly-step, Partly-any, Partly-test}
use msst2015_ftl.Chunk.{
  ChunkLocation, invalid_chunk, flash_w_log, dram_w_log, dram_ow_log, flash_ow_log, chunk_to_bank,
  chunk_to_lbn, clear_ow_bit,
}
use msst2015_ftl.Heap.Ops.{decrement_valid_chunks}
use msst2015_ftl.State.{Ftl}
use msst2015_ftl.Request.Keeps.{trim_range-Partly}
use msst2015_ftl.Trim.{drop_chunk, trim_chunk}
use msst2015_ftl.Host.{trim_entry, trim_entries}

-- Trimming leaves the payload.
pub record KeepsPayload (p s : Ftl) : Type 0 where
  pub buffers_same : s.buffers ≡ p.buffers
  pub id_same : s.write_buf_id ≡ p.write_buf_id

drop_chunk-Partly :
    (p : Ftl) (location : ChunkLocation) (old : ℕ) (s : Ftl)
    → KeepsPayload p s
    → Partly (KeepsPayload p) (drop_chunk location old s)
unfolding drop_chunk
drop_chunk-Partly p invalid_chunk old s k = back k
drop_chunk-Partly p flash_w_log old s k =
    Partly-step _
      (Partly-any (decrement_valid_chunks s.heap_write (chunk_to_bank old) (chunk_to_lbn old)))
      λ h _. back (record { buffers_same = k.buffers_same; id_same = k.id_same })
drop_chunk-Partly p dram_w_log old s k =
    back (record { buffers_same = k.buffers_same; id_same = k.id_same })
drop_chunk-Partly p dram_ow_log old s k =
    back (record { buffers_same = k.buffers_same; id_same = k.id_same })
drop_chunk-Partly p flash_ow_log old s k =
    Partly-step _
      (Partly-any (
        decrement_valid_chunks s.heap_overwrite (chunk_to_bank (clear_ow_bit old))
          (chunk_to_lbn (clear_ow_bit old))))
      λ h _. back (record { buffers_same = k.buffers_same; id_same = k.id_same })

trim_chunk-Partly :
    (p : Ftl) (lpn chunk_idx : ℕ) (s : Ftl)
    → KeepsPayload p s
    → Partly (KeepsPayload p) (trim_chunk lpn chunk_idx s)
unfolding trim_chunk
trim_chunk-Partly p lpn chunk_idx s k =
    Partly-step _ (drop_chunk-Partly p _ _ s k)
      λ s' k'. back (record { buffers_same = k'.buffers_same; id_same = k'.id_same })

pub trim_entry-Partly :
    (p s : Ftl) (buf i : ℕ) → KeepsPayload p s → Partly (KeepsPayload p) (trim_entry s buf i)
unfolding trim_entry
trim_entry-Partly p s buf i k = Partly-test _ (back k) (
    Partly-test _ (trim_range-Partly trim_chunk (KeepsPayload p) (trim_chunk-Partly p) _ _ s k)
      (back k))

pub trim_entries-Partly :
    (rounds : ℕ) (p s : Ftl) (buf i : ℕ)
    → KeepsPayload p s
    → Partly (KeepsPayload p) (trim_entries rounds s buf i)
unfolding trim_entries
trim_entries-Partly zero p s buf i k = back k
trim_entries-Partly (suc rounds) p s buf i k =
    Partly-step _ (trim_entry-Partly p s buf i k)
      λ s' k'. trim_entries-Partly rounds p s' buf (i + 2) k'
