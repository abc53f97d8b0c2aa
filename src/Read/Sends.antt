-- ===== src/Read/Sends.antt =====
-- A read sends the bytes that the page is mapped to.
use msst2015_ftl.Base.{
  ℕ, zero, suc, ◌+◌, ◌*◌, ◌/◌, ◌%◌, ◌-◌, ◌<◌, ◌≤◌, ◌≡◌, ◌⊎◌, inl, inr, refl, sym, ap, subst, ◌∙◌,
  arith, true, false, update_self, Bool-cases, ◌==◌, eqb→eq, if◌then◌else◌,
}
use msst2015_ftl.Base.Run.{ok, Yields, yields, Yields-weaken, Yields-step, Yields-test}
use msst2015_ftl.Params.{
  bytes_per_chunk, bytes_per_sector, chunks_per_page, sectors_per_page, sectors_per_chunk,
}
use msst2015_ftl.Layout.{chunks_map_table, num_rd_buffers}
use msst2015_ftl.Chunk.{find_chunk_location}
use msst2015_ftl.State.{Ftl}
use msst2015_ftl.Memory.{ftl_buf, rd_buf_ptr, mem_copy}
use msst2015_ftl.Read.{
  Reading, chunk_dst, read_mode, rebuild_chunk, rebuild_loop, rebuild_page_to_ftl_buf,
  read_from_log_blk,
}
use msst2015_ftl.Read.Bytes.{page_byte}
use msst2015_ftl.Read.Step.{IsReading, IsOutside}
use msst2015_ftl.Read.Gather.{Continues}
use msst2015_ftl.Read.Flash.{marked, marked_still}
use msst2015_ftl.Read.Rebuild.{chunk-Continues}

-- The state after a page is put together: all chunks from `first` to `last` are done.
pub record Finishes (s : Ftl) (lpn first last : ℕ) (r r' : Reading) : Type 0 where
  pub continues : Continues s lpn r r'
  pub done : (k : ℕ) → first ≤ k → k < last → r'.chunks_done k ≡ true

module _ (s : Ftl) (lpn : ℕ) where
  loop_step :
      (r : Reading) (last_chunk idx : ℕ)
      → IsReading s lpn r
      → idx < last_chunk
      → last_chunk ≤ chunks_per_page
      → let old = r.ftl.chunk_map (chunks_map_table lpn idx) in
        Yields
          (λ r'. Continues s lpn r r' × (r'.chunks_done idx ≡ true))
          (if r.chunks_done idx
            then ok r
            else rebuild_chunk
                (find_chunk_location old)
                read_mode
                (marked r idx)
                lpn
                last_chunk
                idx
                old)
  loop_step r last_chunk idx h idx_ok last_ok =
      Yields-test (r.chunks_done idx)
        (λ done. yields (record { reading = h; still = λ k d. d }, done))
        (λ todo.
          subst
            (λ (m : ℕ → ℕ).
              Yields (λ r'. Continues s lpn r r' × (r'.chunks_done idx ≡ true))
                (rebuild_chunk (find_chunk_location (m (chunks_map_table lpn idx))) read_mode
                  (marked r idx) lpn last_chunk idx (m (chunks_map_table lpn idx))))
            (ap (λ (x : Ftl). x.chunk_map) (sym h.same))
            (Yields-weaken
              (λ r' c. (
                record { reading = c.reading; still = λ k d. c.still k (marked_still r idx k d) },
                c.still idx (update_self r.chunks_done idx true),
              ))
              (chunk-Continues s lpn r last_chunk idx _ h idx_ok last_ok refl)))

  rebuild_loop-Finishes :
      (rounds : ℕ) (r : Reading) (last_chunk idx : ℕ)
      → IsReading s lpn r
      → idx + rounds ≡ last_chunk
      → last_chunk ≤ chunks_per_page
      → Yields
          (Finishes s lpn idx last_chunk r)
          (rebuild_loop rounds read_mode r lpn last_chunk idx)
  unfolding rebuild_loop
  rebuild_loop-Finishes zero r last_chunk idx h count last_ok = yields (record {
    continues = record { reading = h; still = λ k d. d };
    done = λ k ge lt. absurd (omega arith);
  })
  rebuild_loop-Finishes (suc rounds) r last_chunk idx h count last_ok =
      Yields-step _ (loop_step r last_chunk idx h (omega arith) last_ok) λ r1 c.
        Yields-weaken
          (λ r2 f. record {
            continues = record {
              reading = f.continues.reading;
              still = λ k d. f.continues.still k (c.0.still k d);
            };
            done = λ k ge lt. elim (Bool-cases (idx == k)) [
              | inl eq ↦
                  subst (λ x. r2.chunks_done x ≡ true) (eqb→eq idx k eq) (f.continues.still idx c.1)
              | inr ne ↦ f.done k (ground (arith, ne, ge)) lt
            ];
          })
          (rebuild_loop-Finishes rounds r1 last_chunk (idx + 1) c.0.reading (omega arith) last_ok)

-- What a part of a page is put together to.
pub record IsRebuilt (s : Ftl) (lpn sect_offset n_sects : ℕ) (s' : Ftl) : Type 0 where
  pub same : s' ≡ record s { buffers = s'.buffers }
  pub outside : (a : ℕ) → IsOutside a → s'.buffers a ≡ s.buffers a
  pub right :
      (b : ℕ)
      → sect_offset * bytes_per_sector ≤ b
      → b < (sect_offset + n_sects) * bytes_per_sector
      → s'.buffers (ftl_buf 0 + b) ≡ page_byte s lpn b

-- In ReadMode, rebuildPageToFtlBuf of a part of a page ends with the bytes that the page is mapped to
-- in FTL_BUF(0), and changes nothing but this buffer and TEMP_BUF.
pub rebuild_page_to_ftl_buf-IsRebuilt :
    (s : Ftl) (lpn sect_offset n_sects : ℕ)
    → sect_offset + n_sects ≤ sectors_per_page
    → Yields
        (IsRebuilt s lpn sect_offset n_sects)
        (rebuild_page_to_ftl_buf s lpn sect_offset n_sects read_mode)
unfolding rebuild_page_to_ftl_buf page_byte
rebuild_page_to_ftl_buf-IsRebuilt s lpn sect_offset n_sects fits =
    let first = sect_offset / sectors_per_chunk in
    let last = (sect_offset + n_sects + sectors_per_chunk - 1) / sectors_per_chunk in
    Yields-step _
      (rebuild_loop-Finishes s lpn (last - first) (record { ftl = s; chunks_done = λ _. false })
        last first (record { same = refl; outside = λ a _. refl; right = λ i j _ _ f. cc })
        (omega arith) (omega arith))
      λ r f. yields (record {
        same = f.continues.reading.same;
        outside = f.continues.reading.outside;
        right = λ b low high.
            let place : ftl_buf 0 + b ≡ chunk_dst (b / bytes_per_chunk) + b % bytes_per_chunk =
              omega arith in
            ap r.ftl.buffers place
            ∙ f.continues.reading.right (b / bytes_per_chunk) (b % bytes_per_chunk) (omega arith)
                (omega arith) (f.done (b / bytes_per_chunk) (omega arith) (omega arith));
      })

-- What a read does: the bytes of the sectors are in the read buffer, which is passed on.
pub record Sends (s : Ftl) (lpn sect_offset n_sects : ℕ) (s' : Ftl) : Type 0 where
  pub same :
      s' ≡ record s { buffers = s'.buffers; read_buf_id = (s.read_buf_id + 1) % num_rd_buffers }
  pub sent :
      (b : ℕ)
      → sect_offset * bytes_per_sector ≤ b
      → b < (sect_offset + n_sects) * bytes_per_sector
      → s'.buffers (rd_buf_ptr s.read_buf_id + b) ≡ page_byte s lpn b
  pub outside :
      (a : ℕ)
      → IsOutside a
      → (a < rd_buf_ptr s.read_buf_id + sect_offset * bytes_per_sector)
        ⊎ (rd_buf_ptr s.read_buf_id + (sect_offset + n_sects) * bytes_per_sector ≤ a)
      → s'.buffers a ≡ s.buffers a

-- readFromLogBlk of a part of a page puts the bytes that the page is mapped to in the next read buffer:
-- of each chunk those of its flash page, or of its DRAM buffer, and 0xFF for a chunk that is not
-- mapped. It passes the read buffer on, and changes nothing else but FTL_BUF(0) and TEMP_BUF.
pub read_from_log_blk-Sends :
    (s : Ftl) (lpn sect_offset n_sects : ℕ)
    → sect_offset + n_sects ≤ sectors_per_page
    → s.read_buf_id < num_rd_buffers
    → Yields (Sends s lpn sect_offset n_sects) (read_from_log_blk lpn sect_offset n_sects s)
unfolding read_from_log_blk mem_copy
read_from_log_blk-Sends s lpn sect_offset n_sects fits id_ok =
    Yields-step _ (rebuild_page_to_ftl_buf-IsRebuilt s lpn sect_offset n_sects fits) λ s' h.
      let id_same : s'.read_buf_id ≡ s.read_buf_id = ap (λ (x : Ftl). x.read_buf_id) h.same in
      let dst = rd_buf_ptr s.read_buf_id + sect_offset * bytes_per_sector in
      let src = ftl_buf 0 + sect_offset * bytes_per_sector in
      let sent = λ (id : ℕ).
        mem_copy s' (rd_buf_ptr id + sect_offset * bytes_per_sector) src
          (n_sects * bytes_per_sector) in
      yields (record {
        same =
            ap
              (λ (x : Ftl). record x {
                buffers = (sent s'.read_buf_id).buffers;
                read_buf_id = (s'.read_buf_id + 1) % num_rd_buffers;
              })
              h.same
            ∙ ap
                (λ (id : ℕ). record s {
                  buffers = (sent s'.read_buf_id).buffers;
                  read_buf_id = (id + 1) % num_rd_buffers;
                })
                id_same;
        sent = λ b low high.
            let from : src + (rd_buf_ptr s.read_buf_id + b - dst) ≡ ftl_buf 0 + b = omega arith in
            subst (λ id. (sent id).buffers (rd_buf_ptr s.read_buf_id + b) ≡ page_byte s lpn b)
              (sym id_same) (ground (arith, low, high, from) ∙ h.right b low high);
        outside = λ a out not_sent.
            subst (λ id. (sent id).buffers a ≡ s.buffers a) (sym id_same)
              (ground (arith, not_sent) ∙ h.outside a out);
      })
