-- ===== src/Read/Step.antt =====
-- What holds while a page is put together in ReadMode.
use msst2015_ftl.Base.{
  ℕ, ◌+◌, ◌<◌, ◌≤◌, ◌≡◌, ◌≢◌, ◌⊎◌, inl, inr, subst, ◌∙◌, arith, Bool, true, ◌==◌, Bool-cases,
  eqb→eq,
}
use msst2015_ftl.Params.{bytes_per_chunk, bytes_per_page, chunks_per_page}
use msst2015_ftl.Layout.{temp_buf_addr, chunks_map_table}
use msst2015_ftl.State.{Ftl}
use msst2015_ftl.Memory.{ftl_buf}
use msst2015_ftl.Read.{Reading, chunk_dst}
use msst2015_ftl.Read.Bytes.{chunk_byte, ftl_buf-le-temp_buf}

-- The byte is in neither FTL_BUF(0) nor TEMP_BUF.
abbrev pub IsOutside : ℕ → Type 0
IsOutside a =
    ((a < ftl_buf 0) ⊎ (ftl_buf 0 + bytes_per_page ≤ a))
    × ((a < temp_buf_addr) ⊎ (temp_buf_addr + bytes_per_page ≤ a))

-- From `s`, only these two buffers have changed, and each chunk of page `lpn` that is marked as done
-- is in its place in FTL_BUF(0).
pub record IsReading (s : Ftl) (lpn : ℕ) (r : Reading) : Type 0 where
  pub same : r.ftl ≡ record s { buffers = r.ftl.buffers }
  pub outside : (a : ℕ) → IsOutside a → r.ftl.buffers a ≡ s.buffers a
  pub right :
      (i j : ℕ)
      → i < chunks_per_page
      → j < bytes_per_chunk
      → r.chunks_done i ≡ true
      → r.ftl.buffers (chunk_dst i + j) ≡ chunk_byte s (s.chunk_map (chunks_map_table lpn i)) j

-- A chunk is put in its place; TEMP_BUF may change too.
pub done-IsReading :
    {s : Ftl} {lpn : ℕ} (r : Reading) (i : ℕ) (t : Ftl) (done : ℕ → Bool)
    → IsReading s lpn r
    → i < chunks_per_page
    → t ≡ record s { buffers = t.buffers }
    → ((a : ℕ)
        → (a < chunk_dst i) ⊎ (chunk_dst i + bytes_per_chunk ≤ a)
        → (a < temp_buf_addr) ⊎ (temp_buf_addr + bytes_per_page ≤ a)
        → t.buffers a ≡ r.ftl.buffers a)
    → ((j : ℕ)
        → j < bytes_per_chunk
        → t.buffers (chunk_dst i + j) ≡ chunk_byte s (s.chunk_map (chunks_map_table lpn i)) j)
    → ((k : ℕ) → i ≢ k → done k ≡ true → r.chunks_done k ≡ true)
    → IsReading s lpn (record { ftl = t; chunks_done = done })
done-IsReading {s} {lpn} r i t done h i_ok same kept new old = record {
  same = same;
  outside = λ a out.
      kept a (elim out.0 [ inl lt ↦ inl (omega arith) | inr ge ↦ inr (omega arith) ]) out.1
      ∙ h.outside a out;
  right = λ k j k_ok j_ok is_done. elim (Bool-cases (i == k)) [
    | inl eq ↦
        subst
          (λ x. t.buffers (chunk_dst x + j) ≡ chunk_byte s (s.chunk_map (chunks_map_table lpn x)) j)
          (eqb→eq i k eq) (new j j_ok)
    | inr ne ↦
        let differ : i ≢ k = λ e. ground (arith, ne, e) in
        kept (chunk_dst k + j) (ground (arith, differ, j_ok, k_ok, i_ok))
          (inl (omega (arith, ftl_buf-le-temp_buf)))
        ∙ h.right k j k_ok j_ok (old k differ is_done)
  ];
}
