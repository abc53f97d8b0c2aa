-- ===== src/Read/Gather.antt =====
-- setupFlashPageRead finds chunks of one flash page, and readCompletePage puts them in their places.
use msst2015_ftl.Base.{
  ℕ, zero, suc, ◌+◌, ◌*◌, ◌%◌, ◌-◌, ◌<◌, ◌≤◌, ◌≡◌, ◌≢◌, ◌⊎◌, inl, inr, refl, sym, ap, subst, ◌∙◌,
  arith, Bool, true, false, update, Bool-cases, List, [], ◌∷◌, ◌++◌,
}
use msst2015_ftl.Base.Run.{Yields, yields, Yields-weaken}
use msst2015_ftl.Params.{bytes_per_chunk, bytes_per_page, bytes_per_sector, chunks_per_page}
use msst2015_ftl.Layout.{temp_buf_addr, chunks_map_table}
use msst2015_ftl.Chunk.{
  ChunkLocation, invalid_chunk, flash_w_log, dram_w_log, dram_ow_log, flash_ow_log,
  find_chunk_location, chunk_to_sect_offset, clear_ow_bit,
}
use msst2015_ftl.State.{Ftl}
use msst2015_ftl.Memory.{mem_copy}
use msst2015_ftl.Read.{
  Reading, Part, chunk_dst, read_mode, chunks_in_same_flash_page, gather_chunk,
  setup_flash_page_read, copy_parts, count_out,
}
use msst2015_ftl.Read.Bytes.{
  flash_page_byte, located_byte, chunk_byte, ftl_buf-le-temp_buf, chunk_to_sect_offset-le,
}
use msst2015_ftl.Read.Step.{IsReading, done-IsReading}

-- The part names a chunk of page `lpn`, and where its bytes are in the flash page of chunk `old`.
pub record IsPartOf (s : Ftl) (lpn old : ℕ) (p : Part) : Type 0 where
  pub idx_ok : p.idx < chunks_per_page
  pub within : p.offset + bytes_per_chunk ≤ bytes_per_page
  pub aligned : p.offset % bytes_per_sector ≡ 0
  pub bytes :
      (j : ℕ)
      → j < bytes_per_chunk
      → flash_page_byte s old (p.offset + j)
        ≡ chunk_byte s (s.chunk_map (chunks_map_table lpn p.idx)) j

abbrev pub All {ℓ κ} : {A : Type ℓ} → (A → Type κ) → List A → Type κ
All P [] = Unit
All P (x ∷ xs) = P x × All P xs

All-append {ℓ κ} :
    {A : Type ℓ} (P : A → Type κ) (xs ys : List A) → All P xs → All P ys → All P (xs ++ ys)
All-append P [] ys h k = k
All-append P (x ∷ xs) ys h k = (h.0, All-append P xs ys h.1 k)

same_page_byte :
    (s : Ftl) (a b i : ℕ)
    → chunks_in_same_flash_page a b ≡ true
    → flash_page_byte s a i ≡ flash_page_byte s b i
unfolding chunks_in_same_flash_page flash_page_byte
same_page_byte s a b i same = ground arith

part_of :
    (s : Ftl) (lpn old i chunk : ℕ) (in_ow : Bool)
    → i < chunks_per_page
    → chunks_in_same_flash_page old chunk ≡ true
    → ((j : ℕ)
        → chunk_byte s (s.chunk_map (chunks_map_table lpn i)) j
          ≡ flash_page_byte s chunk (chunk_to_sect_offset chunk * bytes_per_sector + j))
    → IsPartOf s lpn old
        (record { offset = chunk_to_sect_offset chunk * bytes_per_sector; idx = i; in_ow = in_ow })
part_of s lpn old i chunk in_ow i_ok same is = record {
  idx_ok = i_ok;
  within = chunk_to_sect_offset-le chunk;
  aligned = omega arith;
  bytes = λ j j_ok. same_page_byte s old chunk _ same ∙ sym (is j);
}

gather_chunk-IsPartOf :
    (s : Ftl) (lpn old i : ℕ) (location : ChunkLocation)
    → i < chunks_per_page
    → location ≡ find_chunk_location (s.chunk_map (chunks_map_table lpn i))
    → All (IsPartOf s lpn old) (gather_chunk location old (s.chunk_map (chunks_map_table lpn i)) i)
unfolding gather_chunk chunk_byte located_byte
gather_chunk-IsPartOf s lpn old i invalid_chunk i_ok at = tt
gather_chunk-IsPartOf s lpn old i dram_w_log i_ok at = tt
gather_chunk-IsPartOf s lpn old i dram_ow_log i_ok at = tt
gather_chunk-IsPartOf s lpn old i flash_w_log i_ok at =
    let next = s.chunk_map (chunks_map_table lpn i) in
    elim (Bool-cases (chunks_in_same_flash_page old next)) [
      | inl same ↦ rw same (part_of s lpn old i next false i_ok same (λ j. rw (sym at) refl), tt)
      | inr other ↦ rw other tt
    ]
gather_chunk-IsPartOf s lpn old i flash_ow_log i_ok at =
    let next = clear_ow_bit (s.chunk_map (chunks_map_table lpn i)) in
    elim (Bool-cases (chunks_in_same_flash_page old next)) [
      | inl same ↦ rw same (part_of s lpn old i next true i_ok same (λ j. rw (sym at) refl), tt)
      | inr other ↦ rw other tt
    ]

pub setup_flash_page_read-IsPartOf :
    (s : Ftl) (rounds : ℕ) (r : Reading) (lpn old i : ℕ)
    → r.ftl.chunk_map ≡ s.chunk_map
    → i + rounds ≤ chunks_per_page
    → All (IsPartOf s lpn old) (setup_flash_page_read rounds r lpn old i)
unfolding setup_flash_page_read
setup_flash_page_read-IsPartOf s zero r lpn old i same le = tt
setup_flash_page_read-IsPartOf s (suc rounds) r lpn old i same le =
    let rest = setup_flash_page_read-IsPartOf s rounds r lpn old (i + 1) same (omega arith) in
    elim (Bool-cases (r.chunks_done i)) [
      | inl done ↦ rw done rest
      | inr todo ↦ rw todo (
          All-append (IsPartOf s lpn old)
            (gather_chunk (find_chunk_location (r.ftl.chunk_map (chunks_map_table lpn i))) old
              (r.ftl.chunk_map (chunks_map_table lpn i)) i)
            (setup_flash_page_read rounds r lpn old (i + 1))
            (subst
              (λ (m : ℕ → ℕ). All (IsPartOf s lpn old) (
                gather_chunk (find_chunk_location (m (chunks_map_table lpn i))) old
                  (m (chunks_map_table lpn i)) i))
              (sym same) (gather_chunk-IsPartOf s lpn old i _ (omega arith) refl))
            rest)
    ]

-- TEMP_BUF holds the flash page of chunk `old`.
abbrev pub HoldsPage : Ftl → ℕ → (ℕ → ℕ) → Type 0
HoldsPage s old buffers =
    (i : ℕ) → i < bytes_per_page → buffers (temp_buf_addr + i) ≡ flash_page_byte s old i

-- One part is copied from TEMP_BUF.
pub copy_part :
    {s : Ftl} {lpn : ℕ} (r : Reading) (t : Ftl) (old : ℕ) (p : Part) (done : ℕ → Bool)
    → IsReading s lpn r
    → t ≡ record s { buffers = t.buffers }
    → HoldsPage s old t.buffers
    → ((a : ℕ)
        → (a < temp_buf_addr) ⊎ (temp_buf_addr + bytes_per_page ≤ a)
        → t.buffers a ≡ r.ftl.buffers a)
    → IsPartOf s lpn old p
    → ((k : ℕ) → p.idx ≢ k → done k ≡ true → r.chunks_done k ≡ true)
    → let t' = mem_copy t (chunk_dst p.idx) (temp_buf_addr + p.offset) bytes_per_chunk in
      IsReading s lpn (record { ftl = t'; chunks_done = done }) × HoldsPage s old t'.buffers
unfolding mem_copy
copy_part {s} {lpn} r t old p done h same holds kept part old_done = (
  done-IsReading r p.idx (mem_copy t (chunk_dst p.idx) (temp_buf_addr + p.offset) bytes_per_chunk)
      done h part.idx_ok
      (ap (λ (x : Ftl). mem_copy x (chunk_dst p.idx) (temp_buf_addr + p.offset) bytes_per_chunk)
        same)
      (λ a out not_temp. ground (arith, out, kept a not_temp))
      (λ j j_ok.
        let in_place : chunk_dst p.idx + j - chunk_dst p.idx ≡ j = omega arith in
        let from : temp_buf_addr + p.offset + j ≡ temp_buf_addr + (p.offset + j) = omega arith in
        let fits = part.within in
        ground (arith, j_ok, in_place, from, holds (p.offset + j) (omega arith))
        ∙ part.bytes j j_ok)
      old_done,
  λ i i_ok.
      let idx_ok = part.idx_ok in
      let below : chunk_dst p.idx + bytes_per_chunk ≤ temp_buf_addr + i =
        omega (arith, ftl_buf-le-temp_buf) in
      ground (arith, below, holds i i_ok),
)

-- The next state of reading: what was done stays done.
pub record Continues (s : Ftl) (lpn : ℕ) (r r' : Reading) : Type 0 where
  pub reading : IsReading s lpn r'
  pub still : (k : ℕ) → r.chunks_done k ≡ true → r'.chunks_done k ≡ true

pub copy_parts-Continues :
    {s : Ftl} {lpn : ℕ} (r : Reading) (old : ℕ) (ps : List Part)
    → IsReading s lpn r
    → HoldsPage s old r.ftl.buffers
    → All (IsPartOf s lpn old) ps
    → Yields (Continues s lpn r) (copy_parts read_mode r old ps)
unfolding copy_parts count_out
copy_parts-Continues r old [] h holds parts = yields (record { reading = h; still = λ k d. d })
copy_parts-Continues {s} {lpn} r old (p ∷ ps) h holds parts =
    let done' = update r.chunks_done p.idx true in
    let copied =
      copy_part r r.ftl old p done' h h.same holds (λ a _. refl) parts.0
        (λ k ne d. ground (arith, ne, d)) in
    Yields-weaken
      (λ r' c. record { reading = c.reading; still = λ k d. c.still k (ground (arith, d)) })
      (copy_parts-Continues
        (record {
          ftl = mem_copy r.ftl (chunk_dst p.idx) (temp_buf_addr + p.offset) bytes_per_chunk;
          chunks_done = done';
        })
        old ps copied.0 copied.1 parts.1)
