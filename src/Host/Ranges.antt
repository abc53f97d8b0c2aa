-- ===== src/Host/Ranges.antt =====
-- Which ranges ftl_trim of ftl_seal/ftl.c trims.
use msst2015_ftl.Base.{
  ℕ, zero, suc, ◌+◌, ◌*◌, ◌/◌, ◌%◌, ◌-◌, ◌^◌, ◌<◌, ◌≤◌, ◌≡◌, refl, sym, ap, subst, ◌∙◌, arith, ltb,
  u32, Bool-cases, inl, inr,
}
use msst2015_ftl.Base.Run.{Run, ok, ◌>>=◌, Partly-same}
use msst2015_ftl.Params.{sectors_per_page, bytes_per_page}
use msst2015_ftl.Layout.{num_wr_buffers}
use msst2015_ftl.State.{Ftl}
use msst2015_ftl.Memory.{wr_buf_ptr, read_dram_32}
use msst2015_ftl.Host.{trim_entry, trim_entries, trim_buffers, ftl_trim}
use msst2015_ftl.Host.Payload.{
  payload_byte, entry_lba, entry_count, wanted, trim_ranges, trim_ranges-add,
}
use msst2015_ftl.Host.Kept.{KeepsPayload, trim_entry-Partly, trim_entries-Partly}

module _ (p : Ftl) (is_byte : (a : ℕ) → p.buffers a < 256) where
  abbrev buf : ℕ → ℕ
  buf n = wr_buf_ptr ((p.write_buf_id + n) % num_wr_buffers)

  in_buffer :
      (n m c : ℕ)
      → m < 4096
      → c < 8
      → payload_byte p (8 * (n * 4096 + m) + c) ≡ p.buffers (buf n + (8 * m + c))
  in_buffer n m c m_ok c_ok =
      let which : (8 * (n * 4096 + m) + c) / bytes_per_page ≡ n = omega arith in
      let where_in : (8 * (n * 4096 + m) + c) % bytes_per_page ≡ 8 * m + c = omega arith in
      ap
        (λ q. p.buffers (
          wr_buf_ptr ((p.write_buf_id + q) % num_wr_buffers)
          + (8 * (n * 4096 + m) + c) % bytes_per_page))
        which
      ∙ ap (λ r. p.buffers (buf n + r)) where_in

  byte_at :
      (s : Ftl) (n m c a : ℕ)
      → KeepsPayload p s
      → m < 4096
      → c < 8
      → a ≡ buf n + (8 * m + c)
      → s.buffers a ≡ payload_byte p (8 * (n * 4096 + m) + c)
  byte_at s n m c a k m_ok c_ok at =
      ap (λ f. f a) k.buffers_same ∙ ap p.buffers at ∙ sym (in_buffer n m c m_ok c_ok)

  word_lba :
      (s : Ftl) (n m : ℕ)
      → KeepsPayload p s
      → m < 4096
      → read_dram_32 s (buf n + 2 * m * 4) ≡ entry_lba p (n * 4096 + m)
  unfolding read_dram_32
  word_lba s n m k m_ok =
      let a = buf n + 2 * m * 4 in
      let first : 8 * (n * 4096 + m) + 0 ≡ 8 * (n * 4096 + m) = omega arith in
      let b0 : s.buffers a ≡ payload_byte p (8 * (n * 4096 + m)) =
        byte_at s n m 0 a k m_ok (omega arith) (omega arith) ∙ ap (λ i. payload_byte p i) first in
      let b1 = byte_at s n m 1 (a + 1) k m_ok (omega arith) (omega arith) in
      let b2 = byte_at s n m 2 (a + 2) k m_ok (omega arith) (omega arith) in
      let b3 = byte_at s n m 3 (a + 3) k m_ok (omega arith) (omega arith) in
      omega (arith, b0, b1, b2, b3)

  word_count :
      (s : Ftl) (n m : ℕ)
      → KeepsPayload p s
      → m < 4096
      → read_dram_32 s (buf n + (2 * m + 1) * 4) / 2 ^ 16 % 2 ^ 16 ≡ entry_count p (n * 4096 + m)
  unfolding read_dram_32
  word_count s n m k m_ok =
      let a = buf n + (2 * m + 1) * 4 in
      let b4 = byte_at s n m 4 a k m_ok (omega arith) (omega arith) in
      let b5 = byte_at s n m 5 (a + 1) k m_ok (omega arith) (omega arith) in
      let b6 = byte_at s n m 6 (a + 2) k m_ok (omega arith) (omega arith) in
      let b7 = byte_at s n m 7 (a + 3) k m_ok (omega arith) (omega arith) in
      let byte4 = subst (λ v. v < 256) (sym (ap (λ f. f a) k.buffers_same)) (is_byte a) in
      let byte5 =
        subst (λ v. v < 256) (sym (ap (λ f. f (a + 1)) k.buffers_same)) (is_byte (a + 1)) in
      let byte6 =
        subst (λ v. v < 256) (sym (ap (λ f. f (a + 2)) k.buffers_same)) (is_byte (a + 2)) in
      let byte7 =
        subst (λ v. v < 256) (sym (ap (λ f. f (a + 3)) k.buffers_same)) (is_byte (a + 3)) in
      omega (arith, b6, b7, byte4, byte5, byte6, byte7)

  trim_entry-wanted :
      (s : Ftl) (n m : ℕ)
      → KeepsPayload p s
      → m < 4096
      → trim_entry s (buf n) (2 * m) ≡ wanted p (n * 4096 + m) s
  unfolding trim_entry
  trim_entry-wanted s n m k m_ok = rw (word_count s n m k m_ok, word_lba s n m k m_ok) refl

  trim_entries-ranges :
      (rounds : ℕ) (s : Ftl) (n m : ℕ)
      → KeepsPayload p s
      → m + rounds ≤ 4096
      → trim_entries rounds s (buf n) (2 * m) ≡ trim_ranges rounds p (n * 4096 + m) s
  unfolding trim_entries trim_ranges
  trim_entries-ranges zero s n m k fits = refl
  trim_entries-ranges (suc rounds) s n m k fits =
      let next : 2 * m + 2 ≡ 2 * (m + 1) = omega arith in
      let after : n * 4096 + (m + 1) ≡ n * 4096 + m + 1 = omega arith in
      Partly-same (λ s'. trim_entries rounds s' (buf n) (2 * m + 2))
        (λ s'. trim_ranges rounds p (n * 4096 + m + 1) s') (trim_entry-Partly p s (buf n) (2 * m) k)
        (λ s' k'.
          ap (λ i. trim_entries rounds s' (buf n) i) next
          ∙ trim_entries-ranges rounds s' n (m + 1) k' (omega arith)
          ∙ ap (λ i. trim_ranges rounds p i s') after)
      ∙ ap (λ (r : Run Ftl). r >>= λ s'. trim_ranges rounds p (n * 4096 + m + 1) s')
          (trim_entry-wanted s n m k (omega arith))

  -- The ranges of one buffer, and then those of the buffers behind it.
  from_buffer :
      (rounds : ℕ) (s : Ftl) (n num_sectors here : ℕ)
      → KeepsPayload p s
      → here ≤ sectors_per_page
      → here ≤ num_sectors
      → ((s' : Ftl)
          → KeepsPayload p s'
          → trim_buffers rounds s' (n + 1) (num_sectors - here)
            ≡ trim_ranges ((num_sectors - here) * 64) p (n * 4096 + here * 64) s')
      → (trim_entries (here * 64) s (wr_buf_ptr ((s.write_buf_id + n) % num_wr_buffers)) 0 >>= λ s'.
          trim_buffers rounds s' (n + 1) (num_sectors - here))
        ≡ trim_ranges (num_sectors * 64) p (n * 4096) s
  from_buffer rounds s n num_sectors here k fits le rest =
      let after =
        λ (s' : Ftl). trim_ranges ((num_sectors - here) * 64) p (n * 4096 + here * 64) s' in
      let start : n * 4096 + 0 ≡ n * 4096 = omega arith in
      let total : here * 64 + (num_sectors - here) * 64 ≡ num_sectors * 64 = omega arith in
      Partly-same (λ s'. trim_buffers rounds s' (n + 1) (num_sectors - here)) after
        (trim_entries-Partly (here * 64) p s _ 0 k) rest
      ∙ ap (λ id. trim_entries (here * 64) s (wr_buf_ptr ((id + n) % num_wr_buffers)) 0 >>= after)
          k.id_same
      ∙ ap (λ (r : Run Ftl). r >>= after)
          (trim_entries-ranges (here * 64) s n 0 k (omega arith)
            ∙ ap (λ x. trim_ranges (here * 64) p x s) start)
      ∙ sym (trim_ranges-add (here * 64) ((num_sectors - here) * 64) p s (n * 4096))
      ∙ ap (λ x. trim_ranges x p (n * 4096) s) total

  trim_buffers-ranges :
      (rounds : ℕ) (s : Ftl) (n num_sectors : ℕ)
      → KeepsPayload p s
      → rounds ≡ (num_sectors + sectors_per_page - 1) / sectors_per_page
      → trim_buffers rounds s n num_sectors ≡ trim_ranges (num_sectors * 64) p (n * 4096) s
  unfolding trim_buffers trim_ranges
  trim_buffers-ranges zero s n num_sectors k count =
      let none : 0 ≡ num_sectors * 64 = omega arith in ap (λ x. trim_ranges x p (n * 4096) s) none
  trim_buffers-ranges (suc rounds) s n num_sectors k count =
      let rest =
        λ (here : ℕ) (s' : Ftl) (k' : KeepsPayload p s')
            (left : rounds ≡ (num_sectors - here + sectors_per_page - 1) / sectors_per_page).
          trim_buffers-ranges rounds s' (n + 1) (num_sectors - here) k' left in
      elim (Bool-cases (ltb sectors_per_page num_sectors)) [
        | inl more ↦ rw more (
            from_buffer rounds s n num_sectors sectors_per_page k (omega arith)
              (ground (arith, more))
              (λ s' k'.
                let next : (n + 1) * 4096 ≡ n * 4096 + sectors_per_page * 64 = omega arith in
                rest sectors_per_page s' k' (ground (arith, more, count))
                ∙ ap (λ x. trim_ranges ((num_sectors - sectors_per_page) * 64) p x s') next))
        | inr last ↦ rw last (
            from_buffer rounds s n num_sectors num_sectors k (ground (arith, last)) (omega arith)
              (λ s' k'.
                let none : (num_sectors - num_sectors) * 64 ≡ 0 = omega arith in
                rest num_sectors s' k' (ground (arith, last, count))
                ∙ ap (λ x. trim_ranges x p ((n + 1) * 4096) s') none
                ∙ sym (ap (λ x. trim_ranges x p (n * 4096 + num_sectors * 64) s') none)))
      ]

  -- ftl_trim is to trim the ranges of its payload, each once and in their order, and to pass its buffers
  -- on: range `k` is bytes `8 * k` to `8 * k + 7` of the payload, four of its address and two of its
  -- count. Ranges that are empty or start behind the last sector are left out. The bytes are below 256.
  pub ftl_trim-trim_ranges :
      (num_sectors : ℕ)
      → num_sectors < 2 ^ 31
      → ftl_trim num_sectors p ≡ (
          trim_ranges (num_sectors * 64) p 0 p >>= λ s'. ok (record s' {
            write_buf_id =
                (s'.write_buf_id + (num_sectors + sectors_per_page - 1) / sectors_per_page)
                % num_wr_buffers;
          }))
  unfolding ftl_trim
  ftl_trim-trim_ranges num_sectors small =
      let buffers = (num_sectors + sectors_per_page - 1) / sectors_per_page in
      let count : u32 (num_sectors + sectors_per_page - 1) / sectors_per_page ≡ buffers =
        omega arith in
      let pass = λ (n : ℕ) (s' : Ftl).
        ok (record s' { write_buf_id = (s'.write_buf_id + n) % num_wr_buffers }) in
      ap (λ n. trim_buffers n p 0 num_sectors >>= pass n) count
      ∙ ap (λ (r : Run Ftl). r >>= pass buffers)
          (trim_buffers-ranges buffers p 0 num_sectors
            (record { buffers_same = refl; id_same = refl }) refl)
