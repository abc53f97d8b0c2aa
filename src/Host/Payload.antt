-- ===== src/Host/Payload.antt =====
-- The ranges of the payload of ftl_trim of ftl_seal/ftl.c, as the host sends them.
use msst2015_ftl.Base.{
  ℕ, zero, suc, ◌+◌, ◌*◌, ◌/◌, ◌%◌, ◌^◌, ◌≡◌, sym, ap, fun_ext, ◌∙◌, arith, ◌==◌, ltb,
  if◌then◌else◌,
}
use msst2015_ftl.Base.Run.{Run, ok, ◌>>=◌, bind_bind}
use msst2015_ftl.Params.{num_banks, data_blk_per_bank, sectors_per_vblk, bytes_per_page}
use msst2015_ftl.Layout.{num_wr_buffers}
use msst2015_ftl.State.{Ftl}
use msst2015_ftl.Memory.{wr_buf_ptr}
use msst2015_ftl.Request.{trim_range}
use msst2015_ftl.Trim.{trim_chunk}

-- Byte `i` of the payload: it goes through the write buffers in a ring.
abbrev pub payload_byte : Ftl → ℕ → ℕ
payload_byte s i =
    s.buffers
      (wr_buf_ptr ((s.write_buf_id + i / bytes_per_page) % num_wr_buffers) + i % bytes_per_page)

-- Range `k`: six bytes of the address, of which four are read, and two of the count.
abbrev pub entry_lba : Ftl → ℕ → ℕ
entry_lba s k =
    payload_byte s (8 * k)
    + payload_byte s (8 * k + 1) * 2 ^ 8
    + payload_byte s (8 * k + 2) * 2 ^ 16
    + payload_byte s (8 * k + 3) * 2 ^ 24

abbrev pub entry_count : Ftl → ℕ → ℕ
entry_count s k = payload_byte s (8 * k + 6) + payload_byte s (8 * k + 7) * 2 ^ 8

-- Range `k`, if it is not empty and starts on the disk.
abbrev pub wanted : Ftl → ℕ → Ftl → Run Ftl
wanted p k s =
    if entry_count p k == 0
    then ok s
    else if ltb (entry_lba p k) (num_banks * data_blk_per_bank * sectors_per_vblk)
    then trim_range trim_chunk (entry_lba p k) (entry_count p k) s
    else ok s

-- The ranges of `p` from `k` on are trimmed, one after the other.
unfoldable pub trim_ranges : ℕ → Ftl → ℕ → Ftl → Run Ftl
trim_ranges zero p k s = ok s
trim_ranges (suc rounds) p k s = wanted p k s >>= λ s'. trim_ranges rounds p (k + 1) s'

pub trim_ranges-add :
    (a b : ℕ) (p s : Ftl) (k : ℕ)
    → trim_ranges (a + b) p k s ≡ (trim_ranges a p k s >>= λ s'. trim_ranges b p (k + a) s')
unfolding trim_ranges
trim_ranges-add zero b p s k =
    let count : 0 + b ≡ b = omega arith in
    let none : k ≡ k + 0 = omega arith in
    ap (λ x. trim_ranges x p k s) count ∙ ap (λ x. trim_ranges b p x s) none
trim_ranges-add (suc a) b p s k =
    let count : suc a + b ≡ suc (a + b) = omega arith in
    let next : k + 1 + a ≡ k + suc a = omega arith in
    let first = wanted p k s in
    ap (λ x. trim_ranges x p k s) count
    ∙ ap (λ f. first >>= f)
        (fun_ext λ s'.
          trim_ranges-add a b p s' (k + 1)
          ∙ ap (λ x. trim_ranges a p (k + 1) s' >>= λ s''. trim_ranges b p x s'') next)
    ∙ sym (
        bind_bind first (λ s'. trim_ranges a p (k + 1) s') (λ s''. trim_ranges b p (k + suc a) s''))
