-- ===== src/Request/Chunks.antt =====
-- trimRange handles the whole chunks of its range.
pub mod Page
use msst2015_ftl.Base.{
  ℕ, zero, suc, ◌+◌, ◌-◌, ◌*◌, ◌/◌, ◌%◌, ◌^◌, ◌<◌, ◌≤◌, ◌≡◌, refl, arith, Bool-cases, inl, inr, ◌⊎◌,
  ◌==◌, ◌&&◌, not, ltb, if◌then◌else◌, u32, u32-small, ap, sym, fun_ext, ◌∙◌, eqb→eq, subst,
}
use msst2015_ftl.Base.Run.{Run, ok, hang, stray, out_of_fuel, ◌>>=◌, bind_ok, bind_bind}
use msst2015_ftl.Request.Chunks.Page.{
  on_chunks, on_chunks-add, first_whole, whole_in_page, trim_page-page_chunks,
}
use msst2015_ftl.Params.{sectors_per_page, sectors_per_chunk, chunks_per_page}
use msst2015_ftl.Request.{sects_in_chunk, trim_page, trim_loop, trim_range}

module _ {ℓ} {S : Type ℓ} (trim_chunk : ℕ → ℕ → S → Run S) where
  -- What trim_loop is to do.
  abbrev range_chunks : ℕ → ℕ → S → Run S
  range_chunks sector remain s =
      on_chunks trim_chunk (first_whole sector)
        ((sector + remain) / sectors_per_chunk - first_whole sector) s

  trim_loop-done :
      (fuel lpn off remain : ℕ) (s : S)
      → remain ≡ 0
      → trim_loop trim_chunk fuel lpn off remain s ≡ ok s
  unfolding trim_loop
  trim_loop-done zero lpn off remain s none = rw none refl
  trim_loop-done (suc fuel) lpn off remain s none = rw none refl

  -- The chunks of a page, and then those of the pages behind it.
  page_then_rest :
      (lpn off remain : ℕ) (s : S) (rest : S → Run S)
      → off < sectors_per_page
      → (remain ≤ sectors_per_page - off → (s' : S) → rest s' ≡ ok s')
      → ((s' : S)
          → rest s'
            ≡ range_chunks
                ((lpn + 1) * sectors_per_page + 0)
                (remain - (sectors_per_page - off))
                s')
      → (on_chunks trim_chunk
            (first_whole (lpn * sectors_per_page + off))
            (whole_in_page lpn off remain)
            s
          >>= rest)
        ≡ range_chunks (lpn * sectors_per_page + off) remain s
  page_then_rest lpn off remain s rest off_ok ended does =
      let first = first_whole (lpn * sectors_per_page + off) in
      let here = whole_in_page lpn off remain in
      elim (Bool-cases (ltb (sectors_per_page - off) remain)) [
        | inr last ↦
            let le : remain ≤ sectors_per_page - off = ground (arith, last) in
            let all : here ≡ (lpn * sectors_per_page + off + remain) / sectors_per_chunk - first =
              ground arith in
            ap (λ f. on_chunks trim_chunk first here s >>= f) (fun_ext (ended le))
            ∙ (bind_ok (on_chunks trim_chunk first here s)
                ∙ ap (λ k. on_chunks trim_chunk first k s) all)
        | inl more ↦
            let gt : sectors_per_page - off < remain = ground (arith, more) in
            let next = (lpn + 1) * sectors_per_page + 0 in
            let left = remain - (sectors_per_page - off) in
            let count' = (next + left) / sectors_per_chunk - first_whole next in
            let from : first_whole next ≡ first + here = ground arith in
            let total : here + count'
                ≡ (lpn * sectors_per_page + off + remain) / sectors_per_chunk - first =
              ground arith in
            ap (λ f. on_chunks trim_chunk first here s >>= f)
              (fun_ext λ s'. does s' ∙ ap (λ g. on_chunks trim_chunk g count' s') from)
            ∙ (sym (on_chunks-add trim_chunk here count' first s)
                ∙ ap (λ k. on_chunks trim_chunk first k s) total)
      ]

  trim_loop-range_chunks :
      (fuel lpn off remain : ℕ) (s : S)
      → remain ≤ fuel
      → off < sectors_per_page
      → lpn * sectors_per_page + off + remain ≤ 2 ^ 31
      → trim_loop trim_chunk fuel lpn off remain s
        ≡ range_chunks (lpn * sectors_per_page + off) remain s
  unfolding trim_loop on_chunks
  trim_loop-range_chunks zero lpn off remain s enough off_ok small =
      let none : remain ≡ 0 = omega arith in
      let count : (lpn * sectors_per_page + off + 0) / sectors_per_chunk
            - first_whole (lpn * sectors_per_page + off)
          ≡ 0 =
        omega arith in
      rw (none, count) refl
  trim_loop-range_chunks (suc fuel) lpn off remain s enough off_ok small =
      elim (Bool-cases (remain == 0)) [
        | inl none ↦
            let e = eqb→eq remain 0 none in
            let count : (lpn * sectors_per_page + off + remain) / sectors_per_chunk
                  - first_whole (lpn * sectors_per_page + off)
                ≡ 0 =
              omega arith in
            rw (none, count) refl
        | inr some ↦
            let pos : 0 < remain = ground (arith, some) in
            let left = remain - (sectors_per_page - off) in
            rw
              (
                some,
                trim_page-page_chunks trim_chunk chunks_per_page lpn (off / sectors_per_chunk) off
                    remain s (omega arith) (omega arith) refl (omega arith),
                u32-small (lpn + 1) (omega arith),
              )
              (bind_bind
                  (on_chunks trim_chunk (first_whole (lpn * sectors_per_page + off))
                    (whole_in_page lpn off remain) s)
                  (λ s'. ok (left, s'))
                  (λ (done : ℕ × S). trim_loop trim_chunk fuel (lpn + 1) 0 done.0 done.1)
                ∙ page_then_rest lpn off remain s
                    (λ s'. trim_loop trim_chunk fuel (lpn + 1) 0 left s') off_ok
                    (λ le s'. trim_loop-done fuel (lpn + 1) 0 left s' (omega arith))
                    (λ s'.
                      trim_loop-range_chunks fuel (lpn + 1) 0 left s' (omega arith) (omega arith)
                        (grind arith)))
      ]

  -- trimRange, for a range that ends below 2 ^ 31, trims exactly the chunks that lie wholly in its
  -- range, each once and in their order.
  pub trim_range-on_chunks :
      (lba n_sectors : ℕ) (s : S)
      → lba + n_sectors ≤ 2 ^ 31
      → trim_range trim_chunk lba n_sectors s
        ≡ on_chunks trim_chunk
            ((lba + sectors_per_chunk - 1) / sectors_per_chunk)
            ((lba + n_sectors) / sectors_per_chunk
              - (lba + sectors_per_chunk - 1) / sectors_per_chunk)
            s
  unfolding trim_range
  trim_range-on_chunks lba n_sectors s small =
      let start : lba / sectors_per_page * sectors_per_page + lba % sectors_per_page ≡ lba =
        omega arith in
      subst
        (λ a.
          trim_range trim_chunk lba n_sectors s
          ≡ on_chunks trim_chunk (first_whole a)
              ((a + n_sectors) / sectors_per_chunk - first_whole a) s)
        start
        (trim_loop-range_chunks n_sectors (lba / sectors_per_page) (lba % sectors_per_page)
          n_sectors s (omega arith) (omega arith) (omega arith))
