-- ===== src/Request/Chunks/Page.antt =====
-- The inner loop of trimRange handles the whole chunks of its range that are in a page.
use msst2015_ftl.Base.{
  ℕ, zero, suc, ◌+◌, ◌-◌, ◌*◌, ◌/◌, ◌%◌, ◌^◌, ◌<◌, ◌≤◌, ◌≡◌, refl, arith, Bool-cases, inl, inr, ◌⊎◌,
  ◌==◌, ◌&&◌, not, ltb, if◌then◌else◌, u32, ap, sym, fun_ext, ◌∙◌, eqb→eq,
}
use msst2015_ftl.Base.Run.{Run, ok, ◌>>=◌, bind_bind}
use msst2015_ftl.Params.{sectors_per_page, sectors_per_chunk, chunks_per_page}
use msst2015_ftl.Request.{sects_in_chunk, trim_page}

-- The first sector behind those of the range that are in the page.
abbrev pub end_in_page : ℕ → ℕ → ℕ → ℕ
end_in_page lpn off remain =
    if ltb remain (sectors_per_page - off)
    then lpn * sectors_per_page + off + remain
    else lpn * sectors_per_page + sectors_per_page

abbrev pub first_whole : ℕ → ℕ
first_whole sector = (sector + sectors_per_chunk - 1) / sectors_per_chunk

abbrev pub whole_in_page : ℕ → ℕ → ℕ → ℕ
whole_in_page lpn off remain =
    end_in_page lpn off remain / sectors_per_chunk - first_whole (lpn * sectors_per_page + off)

module _ {ℓ} {S : Type ℓ} (trim_chunk : ℕ → ℕ → S → Run S) where
  -- The chunks first, ..., first + count - 1 of the disk, each once and in their order.
  unfoldable pub on_chunks : ℕ → ℕ → S → Run S
  on_chunks first zero s = ok s
  on_chunks first (suc count) s =
      trim_chunk (first / chunks_per_page) (first % chunks_per_page) s >>= λ s'.
      on_chunks (first + 1) count s'

  pub on_chunks-add :
      (m n first : ℕ) (s : S)
      → on_chunks first (m + n) s ≡ (on_chunks first m s >>= λ s'. on_chunks (first + m) n s')
  unfolding on_chunks
  on_chunks-add zero n first s =
      let same : 0 + n ≡ n = omega arith in
      let from : first + 0 ≡ first = omega arith in rw (same, from) refl
  on_chunks-add (suc m) n first s =
      let more : suc m + n ≡ suc (m + n) = omega arith in
      let from : first + suc m ≡ first + 1 + m = omega arith in
      rw (more, from)
        (ap (λ f. trim_chunk (first / chunks_per_page) (first % chunks_per_page) s >>= f)
            (fun_ext λ s'. on_chunks-add m n (first + 1) s')
          ∙ sym (bind_bind (trim_chunk (first / chunks_per_page) (first % chunks_per_page) s) _ _))

  trim_page-done :
      (rounds lpn idx off remain : ℕ) (s : S)
      → remain ≡ 0
      → trim_page trim_chunk rounds lpn idx off remain s ≡ ok (remain, s)
  unfolding trim_page
  trim_page-done zero lpn idx off remain s none = refl
  trim_page-done (suc rounds) lpn idx off remain s none = rw none refl

  -- What trim_page is to do.
  abbrev page_chunks : ℕ → ℕ → ℕ → S → Run (ℕ × S)
  page_chunks lpn off remain s =
      on_chunks (first_whole (lpn * sectors_per_page + off)) (whole_in_page lpn off remain) s
      >>= λ s'. ok (remain - (sectors_per_page - off), s')

  nothing_left :
      (lpn off remain : ℕ) (s : S)
      → off ≤ sectors_per_page
      → (remain ≡ 0) ⊎ (off ≡ sectors_per_page)
      → ok (remain, s) ≡ page_chunks lpn off remain s
  unfolding on_chunks
  nothing_left lpn off remain s off_le stop =
      let none : whole_in_page lpn off remain ≡ 0 = ground (arith, stop) in
      let all : remain - (sectors_per_page - off) ≡ remain = ground (arith, stop) in
      rw (none, all) refl

  -- A whole chunk, and what is behind it.
  page_chunks-whole :
      (lpn idx off remain : ℕ) (s : S)
      → off ≡ idx * sectors_per_chunk
      → idx < chunks_per_page
      → sectors_per_chunk ≤ remain
      → page_chunks lpn off remain s ≡ (
          trim_chunk lpn idx s
          >>= page_chunks lpn (off + sectors_per_chunk) (remain - sectors_per_chunk))
  unfolding on_chunks
  page_chunks-whole lpn idx off remain s at idx_ok enough =
      let one : whole_in_page lpn off remain
          ≡ suc (whole_in_page lpn (off + sectors_per_chunk) (remain - sectors_per_chunk)) =
        ground arith in
      let page : first_whole (lpn * sectors_per_page + off) / chunks_per_page ≡ lpn = omega arith in
      let chunk : first_whole (lpn * sectors_per_page + off) % chunks_per_page ≡ idx =
        omega arith in
      let next : first_whole (lpn * sectors_per_page + off) + 1
          ≡ first_whole (lpn * sectors_per_page + (off + sectors_per_chunk)) =
        omega arith in
      let left : remain - (sectors_per_page - off)
          ≡ remain - sectors_per_chunk - (sectors_per_page - (off + sectors_per_chunk)) =
        omega arith in
      rw (one, page, chunk, next, left) (bind_bind (trim_chunk lpn idx s) _ _)

  -- A part of a chunk, at the beginning or at the end of the range.
  page_chunks-part :
      (lpn off remain n : ℕ) (s : S)
      → 0 < n
      → n ≤ remain
      → off % sectors_per_chunk + n ≤ sectors_per_chunk
      → (0 < off % sectors_per_chunk) ⊎ (n < sectors_per_chunk)
      → (n ≡ remain) ⊎ (off % sectors_per_chunk + n ≡ sectors_per_chunk)
      → off + n ≤ sectors_per_page
      → page_chunks lpn off remain s ≡ page_chunks lpn (off + n) (remain - n) s
  unfolding on_chunks
  page_chunks-part lpn off remain n s pos le inside partial ends fits = elim ends [
    | inl last ↦
        let none : whole_in_page lpn off remain ≡ 0 = ground (arith, partial) in
        let none' : whole_in_page lpn (off + n) (remain - n) ≡ 0 = ground arith in
        let all : remain - (sectors_per_page - off) ≡ 0 = omega arith in
        let all' : remain - n - (sectors_per_page - (off + n)) ≡ 0 = omega arith in
        rw (none, none', all, all') refl
    | inr full ↦
        let from : first_whole (lpn * sectors_per_page + off)
            ≡ first_whole (lpn * sectors_per_page + (off + n)) =
          omega arith in
        let to : end_in_page lpn off remain ≡ end_in_page lpn (off + n) (remain - n) =
          ground arith in
        let left : remain - (sectors_per_page - off) ≡ remain - n - (sectors_per_page - (off + n)) =
          omega arith in
        rw (from, to, left) refl
  ]

  n_facts :
      (b remain : ℕ)
      → 0 < remain
      → b < sectors_per_chunk
      → b + remain < 2 ^ 32
      → (0 < sects_in_chunk b remain)
        × (sects_in_chunk b remain ≤ remain)
        × (b + sects_in_chunk b remain ≤ sectors_per_chunk)
        × ((sects_in_chunk b remain ≡ remain) ⊎ (b + sects_in_chunk b remain ≡ sectors_per_chunk))
  unfolding sects_in_chunk
  n_facts b remain some b_ok small = (ground arith, ground arith, ground arith, ends)
    where
      ends : (sects_in_chunk b remain ≡ remain) ⊎ (b + sects_in_chunk b remain ≡ sectors_per_chunk)
      ends = elim (Bool-cases (ltb (u32 (b + remain)) sectors_per_chunk)) [
        | inl short ↦ inl (ground (arith, short))
        | inr long ↦ inr (ground (arith, long))
      ]

  -- A round of the inner loop, with what the rounds behind it do.
  round-page_chunks :
      (lpn idx off remain : ℕ) (s : S) (rest : S → Run (ℕ × S))
      → 0 < remain
      → idx < chunks_per_page
      → idx ≡ off / sectors_per_chunk
      → off + remain < 2 ^ 32
      → ((s' : S)
          → rest s'
            ≡ page_chunks lpn
                (off + sects_in_chunk (off % sectors_per_chunk) remain)
                (remain - sects_in_chunk (off % sectors_per_chunk) remain)
                s')
      → ((if (off % sectors_per_chunk == 0)
              && not (ltb (sects_in_chunk (off % sectors_per_chunk) remain) sectors_per_chunk)
            then trim_chunk lpn idx s
            else ok s)
          >>= rest)
        ≡ page_chunks lpn off remain s
  round-page_chunks lpn idx off remain s rest some inside at small does =
      let b = off % sectors_per_chunk in
      let n = sects_in_chunk b remain in
      let facts = n_facts b remain some (omega arith) (omega arith) in
      let le = facts.1 in
      let fits = facts.2 in
      elim (Bool-cases (b == 0)) [
        | inl starts ↦ rw starts (elim (Bool-cases (ltb n sectors_per_chunk)) [
          | inl short ↦ rw short (
              does s
              ∙ sym (
                  page_chunks-part lpn off remain n s facts.0 le fits (inr (ground (arith, short)))
                    facts.3 (omega arith)))
          | inr long ↦ rw long (
              let whole : n ≡ sectors_per_chunk = ground (arith, long) in
              let first : off ≡ idx * sectors_per_chunk = ground (arith, starts) in
              ap (λ f. trim_chunk lpn idx s >>= f) (fun_ext λ s'. does s' ∙ rw whole refl)
              ∙ sym (page_chunks-whole lpn idx off remain s first inside (omega arith)))
        ])
        | inr within ↦ rw within (
            does s
            ∙ sym (
                page_chunks-part lpn off remain n s facts.0 le fits (inl (ground (arith, within)))
                  facts.3 (omega arith)))
      ]

  pub trim_page-page_chunks :
      (rounds lpn idx off remain : ℕ) (s : S)
      → chunks_per_page ≤ idx + rounds
      → off ≤ sectors_per_page
      → idx ≡ off / sectors_per_chunk
      → off + remain < 2 ^ 32
      → trim_page trim_chunk rounds lpn idx off remain s ≡ page_chunks lpn off remain s
  unfolding trim_page
  trim_page-page_chunks zero lpn idx off remain s enough off_le at small =
      nothing_left lpn off remain s off_le (inr (omega arith))
  trim_page-page_chunks (suc rounds) lpn idx off remain s enough off_le at small =
      elim (Bool-cases (remain == 0)) [
        | inl none ↦ rw none (nothing_left lpn off remain s off_le (inl (eqb→eq remain 0 none)))
        | inr some ↦ rw some (elim (Bool-cases (ltb idx chunks_per_page)) [
          | inr past ↦ rw past (nothing_left lpn off remain s off_le (inr (ground (arith, past))))
          | inl inside ↦ rw inside (
              let pos : 0 < remain = ground (arith, some) in
              let room : idx < chunks_per_page = ground (arith, inside) in
              let n = sects_in_chunk (off % sectors_per_chunk) remain in
              let facts =
                n_facts (off % sectors_per_chunk) remain pos (omega arith) (omega arith) in
              let le = facts.1 in
              let fits = facts.2 in
              round-page_chunks lpn idx off remain s _ pos room at small λ s'. elim facts.3 [
                | inl last ↦
                    trim_page-done rounds lpn (idx + 1) (off + n) (remain - n) s' (omega arith)
                    ∙ nothing_left lpn (off + n) (remain - n) s' (omega arith) (inl (omega arith))
                | inr full ↦
                    trim_page-page_chunks rounds lpn (idx + 1) (off + n) (remain - n) s'
                      (omega arith) (omega arith) (omega arith) (omega arith)
              ])
        ])
      ]
