-- ===== src/Request/Pages.antt =====
-- ftl_read and ftl_write split their range into parts of pages.
use msst2015_ftl.Base.{
  ℕ, zero, suc, ◌+◌, ◌-◌, ◌*◌, ◌/◌, ◌%◌, ◌^◌, ◌<◌, ◌≤◌, ◌≡◌, refl, arith, List, [], ◌∷◌, ◌⊎◌, inl,
  inr, true, false, Bool-cases, ◌==◌, if◌then◌else◌, u32, u32-small, subst, ltb, eqb→eq, sym, ap,
  fun_ext,
}
use msst2015_ftl.Base.Run.{Run, ◌>>=◌}
use msst2015_ftl.Params.{sectors_per_page}
use msst2015_ftl.Request.{
  sects_in_page, page_loop, split_pages, ftl_read, ftl_write, overwrite_lba, is_overwrite,
}
use msst2015_ftl.Request.Split.{Part, Splits, none_left, part, on_parts}

-- The parts of a request, as the loop makes them.
parts : ℕ → ℕ → ℕ → ℕ → List Part
parts zero lpn off remain = []
parts (suc fuel) lpn off remain =
    let n = sects_in_page off remain in
    let rest = parts fuel (lpn + 1) 0 (remain - n) in
    if remain == 0 then [] else (record { lpn = lpn; sect_offset = off; n_sects = n } ∷ rest)

module _ (off remain : ℕ) (some : 0 < remain) (off_ok : off < sectors_per_page)
    (small : off + remain < 2 ^ 32) where
  n_pos : 0 < sects_in_page off remain
  unfolding sects_in_page
  n_pos = ground arith

  n_le : sects_in_page off remain ≤ remain
  unfolding sects_in_page
  n_le = ground arith

  n_inside : off + sects_in_page off remain ≤ sectors_per_page
  unfolding sects_in_page
  n_inside = ground arith

  n_ends :
      (remain - sects_in_page off remain ≡ 0) ⊎ (off + sects_in_page off remain ≡ sectors_per_page)
  unfolding sects_in_page
  n_ends = elim (Bool-cases (ltb (u32 (off + remain)) sectors_per_page)) [
    | inl short ↦ inl (ground (arith, short))
    | inr long ↦ inr (ground (arith, long))
  ]

no_parts : (fuel lpn off remain : ℕ) → remain ≡ 0 → parts fuel lpn off remain ≡ []
unfolding parts
no_parts zero lpn off remain e = refl
no_parts (suc fuel) lpn off remain e = rw e refl

none_Splits : (first count : ℕ) → count ≡ 0 → Splits first count []
none_Splits first count e = subst (λ c. Splits first c []) (sym e) (none_left first)

one_more :
    (fuel lpn off remain : ℕ)
    → 0 < remain
    → off < sectors_per_page
    → off + remain < 2 ^ 32
    → Splits
        ((lpn + 1) * sectors_per_page + 0)
        (remain - sects_in_page off remain)
        (parts fuel (lpn + 1) 0 (remain - sects_in_page off remain))
    → Splits (lpn * sectors_per_page + off) remain (
        record { lpn = lpn; sect_offset = off; n_sects = sects_in_page off remain }
        ∷ parts fuel (lpn + 1) 0 (remain - sects_in_page off remain))
one_more fuel lpn off remain some off_ok small rest =
    let n = sects_in_page off remain in
    let le = n_le off remain some off_ok small in
    let total : n + (remain - n) ≡ remain = omega arith in
    let p : Part = record { lpn = lpn; sect_offset = off; n_sects = n } in
    let ps = parts fuel (lpn + 1) 0 (remain - n) in
    subst (λ c. Splits (lpn * sectors_per_page + off) c (p ∷ ps)) total
      (part (lpn * sectors_per_page + off) (remain - n) p ps
        (record {
          some = n_pos off remain some off_ok small;
          inside = n_inside off remain some off_ok small;
          starts = refl;
          ends = n_ends off remain some off_ok small;
        })
        (elim (n_ends off remain some off_ok small) [
          | inl last ↦ rw (no_parts fuel (lpn + 1) 0 (remain - n) last) (none_Splits _ _ last)
          | inr full ↦
              let next : (lpn + 1) * sectors_per_page + 0 ≡ lpn * sectors_per_page + off + n =
                omega arith in
              subst (λ f. Splits f (remain - n) ps) next rest
        ]))

parts-Splits :
    (fuel lpn off remain : ℕ)
    → remain ≤ fuel
    → off < sectors_per_page
    → off + remain < 2 ^ 32
    → Splits (lpn * sectors_per_page + off) remain (parts fuel lpn off remain)
unfolding parts
parts-Splits zero lpn off remain enough off_ok small = none_Splits _ remain (omega arith)
parts-Splits (suc fuel) lpn off remain enough off_ok small = elim (Bool-cases (remain == 0)) [
  | inl none ↦ rw none (none_Splits _ remain (eqb→eq remain 0 none))
  | inr some ↦
      let pos : 0 < remain = ground (arith, some) in
      let n = n_pos off remain pos off_ok small in
      let rest =
        parts-Splits fuel (lpn + 1) 0 (remain - sects_in_page off remain) (omega arith)
          (omega arith) (omega arith) in
      rw some (one_more fuel lpn off remain pos off_ok small rest)
]

page_loop-parts {ℓ} :
    {S : Type ℓ} (on_page : ℕ → ℕ → ℕ → S → Run S) (fuel lpn off remain : ℕ) (s : S)
    → remain ≤ fuel
    → off < sectors_per_page
    → lpn * sectors_per_page + off + remain ≤ 2 ^ 31
    → page_loop on_page fuel lpn off remain s ≡ on_parts on_page (parts fuel lpn off remain) s
unfolding parts page_loop on_parts
page_loop-parts on_page zero lpn off remain s enough off_ok small =
    let none : remain ≡ 0 = omega arith in rw none refl
page_loop-parts on_page (suc fuel) lpn off remain s enough off_ok small =
    elim (Bool-cases (remain == 0)) [
      | inl none ↦ rw none refl
      | inr some ↦
          let pos : 0 < remain = ground (arith, some) in
          let n = n_pos off remain pos off_ok (omega arith) in
          let ends = n_ends off remain pos off_ok (omega arith) in
          let le = n_le off remain pos off_ok (omega arith) in
          rw (some, u32-small (lpn + 1) (omega arith))
            (ap (λ f. on_page lpn off (sects_in_page off remain) s >>= f)
              (fun_ext λ s'.
                page_loop-parts on_page fuel (lpn + 1) 0 (remain - sects_in_page off remain) s'
                  (omega arith) (omega arith) (grind arith)))
    ]

-- The call does what its handler does to some parts of pages, in their order, and these are exactly the
-- sectors of the range, each once, each part reaching to the end of its page where sectors are left.
pub record HandlesRange {ℓ} {S : Type ℓ} (on_page : ℕ → ℕ → ℕ → S → Run S) (lba count : ℕ) (s : S)
    (call : Run S) : Type ℓ where
  pub pages : List Part
  pub splits : Splits lba count pages
  pub does : call ≡ on_parts on_page pages s

split_pages-HandlesRange {ℓ} :
    {S : Type ℓ} (on_page : ℕ → ℕ → ℕ → S → Run S) (lba count : ℕ) (s : S)
    → lba + count ≤ 2 ^ 31
    → HandlesRange on_page lba count s (split_pages on_page lba count s)
unfolding split_pages
split_pages-HandlesRange on_page lba count s small =
    let lpn = lba / sectors_per_page in
    let off = lba % sectors_per_page in
    let start : lpn * sectors_per_page + off ≡ lba = omega arith in
    record {
      pages = parts count lpn off count;
      splits =
          subst (λ f. Splits f count (parts count lpn off count)) start
            (parts-Splits count lpn off count (omega arith) (omega arith) (omega arith));
      does =
          page_loop-parts on_page count lpn off count s (omega arith) (omega arith) (omega arith);
    }

-- ftl_read, for a range that ends below 2 ^ 31, the overwrite bit cleared, reads the parts of pages
-- that make up exactly its sectors, in their order.
pub ftl_read-HandlesRange {ℓ} :
    {S : Type ℓ} (read_from_log_blk : ℕ → ℕ → ℕ → S → Run S) (lba count : ℕ) (s : S)
    → overwrite_lba lba + count ≤ 2 ^ 31
    → HandlesRange read_from_log_blk
        (overwrite_lba lba)
        count
        s
        (ftl_read read_from_log_blk lba count s)
unfolding ftl_read
ftl_read-HandlesRange read_from_log_blk lba count s small =
    split_pages-HandlesRange read_from_log_blk (overwrite_lba lba) count s small

module _ {ℓ} {S : Type ℓ} (count_writes : ℕ → S → S) (write overwrite : ℕ → ℕ → ℕ → S → Run S)
    (clean : S → Run S) (lba count : ℕ) (s : S) where
  -- ftl_write with the overwrite bit set counts the sectors, overwrites the parts of pages that make
  -- up exactly its sectors, the bit cleared, in their order, and then cleans in the background.
  pub ftl_write-overwrite :
      is_overwrite lba ≡ true
      → overwrite_lba lba + count ≤ 2 ^ 31
      → (call : Run S) × HandlesRange overwrite
          (overwrite_lba lba)
          count
          (count_writes count s)
          call
        × (ftl_write count_writes write overwrite clean lba count s ≡ (call >>= clean))
  unfolding ftl_write
  ftl_write-overwrite set small = (
    split_pages overwrite (overwrite_lba lba) count (count_writes count s),
    split_pages-HandlesRange overwrite (overwrite_lba lba) count (count_writes count s) small,
    rw set refl,
  )

  -- ftl_write with the overwrite bit clear counts the sectors, writes the parts of pages that make up
  -- exactly its sectors, in their order, and then cleans in the background.
  pub ftl_write-write :
      is_overwrite lba ≡ false
      → lba + count ≤ 2 ^ 31
      → (call : Run S) × HandlesRange write lba count (count_writes count s) call
        × (ftl_write count_writes write overwrite clean lba count s ≡ (call >>= clean))
  unfolding ftl_write
  ftl_write-write unset small = (
    split_pages write lba count (count_writes count s),
    split_pages-HandlesRange write lba count (count_writes count s) small,
    rw unset refl,
  )
