-- ===== src/Request/Split.antt =====
-- What it is to split a range of sectors into pages.
use msst2015_ftl.Base.{ℕ, ◌+◌, ◌*◌, ◌<◌, ◌≤◌, ◌≡◌, ◌⊎◌, List, [], ◌∷◌}
use msst2015_ftl.Base.Run.{Run, ok, ◌>>=◌}
use msst2015_ftl.Params.{sectors_per_page}

-- Part of a page.
pub record Part : Type 0 where
  pub lpn : ℕ
  pub sect_offset : ℕ
  pub n_sects : ℕ

-- The part lies in its page and starts at the sector `first`; unless nothing is left behind it, it
-- reaches to the end of its page.
pub record IsPart (first left : ℕ) (p : Part) : Type 0 where
  pub some : 0 < p.n_sects
  pub inside : p.sect_offset + p.n_sects ≤ sectors_per_page
  pub starts : p.lpn * sectors_per_page + p.sect_offset ≡ first
  pub ends : (left ≡ 0) ⊎ (p.sect_offset + p.n_sects ≡ sectors_per_page)

-- The parts are the sectors first, ..., first + count - 1, each once and in their order.
pub data Splits : (first count : ℕ) → List Part → Type 0 where
  none_left : (first : ℕ) → Splits first 0 []
  part :
      (first left : ℕ) (p : Part) (ps : List Part)
      → IsPart first left p
      → Splits (first + p.n_sects) left ps
      → Splits first (p.n_sects + left) (p ∷ ps)

-- A handler applied to the parts in their order.
unfoldable pub on_parts {ℓ} : {S : Type ℓ} → (ℕ → ℕ → ℕ → S → Run S) → List Part → S → Run S
on_parts on_page [] s = ok s
on_parts on_page (p ∷ ps) s =
    on_page p.lpn p.sect_offset p.n_sects s >>= λ s'. on_parts on_page ps s'
