-- ===== src/Base/Table.antt =====
-- Arrays as functions from an index, and a write to one entry.
use Prim.Native.Nat.{ℕ}
use mathlib.Core.Path.{◌≡◌}
use mathlib.Core.Logic.{◌≢◌, inl, inr}
use native.Mathlib.Omega.{arith}
use msst2015_ftl.Base.Tests.{◌==◌, Bool-cases, if◌then◌else◌}

module _ {ℓ} {A : Type ℓ} where
  abbrev pub update : (ℕ → A) → ℕ → A → ℕ → A
  update f i v j = if i == j then v else f j

  pub update_self : (f : ℕ → A) (i : ℕ) (v : A) → update f i v i ≡ v
  update_self f i v = ground arith

  pub update-ne : (f : ℕ → A) (i : ℕ) (v : A) (j : ℕ) → i ≢ j → update f i v j ≡ f j
  update-ne f i v j h = ground arith

  -- What the new entry has, and the other entries had before, every entry has after the write.
  pub update-keeps {κ} :
      (Good : A → Type κ) (f : ℕ → A) (i : ℕ) (v : A) (j : ℕ)
      → Good v
      → (i ≢ j → Good (f j))
      → Good (update f i v j)
  update-keeps Good f i v j new old = elim (Bool-cases (i == j)) [
    | inl same ↦ rw same new
    | inr other ↦ rw other (old λ e. ground (arith, other))
  ]
