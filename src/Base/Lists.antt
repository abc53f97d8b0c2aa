-- ===== src/Base/Lists.antt =====
-- Lists with numbers of the native type.
use Prim.Native.Nat.{ℕ, zero, suc, ◌+◌, ◌≤◌, ◌<◌}
use mathlib.Core.Path.{◌≡◌, refl, ap}
use mathlib.Core.List.{List, [], ◌∷◌, ◌++◌}
use native.Mathlib.Omega.{arith}
use msst2015_ftl.Base.Tests.{◌==◌, ltb, if◌then◌else◌}

unfoldable pub length {ℓ} : {A : Type ℓ} → List A → ℕ
length [] = 0
length (x ∷ xs) = length xs + 1

unfoldable pub occurrences : ℕ → List ℕ → ℕ
occurrences i [] = 0
occurrences i (j ∷ js) = (if i == j then 1 else 0) + occurrences i js

-- i, i + 1, ...: `n` numbers
unfoldable pub range : ℕ → ℕ → List ℕ
range i zero = []
range i (suc n) = i ∷ range (i + 1) n

-- The last element of x ∷ xs.
unfoldable pub last {ℓ} : {A : Type ℓ} → A → List A → A
last x [] = x
last x (y ∷ ys) = last y ys

pub length-snoc {ℓ} : {A : Type ℓ} (xs : List A) (x : A) → length (xs ++ (x ∷ [])) ≡ length xs + 1
unfolding length
length-snoc [] x = refl
length-snoc (y ∷ ys) x = ap (λ n. n + 1) (length-snoc ys x)

pub last-snoc {ℓ} : {A : Type ℓ} (y : A) (ys : List A) (x : A) → last y (ys ++ (x ∷ [])) ≡ x
unfolding last
last-snoc y [] x = refl
last-snoc y (z ∷ zs) x = last-snoc z zs x

pub occurrences-snoc :
    (i : ℕ) (xs : List ℕ) (x : ℕ) → occurrences i (xs ++ (x ∷ [])) ≡ occurrences i (x ∷ xs)
unfolding occurrences
occurrences-snoc i [] x = refl
occurrences-snoc i (y ∷ ys) x = omega (arith, occurrences-snoc i ys x)

pub occurrences-head : (x : ℕ) (xs : List ℕ) → 0 < occurrences x (x ∷ xs)
unfolding occurrences
occurrences-head x xs = ground arith

pub occurrences-tail : (i x : ℕ) (xs : List ℕ) → occurrences i xs ≤ occurrences i (x ∷ xs)
unfolding occurrences
occurrences-tail i x xs = omega arith

pub occurrences-last : (x : ℕ) (xs : List ℕ) → 0 < occurrences (last x xs) (x ∷ xs)
unfolding last
occurrences-last x [] = occurrences-head x []
occurrences-last x (y ∷ ys) =
    omega (arith, occurrences-last y ys, occurrences-tail (last y ys) x (y ∷ ys))

pub length-range : (i n : ℕ) → length (range i n) ≡ n
unfolding length range
length-range i zero = refl
length-range i (suc n) = omega (arith, length-range (i + 1) n)

pub occurrences-range :
    (k i n : ℕ)
    → occurrences k (range i n) ≡ (if ltb k i then 0 else if ltb k (i + n) then 1 else 0)
unfolding occurrences range
occurrences-range k i zero = ground arith
occurrences-range k i (suc n) = ground (arith, occurrences-range k (i + 1) n)
