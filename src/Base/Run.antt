-- ===== src/Base/Run.antt =====
-- How a call of the firmware ends, and the rules for calls that end well.
use mathlib.Core.Path.{◌≡◌, refl}
use mathlib.Core.Bool.{Bool, true, false}
use msst2015_ftl.Base.Tests.{if◌then◌else◌}

-- A value; an endless `while(1)` behind an error message; an access outside the bank's part of an
-- array, which the C code makes unchecked; or the model's own fuel running out.
pub data Run {ℓ} (A : Type ℓ) : Type ℓ where
  ok : A → Run A
  hang stray out_of_fuel : Run A

infixl 5 ◌>>=◌
abbrev pub ◌>>=◌ {ℓ κ} : {A : Type ℓ} {B : Type κ} → Run A → (A → Run B) → Run B
ok a >>= f = f a
hang >>= f = hang
stray >>= f = stray
out_of_fuel >>= f = out_of_fuel

-- The call comes back, and its result satisfies `Good`.
pub data Yields {ℓ κ} {A : Type ℓ} (Good : A → Type κ) : Run A → Type (ℓ ⊔ κ) where
  yields : {result : A} → Good result → Yields Good (ok result)

module _ {ℓ κ ℓ' κ'} {A : Type ℓ} {B : Type ℓ'} {Good : A → Type κ} {Better : B → Type κ'} where
  -- A step, and what is done with its result.
  pub Yields-step :
      {first : Run A} (next : A → Run B)
      → Yields Good first
      → ((result : A) → Good result → Yields Better (next result))
      → Yields Better (first >>= next)
  Yields-step next (yields g) continue = continue _ g

module _ {ℓ κ ℓ' κ' μ} {A : Type ℓ} {B : Type ℓ'} {C : Type μ} {Good : A → Type κ}
    {Better : C → Type κ'} where
  -- A step within a step.
  pub Yields-bind :
      {first : Run A} (second : A → Run B) (next : B → Run C)
      → Yields Good first
      → ((result : A) → Good result → Yields Better (second result >>= next))
      → Yields Better ((first >>= second) >>= next)
  Yields-bind second next (yields g) continue = continue _ g

module _ {ℓ κ} {A : Type ℓ} {Good : A → Type κ} where
  pub Yields-weaken {κ'} :
      {Weak : A → Type κ'} {call : Run A}
      → ((result : A) → Good result → Weak result)
      → Yields Good call
      → Yields Weak call
  Yields-weaken weak (yields g) = yields (weak _ g)

  -- Either branch of a test may be taken, each with what the test says.
  pub Yields-test :
      (test : Bool) {yes_branch no_branch : Run A}
      → (test ≡ true → Yields Good yes_branch)
      → (test ≡ false → Yields Good no_branch)
      → Yields Good (if test then yes_branch else no_branch)
  Yields-test true on_true on_false = on_true refl
  Yields-test false on_true on_false = on_false refl

  pub Yields-result :
      {call : Run A} → Yields Good call → (result : A) × (call ≡ ok result) × Good result
  Yields-result (yields g) = (_, refl, g)

pub bind_ok {ℓ} : {S : Type ℓ} (r : Run S) → (r >>= λ s. ok s) ≡ r
bind_ok (ok s) = refl
bind_ok hang = refl
bind_ok stray = refl
bind_ok out_of_fuel = refl

pub bind_bind {ℓ κ μ} :
    {A : Type ℓ} {B : Type κ} {C : Type μ} (r : Run A) (f : A → Run B) (g : B → Run C)
    → ((r >>= f) >>= g) ≡ (r >>= λ a. f a >>= g)
bind_bind (ok a) f g = refl
bind_bind hang f g = refl
bind_bind stray f g = refl
bind_bind out_of_fuel f g = refl

-- If the call comes back, its result satisfies `Good`.
pub data Partly {ℓ κ} {A : Type ℓ} (Good : A → Type κ) : Run A → Type (ℓ ⊔ κ) where
  back : {result : A} → Good result → Partly Good (ok result)
  hung : Partly Good hang
  strayed : Partly Good stray
  ran_out : Partly Good out_of_fuel

module _ {ℓ κ ℓ' κ'} {A : Type ℓ} {B : Type ℓ'} {Good : A → Type κ} {Better : B → Type κ'} where
  pub Partly-step :
      {call : Run A} (next : A → Run B)
      → Partly Good call
      → ((a : A) → Good a → Partly Better (next a))
      → Partly Better (call >>= next)
  Partly-step next (back g) continue = continue _ g
  Partly-step next hung continue = hung
  Partly-step next strayed continue = strayed
  Partly-step next ran_out continue = ran_out

module _ {ℓ} {A : Type ℓ} where
  pub Partly-any : (call : Run A) → Partly {ℓ, 0} (λ (a : A). Unit) call
  Partly-any (ok a) = back tt
  Partly-any hang = hung
  Partly-any stray = strayed
  Partly-any out_of_fuel = ran_out

module _ {ℓ κ} {A : Type ℓ} {Good : A → Type κ} where
  pub Partly-test :
      (test : Bool) {yes_branch no_branch : Run A}
      → Partly Good yes_branch
      → Partly Good no_branch
      → Partly Good (if test then yes_branch else no_branch)
  Partly-test true on_true on_false = on_true
  Partly-test false on_true on_false = on_false

  -- Two ways to go on that agree on the results that the call can have.
  pub Partly-same {κ'} :
      {B : Type κ'} {call : Run A} (next other : A → Run B)
      → Partly Good call
      → ((a : A) → Good a → next a ≡ other a)
      → (call >>= next) ≡ (call >>= other)
  Partly-same next other (back g) same = same _ g
  Partly-same next other hung same = refl
  Partly-same next other strayed same = refl
  Partly-same next other ran_out same = refl
