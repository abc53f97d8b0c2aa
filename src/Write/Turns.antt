-- ===== src/Write/Turns.antt =====
-- The banks take turns (chooseNewBank of ftl_seal/write.c).
use msst2015_ftl.Base.{ℕ, zero, suc, ◌+◌, ◌-◌, ◌%◌, ◌<◌, ◌≡◌, ◌∙◌, arith}
use msst2015_ftl.Params.{num_banks}
use msst2015_ftl.State.{Ftl}
use msst2015_ftl.Write.Buffers.{choose_new_bank}

-- The bank that is chosen after `k` other choices.
unfoldable pub chosen_after : ℕ → Ftl → ℕ
chosen_after zero s = (choose_new_bank s).0
chosen_after (suc k) s = chosen_after k (choose_new_bank s).1

chosen_after-eq : (k : ℕ) (s : Ftl) → chosen_after k s ≡ (s.reference_bank + 1 + k) % num_banks
unfolding chosen_after choose_new_bank
chosen_after-eq zero s = omega arith
chosen_after-eq (suc k) s =
    chosen_after-eq k (record s { reference_bank = (s.reference_bank + 1) % num_banks })
    ∙ omega arith

-- Every bank is chosen within as many choices as there are banks, wherever the turns are: chooseNewBank
-- leaves no bank out for longer.
pub choose_new_bank-turn :
    (s : Ftl) (bank : ℕ) → bank < num_banks → (k : ℕ) × (k < num_banks) × (chosen_after k s ≡ bank)
choose_new_bank-turn s bank bank_ok = (
  (bank + (num_banks - 1 - s.reference_bank % num_banks)) % num_banks,
  omega arith,
  chosen_after-eq _ s ∙ omega arith,
)
