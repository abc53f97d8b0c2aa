-- ===== src/Memory/Programs.antt =====
-- The program of a page that is erased, and of one that is not (nand_page_ptprogram_from_host
-- of target_spw/flash_wrapper.c).
use Prim.Native.Nat.{bit_and}
use msst2015_ftl.Base.{ℕ, zero, suc, ◌+◌, ◌<◌, ◌≡◌, refl, arith, Bool, true, ◌==◌, ◌&&◌, eqb→eq}
use msst2015_ftl.State.{Ftl}
use msst2015_ftl.Memory.{
  wr_buf_ptr, next_write_buf, nand_page_ptprogram, nand_page_ptprogram_from_host,
  nand_page_reprogram_from_host,
}

-- A test at every number below `n`.
all_below : ℕ → (ℕ → Bool) → Bool
all_below zero p = true
all_below (suc n) p = p n && all_below n p

all_below-at : (n : ℕ) (p : ℕ → Bool) (x : ℕ) → all_below n p ≡ true → x < n → p x ≡ true
unfolding all_below
all_below-at zero p x all lt = absurd (omega arith)
all_below-at (suc n) p x all lt = ground (arith, all_below-at n p x)

every_byte : all_below 256 (λ x. bit_and 0xff x == x) ≡ true
unfolding all_below
every_byte = refl

erased_byte : (x : ℕ) → x < 256 → bit_and 0xff x ≡ x
erased_byte x small =
    eqb→eq (bit_and 0xff x) x (all_below-at 256 (λ k. bit_and 0xff k == k) x every_byte small)

-- On an erased byte, both commands leave the byte of the host.
pub nand_page_reprogram_from_host-erased :
    (s : Ftl) (bank vblock page sect n b v p i : ℕ)
    → s.flash b v p i ≡ 0xff
    → s.buffers (wr_buf_ptr s.write_buf_id + i) < 256
    → (nand_page_reprogram_from_host s bank vblock page sect n).flash b v p i
      ≡ (nand_page_ptprogram_from_host s bank vblock page sect n).flash b v p i
unfolding nand_page_reprogram_from_host nand_page_ptprogram_from_host nand_page_ptprogram
    next_write_buf
nand_page_reprogram_from_host-erased s bank vblock page sect n b v p i erased small =
    rw erased (rw (erased_byte (s.buffers (wr_buf_ptr s.write_buf_id + i)) small) refl)
