-- ===== src/Memory.antt =====
-- What a call of the drivers under target_spw/ does to the bytes of the buffers and of the flash. A
-- command names a row, a column (a sector of the page), an address and a count of bytes; the
-- controller moves the bytes of these sectors between the page and the buffer that starts at the
-- address, in which they have the same column. Waiting for a bank changes nothing here: a command is
-- done when it is issued. A page is erased before it is programmed, and then takes any byte; the page
-- of the overwrite in place is not, and is programmed by nand_page_reprogram_from_host.
mod Programs
use msst2015_ftl.Base.{ℕ, ◌+◌, ◌-◌, ◌*◌, ◌%◌, ◌^◌, ltb, leb, ◌==◌, ◌&&◌, if◌then◌else◌, u8, invalid}
use Prim.Native.Nat.{bit_and}
use msst2015_ftl.Params.{num_banks, bytes_per_page, bytes_per_sector}
use msst2015_ftl.Layout.{
  rd_buf_addr, wr_buf_addr, ftl_buf_addr, gc_buf_addr, log_buf_addr, ow_log_buf_addr,
  num_wr_buffers, victim_lpn_list_addr,
}
use msst2015_ftl.State.{Ftl}

-- The buffers of ftl_seal/dram_layout.h.
unfoldable pub wr_buf_ptr : ℕ → ℕ
wr_buf_ptr buf_id = wr_buf_addr + buf_id * bytes_per_page

unfoldable pub rd_buf_ptr : ℕ → ℕ
rd_buf_ptr buf_id = rd_buf_addr + buf_id * bytes_per_page

unfoldable pub ftl_buf : ℕ → ℕ
ftl_buf bank = ftl_buf_addr + bank * bytes_per_page

unfoldable pub gc_buf : ℕ → ℕ → ℕ
gc_buf bank nest_level =
    gc_buf_addr + (nest_level - 1) * num_banks * bytes_per_page + bank * bytes_per_page

unfoldable pub log_buf : ℕ → ℕ
log_buf bank = log_buf_addr + bank * bytes_per_page

unfoldable pub ow_log_buf : ℕ → ℕ
ow_log_buf bank = ow_log_buf_addr + bank * bytes_per_page

unfoldable pub victim_lpn_list : ℕ → ℕ → ℕ
victim_lpn_list bank nest_level =
    victim_lpn_list_addr + (nest_level - 1) * num_banks * bytes_per_page + bank * bytes_per_page

-- mem_copy and mem_set_dram, of `n` bytes; each byte that is set is the lowest byte of `value`, of
-- which the firmware uses 0 and 0xFFFFFFFF.
unfoldable pub mem_copy : Ftl → ℕ → ℕ → ℕ → Ftl
mem_copy s dst src n = record s {
  buffers = λ a. if leb dst a && ltb a (dst + n) then s.buffers (src + (a - dst)) else s.buffers a;
}

unfoldable pub mem_set_dram : Ftl → ℕ → ℕ → ℕ → Ftl
mem_set_dram s dst value n = record s {
  buffers = λ a. if leb dst a && ltb a (dst + n) then u8 value else s.buffers a;
}

unfoldable pub nand_page_ptread : Ftl → ℕ → ℕ → ℕ → ℕ → ℕ → ℕ → Ftl
nand_page_ptread s bank vblock page sect_offset num_sectors buf = record s {
  buffers = λ a.
      let first = buf + sect_offset * bytes_per_sector in
      if leb first a && ltb a (first + num_sectors * bytes_per_sector)
      then s.flash bank vblock page (a - buf)
      else s.buffers a;
}

unfoldable pub nand_page_read : Ftl → ℕ → ℕ → ℕ → ℕ → Ftl
nand_page_read s bank vblock page buf = record s {
  buffers = λ a.
      if leb buf a && ltb a (buf + bytes_per_page)
      then s.flash bank vblock page (a - buf)
      else s.buffers a;
}

unfoldable pub nand_page_ptprogram : Ftl → ℕ → ℕ → ℕ → ℕ → ℕ → ℕ → Ftl
nand_page_ptprogram s bank vblock page sect_offset num_sectors buf = record s {
  flash = λ b v p i.
      if (b == bank)
        && ((v == vblock)
            && ((p == page)
                && (leb (sect_offset * bytes_per_sector) i
                    && ltb i ((sect_offset + num_sectors) * bytes_per_sector))))
      then s.buffers (buf + i)
      else s.flash b v p i;
}

unfoldable pub nand_page_program : Ftl → ℕ → ℕ → ℕ → ℕ → Ftl
nand_page_program s bank vblock page buf = record s {
  flash = λ b v p i.
      if (b == bank) && ((v == vblock) && ((p == page) && ltb i bytes_per_page))
      then s.buffers (buf + i)
      else s.flash b v p i;
}

-- The SATA buffer that is filled next is released.
unfoldable pub next_write_buf : Ftl → Ftl
next_write_buf s = record s { write_buf_id = (s.write_buf_id + 1) % num_wr_buffers }

unfoldable pub nand_page_ptprogram_from_host : Ftl → ℕ → ℕ → ℕ → ℕ → ℕ → Ftl
nand_page_ptprogram_from_host s bank vblock page sect_offset num_sectors =
    next_write_buf
      (nand_page_ptprogram s bank vblock page sect_offset num_sectors (wr_buf_ptr s.write_buf_id))

-- The same command on a page that is not erased: to program a cell only clears its bit, so a byte of
-- the page keeps the bits that it and the byte of the host have in common.
unfoldable pub nand_page_reprogram_from_host : Ftl → ℕ → ℕ → ℕ → ℕ → ℕ → Ftl
nand_page_reprogram_from_host s bank vblock page sect_offset num_sectors =
    next_write_buf (record s {
      flash = λ b v p i.
          if (b == bank)
            && ((v == vblock)
                && ((p == page)
                    && (leb (sect_offset * bytes_per_sector) i
                        && ltb i ((sect_offset + num_sectors) * bytes_per_sector))))
          then bit_and (s.flash b v p i) (s.buffers (wr_buf_ptr s.write_buf_id + i))
          else s.flash b v p i;
    })

unfoldable pub nand_block_erase : Ftl → ℕ → ℕ → Ftl
nand_block_erase s bank vblock = record s {
  flash = λ b v p i. if (b == bank) && (v == vblock) then 0xff else s.flash b v p i;
  flash_lists = λ b v p i. if (b == bank) && (v == vblock) then invalid else s.flash_lists b v p i;
}

-- read_dram_32, within the DRAM and at a multiple of four, of the processor's little-endian word.
unfoldable pub read_dram_32 : Ftl → ℕ → ℕ
read_dram_32 s addr =
    s.buffers addr
    + s.buffers (addr + 1) * 2 ^ 8
    + s.buffers (addr + 2) * 2 ^ 16
    + s.buffers (addr + 3) * 2 ^ 24
