-- ===== src/Params.antt =====
-- The constants of the configuration that the sources build: include/nand.h (FLASH_TYPE
-- K9LCG08U1M), include/bank.h (BANK_BMP 0xFFFFFFFF), include/jasmine.h, target_spw/target.h and
-- ftl_seal/ftl_parameters.h, each by the formula of its macro.
use msst2015_ftl.Base.{ℕ, ◌+◌, ◌-◌, ◌*◌, ◌/◌, ◌^◌, ltb, if◌then◌else◌}

-- include/bank.h
abbrev pub num_banks : ℕ
num_banks = 32

-- include/nand.h
abbrev pub sectors_per_phypage : ℕ
sectors_per_phypage = 16

abbrev pub pages_per_vblk : ℕ
pages_per_vblk = 128

abbrev pub spare_pblks_per_bank : ℕ
spare_pblks_per_bank = 56

abbrev pub num_planes : ℕ
num_planes = 2

abbrev pub pblks_per_bank : ℕ
pblks_per_bank = 4096 + spare_pblks_per_bank

-- include/jasmine.h
abbrev pub dram_size : ℕ
dram_size = 65075200

abbrev pub chn_width : ℕ
chn_width = 2

abbrev pub bytes_per_sector : ℕ
bytes_per_sector = 512

abbrev pub phypages_per_page : ℕ
phypages_per_page = chn_width * num_planes

abbrev pub sectors_per_page : ℕ
sectors_per_page = sectors_per_phypage * phypages_per_page

abbrev pub bytes_per_page : ℕ
bytes_per_page = bytes_per_sector * sectors_per_page

abbrev pub sectors_per_vblk : ℕ
sectors_per_vblk = sectors_per_page * pages_per_vblk

abbrev pub pages_per_blk : ℕ
pages_per_blk = pages_per_vblk

abbrev pub vblks_per_bank : ℕ
vblks_per_bank = pblks_per_bank / num_planes

abbrev pub spare_vblks_per_bank : ℕ
spare_vblks_per_bank = spare_pblks_per_bank / num_planes

abbrev pub num_vblks : ℕ
num_vblks = vblks_per_bank * num_banks

abbrev pub num_psectors : ℕ
num_psectors = sectors_per_vblk * ((vblks_per_bank - spare_vblks_per_bank) * num_banks)

abbrev pub num_lsectors : ℕ
num_lsectors = num_psectors / 16

abbrev pub num_lpages : ℕ
num_lpages = (num_lsectors + sectors_per_page - 1) / sectors_per_page

abbrev pub dram_ecc_unit : ℕ
dram_ecc_unit = 128

abbrev pub num_banks_max : ℕ
num_banks_max = 32

-- target_spw/target.h
abbrev pub dram_base : ℕ
dram_base = 0x4000_0000

-- ftl_seal/ftl_parameters.h, with Overwrite = 1
abbrev pub used_pages_per_log_blk : ℕ
used_pages_per_log_blk = pages_per_blk - 1

abbrev pub ow_counters_per_blk : ℕ
ow_counters_per_blk = pages_per_vblk

abbrev pub chunks_per_page : ℕ
chunks_per_page = 8

abbrev pub chunks_per_blk : ℕ
chunks_per_blk = chunks_per_page * pages_per_blk

abbrev pub chunks_per_log_blk : ℕ
chunks_per_log_blk = used_pages_per_log_blk * chunks_per_page

abbrev pub chunk_addr_bytes : ℕ
chunk_addr_bytes = 4

abbrev pub sectors_per_chunk : ℕ
sectors_per_chunk = sectors_per_page / chunks_per_page

abbrev pub bytes_per_chunk : ℕ
bytes_per_chunk = bytes_per_page / chunks_per_page

abbrev pub free_blk_per_bank : ℕ
free_blk_per_bank = 2

abbrev pub num_data_blk : ℕ
num_data_blk = ((num_lpages + pages_per_blk - 1) / pages_per_blk) / 2

abbrev pub data_blk_per_bank : ℕ
data_blk_per_bank = (num_data_blk + num_banks - 1) / num_banks

abbrev pub sw_log_blk_per_bank : ℕ
sw_log_blk_per_bank = 1

-- The #if raises the number of spare blocks to its minimum.
abbrev pub spare_log_blk_per_bank : ℕ
spare_log_blk_per_bank =
    let wanted = data_blk_per_bank / 8 + sw_log_blk_per_bank in
    let least = 2 + data_blk_per_bank / pages_per_blk + 1 in
    if ltb wanted least then least else wanted

abbrev pub log_blk_per_bank : ℕ
log_blk_per_bank =
    let wanted = data_blk_per_bank + spare_log_blk_per_bank in
    if ltb vblks_per_bank wanted then vblks_per_bank else wanted

abbrev pub log_buf_lpn : ℕ
log_buf_lpn = log_blk_per_bank * pages_per_blk - 1

abbrev pub start_ow_log_lpn : ℕ
start_ow_log_lpn = 2 ^ 31

abbrev pub data_blks_per_bank_seen_by_user : ℕ
data_blks_per_bank_seen_by_user = data_blk_per_bank * 2

abbrev pub ow_limit : ℕ
ow_limit = 8
