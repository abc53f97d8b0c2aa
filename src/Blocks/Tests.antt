-- ===== src/Blocks/Tests.antt =====
-- The virtual blocks at a concrete state.
use msst2015_ftl.Base.{ℕ, ◌<◌, ◌≡◌, arith, [], ◌∷◌, if◌then◌else◌, ◌==◌}
use msst2015_ftl.Params.{log_blk_per_bank}
use msst2015_ftl.Blocks.{get_log_vbn, recycle_victim}
use msst2015_ftl.Blocks.Recycle.{HasBlocks, recycle_victim-HasBlocks}
use msst2015_ftl.Blocks.Samples.{sample, sample-HasBlocks}

recycle_victim-HasBlocks_example :
    ((recycle_victim sample 6 5).0 ≡ get_log_vbn sample 6 5)
    × ((lbn : ℕ)
        → lbn < log_blk_per_bank
        → get_log_vbn (recycle_victim sample 6 5).1 6 lbn
          ≡ (if 5 == lbn then 3 else get_log_vbn sample 6 lbn))
    × HasBlocks (recycle_victim sample 6 5).1 6 (4 ∷ get_log_vbn sample 6 5 ∷ [])
recycle_victim-HasBlocks_example =
    recycle_victim-HasBlocks sample 6 3 (4 ∷ []) (omega arith) sample-HasBlocks 5 (omega arith)
