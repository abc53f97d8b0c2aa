-- ===== src/Request/Tests.antt =====
-- Requests at concrete ranges, with handlers that note the sectors they get.
use msst2015_ftl.Base.{ℕ, ◌+◌, ◌*◌, ◌-◌, ◌/◌, ◌^◌, ◌≡◌, refl, arith, List, [], ◌∷◌, ◌++◌, range}
use msst2015_ftl.Base.Run.{Run, ok, ◌>>=◌}
use msst2015_ftl.Request.Chunks.Page.{on_chunks}
use msst2015_ftl.Request.Chunks.{trim_range-on_chunks}
use msst2015_ftl.Request.{trim_range, ftl_read, ftl_write, overwrite_lba, is_overwrite}
use msst2015_ftl.Request.Pages.{
  HandlesRange, ftl_read-HandlesRange, ftl_write-overwrite, ftl_write-write,
}

abbrev note : ℕ → ℕ → ℕ → List ℕ → Run (List ℕ)
note lpn sect_offset n seen = ok (seen ++ range (lpn * 64 + sect_offset) n)

abbrev count_none : ℕ → List ℕ → List ℕ
count_none n seen = seen

abbrev done : List ℕ → Run (List ℕ)
done seen = ok seen

ftl_read-HandlesRange_example : HandlesRange note 60 10 [] (ftl_read note (2 ^ 24 + 60) 10 [])
unfolding overwrite_lba is_overwrite
ftl_read-HandlesRange_example = ftl_read-HandlesRange note (2 ^ 24 + 60) 10 [] (omega arith)

ftl_write-overwrite_example :
    (call : Run (List ℕ)) × HandlesRange note 60 10 [] call
    × (ftl_write count_none note note done (2 ^ 24 + 60) 10 [] ≡ (call >>= done))
unfolding overwrite_lba is_overwrite
ftl_write-overwrite_example =
    ftl_write-overwrite count_none note note done (2 ^ 24 + 60) 10 [] refl (omega arith)

ftl_write-write_example :
    (call : Run (List ℕ)) × HandlesRange note 60 10 [] call
    × (ftl_write count_none note note done 60 10 [] ≡ (call >>= done))
unfolding is_overwrite
ftl_write-write_example = ftl_write-write count_none note note done 60 10 [] refl (omega arith)

-- A handler that notes the chunk it trims.
abbrev note_chunk : ℕ → ℕ → List ℕ → Run (List ℕ)
note_chunk lpn idx seen = ok (seen ++ ((lpn * 8 + idx) ∷ []))

trim_range-on_chunks_example :
    trim_range note_chunk 60 20 []
    ≡ on_chunks note_chunk ((60 + 8 - 1) / 8) (80 / 8 - (60 + 8 - 1) / 8) []
trim_range-on_chunks_example = trim_range-on_chunks note_chunk 60 20 [] (omega arith)
