-- ===== src/Host/Tests.antt =====
-- A trim request of one sector, whose 64 ranges are all sector 0x02020202 and the count 0x0202, and of
-- a hundred sectors.
use msst2015_ftl.Base.{◌+◌, ◌*◌, ◌-◌, ◌/◌, ◌%◌, ◌≡◌, arith}
use msst2015_ftl.Base.Run.{ok, ◌>>=◌}
use msst2015_ftl.Params.{sectors_per_page}
use msst2015_ftl.Layout.{num_wr_buffers}
use msst2015_ftl.Chunk.{block_chunk_addr}
use msst2015_ftl.State.{Ftl}
use msst2015_ftl.State.Samples.{mapped_to}
use msst2015_ftl.Host.{ftl_trim}
use msst2015_ftl.Host.Payload.{trim_ranges}
use msst2015_ftl.Host.Ranges.{ftl_trim-trim_ranges}

abbrev requested : Ftl
requested = record (mapped_to (block_chunk_addr 3 5 7 2)) { buffers = λ _. 2 }

ftl_trim-trim_ranges_example : ftl_trim 100 requested ≡ (
    trim_ranges (100 * 64) requested 0 requested >>= λ s'. ok (record s' {
      write_buf_id =
          (s'.write_buf_id + (100 + sectors_per_page - 1) / sectors_per_page) % num_wr_buffers;
    }))
ftl_trim-trim_ranges_example = ftl_trim-trim_ranges requested (λ a. omega arith) 100 (omega arith)
