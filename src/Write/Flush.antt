-- ===== src/Write/Flush.antt =====
-- The loop of flushLogBuffer (ftl_seal/write.c): which entries of the chunks map table move to the page.
use msst2015_ftl.Base.{
  ℕ, zero, suc, ◌+◌, ◌-◌, ◌<◌, ◌≤◌, ◌≡◌, ◌≢◌, ◌⊎◌, inl, inr, refl, sym, ap, subst, ◌∙◌, arith, ◌==◌,
  Bool-cases, eqb→eq, update, invalid,
}
use msst2015_ftl.Base.Run.{Yields, yields, Yields-step}
use msst2015_ftl.Params.{num_banks, chunks_per_page}
use msst2015_ftl.Layout.{chunks_map_table, chunk_in_lpns_list}
use msst2015_ftl.Chunk.{log_chunk_addr, buffer_chunk_addr}
use msst2015_ftl.Heap.Defs.{HeapData}
use msst2015_ftl.Heap.Sift.Order.{block_value}
use msst2015_ftl.Heap.Ops.Data.{IsValidData}
use msst2015_ftl.State.{Ftl}
use msst2015_ftl.Log.{get_log_lbn, log_page_to_offset}
use msst2015_ftl.Trim.Drop.{decrement_from_zero}
use msst2015_ftl.Write.Buffers.{set_map, set_list, lose_chunk, flush_chunks}

-- The page of the host, and the entry of the map, of chunk `i` of the buffer of a bank.
abbrev pub lpn_of : Ftl → ℕ → ℕ → ℕ
lpn_of s bank i = (s.log_buf_meta bank).data_lpn i

abbrev pub slot_of : Ftl → ℕ → ℕ → ℕ
slot_of s bank i = chunks_map_table (lpn_of s bank i) ((s.log_buf_meta bank).chunk_idx i)

-- The metadata of a bank's write buffer and the map say the same: a chunk of the buffer that is wanted
-- is the chunk that its entry is mapped to, and no other entry is mapped to a chunk of the buffer.
pub record IsBuffered (s : Ftl) (bank : ℕ) : Type 0 where
  pub mapped :
      (i : ℕ)
      → i < chunks_per_page
      → lpn_of s bank i ≢ invalid
      → s.chunk_map (slot_of s bank i) ≡ buffer_chunk_addr bank i
  pub listed :
      (e i : ℕ)
      → i < chunks_per_page
      → s.chunk_map e ≡ buffer_chunk_addr bank i
      → (lpn_of s bank i ≢ invalid) × (slot_of s bank i ≡ e)

-- Block `lbn` counts at least `n` valid chunks.
pub record HasCount (d : HeapData) (bank lbn n : ℕ) : Type 0 where
  pub valid : IsValidData d
  pub first : d.first_lbn ≡ 0
  pub in_range : lbn < d.log_blks_per_bank
  pub enough : n ≤ block_value (d.banks bank) lbn

-- After `k` chunks, entry `e` is mapped to the page, or it stays.
pub record IsMoved (s : Ftl) (bank log_lpn e addr i : ℕ) : Type 0 where
  pub in_page : i < chunks_per_page
  pub before : s.chunk_map e ≡ buffer_chunk_addr bank i
  pub after : addr ≡ log_chunk_addr bank log_lpn i

pub record IsLeft (s : Ftl) (bank e addr k : ℕ) : Type 0 where
  pub still : addr ≡ s.chunk_map e
  pub other : (i : ℕ) → i < k → s.chunk_map e ≢ buffer_chunk_addr bank i

-- The state `s` with another map, other lists and another heap.
abbrev pub with_map : Ftl → (ℕ → ℕ) → (ℕ → ℕ) → HeapData → Ftl
with_map s map lists heap = record s { chunk_map = map; lpns_lists = lists; heap_write = heap }

pub record Flushed (s : Ftl) (bank log_lpn k : ℕ) (t : Ftl) : Type 0 where
  pub same : t ≡ with_map s t.chunk_map t.lpns_lists t.heap_write
  pub entry :
      (e : ℕ)
      → ((i : ℕ) × IsMoved s bank log_lpn e (t.chunk_map e) i) ⊎ IsLeft s bank e (t.chunk_map e) k

module _ (s : Ftl) (bank log_lpn : ℕ) (bank_ok : bank < num_banks) (b : IsBuffered s bank) where
  -- A chunk that is not wanted.
  skip_entry :
      (k e addr : ℕ)
      → k < chunks_per_page
      → lpn_of s bank k ≡ invalid
      → ((i : ℕ) × IsMoved s bank log_lpn e addr i) ⊎ IsLeft s bank e addr k
      → ((i : ℕ) × IsMoved s bank log_lpn e addr i) ⊎ IsLeft s bank e addr (k + 1)
  skip_entry k e addr k_ok unwanted (inl moved) = inl moved
  skip_entry k e addr k_ok unwanted (inr left) = inr (record {
    still = left.still;
    other = λ i lt at. elim (Bool-cases (i == k)) [
      | inl eq ↦
          (b.listed e k k_ok (at ∙ ap (λ x. buffer_chunk_addr bank x) (eqb→eq i k eq))).0 unwanted
      | inr ne ↦ left.other i (ground (arith, ne, lt)) at
    ];
  })

  -- A chunk that is wanted.
  move_entry :
      (map : ℕ → ℕ) (k e : ℕ)
      → k < chunks_per_page
      → lpn_of s bank k ≢ invalid
      → ((i : ℕ) × IsMoved s bank log_lpn e (map e) i) ⊎ IsLeft s bank e (map e) k
      → let addr = update map (slot_of s bank k) (log_chunk_addr bank log_lpn k) e in
        ((i : ℕ) × IsMoved s bank log_lpn e addr i) ⊎ IsLeft s bank e addr (k + 1)
  move_entry map k e k_ok wanted old = elim (Bool-cases (slot_of s bank k == e)) [
    | inl eq ↦ inl (
      k,
      record {
        in_page = k_ok;
        before = ap s.chunk_map (sym (eqb→eq (slot_of s bank k) e eq)) ∙ b.mapped k k_ok wanted;
        after = rw eq refl;
      },
    )
    | inr ne ↦
        let here : map e ≡ update map (slot_of s bank k) (log_chunk_addr bank log_lpn k) e =
          rw ne refl in
        subst (λ addr. ((i : ℕ) × IsMoved s bank log_lpn e addr i) ⊎ IsLeft s bank e addr (k + 1))
          here
          (elim old [
            | inl moved ↦ inl moved
            | inr left ↦ inr (record {
              still = left.still;
              other = λ i lt at. elim (Bool-cases (i == k)) [
                | inl same ↦
                    let mapped =
                      b.listed e k k_ok
                        (at ∙ ap (λ x. buffer_chunk_addr bank x) (eqb→eq i k same)) in
                    ground (arith, ne, mapped.1)
                | inr other ↦ left.other i (ground (arith, other, lt)) at
              ];
            })
          ])
  ]

  lost :
      (t : Ftl) (lbn n : ℕ)
      → HasCount t.heap_write bank lbn (suc n)
      → Yields
          (λ t'. (h : HeapData) × (t' ≡ record t { heap_write = h }) × HasCount h bank lbn n)
          (lose_chunk t bank lbn)
  unfolding lose_chunk
  lost t lbn n c =
      Yields-step _
        (decrement_from_zero t.heap_write bank lbn c.valid bank_ok c.first c.in_range
          (omega (arith, c.enough)))
        λ h ch.
          let at : block_value (h.banks bank) lbn ≡ block_value (t.heap_write.banks bank) lbn - 1 =
            ground (arith, ch.here.value_is lbn c.in_range) in
          yields (
            h,
            refl,
            record {
              valid = ch.valid;
              first = ch.same_first ∙ c.first;
              in_range = omega (arith, c.in_range, ch.same_size);
              enough = omega (arith, c.enough, at);
            },
          )

  pub flush_chunks-Flushed :
      (rounds k : ℕ) (map lists : ℕ → ℕ) (heap : HeapData)
      → k + rounds ≡ chunks_per_page
      → ((e : ℕ) → ((i : ℕ) × IsMoved s bank log_lpn e (map e) i) ⊎ IsLeft s bank e (map e) k)
      → HasCount heap bank (get_log_lbn log_lpn) rounds
      → Yields
          (Flushed s bank log_lpn chunks_per_page)
          (flush_chunks rounds (with_map s map lists heap) bank log_lpn k)
  unfolding flush_chunks set_map set_list
  flush_chunks-Flushed zero k map lists heap count entry c =
      let all : k ≡ chunks_per_page = omega arith in
      yields (record {
        same = refl;
        entry =
            subst
              (λ x.
                (e : ℕ)
                → ((i : ℕ) × IsMoved s bank log_lpn e (map e) i) ⊎ IsLeft s bank e (map e) x)
              all entry;
      })
  flush_chunks-Flushed (suc rounds) k map lists heap count entry c =
      let listed =
        update lists
          (chunk_in_lpns_list (s.rw_ctrl bank).lpns_list_ptr (log_page_to_offset log_lpn) k)
          (lpn_of s bank k) in
      let lbn = get_log_lbn log_lpn in
      elim (Bool-cases (lpn_of s bank k == invalid)) [
        | inl unwanted ↦ rw unwanted (
            Yields-step _ (lost (with_map s map listed heap) lbn rounds c) λ t' r.
              subst
                (λ x.
                  Yields (Flushed s bank log_lpn chunks_per_page)
                    (flush_chunks rounds x bank log_lpn (k + 1)))
                (sym r.1)
                (flush_chunks-Flushed rounds (k + 1) map listed r.0 (omega arith)
                  (λ e.
                    skip_entry k e (map e) (omega arith) (eqb→eq (lpn_of s bank k) invalid unwanted)
                      (entry e))
                  r.2))
        | inr wanted ↦ rw wanted (
            flush_chunks-Flushed rounds (k + 1)
              (update map (slot_of s bank k) (log_chunk_addr bank log_lpn k)) listed heap
              (omega arith)
              (λ e. move_entry map k e (omega arith) (ground (arith, wanted)) (entry e))
              (record {
                valid = c.valid;
                first = c.first;
                in_range = c.in_range;
                enough = omega (arith, c.enough);
              }))
      ]
