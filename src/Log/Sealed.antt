-- ===== src/Log/Sealed.antt =====
-- The loops of sealOWBlk of ftl_seal/log.c miss no chunk of the block that its list names.
use msst2015_ftl.Base.{
  ℕ, zero, suc, ◌+◌, ◌*◌, ◌%◌, ◌/◌, ◌<◌, ◌≤◌, ◌≡◌, ◌≢◌, refl, arith, true, false, ◌==◌, ◌&&◌,
  Bool-cases, inl, inr, sym, ap, ◌∙◌, subst, eqb→eq, eqb_refl, invalid, update_self,
}
use msst2015_ftl.Params.{chunks_per_page}
use msst2015_ftl.Layout.{chunks_map_table, chunk_in_lpns_list}
use msst2015_ftl.Chunk.{flash_ow_log, find_chunk_location, clear_ow_bit, block_chunk_addr}
use msst2015_ftl.Log.{is_flash_ow_log, seal_entry, seal_page, seal_pages, seal_map}
use msst2015_ftl.Log.Seal.{
  SealsOnly, SealsOnly-trans, IsOwPage, cleared_not_ow, seal_entry-SealsOnly, seal_page-SealsOnly,
  seal_pages-SealsOnly,
}

clear_twice : (a : ℕ) → clear_ow_bit (clear_ow_bit a) ≡ clear_ow_bit a
unfolding clear_ow_bit
clear_twice a = omega arith

-- An entry that has lost its bit stays.
stays :
    (bank lbn slot a : ℕ) (map map' : ℕ → ℕ)
    → SealsOnly bank lbn map map'
    → map slot ≡ clear_ow_bit a
    → map' slot ≡ clear_ow_bit a
stays bank lbn slot a map map' only done = elim (only.entry slot) [
  | inl same ↦ same ∙ done
  | inr again ↦
      absurd (cleared_not_ow a (subst (λ x. find_chunk_location x ≡ flash_ow_log) done again.was))
]

clear_same :
    (bank lbn slot : ℕ) (map map' : ℕ → ℕ)
    → SealsOnly bank lbn map map'
    → clear_ow_bit (map' slot) ≡ clear_ow_bit (map slot)
clear_same bank lbn slot map map' only = elim (only.entry slot) [
  | inl same ↦ ap clear_ow_bit same
  | inr done ↦ ap clear_ow_bit done.cleared ∙ clear_twice (map slot)
]

-- The first chunk of the data page that is compared equal loses its bit.
seal_entry-first :
    (rounds : ℕ) (map : ℕ → ℕ) (lpn i k addr : ℕ)
    → i ≤ k
    → k < i + rounds
    → find_chunk_location (map (chunks_map_table lpn k)) ≡ flash_ow_log
    → clear_ow_bit (map (chunks_map_table lpn k)) ≡ addr
    → ((e : ℕ) → e < k → clear_ow_bit (map (chunks_map_table lpn e)) ≢ addr)
    → seal_entry rounds map lpn i addr (chunks_map_table lpn k)
      ≡ clear_ow_bit (map (chunks_map_table lpn k))
unfolding seal_entry
seal_entry-first zero map lpn i k addr ge lt was points first = absurd (omega arith)
seal_entry-first (suc rounds) map lpn i k addr ge lt was points first = elim (Bool-cases (i == k)) [
  | inl here ↦
      let fit : (is_flash_ow_log (find_chunk_location (map (chunks_map_table lpn i)))
            && (clear_ow_bit (map (chunks_map_table lpn i)) == addr))
          ≡ true =
        rw (eqb→eq i k here, was, points, eqb_refl addr) refl in
      rw (fit, eqb→eq i k here) (update_self map (chunks_map_table lpn k) _)
  | inr there ↦
      let earlier = first i (ground (arith, there, ge)) in
      let other : (is_flash_ow_log (find_chunk_location (map (chunks_map_table lpn i)))
            && (clear_ow_bit (map (chunks_map_table lpn i)) == addr))
          ≡ false =
        ground (arith, earlier) in
      rw other (
        seal_entry-first rounds map lpn (i + 1) k addr (ground (arith, there, ge)) (omega arith) was
          points first)
]

module _ (bank lbn list : ℕ) (lists map : ℕ → ℕ) (page chunk k : ℕ) (page_ok : IsOwPage page)
    (chunk_ok : chunk < chunks_per_page) (k_ok : k < chunks_per_page)
    (listed : lists (chunk_in_lpns_list list page chunk) ≢ invalid)
    (was : find_chunk_location
        (map (chunks_map_table (lists (chunk_in_lpns_list list page chunk)) k))
      ≡ flash_ow_log)
    (points : clear_ow_bit (map (chunks_map_table (lists (chunk_in_lpns_list list page chunk)) k))
      ≡ block_chunk_addr bank lbn page chunk)
    (first : (e : ℕ)
      → e < k
      → clear_ow_bit (map (chunks_map_table (lists (chunk_in_lpns_list list page chunk)) e))
        ≢ block_chunk_addr bank lbn page chunk) where
  abbrev lpn : ℕ
  lpn = lists (chunk_in_lpns_list list page chunk)

  abbrev slot : ℕ
  slot = chunks_map_table lpn k

  abbrev addr : ℕ
  addr = block_chunk_addr bank lbn page chunk

  -- At its turn, the entry has lost its bit or loses it.
  at_turn :
      (m : ℕ → ℕ)
      → SealsOnly bank lbn map m
      → seal_entry chunks_per_page m lpn 0 addr slot ≡ clear_ow_bit (map slot)
  at_turn m only = elim (only.entry slot) [
    | inl same ↦
        seal_entry-first chunks_per_page m lpn 0 k addr (omega arith) (omega arith)
          (ap find_chunk_location same ∙ was) (ap clear_ow_bit same ∙ points)
          (λ e lt eq.
            first e lt (sym (clear_same bank lbn (chunks_map_table lpn e) map m only) ∙ eq))
        ∙ ap clear_ow_bit same
    | inr done ↦
        stays bank lbn slot (map slot) m _
          (seal_entry-SealsOnly bank lbn page chunk page_ok chunk_ok chunks_per_page m lpn 0)
          done.cleared
  ]

  in_page :
      (rounds : ℕ) (m : ℕ → ℕ) (i : ℕ)
      → SealsOnly bank lbn map m
      → i ≤ chunk
      → chunk < i + rounds
      → i + rounds ≤ chunks_per_page
      → seal_page rounds lists m list bank lbn page i slot ≡ clear_ow_bit (map slot)
  unfolding seal_page
  in_page zero m i only ge lt fits = absurd (omega arith)
  in_page (suc rounds) m i only ge lt fits = elim (Bool-cases (i == chunk)) [
    | inl here ↦
        let unused : (lpn == invalid) ≡ false = ground (arith, listed) in
        rw (eqb→eq i chunk here, unused)
          (stays bank lbn slot (map slot) _ _
            (seal_page-SealsOnly bank lbn list lists rounds _ page (chunk + 1) page_ok
              (ground (arith, here, fits)))
            (at_turn m only))
    | inr there ↦
        let step = seal_page-SealsOnly bank lbn list lists 1 m page i page_ok (omega arith) in
        in_page rounds _ (i + 1) (SealsOnly-trans bank lbn map m _ only step)
          (ground (arith, there, ge)) (omega arith) (omega arith)
  ]

  in_pages :
      (rounds : ℕ) (m : ℕ → ℕ) (from later : ℕ)
      → SealsOnly bank lbn map m
      → from % 2 ≡ 1
      → from + 2 * rounds < 126
      → page ≡ from + 2 * later
      → later < rounds
      → seal_pages rounds lists m list bank lbn from slot ≡ clear_ow_bit (map slot)
  unfolding seal_pages
  in_pages zero m from later only odd fits at lt = absurd (omega arith)
  in_pages (suc rounds) m from zero only odd fits at lt =
      let here : from ≡ page = omega arith in
      rw here (
        stays bank lbn slot (map slot) _ _
          (seal_pages-SealsOnly bank lbn list lists rounds _ (page + 2) (omega arith) (omega arith))
          (in_page chunks_per_page m 0 only (omega arith) (omega arith) (omega arith)))
  in_pages (suc rounds) m from (suc later) only odd fits at lt =
      in_pages rounds _ (from + 2) later
        (SealsOnly-trans bank lbn map m _ only (
          seal_page-SealsOnly bank lbn list lists chunks_per_page m from 0 (inr (odd, omega arith))
            (omega arith)))
        (omega arith) (omega arith) (omega arith) (omega arith)

  -- The loops of sealOWBlk miss no chunk of the block: when the list names the data page of a chunk
  -- of one of the pages 0, 1, 3, ..., 123, and an entry of this data page is mapped to the chunk in
  -- the overwrite log, the first one of the data page, then the entry loses its overwrite bit.
  pub seal_map-sealed : seal_map lists map list bank lbn slot ≡ addr
  unfolding seal_map
  seal_map-sealed = elim page_ok [
    | inl zeroth ↦
        stays bank lbn slot (map slot) _ _
          (seal_pages-SealsOnly bank lbn list lists 62 _ 1 (omega arith) (omega arith))
          (subst
            (λ p.
              seal_page chunks_per_page lists map list bank lbn p 0 slot ≡ clear_ow_bit (map slot))
            zeroth
            (in_page chunks_per_page map 0 (record { entry = λ a. inl refl }) (omega arith)
              (omega arith) (omega arith)))
        ∙ points
    | inr odd ↦
        in_pages 62 _ 1 (page / 2)
          (seal_page-SealsOnly bank lbn list lists chunks_per_page map 0 0 (inl refl) (omega arith))
          (omega arith) (omega arith) (omega (arith, odd.0)) (omega (arith, odd.1))
        ∙ points
  ]
