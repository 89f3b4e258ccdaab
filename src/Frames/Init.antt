-- ===== src/Frames/Init.antt =====
-- mm_pma_init (vellum/mm/mm.c).
use sscc_oslecture.Base.{
  leb, if◌then◌else◌, lt→ltb, add32, sub32, ℕ, ◌+◌, ◌-◌, ◌/◌, ◌^◌, ◌≤◌, ◌<◌, ◌≡◌, refl, sym, some,
  arith,
}
use sscc_oslecture.Frames.Bitmap.{Memory, IsBytes, pbm_free, pbm_reserved, pbm_get_zero}
use sscc_oslecture.Frames.{
  Pma, page_size, cell, mark_reserved, align_page, start, init, clear_bytes,
}
use sscc_oslecture.Frames.Valid.{is_free, is_available, IsValid, SameSpan}
use sscc_oslecture.Frames.Count.{count_if_all}
use sscc_oslecture.Frames.Reserve.{Reserved, first_cell, last_cell, mark_reserved-Reserved}

module _ (memory : Memory) (base_paddr limit_paddr : ℕ) where
  -- The address of the last byte of the bitmap, which stands behind the program.
  abbrev pub bitmap_last : ℕ → ℕ
  bitmap_last end = align_page end + (start memory base_paddr limit_paddr).bitmap_size - 1

  -- What the boot code needs of the allocator: it is valid and manages the range, with the frames
  -- up to the end of the bitmap reserved and all others free.
  pub record Ready (end : ℕ) (q : Pma) : Type 0 where
    pub valid : IsValid q
    pub span : SameSpan (start memory base_paddr limit_paddr) q
    pub cells :
        (j : ℕ)
        → j < (start memory base_paddr limit_paddr).frame_desc_count
        → cell q j ≡ (
            if leb (j + base_paddr / page_size) (bitmap_last end / page_size)
            then pbm_reserved
            else pbm_free)

module _ (memory : Memory) (base_paddr limit_paddr : ℕ) (bytes : IsBytes memory)
    (order : base_paddr / page_size < limit_paddr / page_size) (word : limit_paddr < 2 ^ 32) where
  abbrev first : Pma
  first = start memory base_paddr limit_paddr

  count-eq : first.frame_desc_count ≡ limit_paddr / page_size - base_paddr / page_size
  unfolding start
  count-eq = omega arith

  fields :
      (first.base_pfn ≡ base_paddr / page_size)
      × (first.limit_pfn ≡ limit_paddr / page_size)
      × (first.frame_desc_count ≡ limit_paddr / page_size - base_paddr / page_size)
      × (first.bitmap_size ≤ 2 ^ 18)
  unfolding start
  fields = omega arith

  cell-start : (j : ℕ) → j < first.frame_desc_count → cell first j ≡ pbm_free
  unfolding start cell clear_bytes
  cell-start j h = pbm_get_zero _ j (rw (lt→ltb (j / 4) first.bitmap_size (omega arith)) refl)

  start-IsValid : IsValid first
  unfolding start clear_bytes
  start-IsValid = record {
    bytes = λ i. ground (arith, bytes i);
    span = omega arith;
    small = omega arith;
    free = sym (count_if_all (is_free first) first.frame_desc_count (λ j h. rw (cell-start j h)));
    available =
        sym (count_if_all (is_available first) first.frame_desc_count (λ j h. rw (cell-start j h)));
  }

  -- mm_pma_init, where the program ends inside the range and the bitmap ends below the range's last
  -- page: the result keeps the invariant, the frames from the first to the bitmap's last one are
  -- reserved, and every other managed frame is free.
  pub init-Ready :
      (fuel end : ℕ)
      → base_paddr ≤ align_page end
      → bitmap_last memory base_paddr limit_paddr end / page_size < limit_paddr / page_size
      → limit_paddr / page_size + 1 < fuel
      → (q : Pma) × (init fuel end memory base_paddr limit_paddr ≡ some q)
        × Ready memory base_paddr limit_paddr end q
  unfolding init
  init-Ready fuel end inside below enough = pack (
      mark_reserved-Reserved fuel base_paddr (bitmap_last memory base_paddr limit_paddr end)
        start-IsValid (omega (arith, fields, size_pos)) (omega (arith, fields, size_pos))
        (omega (arith, fields)) (omega (arith, fields)))
    where
      size_pos : 0 < first.bitmap_size
      size_pos = unfold start in omega (arith, order)

      last :
          sub32 (add32 (align_page end) first.bitmap_size) 1
          ≡ bitmap_last memory base_paddr limit_paddr end
      last = omega (arith, below, size_pos, fields)

      pack :
          (q : Pma) × (mark_reserved fuel base_paddr
                (bitmap_last memory base_paddr limit_paddr end)
                first
              ≡ some q)
            × Reserved first
                (first_cell first base_paddr)
                (last_cell first (bitmap_last memory base_paddr limit_paddr end) + 1)
                q
          → (q : Pma) × (init fuel end memory base_paddr limit_paddr ≡ some q)
            × Ready memory base_paddr limit_paddr end q
      pack (q, e, r) = (
        q,
        rw last e,
        record {
          valid = r.valid;
          span = r.span;
          cells = λ j h. ground (arith, r.cells j, cell-start j h, fields, size_pos);
        },
      )
