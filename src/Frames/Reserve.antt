-- ===== src/Frames/Reserve.antt =====
-- mm_pma_mark_reserved (vellum/mm/mm.c), and the range whose last page is the allocator's limit.
use sscc_oslecture.Base.{
  ltb, leb, ◌==◌, if◌then◌else◌, le→leb, leb-false, ==_iff, ==_false, Bool-cases, add32, sub32, ℕ,
  zero, suc, ◌+◌, ◌-◌, ◌/◌, ◌^◌, ◌≤◌, ◌<◌, min, max, ◌≡◌, refl, sym, ◌≢◌, inl, inr, ◌&&◌, none,
  some, arith,
}
use sscc_oslecture.Frames.Bitmap.{pbm_reserved}
use sscc_oslecture.Frames.{Pma, page_size, cell, reserve_frame, reserve_loop, mark_reserved}
use sscc_oslecture.Frames.Count.{count_if-le, count_if_above}
use sscc_oslecture.Frames.Valid.{
  is_available, IsValid, SameSpan, SameSpan-refl, SameSpan-trans, cell-reserve_frame,
  reserve_frame-SameSpan, reserve_frame-IsValid,
}

-- The allocator with the cells from `lo` up to, and without, `stop` reserved.
pub record Reserved (p : Pma) (lo stop : ℕ) (q : Pma) : Type 0 where
  pub valid : IsValid q
  pub span : SameSpan p q
  pub cells : (j : ℕ) → cell q j ≡ (if leb lo j && ltb j stop then pbm_reserved else cell p j)

reserve_loop_step :
    (fuel i hi : ℕ) (q : Pma)
    → i ≤ hi
    → hi < 2 ^ 20
    → reserve_loop (suc fuel) i hi q ≡ reserve_loop fuel (i + 1) hi (reserve_frame i q)
unfolding reserve_loop
reserve_loop_step fuel i hi q h small =
    let e : add32 i 1 ≡ i + 1 = omega arith in rw (le→leb i hi h, reserve_loop) (rw e)

reserve_loop_stop : (fuel i hi : ℕ) (q : Pma) → hi < i → reserve_loop (suc fuel) i hi q ≡ some q
unfolding reserve_loop
reserve_loop_stop fuel i hi q h = rw (leb-false i hi h, reserve_loop)

-- The last 32-bit index is never passed.
reserve_loop_forever :
    (fuel i : ℕ) (q : Pma) → i < 2 ^ 32 → reserve_loop fuel i (2 ^ 32 - 1) q ≡ none
unfolding reserve_loop
reserve_loop_forever zero i q h = refl
reserve_loop_forever (suc fuel) i q h =
    rw (le→leb i (2 ^ 32 - 1) (omega arith))
      (reserve_loop_forever fuel (add32 i 1) (reserve_frame i q) (omega arith))

-- mm_pma_mark_reserved of a range whose last page is the one below the allocator's first frame
-- does not end: the difference of the two wraps to the largest index.
pub mark_reserved_below :
    (fuel base_paddr limit_paddr : ℕ) {p : Pma}
    → IsValid p
    → limit_paddr / page_size + 1 ≡ p.base_pfn
    → base_paddr ≤ limit_paddr
    → mark_reserved fuel base_paddr limit_paddr p ≡ none
unfolding mark_reserved
mark_reserved_below fuel base_paddr limit_paddr {p} v e h =
    rw last (reserve_loop_forever fuel _ p (omega arith))
  where
    last : sub32 (min (limit_paddr / page_size) p.limit_pfn) p.base_pfn ≡ 2 ^ 32 - 1
    last = omega (arith, v.span, v.small)

module _ {p : Pma} (lo : ℕ) where
  Reserved-step :
      (i : ℕ) (q : Pma)
      → lo ≤ i
      → i < p.frame_desc_count
      → Reserved p lo i q
      → Reserved p lo (i + 1) (reserve_frame i q)
  Reserved-step i q h below r = record {
    valid = reserve_frame-IsValid r.valid i inside;
    span = SameSpan-trans r.span (reserve_frame-SameSpan r.valid i inside);
    cells = λ j. ground (arith, cell-reserve_frame r.valid i j, r.cells j);
  }
    where
      inside : i < q.frame_desc_count
      inside = omega (arith, r.span.count)

  -- The loop ends after its last index, with the allocator that reached this index.
  reserve_loop_last :
      (fuel i hi : ℕ) (q : Pma)
      → lo ≤ i
      → i ≤ hi
      → hi ≤ p.frame_desc_count
      → hi < 2 ^ 20
      → hi + 1 - i < fuel
      → Reserved p lo i q
      → (r : Pma) × (reserve_loop fuel i hi q ≡ some (reserve_frame hi r)) × Reserved p lo hi r
  reserve_loop_last zero i hi q a b c d f r = absurd (omega arith)
  reserve_loop_last (suc zero) i hi q a b c d f r = absurd (omega arith)
  reserve_loop_last (suc (suc k)) i hi q a b c d f r =
      rw (reserve_loop_step (suc k) i hi q b d) (elim (Bool-cases (i == hi)) [
        | inl last ↦
            let e = (==_iff i hi).0 last in
            (
              q,
              rw e (reserve_loop_stop k (hi + 1) hi (reserve_frame hi q) (omega arith)),
              rw e at r,
            )
        | inr more ↦
            reserve_loop_last (suc k) (i + 1) hi (reserve_frame i q) (omega arith) (ground arith) c
              d (omega arith) (Reserved-step i q a (ground arith) r)
      ])

-- Marking a frame behind the last one breaks the count of available frames.
reserve_frame_behind :
    {p : Pma}
    → IsValid p
    → (i : ℕ) → p.frame_desc_count ≤ i
    → cell p i ≢ pbm_reserved
    → ¬ IsValid (reserve_frame i p)
unfolding reserve_frame
reserve_frame_behind {p} v i behind unmarked w = ground (
  arith,
  w.available,
  v.available,
  v.span,
  v.small,
  count_if-le (is_available p) p.frame_desc_count,
  count_if_above (is_available (reserve_frame i p)) (is_available p) i
      (λ j h. rw (cell-reserve_frame v i j, ==_false i j (λ e. h (sym e)))) p.frame_desc_count
      behind,
)

-- The descriptors of the first and of the last page of a range, the latter with the allocator's
-- limit, for a range that does not end below the allocator's first frame.
abbrev pub first_cell : Pma → ℕ → ℕ
first_cell p base_paddr = max (base_paddr / page_size) p.base_pfn - p.base_pfn

abbrev pub last_cell : Pma → ℕ → ℕ
last_cell p limit_paddr = min (limit_paddr / page_size) p.limit_pfn - p.base_pfn

module _ {p : Pma} (fuel base_paddr limit_paddr : ℕ) (v : IsValid p)
    (order : first_cell p base_paddr ≤ last_cell p limit_paddr)
    (above : p.base_pfn ≤ limit_paddr / page_size) (enough : p.frame_desc_count + 1 < fuel) where
  mark_reserved_last :
      (r : Pma) × (mark_reserved fuel base_paddr limit_paddr p
        ≡ some (reserve_frame (last_cell p limit_paddr) r))
      × Reserved p (first_cell p base_paddr) (last_cell p limit_paddr) r
  unfolding mark_reserved
  mark_reserved_last =
      rw (first, last)
        (reserve_loop_last (first_cell p base_paddr) fuel (first_cell p base_paddr)
          (last_cell p limit_paddr) p (omega arith) order (omega (arith, v.span))
          (omega (arith, v.span, v.small)) (omega (arith, v.span)) start)
    where
      first : sub32 (max (base_paddr / page_size) p.base_pfn) p.base_pfn ≡ first_cell p base_paddr
      first = omega (arith, v.small)

      last : sub32 (min (limit_paddr / page_size) p.limit_pfn) p.base_pfn ≡ last_cell p limit_paddr
      last = omega (arith, v.span, v.small)

      start : Reserved p (first_cell p base_paddr) (first_cell p base_paddr) p
      start = record { valid = v; span = SameSpan-refl p; cells = λ j. ground arith }

  -- mm_pma_mark_reserved of a range whose last page is neither below the allocator's first frame nor at
  -- or behind its limit, and whose first cell is not behind its last, ends with fuel of two more than
  -- the frames, reserves exactly the frames of the range that the allocator manages, and keeps the
  -- invariant.
  pub mark_reserved-Reserved :
      limit_paddr / page_size < p.limit_pfn
      → (q : Pma) × (mark_reserved fuel base_paddr limit_paddr p ≡ some q)
        × Reserved p (first_cell p base_paddr) (last_cell p limit_paddr + 1) q
  mark_reserved-Reserved below =
      let (r, e, res) = mark_reserved_last in
      (
        reserve_frame (last_cell p limit_paddr) r,
        e,
        Reserved-step (first_cell p base_paddr) (last_cell p limit_paddr) r order
            (omega (arith, v.span)) res,
      )

  -- A range that reaches the allocator's limit also marks the descriptor behind the last one: where
  -- that is not marked yet, the counters disagree with the bitmap afterwards.
  pub mark_reserved_past_end :
      p.limit_pfn ≤ limit_paddr / page_size
      → cell p p.frame_desc_count ≢ pbm_reserved
      → (q : Pma) × (mark_reserved fuel base_paddr limit_paddr p ≡ some q) × ¬ IsValid q
  mark_reserved_past_end over unmarked =
      let (r, e, res) = mark_reserved_last in
      (
        reserve_frame (last_cell p limit_paddr) r,
        e,
        reserve_frame_behind res.valid (last_cell p limit_paddr)
            (omega (arith, v.span, res.span.count)) (still r res),
      )
    where
      at_end : last_cell p limit_paddr ≡ p.frame_desc_count
      at_end = omega (arith, v.span)

      still :
          (r : Pma)
          → Reserved p (first_cell p base_paddr) (last_cell p limit_paddr) r
          → cell r (last_cell p limit_paddr) ≢ pbm_reserved
      still r res h =
          let e : cell p (last_cell p limit_paddr) ≡ pbm_reserved =
            ground (arith, res.cells (last_cell p limit_paddr)) in
          unmarked (rw at_end at e)
