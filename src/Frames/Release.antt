-- ===== src/Frames/Release.antt =====
-- mm_pma_free_frame (vellum/mm/mm.c).
use sscc_oslecture.Base.{
  ltb, leb, ◌==◌, if◌then◌else◌, lt→ltb, ltb-false, add32, sub32, loop, loop_keeps, ℕ, suc, ◌+◌,
  ◌-◌, ◌*◌, ◌^◌, ◌≤◌, ◌<◌, ◌≡◌, refl, sym, ap, subst, ◌∙◌, ◌↔◌, ◌⊎◌, inl, inr, true, ◌&&◌, ◌||◌,
  arith,
}
use sscc_oslecture.Status.{ok}
use sscc_oslecture.Frames.Bitmap.{pbm_free, pbm_allocated}
use sscc_oslecture.Frames.{Pma, cell, allocate_frame, free_one, clip, free_frame}
use sscc_oslecture.Frames.Allocate.{Allocated, Outcome, allocate_frame-Outcome}
use sscc_oslecture.Frames.Count.{count_if, count_if-ext}
use sscc_oslecture.Frames.Valid.{
  is_free, is_available, IsValid, SameSpan, SameSpan-refl, SameSpan-trans, cell-free_one,
  free_one-SameSpan, free_one-IsValid,
}

-- The allocator after the cells from `start` up to, and without, `stop` were given back.
pub record Freed (p : Pma) (start stop : ℕ) (q : Pma) : Type 0 where
  pub valid : IsValid q
  pub span : SameSpan p q
  pub cells :
      (j : ℕ)
      → cell q j
        ≡ (if (leb start j && ltb j stop) && cell p j == pbm_allocated then pbm_free else cell p j)

module _ {p : Pma} (v : IsValid p) (start count : ℕ)
    (fits : start + count ≤ p.frame_desc_count) where
  Freed-step :
      (i : ℕ) (q : Pma)
      → i < start + count
      → (start ≤ i) × Freed p start i q
      → (start ≤ suc i) × Freed p start (suc i) (free_one i q)
  Freed-step i q h (lo, t) = (
    omega arith,
    record {
      valid = free_one-IsValid t.valid i inside;
      span = SameSpan-trans t.span (free_one-SameSpan t.valid i inside);
      cells = λ j. ground (arith, cell-free_one t.valid i j, t.cells j);
    },
  )
    where
      inside : i < q.frame_desc_count
      inside = omega (arith, fits, t.span.count)

  free_loop : Freed p start (start + count) (loop free_one count start p)
  free_loop =
      (loop_keeps free_one (λ i q. (start ≤ i) × Freed p start i q) (start + count) Freed-step count
        start p (omega arith)
        (omega arith, record { valid = v; span = SameSpan-refl p; cells = λ j. ground arith })).1

module _ {p : Pma} (pfn count : ℕ) (v : IsValid p) (above : p.base_pfn ≤ pfn) where
  -- mm_pma_free_frame of frames that the allocator manages frees those that are allocated, leaves
  -- reserved and free ones as they are, touches no other cell and keeps the invariant.
  pub free_frame-Freed :
      pfn + count ≤ p.limit_pfn
      → Freed p (pfn - p.base_pfn) (pfn - p.base_pfn + count) (free_frame pfn count p)
  unfolding free_frame
  free_frame-Freed fits =
      rw (ltb-false _ _ above, ltb-false p.limit_pfn pfn (omega arith), unclipped, rounds, first)
        (free_loop v (pfn - p.base_pfn) count (omega (arith, v.span)))
    where
      first : sub32 pfn p.base_pfn ≡ pfn - p.base_pfn
      first = omega (arith, v.small)

      unclipped : clip pfn count p ≡ count
      unclipped =
          unfold clip in
          rw (ltb-false (add32 p.limit_pfn 1) (add32 pfn count) (omega (arith, v.small)))

      rounds : add32 (sub32 pfn p.base_pfn) count - sub32 pfn p.base_pfn ≡ count
      rounds = omega (arith, v.small)

  -- Of a range that starts by the limit and ends, below 2 ^ 32, behind the last frame, mm_pma_free_frame
  -- goes through as many frames as are in excess, which is the number that fits only if the range is
  -- twice as long as that.
  pub clip_past_end :
      pfn ≤ p.limit_pfn
      → p.limit_pfn + 1 < pfn + count
      → pfn + count < 2 ^ 32
      → (clip pfn count p ≡ pfn + count - (p.limit_pfn + 1))
        × ((clip pfn count p ≡ p.limit_pfn + 1 - pfn) ↔ (count ≡ 2 * (p.limit_pfn + 1 - pfn)))
  unfolding clip
  clip_past_end below over small =
      rw (lt→ltb (add32 p.limit_pfn 1) (add32 pfn count) (omega (arith, v.small)))
        (omega (arith, v.small))

-- Frames that the allocator does not manage are passed over.
pub free_frame-outside :
    (pfn count : ℕ) (p : Pma)
    → (pfn < p.base_pfn) ⊎ (p.limit_pfn < pfn)
    → free_frame pfn count p ≡ p
unfolding free_frame
free_frame-outside pfn count p (inl below) = rw (lt→ltb pfn p.base_pfn below) refl
free_frame-outside pfn count p (inr above) =
    let out : (ltb pfn p.base_pfn || ltb p.limit_pfn pfn) ≡ true = ground arith in rw out refl

-- Freeing what was just allocated restores every cell and both counters.
pub free_frame-allocate_frame :
    {p q : Pma} {pfn : ℕ} (count : ℕ)
    → IsValid p
    → 0 < count
    → allocate_frame count p ≡ (ok pfn, q)
    → ((j : ℕ) → cell (free_frame pfn count q) j ≡ cell p j)
      × ((free_frame pfn count q).free_frames ≡ p.free_frames)
      × ((free_frame pfn count q).available_frames ≡ p.available_frames)
free_frame-allocate_frame {p} {q} {pfn} count v h e = (cells, free, available)
  where
    a : Allocated p count pfn q
    a = subst (Outcome p count) e (allocate_frame-Outcome count v h)

    f : Freed q (pfn - q.base_pfn) (pfn - q.base_pfn + count) (free_frame pfn count q)
    f =
        free_frame-Freed pfn count a.valid (omega (arith, a.above, a.span.base))
          (omega (arith, a.found.inside, a.above, v.span, a.span.limit))

    offset : pfn - q.base_pfn ≡ pfn - p.base_pfn
    offset = omega (arith, a.span.base)

    cells : (j : ℕ) → cell (free_frame pfn count q) j ≡ cell p j
    cells j = ground (arith, a.cells j, f.cells j, a.found.run j, a.span.base)

    free : (free_frame pfn count q).free_frames ≡ p.free_frames
    free =
        f.valid.free
        ∙ ap (count_if (is_free (free_frame pfn count q))) (f.span.count ∙ a.span.count)
        ∙ count_if-ext _ (is_free p) p.frame_desc_count (λ j. rw (cells j))
        ∙ sym v.free

    available : (free_frame pfn count q).available_frames ≡ p.available_frames
    available =
        f.valid.available
        ∙ ap (count_if (is_available (free_frame pfn count q))) (f.span.count ∙ a.span.count)
        ∙ count_if-ext _ (is_available p) p.frame_desc_count (λ j. rw (cells j))
        ∙ sym v.available
