-- ===== src/Frames/Allocate.antt =====
-- mm_pma_allocate_frame (vellum/mm/mm.c): first fit, or an error that changes nothing.
use sscc_oslecture.Base.{
  ltb, leb, if◌then◌else◌, lt→ltb, ltb-false, add32, loop, loop_keeps, ℕ, suc, ◌+◌, ◌-◌, ◌≤◌, ◌<◌,
  ◌≡◌, refl, inl, inr, Bool, ◌&&◌, arith,
}
use sscc_oslecture.Status.{insufficient_memory, Result, ok, err}
use sscc_oslecture.Frames.Bitmap.{pbm_free, pbm_allocated}
use sscc_oslecture.Frames.{Pma, cell, start, scan, take_frame, allocate_frame}
use sscc_oslecture.Frames.Valid.{
  IsValid, SameSpan, SameSpan-refl, SameSpan-trans, cell-take_frame, take_frame-SameSpan,
  take_frame-IsValid, take_frame_counters,
}
use sscc_oslecture.Frames.Scan.{Found, NoRun, ScanResult, scan_lem}

-- `start <= j && j < start + count`
abbrev pub in_range : ℕ → ℕ → ℕ → Bool
in_range start count j = leb start j && ltb j (start + count)

-- What a successful allocation of `count` frames from `pfn` on has done.
pub record Allocated (p : Pma) (count pfn : ℕ) (q : Pma) : Type 0 where
  pub valid : IsValid q
  pub span : SameSpan p q
  pub above : p.base_pfn ≤ pfn
  pub found : Found p count (pfn - p.base_pfn)
  pub cells :
      (j : ℕ) → cell q j ≡ (if in_range (pfn - p.base_pfn) count j then pbm_allocated else cell p j)
  pub left : q.free_frames + count ≡ p.free_frames
  pub available : q.available_frames ≡ p.available_frames

abbrev pub Outcome : Pma → ℕ → Result ℕ × Pma → Type 0
Outcome p count (ok pfn, q) = Allocated p count pfn q
Outcome p count (err s, q) = (s ≡ insufficient_memory) × (q ≡ p) × NoRun p count

-- The allocator before index `i` of the loop that marks the frames.
record Taken (p : Pma) (start i : ℕ) (q : Pma) : Type 0 where
  valid : IsValid q
  span : SameSpan p q
  cells : (j : ℕ) → cell q j ≡ (if leb start j && ltb j i then pbm_allocated else cell p j)
  left : q.free_frames + i ≡ p.free_frames + start
  available : q.available_frames ≡ p.available_frames

module _ {p : Pma} (v : IsValid p) (count start : ℕ) (found : Found p count start) where
  Taken-step :
      (i : ℕ) (q : Pma)
      → i < start + count
      → (start ≤ i) × Taken p start i q
      → (start ≤ suc i) × Taken p start (suc i) (take_frame i q)
  Taken-step i q h (lo, t) = (
    omega arith,
    record {
      valid = take_frame-IsValid t.valid i inside still_free;
      span = SameSpan-trans t.span (take_frame-SameSpan t.valid i inside);
      cells = λ j. ground (arith, cell-take_frame t.valid i j, t.cells j);
      left = omega (arith, t.left, counters);
      available = omega (arith, t.available, counters);
    },
  )
    where
      inside : i < q.frame_desc_count
      inside = omega (arith, found.inside, t.span.count)

      still_free : cell q i ≡ pbm_free
      still_free = ground (arith, t.cells i, found.run i)

      counters :
          ((take_frame i q).free_frames + 1 ≡ q.free_frames)
          × ((take_frame i q).available_frames ≡ q.available_frames)
      counters = take_frame_counters t.valid i inside still_free

  take_loop : Taken p start (start + count) (loop take_frame count start p)
  take_loop =
      (loop_keeps take_frame (λ i q. (start ≤ i) × Taken p start i q) (start + count) Taken-step
        count start p (omega arith)
        (
          omega arith,
          record {
            valid = v;
            span = SameSpan-refl p;
            cells = λ j. ground arith;
            left = refl;
            available = refl;
          },
        )).1

  Allocated-take_loop :
      Allocated p count
        (add32 p.base_pfn start)
        (loop take_frame (add32 start count - start) start p)
  Allocated-take_loop =
      rw (rounds, pfn)
        (record {
          valid = take_loop.valid;
          span = take_loop.span;
          above = omega arith;
          found = rw offset found;
          cells = λ j. rw offset (take_loop.cells j);
          left = omega (arith, take_loop.left);
          available = take_loop.available;
        })
    where
      rounds : add32 start count - start ≡ count
      rounds = omega (arith, found.inside, v.span, v.small)

      pfn : add32 p.base_pfn start ≡ p.base_pfn + start
      pfn = omega (arith, found.inside, v.span, v.small)

      offset : p.base_pfn + start - p.base_pfn ≡ start
      offset = omega arith

-- mm_pma_allocate_frame of a positive number of frames in a valid allocator either takes the first
-- run of that many free frames, marking exactly these, lowering the free count by their number and
-- keeping the invariant, or there is no such run, and it fails and changes nothing.
pub allocate_frame-Outcome :
    {p : Pma} (count : ℕ) → IsValid p → 0 < count → Outcome p count (allocate_frame count p)
unfolding allocate_frame
allocate_frame-Outcome {p} count v h = go (scan_lem p count h)
  where
    go :
        ScanResult p count (scan p count p.frame_desc_count 0 0 0)
        → Outcome p count (allocate_frame count p)
    go (inl (enough, found)) =
        rw (ltb-false _ _ enough, allocate_frame) (Allocated-take_loop v count _ found)
    go (inr (few, none_there)) = rw (lt→ltb _ _ few, allocate_frame) (refl, refl, none_there)
