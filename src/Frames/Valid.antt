-- ===== src/Frames/Valid.antt =====
-- The invariant of the frame allocator of vellum/mm/mm.c, and what one write to the bitmap does
-- to it.
use sscc_oslecture.Base.{
  ◌==◌, if◌then◌else◌, ℕ, ◌+◌, ◌^◌, ◌≤◌, ◌<◌, ◌≡◌, ◌≢◌, Bool, true, not, ◌&&◌, arith,
}
use sscc_oslecture.Frames.Bitmap.{
  IsBytes, pbm_free, pbm_allocated, pbm_reserved, pbm_get-set, IsBytes-pbm_set,
}
use sscc_oslecture.Frames.Count.{count_if, count_if-le, count_if_pos, count_if_change}
use sscc_oslecture.Frames.{Pma, cell, reserve_frame, take_frame, free_one}

abbrev pub is_free : Pma → ℕ → Bool
is_free p i = cell p i == pbm_free

abbrev pub is_available : Pma → ℕ → Bool
is_available p i = not (cell p i == pbm_reserved)

-- The counters agree with the bitmap, and the range with the number of descriptors.
pub record IsValid (p : Pma) : Type 0 where
  pub bytes : IsBytes p.bitmap
  pub span : p.limit_pfn ≡ p.base_pfn + p.frame_desc_count
  pub small : p.limit_pfn < 2 ^ 20
  pub free : p.free_frames ≡ count_if (is_free p) p.frame_desc_count
  pub available : p.available_frames ≡ count_if (is_available p) p.frame_desc_count

-- `q` manages the frames that `p` manages.
pub record SameSpan (p q : Pma) : Type 0 where
  pub count : q.frame_desc_count ≡ p.frame_desc_count
  pub base : q.base_pfn ≡ p.base_pfn
  pub limit : q.limit_pfn ≡ p.limit_pfn

pub SameSpan-refl : (p : Pma) → SameSpan p p
SameSpan-refl p = omega arith

pub SameSpan-trans : {p q r : Pma} → SameSpan p q → SameSpan q r → SameSpan p r
SameSpan-trans s t = omega arith

module _ {p : Pma} (v : IsValid p) (i : ℕ) where
  pub cell-reserve_frame :
      (j : ℕ) → cell (reserve_frame i p) j ≡ (if i == j then pbm_reserved else cell p j)
  unfolding cell reserve_frame
  cell-reserve_frame j = ground (arith, pbm_get-set p.bitmap i j 2 v.bytes)

  pub cell-take_frame :
      (j : ℕ) → cell (take_frame i p) j ≡ (if i == j then pbm_allocated else cell p j)
  unfolding cell take_frame
  cell-take_frame j = ground (arith, pbm_get-set p.bitmap i j 1 v.bytes)

  pub cell-free_one :
      (j : ℕ)
      → cell (free_one i p) j ≡ (if i == j && cell p j == pbm_allocated then pbm_free else cell p j)
  unfolding cell free_one
  cell-free_one j = ground (arith, pbm_get-set p.bitmap i j 0 v.bytes)

-- A write to one managed cell keeps the invariant if the counters move with it.
IsValid-change :
    {p q : Pma} (i : ℕ)
    → IsValid p
    → i < p.frame_desc_count
    → IsBytes q.bitmap
    → SameSpan p q
    → ((j : ℕ) → j ≢ i → cell q j ≡ cell p j)
    → q.free_frames + (if is_free p i then 1 else 0)
      ≡ p.free_frames + (if is_free q i then 1 else 0)
    → q.available_frames + (if is_available p i then 1 else 0)
      ≡ p.available_frames + (if is_available q i then 1 else 0)
    → IsValid q
unfolding cell
IsValid-change {p} {q} i v inside bytes s same hf ha = record {
  bytes = bytes;
  span = omega (arith, v.span, s.count, s.base, s.limit);
  small = omega (arith, v.small, s.limit);
  free = simp s.count (
      omega (
        arith,
        v.free,
        count_if_change (is_free q) (is_free p) i (λ j h. rw (same j h)) p.frame_desc_count inside,
      ));
  available = simp s.count (
      omega (
        arith,
        v.available,
        count_if_change (is_available q) (is_available p) i (λ j h. rw (same j h))
            p.frame_desc_count inside,
      ));
}

module _ {p : Pma} (v : IsValid p) (i : ℕ) (inside : i < p.frame_desc_count) where
  free_bounds :
      (p.free_frames ≤ p.frame_desc_count)
      × (is_free p i ≡ true → 0 < p.free_frames)
      × (p.frame_desc_count < 2 ^ 20)
  free_bounds = (
    omega (arith, count_if-le (is_free p) p.frame_desc_count),
    λ e. omega (arith, v.free, count_if_pos (is_free p) p.frame_desc_count i inside e),
    omega (arith, v.span, v.small),
  )

  available_bounds :
      (p.available_frames ≤ p.frame_desc_count) × (is_available p i ≡ true → 0 < p.available_frames)
  available_bounds = (
    omega (arith, count_if-le (is_available p) p.frame_desc_count),
    λ e. omega (arith, v.available, count_if_pos (is_available p) p.frame_desc_count i inside e),
  )

  pub reserve_frame-SameSpan : SameSpan p (reserve_frame i p)
  unfolding reserve_frame
  reserve_frame-SameSpan = ground arith

  -- Reserving a managed frame keeps the invariant.
  pub reserve_frame-IsValid : IsValid (reserve_frame i p)
  unfolding reserve_frame
  reserve_frame-IsValid =
      IsValid-change i v inside
        (λ j. ground (arith, v.bytes j, IsBytes-pbm_set p.bitmap i 2 v.bytes (omega arith) j))
        reserve_frame-SameSpan (λ j h. ground (arith, cell-reserve_frame v i j))
        (ground (arith, cell-reserve_frame v i i, free_bounds))
        (ground (arith, cell-reserve_frame v i i, free_bounds, available_bounds))

  pub take_frame-SameSpan : SameSpan p (take_frame i p)
  unfolding take_frame
  take_frame-SameSpan = ground arith

  -- Allocating a free managed frame keeps the invariant.
  pub take_frame-IsValid : cell p i ≡ pbm_free → IsValid (take_frame i p)
  unfolding take_frame cell
  take_frame-IsValid e =
      IsValid-change i v inside (IsBytes-pbm_set p.bitmap i 1 v.bytes (omega arith))
        take_frame-SameSpan (λ j h. ground (arith, cell-take_frame v i j))
        (ground (arith, cell-take_frame v i i, free_bounds)) (ground (arith, cell-take_frame v i i))

  pub take_frame_counters :
      cell p i ≡ pbm_free
      → ((take_frame i p).free_frames + 1 ≡ p.free_frames)
        × ((take_frame i p).available_frames ≡ p.available_frames)
  unfolding take_frame
  take_frame_counters e = ground (arith, free_bounds)

  pub free_one-SameSpan : SameSpan p (free_one i p)
  unfolding free_one
  free_one-SameSpan = ground arith

  -- Freeing a managed frame keeps the invariant, whatever its state.
  pub free_one-IsValid : IsValid (free_one i p)
  unfolding free_one
  free_one-IsValid =
      IsValid-change i v inside
        (λ j. ground (arith, v.bytes j, IsBytes-pbm_set p.bitmap i 0 v.bytes (omega arith) j))
        free_one-SameSpan (λ j h. ground (arith, cell-free_one v i j))
        (ground (arith, cell-free_one v i i, free_bounds)) (ground (arith, cell-free_one v i i))
