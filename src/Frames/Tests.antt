-- ===== src/Frames/Tests.antt =====
-- The frame allocator at a pool of eight frames, and the theorems there.
use sscc_oslecture.Base.{◌==◌, if◌then◌else◌, ℕ, ◌≡◌, refl, some, arith}
use sscc_oslecture.Status.{insufficient_memory, ok, err}
use sscc_oslecture.Frames.Bitmap.{Memory, pbm_get}
use sscc_oslecture.Frames.{
  Pma, cell, mark_reserved, align_page, start, init, scan, allocate_frame, free_frame,
}
use sscc_oslecture.Frames.Count.{count_if}
use sscc_oslecture.Frames.Valid.{IsValid}
use sscc_oslecture.Frames.Allocate.{Outcome, allocate_frame-Outcome}
use sscc_oslecture.Frames.Reserve.{Reserved, mark_reserved-Reserved}
use sscc_oslecture.Frames.Release.{Freed, free_frame-Freed, free_frame-allocate_frame}
use sscc_oslecture.Frames.Init.{Ready, init-Ready}

-- The second frame is allocated, the third reserved, the others are free.
abbrev pub memory : Memory
memory i = if i == 0 then 0x24 else 0

abbrev pub pool : Pma
pool = record {
  bitmap = memory;
  bitmap_size = 2;
  frame_desc_count = 8;
  available_frames = 7;
  free_frames = 6;
  base_pfn = 256;
  limit_pfn = 264;
}

pub pool-IsValid : IsValid pool
unfolding count_if cell pbm_get
pool-IsValid = record {
  bytes = λ i. ground arith;
  span = refl;
  small = omega arith;
  free = refl;
  available = refl;
}

-- Three frames fit behind the reserved one.
abbrev after : Pma
after = (allocate_frame 3 pool).1

allocates_behind : (allocate_frame 3 pool).0 ≡ ok 259
unfolding allocate_frame scan cell pbm_get
allocates_behind = refl

too_many : allocate_frame 6 pool ≡ (err insufficient_memory, pool)
unfolding allocate_frame scan cell pbm_get
too_many = refl

allocate_frame-Outcome_example : Outcome pool 3 (allocate_frame 3 pool)
allocate_frame-Outcome_example = allocate_frame-Outcome 3 pool-IsValid (omega arith)

free_frame-Freed_example : Freed pool 1 4 (free_frame 257 3 pool)
free_frame-Freed_example = free_frame-Freed 257 3 pool-IsValid (omega arith) (omega arith)

free_frame-allocate_frame_example :
    ((j : ℕ) → cell (free_frame 259 3 after) j ≡ cell pool j)
    × ((free_frame 259 3 after).free_frames ≡ 6)
    × ((free_frame 259 3 after).available_frames ≡ 7)
unfolding allocate_frame scan cell pbm_get
free_frame-allocate_frame_example = free_frame-allocate_frame 3 pool-IsValid (omega arith) refl

mark_reserved-Reserved_example :
    (q : Pma) × (mark_reserved 20 0x103000 0x105fff pool ≡ some q) × Reserved pool 3 6 q
mark_reserved-Reserved_example =
    mark_reserved-Reserved 20 0x103000 0x105fff pool-IsValid (omega arith) (omega arith)
      (omega arith) (omega arith)

init-Ready_example :
    (q : Pma) × (init 300 0x101234 memory 0x100000 0x10ffff ≡ some q)
    × Ready memory 0x100000 0x10ffff 0x101234 q
unfolding align_page start
init-Ready_example =
    init-Ready memory 0x100000 0x10ffff pool-IsValid.bytes (omega arith) (omega arith) 300 0x101234
      (omega arith) (omega arith) (omega arith)
