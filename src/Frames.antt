-- ===== src/Frames.antt =====
-- The physical frame allocator of vellum/mm/mm.c, the functions mm_pma_*: a bitmap with two bits
-- for each frame, two counters, and the range of frames that it manages.
pub mod Bitmap
pub mod Count
pub mod Scan
pub mod Allocate
pub mod Reserve
pub mod Release
pub mod Init
pub mod Tests
pub mod Used
pub mod Valid
use sscc_oslecture.Base.{
  ltb, leb, ◌==◌, if◌then◌else◌, add32, sub32, loop, ℕ, zero, suc, ◌+◌, ◌-◌, ◌*◌, ◌/◌, min, max,
  true, false, ◌||◌, Option, none, some,
}
use sscc_oslecture.Status.{insufficient_memory, Result, ok, err}
use sscc_oslecture.Frames.Bitmap.{Memory, pbm_free, pbm_allocated, pbm_reserved, pbm_get, pbm_set}

-- The static variables pma_*. `bitmap` is the memory from where `pma_bitmap` points.
pub record Pma : Type 0 where
  pub bitmap : Memory
  pub bitmap_size : ℕ
  pub frame_desc_count : ℕ
  pub available_frames : ℕ
  pub free_frames : ℕ
  pub base_pfn : ℕ
  pub limit_pfn : ℕ

abbrev pub page_size : ℕ
page_size = 4096

-- PBM_GET on the allocator's own bitmap.
pub cell : Pma → ℕ → ℕ
cell p i = pbm_get p.bitmap i

-- The body of the loop of mm_pma_mark_reserved.
pub reserve_frame : ℕ → Pma → Pma
reserve_frame i p = if cell p i == pbm_reserved then p else record p {
  bitmap = pbm_set p.bitmap i pbm_reserved;
  available_frames = sub32 p.available_frames 1;
  free_frames = if cell p i == pbm_free then sub32 p.free_frames 1 else p.free_frames;
}

-- `for (size_t i = lo; i <= hi; i++)`. At `hi` 0xFFFFFFFF the test never fails, so the loop has
-- fuel, and `none` says that it ran out.
pub reserve_loop : ℕ → ℕ → ℕ → Pma → Option Pma
reserve_loop zero i hi p = none
reserve_loop (suc fuel) i hi p =
    let rest = reserve_loop fuel (add32 i 1) hi (reserve_frame i p) in
    if leb i hi then rest else some p

pub mark_reserved : ℕ → ℕ → ℕ → Pma → Option Pma
mark_reserved fuel base_paddr limit_paddr p =
    let base_page = max (base_paddr / page_size) p.base_pfn in
    let limit_page = min (limit_paddr / page_size) p.limit_pfn in
    reserve_loop fuel (sub32 base_page p.base_pfn) (sub32 limit_page p.base_pfn) p

-- `memset(pma_bitmap, 0, size)`
clear_bytes : ℕ → Memory → Memory
clear_bytes size m i = if ltb i size then 0 else m i

-- ALIGN(v, PAGE_SIZE)
pub align_page : ℕ → ℕ
align_page v = add32 v 4095 / 4096 * 4096

-- What mm_pma_init sets before it reserves anything. `memory` is what stands where the bitmap will.
pub start : Memory → ℕ → ℕ → Pma
start memory base_paddr limit_paddr =
    let count = sub32 (limit_paddr / page_size) (base_paddr / page_size) in
    let size = add32 count 3 / 4 in
    record {
      bitmap = clear_bytes size memory;
      bitmap_size = size;
      frame_desc_count = count;
      available_frames = count;
      free_frames = count;
      base_pfn = base_paddr / page_size;
      limit_pfn = limit_paddr / page_size;
    }

-- `end` is the address of the linker's symbol __end. The frames from the first one to the end of
-- the bitmap, where the program stands, are reserved.
pub init : ℕ → ℕ → Memory → ℕ → ℕ → Option Pma
init fuel end memory base_paddr limit_paddr =
    let p = start memory base_paddr limit_paddr in
    mark_reserved fuel base_paddr (sub32 (add32 (align_page end) p.bitmap_size) 1) p

-- The search of mm_pma_allocate_frame: frames still to look at, next index, then `free_count` and
-- `alloc_start_idx`, which it returns. A `break` returns at once.
pub scan : Pma → ℕ → ℕ → ℕ → ℕ → ℕ → ℕ × ℕ
scan p count zero i free start = (free, start)
scan p count (suc left) i free start = elim (cell p i == pbm_free) [
  | false ↦ scan p count left (i + 1) 0 start
  | true ↦
      let start' = if free == 0 then i else start in
      elim (leb count (free + 1)) [
        | true ↦ (free + 1, start')
        | false ↦ scan p count left (i + 1) (free + 1) start'
      ]
]

pub take_frame : ℕ → Pma → Pma
take_frame i p = record p {
  bitmap = pbm_set p.bitmap i pbm_allocated;
  free_frames = sub32 p.free_frames 1;
}

pub allocate_frame : ℕ → Pma → Result ℕ × Pma
allocate_frame count p =
    let (free, start) = scan p count p.frame_desc_count 0 0 0 in
    if ltb free count
    then (err insufficient_memory, p)
    else (ok (add32 p.base_pfn start), loop take_frame (add32 start count - start) start p)

pub free_one : ℕ → Pma → Pma
free_one i p =
    if cell p i == pbm_allocated
    then record p { bitmap = pbm_set p.bitmap i pbm_free; free_frames = add32 p.free_frames 1 }
    else p

-- The number of frames that mm_pma_free_frame goes through: it shortens a range that ends behind
-- the last frame.
pub clip : ℕ → ℕ → Pma → ℕ
clip pfn count p =
    if ltb (add32 p.limit_pfn 1) (add32 pfn count)
    then sub32 count (sub32 (add32 p.limit_pfn 1) pfn)
    else count

pub free_frame : ℕ → ℕ → Pma → Pma
free_frame pfn count p =
    if ltb pfn p.base_pfn || ltb p.limit_pfn pfn
    then p
    else let start = sub32 pfn p.base_pfn in
      loop free_one (add32 start (clip pfn count p) - start) start p
