-- ===== src/Paging/Tests.antt =====
-- Virtual memory with an empty directory in frame 1, and the theorems there.
use sscc_oslecture.Base.{◌==◌, if◌then◌else◌, ℕ, zero, suc, ◌≡◌, refl, ◌&&◌, arith}
use sscc_oslecture.Status.{ok}
use sscc_oslecture.Frames.Used.{Used}
use sscc_oslecture.Frames.Tests.{pool, pool-IsValid}
use sscc_oslecture.Paging.{Entry, cleared, present, Mm, vpn_to_pfn}
use sscc_oslecture.Paging.Mapping.{map_pages, unmap_pages}
use sscc_oslecture.Paging.Valid.{IsWired, IsConsistent}
use sscc_oslecture.Paging.MapLaws.{RangeOutcome}
use sscc_oslecture.Paging.RangeLaws.{map_pages-RangeOutcome}
use sscc_oslecture.Paging.Pages.{allocate_pages_to, free_pages}
use sscc_oslecture.Paging.PageLaws.{ProvideOutcome, allocate_pages_to-ProvideOutcome}
use sscc_oslecture.Paging.UnmapLaws.{Unmapped, unmap_pages-Unmapped}
use sscc_oslecture.Paging.FreeLaws.{AreManaged, Returned}
use sscc_oslecture.Paging.FreeRange.{free_pages-Returned}
use sscc_oslecture.Paging.Boot.{mm_init, BootOutcome, mm_init-BootOutcome}

abbrev bare : ℕ → ℕ → Entry
bare f i = if f == 1 && i == 1023 then present 1 else cleared

abbrev mm : Mm
mm = record { pma = pool; entry = bare; dir = 1; next_vpn = 0x400 }

mm-IsConsistent : IsConsistent mm
unfolding Used
mm-IsConsistent = record {
  wired = record { self_present = refl; self = refl; apart = λ i j bi bj. ground arith };
  frames = pool-IsValid;
  used = λ i b p k h e. absurd (ground arith);
}

map_pages-RangeOutcome_example : RangeOutcome 300 1023 2 0 mm (map_pages 300 1023 2 0 mm)
map_pages-RangeOutcome_example =
    map_pages-RangeOutcome 300 1023 2 0 mm-IsConsistent (omega arith) (omega arith)

allocate_pages_to-ProvideOutcome_example : ProvideOutcome 5 3 mm (allocate_pages_to 5 3 mm)
allocate_pages_to-ProvideOutcome_example =
    allocate_pages_to-ProvideOutcome 5 3 mm-IsConsistent (omega arith)

-- The page 5 is mapped to frame 300, through a table in frame 256.
abbrev one_page : ℕ → ℕ → Entry
one_page f i =
    if f == 1 && i == 0 then present 256 else if f == 256 && i == 5 then present 300 else bare f i

abbrev mapped_mm : Mm
mapped_mm = record mm { entry = one_page }

translates_page : vpn_to_pfn 5 mapped_mm ≡ ok 300
unfolding vpn_to_pfn
translates_page = refl

mapped_mm-IsWired : IsWired mapped_mm
mapped_mm-IsWired = record { self_present = refl; self = refl; apart = λ i j bi bj. ground arith }

unmap_pages-Unmapped_example : Unmapped 4 3 mapped_mm (unmap_pages 4 3 mapped_mm)
unmap_pages-Unmapped_example = unmap_pages-Unmapped 4 3 mapped_mm mapped_mm-IsWired (omega arith)

-- The page 5 is mapped to frame 257, which is allocated.
abbrev own_page : ℕ → ℕ → Entry
own_page f i = if f == 256 && i == 5 then present 257 else one_page f i

abbrev own_mm : Mm
own_mm = record mm { entry = own_page }

own_mm-IsWired : IsWired own_mm
own_mm-IsWired = record { self_present = refl; self = refl; apart = λ i j bi bj. ground arith }

own_mm-AreManaged : AreManaged 4 3 own_mm
unfolding vpn_to_pfn
own_mm-AreManaged zero b e = absurd (ground arith)
own_mm-AreManaged (suc zero) b e = absurd (ground arith)
own_mm-AreManaged (suc (suc zero)) b e = absurd (ground arith)
own_mm-AreManaged (suc (suc (suc i))) b e = absurd (omega arith)

free_pages-Returned_example :
    Unmapped 4 3 own_mm (free_pages 4 3 own_mm) × Returned 4 3 own_mm (free_pages 4 3 own_mm)
free_pages-Returned_example =
    free_pages-Returned 4 3 own_mm own_mm-IsWired pool-IsValid own_mm-AreManaged (omega arith)

mm_init-BootOutcome_example : BootOutcome pool (mm_init (λ f i. cleared) 1 pool)
unfolding Used
mm_init-BootOutcome_example =
    mm_init-BootOutcome (λ f i. cleared) 1 pool-IsValid (λ i h e. absurd (omega arith))
      (omega arith)
