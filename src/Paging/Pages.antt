-- ===== src/Paging/Pages.antt =====
-- mm_allocate_pages, mm_allocate_pages_to, mm_free_pages, alloc_virt_page and init_page_directory of
-- vellum/mm/mm.c.
use sscc_oslecture.Base.{add32, ℕ, zero, suc}
use sscc_oslecture.Status.{page_not_present, Result, ok, err, and_then}
use sscc_oslecture.Frames.{Pma, allocate_frame, free_frame}
use sscc_oslecture.Paging.{Mm, vpn_to_pfn}
use sscc_oslecture.Paging.Mapping.{Done, map_pages, unmap_pages}

-- What the loop body does with the frame for a page that is not present. PF_DEFAULT is 0.
unfoldable pub map_frame : ℕ → Mm → Result ℕ × Pma → Done × Mm
map_frame vpn m (err s, q) = (err s, record m { pma = q })
map_frame vpn m (ok pfn, q) = map_pages pfn vpn 1 0 (record m { pma = q })

unfoldable pub provide_page : ℕ → Mm → Result ℕ → Done × Mm
provide_page vpn m (ok _) = (ok tt, m)
provide_page vpn m (err page_not_present) = map_frame vpn m (allocate_frame 1 m.pma)
provide_page vpn m (err s) = (err s, m)

-- mm_allocate_pages_to: pages that are present already are left as they are.
unfoldable pub allocate_pages_to : ℕ → ℕ → Mm → Done × Mm
allocate_pages_to vpn zero m = (ok tt, m)
allocate_pages_to vpn (suc count) m =
    and_then (provide_page vpn m (vpn_to_pfn vpn m)) λ _ n. allocate_pages_to (add32 vpn 1) count n

-- alloc_virt_page
unfoldable pub alloc_virt_page : ℕ → Mm → ℕ × Mm
alloc_virt_page count m = (m.next_vpn, record m { next_vpn = add32 m.next_vpn count })

-- mm_allocate_pages, whose loop is that of mm_allocate_pages_to, written out again.
unfoldable pub allocate_pages : ℕ → Mm → Result ℕ × Mm
allocate_pages count m =
    let (vpn, n) = alloc_virt_page count m in
    and_then (allocate_pages_to vpn count n) λ _ o. (ok vpn, o)

unfoldable pub free_page : ℕ → Mm → Result ℕ → Mm
free_page vpn m (err s) = m
free_page vpn m (ok pfn) = let n = unmap_pages vpn 1 m in record n { pma = free_frame pfn 1 n.pma }

-- mm_free_pages
unfoldable pub free_pages : ℕ → ℕ → Mm → Mm
free_pages vpn zero m = m
free_pages vpn (suc count) m = free_pages (add32 vpn 1) count (free_page vpn m (vpn_to_pfn vpn m))
