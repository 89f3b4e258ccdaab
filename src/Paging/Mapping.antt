-- ===== src/Paging/Mapping.antt =====
-- Mapping and unmapping of pages: `map`, mm_map, `unmap` and mm_unmap of vellum/mm/mm.c.
use sscc_oslecture.Base.{
  ltb, ◌==◌, if◌then◌else◌, add32, ℕ, zero, suc, ◌/◌, ◌%◌, ◌^◌, Bool, true, false, not, ◌&&◌, ◌||◌,
}
use sscc_oslecture.Status.{invalid_value, conflicting_state, Result, ok, err, and_then}
use sscc_oslecture.Frames.{Pma, allocate_frame}
use sscc_oslecture.Paging.{
  Entry, cleared, present, Mm, pde, table, pte, write, clear_table, max_vpn,
}

-- `flags & mask`, for a mask of one bit
abbrev pub flag : ℕ → ℕ → Bool
flag flags mask = flags / mask % 2 == 1

abbrev pub differ : Bool → Bool → Bool
differ true b = not b
differ false b = b

-- The four tests on an entry that is present already.
unfoldable pub conflicts : ℕ → Entry → Bool
conflicts flags e =
    differ (flag flags 1) (not e.r_w)
    || differ (not (flag flags 2)) (not e.u_s)
    || differ (not (flag flags 4)) (not (e.pat && e.pcd))
    || differ (not (flag flags 8)) (not (e.pat && e.pwt))

-- The entry that `map` writes, bit by bit in the source.
unfoldable pub mapped : ℕ → ℕ → Entry
mapped pfn flags = record {
  p = true;
  r_w = not (flag flags 1);
  u_s = flag flags 2;
  pwt = flag flags 8;
  pcd = flag flags 4;
  pat = flag flags 4 || flag flags 8;
  base = pfn % 2 ^ 20;
}

-- STATUS_SUCCESS of a function that stores no value.
abbrev pub Done : Type 0
Done = Result (Unit {0})

-- What `map` does with the frame that it asked for: it becomes the new, empty table of `vpn`.
unfoldable pub install_table : ℕ → Mm → Result ℕ × Pma → Done × Mm
install_table vpn m (err s, q) = (err s, record m { pma = q })
install_table vpn m (ok pfn, q) = (
  ok tt,
  record m {
    pma = q;
    entry = clear_table (write m.entry m.dir (vpn / 1024) (present pfn)) (pfn % 2 ^ 20);
  },
)

unfoldable pub new_table : ℕ → Mm → Done × Mm
unfolding install_table
new_table vpn m =
    if (pde m (vpn / 1024)).p then (ok tt, m) else install_table vpn m (allocate_frame 1 m.pma)

-- The rest of `map`, with the table there.
unfoldable pub write_page : ℕ → ℕ → ℕ → Mm → Done × Mm
write_page pfn vpn flags m =
    if (pte m vpn).p && conflicts flags (pte m vpn)
    then (err conflicting_state, m)
    else (ok tt, record m { entry = write m.entry (table m vpn) (vpn % 1024) (mapped pfn flags) })

-- The static function `map`.
unfoldable pub map_page : ℕ → ℕ → ℕ → Mm → Done × Mm
map_page pfn vpn flags m =
    if ltb max_vpn vpn
    then (err invalid_value, m)
    else and_then (new_table vpn m) λ _ m'. write_page pfn vpn flags m'

-- mm_map: page by page, and no way back after a failure.
unfoldable pub map_pages : ℕ → ℕ → ℕ → ℕ → Mm → Done × Mm
map_pages pfn vpn zero flags m = (ok tt, m)
map_pages pfn vpn (suc count) flags m =
    and_then (map_page pfn vpn flags m) λ _ m'. map_pages (add32 pfn 1) (add32 vpn 1) count flags m'

-- The static function `unmap`.
unfoldable pub unmap_page : ℕ → Mm → Mm
unmap_page vpn m =
    if ltb max_vpn vpn
    then m
    else if not (pde m (vpn / 1024)).p
    then m
    else if not (pte m vpn).p
    then m
    else record m { entry = write m.entry (table m vpn) (vpn % 1024) cleared }

-- mm_unmap, which always succeeds.
unfoldable pub unmap_pages : ℕ → ℕ → Mm → Mm
unmap_pages vpn zero m = m
unmap_pages vpn (suc count) m = unmap_pages (add32 vpn 1) count (unmap_page vpn m)
