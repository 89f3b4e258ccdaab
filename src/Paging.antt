-- ===== src/Paging.antt =====
-- Virtual memory of vellum/mm/mm.c (the functions mm_* but the frame allocator's) over the entries of
-- vellum/arch/ia32/include/vellum/arch/mmu.h. A table is a frame, and the directory is one. The
-- entries pt[vpn] at 0xFFC00000 are read as the processor does through the directory's last entry.
pub mod Mapping
mod Tests
pub mod Boot
pub mod UnmapLaws
pub mod FreeLaws
pub mod FreeRange
pub mod Pages
pub mod Growth
pub mod Providing
pub mod PageLaws
pub mod RangeLaws
pub mod MapLaws
pub mod Tables
pub mod Valid
use sscc_oslecture.Base.{
  ltb, ◌==◌, if◌then◌else◌, word_mod, add32, ℕ, ◌*◌, ◌/◌, ◌%◌, ◌^◌, Bool, true, false, not, ◌&&◌,
}
use sscc_oslecture.Status.{invalid_value, page_not_present, Result, ok, err}
use sscc_oslecture.Frames.{Pma, page_size}

-- The bits of an entry, common to the directory and the tables. `avl` and the bits that only the
-- processor sets are left out: no function reads them, and each write sets them to 0.
pub record Entry : Type 0 where
  pub p : Bool
  pub r_w : Bool
  pub u_s : Bool
  pub pwt : Bool
  pub pcd : Bool
  pub pat : Bool
  pub base : ℕ

-- `raw = 0`
abbrev pub cleared : Entry
cleared = record {
  p = false;
  r_w = false;
  u_s = false;
  pwt = false;
  pcd = false;
  pat = false;
  base = 0;
}

-- `raw = 0x00000003 | (pfn << 12)`: present and writable.
abbrev pub present : ℕ → Entry
present pfn = record cleared { p = true; r_w = true; base = pfn % 2 ^ 20 }

-- `entry pfn i` is word `i` of frame `pfn`, `dir` the frame of `page_dir_recursive`, `next_vpn` the
-- static variable of alloc_virt_page.
pub record Mm : Type 0 where
  pub pma : Pma
  pub entry : ℕ → ℕ → Entry
  pub dir : ℕ
  pub next_vpn : ℕ

abbrev pub pde : Mm → ℕ → Entry
pde m i = m.entry m.dir i

-- Where pt[vpn] stands: the frame that the directory names, and the index in it.
abbrev pub table : Mm → ℕ → ℕ
table m vpn = (pde m (vpn / 1024)).base

abbrev pub pte : Mm → ℕ → Entry
pte m vpn = m.entry (table m vpn) (vpn % 1024)

abbrev pub write : (ℕ → ℕ → Entry) → ℕ → ℕ → Entry → ℕ → ℕ → Entry
write mem f i e g j = if f == g && i == j then e else mem g j

-- `for (i = 0; i < 1024; i++) pt[(vpn & 0xFFC00) + i].raw = 0`
abbrev pub clear_table : (ℕ → ℕ → Entry) → ℕ → ℕ → ℕ → Entry
clear_table mem f g j = if f == g && ltb j 1024 then cleared else mem g j

abbrev pub max_vpn : ℕ
max_vpn = 0xfffff

unfoldable pub vpn_to_pfn : ℕ → Mm → Result ℕ
vpn_to_pfn vpn m =
    if ltb max_vpn vpn
    then err invalid_value
    else if not (pde m (vpn / 1024)).p
    then err page_not_present
    else if not (pte m vpn).p
    then err page_not_present
    else ok (pte m vpn).base

unfoldable pub vaddr_to_paddr : ℕ → Mm → Result ℕ
vaddr_to_paddr vaddr m = elim (vpn_to_pfn (vaddr / 4096) m) [
  | ok pfn ↦ ok (add32 (pfn * page_size % word_mod) (vaddr % page_size))
  | err s ↦ err s
]
