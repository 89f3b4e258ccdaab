-- ===== src/Paging/Boot.antt =====
-- init_page_directory and mm_init of vellum/mm/mm.c. The control registers are not part of the
-- model: afterwards the processor translates by the directory.
use sscc_oslecture.Base.{
  ltb, leb, ◌==◌, if◌then◌else◌, Bool-cases, ℕ, ◌/◌, ◌%◌, ◌^◌, ◌≤◌, ◌<◌, ◌≡◌, ap, ◌∙◌, ◌≢◌, inl,
  inr, true, ◌&&◌, arith,
}
use sscc_oslecture.Status.{page_not_present, insufficient_memory, Result, ok, err}
use sscc_oslecture.Frames.{Pma, allocate_frame}
use sscc_oslecture.Frames.Valid.{IsValid}
use sscc_oslecture.Frames.Scan.{NoRun}
use sscc_oslecture.Frames.Allocate.{Allocated, Outcome, allocate_frame-Outcome}
use sscc_oslecture.Frames.Used.{Used, Used-keep, Allocated-Used, Used-ne, Allocated-small}
use sscc_oslecture.Paging.{Entry, cleared, present, Mm, pde, pte, vpn_to_pfn}
use sscc_oslecture.Paging.Valid.{IsWired, IsConsistent, IsPage}

-- `raw = 0x00000002`
abbrev pub writable : Entry
writable = record cleared { r_w = true }

-- The entries 1 to 1022, and the last one, which names the directory itself.
abbrev empty_dir : ℕ → (ℕ → Entry) → ℕ → Entry
empty_dir dir old i =
    if i == 1023 then present dir else if leb 1 i && ltb i 1023 then writable else old i

-- The words of the new table: page `i` is frame `i`.
abbrev identity : (ℕ → Entry) → ℕ → Entry
identity old i = if ltb i 1024 then present i else old i

-- The memory with the directory at frame `dir` and the table at frame `pfn`, written in this order.
abbrev boot_memory : (ℕ → ℕ → Entry) → ℕ → ℕ → ℕ → ℕ → Entry
boot_memory mem dir pfn f =
    let entries =
      if f == dir then (λ i. if i == 0 then present pfn else empty_dir dir (mem f) i) else mem f in
    if f == pfn then identity entries else entries

-- The 32-bit address of frame `dir` is that of `page_dir_recursive`, and `mem` what memory held.
with_table : (ℕ → ℕ → Entry) → ℕ → Pma → Result ℕ × Pma → Result Mm
with_table mem dir p (err s, q) = err s
with_table mem dir p (ok pfn, q) =
    ok (record { pma = q; entry = boot_memory mem dir pfn; dir = dir; next_vpn = 0x400 })

pub mm_init : (ℕ → ℕ → Entry) → ℕ → Pma → Result Mm
unfolding with_table
mm_init mem dir p = with_table mem dir p (allocate_frame 1 p)

-- The first four megabytes are mapped to themselves, and nothing else is mapped.
pub record Booted (m : Mm) : Type 0 where
  pub consistent : IsConsistent m
  pub low : (v : ℕ) → v < 1024 → vpn_to_pfn v m ≡ ok v
  pub high : (v : ℕ) → 1024 ≤ v → IsPage v → vpn_to_pfn v m ≡ err page_not_present

abbrev pub BootOutcome : Pma → Result Mm → Type 0
BootOutcome p (ok m) = Booted m
BootOutcome p (err s) = (s ≡ insufficient_memory) × NoRun p 1

module _ (mem : ℕ → ℕ → Entry) (dir : ℕ) {p q : Pma} {pfn : ℕ} (v : IsValid p)
    (a : Allocated p 1 pfn q) (used : Used p dir) (small : dir < 2 ^ 20) where
  abbrev booted : Mm
  booted = record { pma = q; entry = boot_memory mem dir pfn; dir = dir; next_vpn = 0x400 }

  dir-ne : dir ≢ pfn
  dir-ne = Used-ne v a dir used

  pfn-small : pfn < 2 ^ 20
  pfn-small = Allocated-small v a

  pde-booted :
      (i : ℕ)
      → i < 1024
      → pde booted i ≡ (if i == 0 then present pfn else if i == 1023 then present dir else writable)
  pde-booted i b = ground (arith, dir-ne)

  booted-IsWired : IsWired booted
  booted-IsWired = record {
    self_present = rw (pde-booted 1023 (omega arith));
    self = rw (pde-booted 1023 (omega arith)) (omega arith);
    apart = λ i j bi bj. rw (pde-booted i bi, pde-booted j bj) (ground (arith, dir-ne, pfn-small));
  }

  booted-IsConsistent : IsConsistent booted
  booted-IsConsistent = record { wired = booted-IsWired; frames = a.valid; used = used-booted }
    where
      low : pfn % 2 ^ 20 ≡ pfn
      low = omega (arith, pfn-small)

      low_dir : dir % 2 ^ 20 ≡ dir
      low_dir = omega arith

      used-booted : (i : ℕ) → i < 1024 → (pde booted i).p ≡ true → Used q (pde booted i).base
      used-booted i b = rw (pde-booted i b) (elim (Bool-cases (i == 0)) [
        | inl first ↦ rw first (λ p. rw low (Allocated-Used v a))
        | inr other ↦ elim (Bool-cases (i == 1023)) [
          | inl last ↦ rw (other, last) (λ p. rw low_dir (Used-keep v a dir used))
          | inr middle ↦ rw (other, middle) (λ p. cc)
        ]
      ])

  pte-booted : (w : ℕ) → w < 1024 → pte booted w ≡ present w
  pte-booted w b =
      ap (λ d. booted.entry d.base (w % 1024)) (pde-booted (w / 1024) (omega arith))
      ∙ ground (arith, pfn-small, dir-ne)

  Booted-booted : Booted booted
  unfolding vpn_to_pfn
  Booted-booted = record {
    consistent = booted-IsConsistent;
    low = λ w b. ground (arith, pde-booted (w / 1024), pte-booted w b);
    high = λ w b h. ground (arith, pde-booted (w / 1024));
  }

with_table-BootOutcome :
    (mem : ℕ → ℕ → Entry) (dir : ℕ) {p : Pma} (r : Result ℕ × Pma)
    → IsValid p
    → Used p dir
    → dir < 2 ^ 20
    → Outcome p 1 r
    → BootOutcome p (with_table mem dir p r)
unfolding with_table
with_table-BootOutcome mem dir (ok pfn, q) v used small a = Booted-booted mem dir v a used small
with_table-BootOutcome mem dir (err s, q) v used small (e, same, no_run) = (e, no_run)

-- mm_init, with the directory in a frame that the allocator does not hand out: the first four
-- megabytes translate to themselves, no other page outside the window of the tables is mapped, and
-- the invariant holds; or there is no free frame.
pub mm_init-BootOutcome :
    (mem : ℕ → ℕ → Entry) (dir : ℕ) {p : Pma}
    → IsValid p
    → Used p dir
    → dir < 2 ^ 20
    → BootOutcome p (mm_init mem dir p)
unfolding mm_init
mm_init-BootOutcome mem dir {p} v used small =
    with_table-BootOutcome mem dir (allocate_frame 1 p) v used small
      (allocate_frame-Outcome 1 v (omega arith))
