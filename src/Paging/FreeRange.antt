-- ===== src/Paging/FreeRange.antt =====
-- What mm_free_pages of vellum/mm/mm.c does to the frames under a range of pages.
use sscc_oslecture.Base.{
  add32, ℕ, zero, suc, ◌+◌, ◌-◌, ◌*◌, ◌≤◌, ◌<◌, ◌≡◌, refl, sym, ap, ◌∙◌, ◌≢◌, ◌⊎◌, inl, inr, arith,
}
use sscc_oslecture.Status.{ok}
use sscc_oslecture.Frames.{cell}
use sscc_oslecture.Frames.Bitmap.{pbm_free, pbm_allocated}
use sscc_oslecture.Frames.Valid.{IsValid, SameSpan-refl, SameSpan-trans}
use sscc_oslecture.Paging.{Mm, vpn_to_pfn}
use sscc_oslecture.Paging.Pages.{free_page, free_pages}
use sscc_oslecture.Paging.Valid.{IsWired}
use sscc_oslecture.Paging.UnmapLaws.{Unmapped, Cleared, free_page-Cleared, free_pages-Unmapped}
use sscc_oslecture.Paging.FreeLaws.{AreManaged, Returned, free_page-Returned}

Returned-cons :
    {m n o : Mm} (vpn count : ℕ)
    → vpn + suc count ≤ 1023 * 1024
    → Cleared vpn m n
    → Returned vpn 1 m n
    → Returned (vpn + 1) count n o
    → Returned vpn (suc count) m o
Returned-cons {m} {n} {o} vpn count h c x u = record {
  valid = u.valid;
  span = SameSpan-trans x.span u.span;
  freed = freed;
  changed = changed;
}
  where
    later : (i : ℕ) → i < count → vpn_to_pfn (vpn + 1 + i) n ≡ vpn_to_pfn (vpn + suc i) m
    later i b =
        let at : vpn + suc i ≡ vpn + 1 + i = omega arith in
        rw at (c.same (vpn + 1 + i) (omega arith) (λ w. omega arith))

    base : n.pma.base_pfn ≡ m.pma.base_pfn
    base = x.span.base

    limit : n.pma.limit_pfn ≡ m.pma.limit_pfn
    limit = x.span.limit

    freed :
        (i f : ℕ)
        → i < suc count
        → vpn_to_pfn (vpn + i) m ≡ ok f
        → m.pma.base_pfn ≤ f
        → f < m.pma.limit_pfn
        → cell o.pma (f - m.pma.base_pfn) ≢ pbm_allocated
    freed zero f b e above below =
        let was = x.freed 0 f (omega arith) e above below in
        elim (u.changed (f - m.pma.base_pfn)) [
          | inl q ↦ λ w. was (cc)
          | inr (a, z, k) ↦ λ w. absurd (omega arith)
        ]
    freed (suc i) f b e above below =
        rw (sym base)
          (u.freed i f (omega arith) (later i (omega arith) ∙ e) (omega arith) (omega arith))

    moved :
        (j : ℕ)
        → cell m.pma j ≡ pbm_allocated
        → (i : ℕ) × (i < count) × (vpn_to_pfn (vpn + 1 + i) n ≡ ok (n.pma.base_pfn + j))
        → cell o.pma j ≡ pbm_free
        → (cell m.pma j ≡ pbm_allocated)
          × (cell o.pma j ≡ pbm_free)
          × ((i : ℕ) × (i < suc count) × (vpn_to_pfn (vpn + i) m ≡ ok (m.pma.base_pfn + j)))
    moved j a (i, b, e) z =
        (a, z, (suc i, omega arith, sym (later i b) ∙ e ∙ ap (λ w. ok (w + j)) base))

    lt-suc : (i : ℕ) → i < 1 → i < suc count
    lt-suc i b = omega arith

    changed :
        (j : ℕ)
        → (cell o.pma j ≡ cell m.pma j)
          ⊎ ((cell m.pma j ≡ pbm_allocated)
              × (cell o.pma j ≡ pbm_free)
              × ((i : ℕ) × (i < suc count) × (vpn_to_pfn (vpn + i) m ≡ ok (m.pma.base_pfn + j))))
    changed j = elim (x.changed j) [
      | inl p ↦ elim (u.changed j) [
        | inl q ↦ inl (q ∙ p)
        | inr (a, z, k) ↦ inr (moved j (sym p ∙ a) k z)
      ]
      | inr (a, z, (i, b, e)) ↦ elim (u.changed j) [
        | inl q ↦ inr (a, q ∙ z, (i, lt-suc i b, e))
        | inr (a', z', k') ↦ absurd (omega arith)
      ]
    ]

AreManaged-tail :
    {m n : Mm} (vpn count : ℕ)
    → vpn + suc count ≤ 1023 * 1024
    → Cleared vpn m n
    → Returned vpn 1 m n
    → AreManaged vpn (suc count) m
    → AreManaged (vpn + 1) count n
AreManaged-tail {m} {n} vpn count h c x a i b e =
    let at : vpn + suc i ≡ vpn + 1 + i = omega arith in
    let same = c.same (vpn + 1 + i) (omega arith) (λ w. omega arith) in
    a (suc i) (omega arith) (rw at (sym same ∙ e ∙ ap (λ w. ok w) x.span.limit))

free_range-Returned :
    (vpn count : ℕ) (m : Mm)
    → IsWired m
    → IsValid m.pma
    → AreManaged vpn count m
    → vpn + count ≤ 1023 * 1024
    → Returned vpn count m (free_pages vpn count m)
unfolding free_pages
free_range-Returned vpn zero m w v a h = record {
  valid = v;
  span = SameSpan-refl m.pma;
  freed = λ i f b. absurd (omega arith);
  changed = λ j. inl refl;
}
free_range-Returned vpn (suc count) m w v a h =
    let at : vpn + 0 ≡ vpn = omega arith in
    let same : vpn_to_pfn (vpn + 0) m ≡ vpn_to_pfn vpn m = ap (λ w. vpn_to_pfn w m) at in
    let head : vpn_to_pfn vpn m ≢ ok m.pma.limit_pfn = λ q. a 0 (omega arith) (same ∙ q) in
    let next : Mm = free_page vpn m (vpn_to_pfn vpn m) in
    let gone = free_page-Cleared vpn (vpn_to_pfn vpn m) w (omega arith) refl in
    let one = free_page-Returned vpn m v head in
    let next_vpn : add32 vpn 1 ≡ vpn + 1 = omega arith in
    rw next_vpn (
      Returned-cons vpn count h gone one (
        free_range-Returned (vpn + 1) count next gone.wired one.valid
          (AreManaged-tail vpn count h gone one a) (omega arith)))

-- mm_free_pages of a range outside the window of the tables, where no page is mapped to the frame behind the
-- last one, leaves no page of the range mapped and changes no other translation. It keeps the invariant
-- of the frame allocator, whose counters thus count the frames again; the managed frames that were
-- under the pages are not allocated any more, and no cell changes but those of such frames, from
-- allocated to free.
pub free_pages-Returned :
    (vpn count : ℕ) (m : Mm)
    → IsWired m
    → IsValid m.pma
    → AreManaged vpn count m
    → vpn + count ≤ 1023 * 1024
    → Unmapped vpn count m (free_pages vpn count m) × Returned vpn count m (free_pages vpn count m)
free_pages-Returned vpn count m w v a h =
    (free_pages-Unmapped vpn count m w h, free_range-Returned vpn count m w v a h)
