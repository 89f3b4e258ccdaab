-- ===== src/Paging/RangeLaws.antt =====
-- mm_map of vellum/mm/mm.c over a range of pages.
use sscc_oslecture.Base.{
  add32, ℕ, zero, suc, ◌+◌, ◌*◌, ◌^◌, ◌≤◌, ◌<◌, ◌≡◌, refl, sym, subst, ◌∙◌, add-zero, arith,
}
use sscc_oslecture.Status.{ok, err, and_then}
use sscc_oslecture.Paging.{Mm, vpn_to_pfn}
use sscc_oslecture.Paging.Mapping.{Done, map_page, map_pages}
use sscc_oslecture.Paging.Valid.{IsConsistent, IsPage}
use sscc_oslecture.Paging.MapLaws.{
  Mapped, MapOutcome, map_page-MapOutcome, MappedRange, RangeOutcome,
}

MappedRange-cons :
    {m n o : Mm} (pfn vpn count flags : ℕ)
    → IsPage vpn
    → Mapped pfn vpn flags m n
    → MappedRange (pfn + 1) (vpn + 1) count n o
    → MappedRange pfn vpn (suc count) m o
MappedRange-cons {m} {n} {o} pfn vpn count flags h a r = record {
  consistent = r.consistent;
  translates = translates;
  same = λ v hv out.
      r.same v hv (λ w. out (omega arith, omega arith))
      ∙ a.same v hv (λ e. out (omega arith, omega arith));
}
  where
    translates : (i : ℕ) → i < suc count → vpn_to_pfn (vpn + i) o ≡ ok (pfn + i)
    translates zero b =
        rw (add-zero vpn, add-zero pfn) (r.same vpn h (λ w. omega arith) ∙ a.translates)
    translates (suc i) b =
        let e : vpn + suc i ≡ vpn + 1 + i = omega arith in
        let e' : pfn + suc i ≡ pfn + 1 + i = omega arith in
        rw (e, e') (r.translates i (omega arith))

MappedRange-nil : {m : Mm} (pfn vpn : ℕ) → IsConsistent m → MappedRange pfn vpn 0 m m
MappedRange-nil pfn vpn c = record {
  consistent = c;
  translates = λ i b. absurd (omega arith);
  same = λ v hv out. refl;
}

RangeOutcome-cons :
    {m n : Mm} (pfn vpn count flags : ℕ) (r : Done × Mm)
    → IsPage vpn
    → Mapped pfn vpn flags m n
    → RangeOutcome (pfn + 1) (vpn + 1) count flags n r
    → RangeOutcome pfn vpn (suc count) flags m r
RangeOutcome-cons pfn vpn count flags (ok _, o) h a r = MappedRange-cons pfn vpn count flags h a r
RangeOutcome-cons pfn vpn count flags (err s, o) h a (k, b, r, e) = (
  suc k,
  omega arith,
  MappedRange-cons pfn vpn k flags h a r,
  let q : vpn + suc k ≡ vpn + 1 + k = omega arith in rw q e,
)

RangeOutcome-step :
    {m : Mm} (pfn vpn count flags : ℕ) (r : Done × Mm)
    → IsConsistent m
    → IsPage vpn
    → MapOutcome pfn vpn flags m r
    → ((n : Mm)
        → IsConsistent n
        → RangeOutcome
            (pfn + 1)
            (vpn + 1)
            count
            flags
            n
            (map_pages (add32 pfn 1) (add32 vpn 1) count flags n))
    → RangeOutcome pfn vpn
        (suc count)
        flags
        m
        (and_then r (λ _ n. map_pages (add32 pfn 1) (add32 vpn 1) count flags n))
RangeOutcome-step pfn vpn count flags (ok _, n) c h a next =
    RangeOutcome-cons pfn vpn count flags _ h a (next n a.consistent)
RangeOutcome-step {m} pfn vpn count flags (err s, n) c h (same, e) next = (
  0,
  omega arith,
  subst (MappedRange pfn vpn 0 m) (sym same) (MappedRange-nil pfn vpn c),
  rw (add-zero, same) e,
)

-- mm_map of a range outside the window of the tables maps all its pages in order, and no other, or
-- it stops at the first page that fails, with exactly the pages before it mapped.
pub map_pages-RangeOutcome :
    {m : Mm} (pfn vpn count flags : ℕ)
    → IsConsistent m
    → vpn + count ≤ 1023 * 1024
    → pfn + count ≤ 2 ^ 20
    → RangeOutcome pfn vpn count flags m (map_pages pfn vpn count flags m)
unfolding map_pages
map_pages-RangeOutcome pfn vpn zero flags c h small = MappedRange-nil pfn vpn c
map_pages-RangeOutcome {m} pfn vpn (suc count) flags c h small =
    RangeOutcome-step pfn vpn count flags (map_page pfn vpn flags m) c (omega arith)
      (map_page-MapOutcome m pfn vpn flags (omega arith) (omega arith) c)
      λ n d.
        rw (next_pfn, next_vpn)
          (map_pages-RangeOutcome (pfn + 1) (vpn + 1) count flags d (omega arith) (omega arith))
  where
    next_pfn : add32 pfn 1 ≡ pfn + 1
    next_pfn = omega arith

    next_vpn : add32 vpn 1 ≡ vpn + 1
    next_vpn = omega arith
