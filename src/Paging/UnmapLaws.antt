-- ===== src/Paging/UnmapLaws.antt =====
-- What `unmap`, mm_unmap and mm_free_pages of vellum/mm/mm.c do to the translation of pages.
use sscc_oslecture.Base.{
  ltb-false, Bool-cases, add32, ℕ, zero, suc, ◌+◌, ◌*◌, ◌/◌, ◌≤◌, ◌<◌, ◌≡◌, refl, ◌∙◌, inl, inr,
  add-zero, arith,
}
use sscc_oslecture.Status.{page_not_present, Result, ok, err}
use sscc_oslecture.Frames.{Pma}
use sscc_oslecture.Paging.{cleared, Mm, pde, pte, max_vpn, vpn_to_pfn}
use sscc_oslecture.Paging.Mapping.{unmap_page, unmap_pages}
use sscc_oslecture.Paging.Valid.{
  IsWired, IsPage, SameExcept, IsWired-write, vpn_to_pfn-write_absent, SameExcept-write,
}
use sscc_oslecture.Paging.MapLaws.{Only, Within}
use sscc_oslecture.Paging.Pages.{free_page, free_pages}

-- The pages of a range are gone, and every other translates as before.
pub record Unmapped (vpn count : ℕ) (m n : Mm) : Type 0 where
  pub wired : IsWired n
  pub gone : (i : ℕ) → i < count → vpn_to_pfn (vpn + i) n ≡ err page_not_present
  pub same : SameExcept (Within vpn count) m n

-- The same of one page.
pub record Cleared (vpn : ℕ) (m n : Mm) : Type 0 where
  pub wired : IsWired n
  pub gone : vpn_to_pfn vpn n ≡ err page_not_present
  pub same : SameExcept (Only vpn) m n

module _ {m : Mm} (vpn : ℕ) (w : IsWired m) (h : IsPage vpn) where
  Cleared-absent : vpn_to_pfn vpn m ≡ err page_not_present → Cleared vpn m m
  Cleared-absent e = record { wired = w; gone = e; same = λ v hv ne. refl }

  unmap_page-Cleared : Cleared vpn m (unmap_page vpn m)
  unfolding unmap_page
  unmap_page-Cleared = elim (Bool-cases (pde m (vpn / 1024)).p) [
    | inr no_table ↦
        rw (ltb-false max_vpn vpn (omega arith), no_table, unmap_page)
          (Cleared-absent (unfold vpn_to_pfn in ground arith))
    | inl there ↦ elim (Bool-cases (pte m vpn).p) [
      | inr no_page ↦
          rw (ltb-false max_vpn vpn (omega arith), there, no_page, unmap_page)
            (Cleared-absent (unfold vpn_to_pfn in ground arith))
      | inl page ↦
          rw (ltb-false max_vpn vpn (omega arith), there, page, unmap_page)
            (record {
              wired = IsWired-write w vpn cleared h there;
              gone = vpn_to_pfn-write_absent w vpn cleared h there refl;
              same = SameExcept-write w vpn cleared h there;
            })
    ]
  ]

Unmapped-nil : {m : Mm} (vpn : ℕ) → IsWired m → Unmapped vpn 0 m m
Unmapped-nil vpn w = record {
  wired = w;
  gone = λ i b. absurd (omega arith);
  same = λ v hv out. refl;
}

Unmapped-cons :
    {m n o : Mm} (vpn count : ℕ)
    → IsPage vpn
    → Cleared vpn m n
    → Unmapped (vpn + 1) count n o
    → Unmapped vpn (suc count) m o
Unmapped-cons {n} {o} vpn count h c u = record {
  wired = u.wired;
  gone = gone;
  same = λ v hv out.
      u.same v hv (λ w. out (omega arith, omega arith))
      ∙ c.same v hv (λ q. out (omega arith, omega arith));
}
  where
    gone : (i : ℕ) → i < suc count → vpn_to_pfn (vpn + i) o ≡ err page_not_present
    gone zero b = rw (add-zero vpn) (u.same vpn h (λ w. omega arith) ∙ c.gone)
    gone (suc i) b =
        let q : vpn + suc i ≡ vpn + 1 + i = omega arith in rw q (u.gone i (omega arith))

-- mm_unmap of a range outside the window of the tables leaves no page of the range mapped, and
-- changes no other translation.
pub unmap_pages-Unmapped :
    (vpn count : ℕ) (m : Mm)
    → IsWired m
    → vpn + count ≤ 1023 * 1024
    → Unmapped vpn count m (unmap_pages vpn count m)
unfolding unmap_pages
unmap_pages-Unmapped vpn zero m w h = Unmapped-nil vpn w
unmap_pages-Unmapped vpn (suc count) m w h =
    let one = unmap_page-Cleared vpn w (omega arith) in
    let next_vpn : add32 vpn 1 ≡ vpn + 1 = omega arith in
    rw next_vpn (
      Unmapped-cons vpn count (omega arith) one
        (unmap_pages-Unmapped (vpn + 1) count (unmap_page vpn m) one.wired (omega arith)))

Cleared-pma :
    {m n : Mm} (vpn : ℕ) (q : Pma) → Cleared vpn m n → Cleared vpn m (record n { pma = q })
unfolding vpn_to_pfn
Cleared-pma vpn q c = record {
  wired = record {
    self_present = c.wired.self_present;
    self = c.wired.self;
    apart = c.wired.apart;
  };
  gone = c.gone;
  same = c.same;
}

pub free_page-Cleared :
    {m : Mm} (vpn : ℕ) (r : Result ℕ)
    → IsWired m
    → IsPage vpn
    → vpn_to_pfn vpn m ≡ r
    → Cleared vpn m (free_page vpn m r)
unfolding free_page unmap_pages
free_page-Cleared vpn (ok pfn) w h e = Cleared-pma vpn _ (unmap_page-Cleared vpn w h)
free_page-Cleared {m} vpn (err s) w h e = record {
  wired = w;
  gone = unfold vpn_to_pfn in ground arith;
  same = λ v hv ne. refl;
}

-- mm_free_pages of a range outside the window of the tables leaves no page of the range mapped, and
-- changes no other translation.
pub free_pages-Unmapped :
    (vpn count : ℕ) (m : Mm)
    → IsWired m
    → vpn + count ≤ 1023 * 1024
    → Unmapped vpn count m (free_pages vpn count m)
unfolding free_pages
free_pages-Unmapped vpn zero m w h = Unmapped-nil vpn w
free_pages-Unmapped vpn (suc count) m w h =
    let one = free_page-Cleared vpn (vpn_to_pfn vpn m) w (omega arith) refl in
    let next_vpn : add32 vpn 1 ≡ vpn + 1 = omega arith in
    rw next_vpn (
      Unmapped-cons vpn count (omega arith) one (
        free_pages-Unmapped (vpn + 1) count (free_page vpn m (vpn_to_pfn vpn m)) one.wired
          (omega arith)))
