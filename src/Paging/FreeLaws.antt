-- ===== src/Paging/FreeLaws.antt =====
-- What the loop of mm_free_pages (vellum/mm/mm.c) does to the frame under one page.
use sscc_oslecture.Base.{
  ltb, leb, ◌==◌, if◌then◌else◌, Bool-cases, ℕ, ◌+◌, ◌-◌, ◌≤◌, ◌<◌, ◌≡◌, refl, sym, ap, ◌≢◌, ◌⊎◌,
  inl, inr, ◌&&◌, arith,
}
use sscc_oslecture.Status.{Result, ok, err}
use sscc_oslecture.Frames.{Pma, cell, free_frame}
use sscc_oslecture.Frames.Bitmap.{pbm_free, pbm_allocated}
use sscc_oslecture.Frames.Valid.{IsValid, SameSpan, SameSpan-refl}
use sscc_oslecture.Frames.Release.{free_frame-Freed, free_frame-outside}
use sscc_oslecture.Paging.{Mm, vpn_to_pfn}
use sscc_oslecture.Paging.Mapping.{unmap_page, unmap_pages}
use sscc_oslecture.Paging.Pages.{free_page}

-- No page of the range is mapped to the frame behind the last one, which has no cell.
abbrev pub AreManaged : ℕ → ℕ → Mm → Type 0
AreManaged vpn count m = (i : ℕ) → i < count → vpn_to_pfn (vpn + i) m ≢ ok m.pma.limit_pfn

-- The managed frames under the pages are not allocated any more; a cell that has changed is that of one of
-- them, and was allocated.
pub record Returned (vpn count : ℕ) (m n : Mm) : Type 0 where
  pub valid : IsValid n.pma
  pub span : SameSpan m.pma n.pma
  pub freed :
      (i f : ℕ)
      → i < count
      → vpn_to_pfn (vpn + i) m ≡ ok f
      → m.pma.base_pfn ≤ f
      → f < m.pma.limit_pfn
      → cell n.pma (f - m.pma.base_pfn) ≢ pbm_allocated
  pub changed :
      (j : ℕ)
      → (cell n.pma j ≡ cell m.pma j)
        ⊎ ((cell m.pma j ≡ pbm_allocated)
            × (cell n.pma j ≡ pbm_free)
            × ((i : ℕ) × (i < count) × (vpn_to_pfn (vpn + i) m ≡ ok (m.pma.base_pfn + j))))

-- The same of one frame.
record FrameReturned (f : ℕ) (p q : Pma) : Type 0 where
  valid : IsValid q
  span : SameSpan p q
  freed : p.base_pfn ≤ f → f < p.limit_pfn → cell q (f - p.base_pfn) ≢ pbm_allocated
  changed :
      (j : ℕ)
      → (cell q j ≡ cell p j)
        ⊎ ((cell p j ≡ pbm_allocated) × (cell q j ≡ pbm_free) × (f ≡ p.base_pfn + j))

module _ (f : ℕ) {p : Pma} (v : IsValid p) where
  frame_outside : (f < p.base_pfn) ⊎ (p.limit_pfn < f) → FrameReturned f p (free_frame f 1 p)
  frame_outside out = rw (free_frame-outside f 1 p out) (record {
    valid = v;
    span = SameSpan-refl p;
    freed = λ above below. absurd (elim out [ inl a ↦ omega arith | inr b ↦ omega arith ]);
    changed = λ j. inl refl;
  })

  frame_managed : p.base_pfn ≤ f → f < p.limit_pfn → FrameReturned f p (free_frame f 1 p)
  frame_managed above below =
      let x = free_frame-Freed f 1 v above (omega arith) in
      record {
        valid = x.valid;
        span = x.span;
        freed = λ a b e. ground (arith, x.cells (f - p.base_pfn));
        changed = λ j. changed_cell (free_frame f 1 p) j above (x.cells j);
      }
    where
      changed_cell :
          (q : Pma) (j : ℕ)
          → p.base_pfn ≤ f
          → cell q j ≡ (
              if (leb (f - p.base_pfn) j && ltb j (f - p.base_pfn + 1)) && cell p j == pbm_allocated
              then pbm_free
              else cell p j)
          → (cell q j ≡ cell p j)
            ⊎ ((cell p j ≡ pbm_allocated) × (cell q j ≡ pbm_free) × (f ≡ p.base_pfn + j))
      changed_cell q j from e =
          elim (Bool-cases
            ((leb (f - p.base_pfn) j && ltb j (f - p.base_pfn + 1)) && cell p j == pbm_allocated)) [
              | inl h ↦ inr (ground arith, ground arith, ground arith)
              | inr h ↦ inl (ground arith)
            ]

  free_frame-FrameReturned : f ≢ p.limit_pfn → FrameReturned f p (free_frame f 1 p)
  free_frame-FrameReturned ne = elim (Bool-cases (ltb f p.base_pfn)) [
    | inl h ↦ frame_outside (inl (ground arith))
    | inr h ↦ elim (Bool-cases (ltb p.limit_pfn f)) [
      | inl k ↦ frame_outside (inr (ground arith))
      | inr k ↦ frame_managed (ground arith) (ground arith)
    ]
  ]

unmap_page-pma : (vpn : ℕ) (m : Mm) → (unmap_page vpn m).pma ≡ m.pma
unfolding unmap_page
unmap_page-pma vpn m = ground arith

-- The page that is freed.
PageReturned : ℕ → Result ℕ → Mm → Mm → Type 0
PageReturned vpn (ok f) m n = FrameReturned f m.pma n.pma
PageReturned vpn (err s) m n = n.pma ≡ m.pma

free_page-PageReturned :
    (vpn : ℕ) (m : Mm) (r : Result ℕ)
    → IsValid m.pma
    → r ≢ ok m.pma.limit_pfn
    → PageReturned vpn r m (free_page vpn m r)
unfolding free_page unmap_pages PageReturned
free_page-PageReturned vpn m (ok f) v ne =
    rw (unmap_page-pma vpn m) (free_frame-FrameReturned f v (λ e. ne (cc)))
free_page-PageReturned vpn m (err s) v ne = refl

-- One page, as a range.
PageReturned-Returned :
    (vpn : ℕ) (m n : Mm) (r : Result ℕ)
    → IsValid m.pma
    → vpn_to_pfn vpn m ≡ r
    → PageReturned vpn r m n
    → Returned vpn 1 m n
unfolding PageReturned
PageReturned-Returned vpn m n (ok f) v e x = record {
  valid = x.valid;
  span = x.span;
  freed = freed;
  changed = λ j. elim (x.changed j) [ inl q ↦ inl q | inr w ↦ inr (here j w) ];
}
  where
    freed :
        (i g : ℕ)
        → i < 1
        → vpn_to_pfn (vpn + i) m ≡ ok g
        → m.pma.base_pfn ≤ g
        → g < m.pma.limit_pfn
        → cell n.pma (g - m.pma.base_pfn) ≢ pbm_allocated
    freed i g b h above below =
        let at : vpn + i ≡ vpn = omega arith in
        let same : vpn_to_pfn (vpn + i) m ≡ vpn_to_pfn vpn m = ap (λ w. vpn_to_pfn w m) at in
        let q : f ≡ g = ground arith in rw (sym q) (x.freed (omega arith) (omega arith))

    here :
        (j : ℕ)
        → (cell m.pma j ≡ pbm_allocated) × (cell n.pma j ≡ pbm_free) × (f ≡ m.pma.base_pfn + j)
        → (cell m.pma j ≡ pbm_allocated)
          × (cell n.pma j ≡ pbm_free)
          × ((i : ℕ) × (i < 1) × (vpn_to_pfn (vpn + i) m ≡ ok (m.pma.base_pfn + j)))
    here j (a, b, q) =
        let at : vpn + 0 ≡ vpn = omega arith in (a, b, (0, omega arith, rw (at, e, q) refl))
PageReturned-Returned vpn m n (err s) v e x = record {
  valid = rw x v;
  span = rw x (SameSpan-refl m.pma);
  freed = λ i g b h above below.
      let at : vpn + i ≡ vpn = omega arith in
      let same : vpn_to_pfn (vpn + i) m ≡ vpn_to_pfn vpn m = ap (λ w. vpn_to_pfn w m) at in
      absurd (ground arith);
  changed = λ j. inl (ap (λ q. cell q j) x);
}

-- The body of the loop of mm_free_pages.
pub free_page-Returned :
    (vpn : ℕ) (m : Mm)
    → IsValid m.pma
    → vpn_to_pfn vpn m ≢ ok m.pma.limit_pfn
    → Returned vpn 1 m (free_page vpn m (vpn_to_pfn vpn m))
free_page-Returned vpn m v ne =
    PageReturned-Returned vpn m (free_page vpn m (vpn_to_pfn vpn m)) (vpn_to_pfn vpn m) v refl
      (free_page-PageReturned vpn m (vpn_to_pfn vpn m) v ne)
