-- ===== src/Paging/Growth.antt =====
-- What mapping (vellum/mm/mm.c) does to the frames: it takes free ones, and leaves the others alone.
use sscc_oslecture.Base.{
  ltb, ◌==◌, ==_iff, Bool-cases, ℕ, ◌-◌, ◌/◌, ◌≤◌, ◌<◌, ◌≡◌, refl, sym, ap, subst, ◌∙◌, ◌≢◌, inl,
  inr, ◌&&◌, arith,
}
use sscc_oslecture.Status.{Result, ok, err, and_then}
use sscc_oslecture.Frames.{Pma, cell, allocate_frame}
use sscc_oslecture.Frames.Bitmap.{pbm_free, pbm_allocated}
use sscc_oslecture.Frames.Valid.{IsValid, SameSpan, SameSpan-refl, SameSpan-trans}
use sscc_oslecture.Frames.Allocate.{in_range, Allocated, Outcome, allocate_frame-Outcome}
use sscc_oslecture.Paging.{Mm, pde, pte, max_vpn}
use sscc_oslecture.Paging.Mapping.{
  conflicts, Done, install_table, new_table, write_page, map_page, map_pages,
}

-- No frame that is in use has changed.
pub record Grows (p q : Pma) : Type 0 where
  pub span : SameSpan p q
  pub kept : (j : ℕ) → cell p j ≢ pbm_free → cell q j ≡ cell p j

pub Grows-refl : (p : Pma) → Grows p p
Grows-refl p = record { span = SameSpan-refl p; kept = λ j used. refl }

pub Grows-trans : {p q r : Pma} → Grows p q → Grows q r → Grows p r
Grows-trans a b = record {
  span = SameSpan-trans a.span b.span;
  kept = λ j used. b.kept j (λ e. used (sym (a.kept j used) ∙ e)) ∙ a.kept j used;
}

pub Allocated-Grows : {p q : Pma} {pfn : ℕ} → Allocated p 1 pfn q → Grows p q
Allocated-Grows {p} {q} {pfn} a = record { span = a.span; kept = kept }
  where
    kept : (j : ℕ) → cell p j ≢ pbm_free → cell q j ≡ cell p j
    kept j used = elim (Bool-cases (in_range (pfn - p.base_pfn) 1 j)) [
      | inl i ↦ absurd (used (a.found.run j (ground arith) (ground arith)))
      | inr o ↦ ground (arith, a.cells j)
    ]

Outcome-Grows : (p : Pma) (r : Result ℕ × Pma) → Outcome p 1 r → Grows p r.1
Outcome-Grows p (ok pfn, q) a = Allocated-Grows a
Outcome-Grows p (err s, q) (e, same, none_there) = subst (Grows p) (sym same) (Grows-refl p)

-- The frame was free, and is not any more.
abbrev pub WasTaken : Pma → Pma → ℕ → Type 0
WasTaken p q f =
    (p.base_pfn ≤ f)
    × (f < p.limit_pfn)
    × (cell p (f - p.base_pfn) ≡ pbm_free)
    × (cell q (f - p.base_pfn) ≡ pbm_allocated)

pub Allocated-WasTaken : {p q : Pma} {pfn : ℕ} → IsValid p → Allocated p 1 pfn q → WasTaken p q pfn
Allocated-WasTaken {p} {q} {pfn} v a = (
  a.above,
  omega (arith, a.found.inside, v.span, a.above),
  a.found.run _ (omega arith) (omega arith),
  ground (arith, a.cells (pfn - p.base_pfn)),
)

pub WasTaken-Grows : (p : Pma) {q r : Pma} (f : ℕ) → WasTaken p q f → Grows q r → WasTaken p r f
WasTaken-Grows p f (a, b, c, d) g = (a, b, c, g.kept _ (λ e. absurd (omega arith)) ∙ d)

pub WasTaken-earlier : {p q : Pma} (r : Pma) (f : ℕ) → Grows p q → WasTaken q r f → WasTaken p r f
WasTaken-earlier {p} {q} r f g (a, b, c, d) = (
  omega (arith, g.span.base),
  omega (arith, g.span.limit),
  was_free (ap (cell q) (sym place) ∙ c),
  ap (cell r) (sym place) ∙ d,
)
  where
    place : f - q.base_pfn ≡ f - p.base_pfn
    place = ap (λ b. f - b) g.span.base

    was_free : cell q (f - p.base_pfn) ≡ pbm_free → cell p (f - p.base_pfn) ≡ pbm_free
    was_free e = elim (Bool-cases (cell p (f - p.base_pfn) == pbm_free)) [
      | inl h ↦ (==_iff _ _).0 h
      | inr h ↦ sym (g.kept _ (λ k. cc (h, (==_iff (cell p (f - p.base_pfn)) pbm_free).1 k))) ∙ e
    ]

-- A frame is not taken twice.
pub WasTaken-apart : {p q : Pma} (r : Pma) (f : ℕ) → WasTaken p q f → Grows p q → ¬ WasTaken q r f
WasTaken-apart {p} {q} r f (a, b, c, d) g (a', b', c', d') =
    let free : cell q (f - p.base_pfn) ≡ pbm_free =
      ap (λ b. cell q (f - b)) (sym g.span.base) ∙ c' in
    absurd (omega arith)

module _ (vpn : ℕ) (m : Mm) where
  install_table-pma : (r : Result ℕ × Pma) → (install_table vpn m r).1.pma ≡ r.1
  unfolding install_table
  install_table-pma (ok pfn, q) = refl
  install_table-pma (err s, q) = refl

  new_table-Grows : IsValid m.pma → Grows m.pma (new_table vpn m).1.pma
  unfolding new_table
  new_table-Grows valid = elim (Bool-cases (pde m (vpn / 1024)).p) [
    | inl there ↦ rw (there, new_table) (Grows-refl m.pma)
    | inr absent ↦
        rw (absent, new_table, install_table-pma (allocate_frame 1 m.pma))
          (Outcome-Grows m.pma (allocate_frame 1 m.pma)
            (allocate_frame-Outcome 1 valid (omega arith)))
  ]

module _ (pfn vpn flags : ℕ) (m : Mm) where
  write_page-pma : (n : Mm) → (write_page pfn vpn flags n).1.pma ≡ n.pma
  unfolding write_page
  write_page-pma n = elim (Bool-cases ((pte n vpn).p && conflicts flags (pte n vpn))) [
    | inl clash ↦ rw (clash, write_page) refl
    | inr free ↦ rw (free, write_page) refl
  ]

  then_write_page-Grows :
      (r : Done × Mm)
      → Grows m.pma r.1.pma
      → Grows m.pma (and_then r (λ _ n. write_page pfn vpn flags n)).1.pma
  then_write_page-Grows (ok _, n) g = subst (Grows m.pma) (sym (write_page-pma n)) g
  then_write_page-Grows (err s, n) g = g

  map_page-Grows : IsValid m.pma → Grows m.pma (map_page pfn vpn flags m).1.pma
  unfolding map_page
  map_page-Grows v = elim (Bool-cases (ltb max_vpn vpn)) [
    | inl far ↦ rw (far, map_page) (Grows-refl m.pma)
    | inr near ↦
        rw (near, map_page) (then_write_page-Grows (new_table vpn m) (new_table-Grows vpn m v))
  ]

and_then-Grows :
    (p : Pma) (r : Done × Mm)
    → Grows p r.1.pma
    → Grows p (and_then {0, 0, 0} {B = Unit {0}} r (λ _ n. (ok tt, n))).1.pma
and_then-Grows p (ok _, n) g = g
and_then-Grows p (err s, n) g = g

-- mm_map of one page.
pub map_pages-Grows :
    (pfn vpn flags : ℕ) (m : Mm) → IsValid m.pma → Grows m.pma (map_pages pfn vpn 1 flags m).1.pma
unfolding map_pages
map_pages-Grows pfn vpn flags m v =
    and_then-Grows m.pma (map_page pfn vpn flags m) (map_page-Grows pfn vpn flags m v)
