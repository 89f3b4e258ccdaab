-- ===== src/Frames/Used.antt =====
-- Frames that the allocator of vellum/mm/mm.c will not hand out: those that it does not manage, and
-- those that are not free.
use sscc_oslecture.Base.{ℕ, ◌+◌, ◌-◌, ◌^◌, ◌<◌, ◌≡◌, ◌≢◌, arith}
use sscc_oslecture.Frames.Bitmap.{pbm_free}
use sscc_oslecture.Frames.{Pma, cell}
use sscc_oslecture.Frames.Valid.{IsValid}
use sscc_oslecture.Frames.Allocate.{Allocated}

unfoldable pub Used : Pma → ℕ → Type 0
Used p f = (i : ℕ) → i < p.frame_desc_count → f ≡ p.base_pfn + i → cell p i ≢ pbm_free

module _ {p q : Pma} {pfn : ℕ} (v : IsValid p) (a : Allocated p 1 pfn q) where
  -- What was in use stays so.
  pub Used-keep : (f : ℕ) → Used p f → Used q f
  unfolding Used
  Used-keep f u i h e free =
      u i (omega (arith, a.span.count)) (omega (arith, a.span.base)) (ground (arith, a.cells i))

  pub Allocated-Used : Used q pfn
  unfolding Used
  Allocated-Used i h e free = ground (arith, a.cells i, a.span.base, a.above)

  -- The new frame was not in use.
  pub Used-ne : (f : ℕ) → Used p f → f ≢ pfn
  unfolding Used
  Used-ne f u e =
      u (pfn - p.base_pfn) (omega (arith, a.found.inside)) (omega (arith, a.above))
        (a.found.run (pfn - p.base_pfn) (omega arith) (omega arith))

  pub Allocated-small : pfn < 2 ^ 20
  Allocated-small = omega (arith, a.found.inside, a.above, v.span, v.small)
