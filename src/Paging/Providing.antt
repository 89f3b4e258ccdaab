-- ===== src/Paging/Providing.antt =====
-- What the loop of mm_allocate_pages_to (vellum/mm/mm.c) does for one page.
use sscc_oslecture.Base.{
  ◌==◌, ==_iff, Bool-cases, ℕ, ◌+◌, ◌≡◌, refl, sym, ap, subst, ◌∙◌, ◌≢◌, inl, inr, add-zero, arith,
}
use sscc_oslecture.Status.{Status, page_not_present, insufficient_memory, Result, ok, err}
use sscc_oslecture.Frames.{Pma, allocate_frame}
use sscc_oslecture.Frames.Allocate.{Allocated, Outcome, allocate_frame-Outcome}
use sscc_oslecture.Frames.Scan.{NoRun}
use sscc_oslecture.Frames.Used.{Used-keep, Allocated-small}
use sscc_oslecture.Paging.{Mm, pde, pte, vpn_to_pfn}
use sscc_oslecture.Paging.Mapping.{Done}
use sscc_oslecture.Paging.Valid.{IsConsistent, IsPage, SameExcept}
use sscc_oslecture.Paging.MapLaws.{Only, RangeOutcome}
use sscc_oslecture.Paging.Growth.{
  Grows, Grows-refl, Grows-trans, Allocated-Grows, WasTaken, Allocated-WasTaken, WasTaken-Grows,
  map_pages-Grows,
}
use sscc_oslecture.Paging.RangeLaws.{map_pages-RangeOutcome}
use sscc_oslecture.Paging.Pages.{map_frame, provide_page}

-- Taking a frame keeps the tables, which are in use.
Allocated-IsConsistent :
    {m : Mm} {q : Pma} {pfn : ℕ}
    → IsConsistent m
    → Allocated m.pma 1 pfn q
    → IsConsistent (record m { pma = q })
Allocated-IsConsistent {m} c a = record {
  wired = record { self_present = c.self_present; self = c.self; apart = c.apart };
  frames = a.valid;
  used = λ i b p. Used-keep c.frames a (pde m i).base (c.used i b p);
}

vpn_to_pfn_pma : (v : ℕ) (m : Mm) (q : Pma) → vpn_to_pfn v (record m { pma = q }) ≡ vpn_to_pfn v m
unfolding vpn_to_pfn
vpn_to_pfn_pma v m q = refl

-- No page loses its frame.
abbrev pub Kept : Mm → Mm → Type 0
Kept m n = (v pfn : ℕ) → IsPage v → vpn_to_pfn v m ≡ ok pfn → vpn_to_pfn v n ≡ ok pfn

Kept-Only :
    (m n : Mm) (vpn : ℕ) (s : Status)
    → vpn_to_pfn vpn m ≡ err s
    → SameExcept (Only vpn) m n
    → Kept m n
Kept-Only m n vpn s e same v pfn h there = elim (Bool-cases (v == vpn)) [
  | inl here ↦ let q = (==_iff v vpn).0 here in cc (e, rw q at there)
  | inr other ↦ same v h (λ q. cc (other, (==_iff v vpn).1 q)) ∙ there
]

-- The page is there, on a frame that was free and is allocated now if the page was not there, and no
-- other translation has changed; or there is no free frame, for the page, which is not there, or for its table.
abbrev pub PageOutcome : ℕ → Mm → Done × Mm → Type 0
PageOutcome vpn m (ok _, n) =
    IsConsistent n
    × ((pfn : ℕ) × (vpn_to_pfn vpn n ≡ ok pfn)
        × (vpn_to_pfn vpn m ≡ err page_not_present → WasTaken m.pma n.pma pfn))
    × SameExcept (Only vpn) m n
    × Kept m n
    × Grows m.pma n.pma
PageOutcome vpn m (err s, n) =
    IsConsistent n
    × SameExcept (λ v. ⊥) m n
    × Grows m.pma n.pma
    × (vpn_to_pfn vpn m ≡ err page_not_present)
    × (s ≡ insufficient_memory)
    × NoRun n.pma 1

vpn_to_pfn-absent :
    (vpn : ℕ) (m : Mm) (s : Status) → IsPage vpn → vpn_to_pfn vpn m ≡ err s → s ≡ page_not_present
unfolding vpn_to_pfn
vpn_to_pfn-absent vpn m s h e = ground arith

module _ (m : Mm) (vpn : ℕ) where
  map_one :
      (q : Pma) (pfn : ℕ) (r : Done × Mm)
      → IsPage vpn
      → vpn_to_pfn vpn m ≡ err page_not_present
      → WasTaken m.pma q pfn
      → Grows m.pma q
      → Grows q r.1.pma
      → RangeOutcome pfn vpn 1 0 (record m { pma = q }) r
      → PageOutcome vpn m r
  map_one q pfn (ok _, n) h absent w g g' a = (
    a.consistent,
    (
      pfn,
      rw (add-zero vpn, add-zero pfn) at (a.translates 0 (omega arith)),
      λ e. WasTaken-Grows m.pma pfn w g',
    ),
    same,
    Kept-Only m n vpn page_not_present absent same,
    Grows-trans g g',
  )
    where
      same : SameExcept (Only vpn) m n
      same v hv ne = a.same v hv (λ w. ne (omega arith)) ∙ vpn_to_pfn_pma v m q
  map_one q pfn (err s, n) h absent w g g' (k, b, a, e) =
      (a.consistent, same, Grows-trans g g', absent, reason.0, reason.1)
    where
      same : SameExcept (λ v. ⊥) m n
      same v hv ne = a.same v hv (λ w. omega arith) ∙ vpn_to_pfn_pma v m q

      no_conflict : vpn_to_pfn (vpn + k) n ≢ ok (pte n (vpn + k)).base
      no_conflict e =
          let at : vpn + k ≡ vpn = omega arith in
          let here : vpn_to_pfn (vpn + k) n ≡ vpn_to_pfn vpn n = ap (λ v. vpn_to_pfn v n) at in
          let left = same vpn h (λ none. none) ∙ absent in ground arith

      reason : (s ≡ insufficient_memory) × NoRun n.pma 1
      reason = elim e [ inl x ↦ x | inr x ↦ absurd (no_conflict (let (a, b, c) = x in c)) ]

  map_frame-PageOutcome :
      IsConsistent m
      → IsPage vpn
      → vpn_to_pfn vpn m ≡ err page_not_present
      → (r : Result ℕ × Pma) → Outcome m.pma 1 r
      → PageOutcome vpn m (map_frame vpn m r)
  unfolding map_frame
  map_frame-PageOutcome c h absent (ok pfn, q) a =
      map_one q pfn _ h absent (Allocated-WasTaken c.frames a) (Allocated-Grows a)
        (map_pages-Grows pfn vpn 0 (record m { pma = q }) a.valid)
        (map_pages-RangeOutcome pfn vpn 1 0 (Allocated-IsConsistent c a) (omega arith)
          (omega (arith, Allocated-small c.frames a)))
  map_frame-PageOutcome c h absent (err s, q) (e, same, no_run) = (
    subst (λ p. IsConsistent (record m { pma = p })) (sym same) c,
    λ v hv ne. vpn_to_pfn_pma v m q,
    subst (Grows m.pma) (sym same) (Grows-refl m.pma),
    absent,
    e,
    subst (λ p. NoRun p 1) (sym same) no_run,
  )

  pub provide_page-PageOutcome :
      IsConsistent m
      → IsPage vpn
      → (r : Result ℕ) → vpn_to_pfn vpn m ≡ r
      → PageOutcome vpn m (provide_page vpn m r)
  unfolding provide_page
  provide_page-PageOutcome c h (ok pfn) e = (
    c,
    (pfn, e, λ absent. absurd (ground arith)),
    λ v hv ne. refl,
    λ v f hv q. q,
    Grows-refl m.pma,
  )
  provide_page-PageOutcome c h (err page_not_present) e =
      map_frame-PageOutcome c h e (allocate_frame 1 m.pma)
        (allocate_frame-Outcome 1 c.frames (omega arith))
  provide_page-PageOutcome c h (err s) e = absurd (ground (arith, vpn_to_pfn-absent vpn m s h e))
