-- ===== src/Paging/Tables.antt =====
-- A new page table (vellum/mm/mm.c, `map`): it comes from a free frame, so no translation changes.
use sscc_oslecture.Base.{
  ◌==◌, if◌then◌else◌, Bool-cases, ℕ, ◌/◌, ◌%◌, ◌^◌, ◌<◌, ◌≡◌, refl, ap, subst, ◌∙◌, ◌≢◌, inl, inr,
  true, false, arith,
}
use sscc_oslecture.Status.{insufficient_memory, Result, ok, err}
use sscc_oslecture.Frames.{Pma, allocate_frame}
use sscc_oslecture.Frames.Scan.{NoRun}
use sscc_oslecture.Frames.Allocate.{Allocated, Outcome, allocate_frame-Outcome}
use sscc_oslecture.Frames.Used.{Used, Used-keep, Allocated-Used, Used-ne, Allocated-small}
use sscc_oslecture.Paging.{present, Mm, pde, pte, write, clear_table, vpn_to_pfn}
use sscc_oslecture.Paging.Mapping.{Done, install_table, new_table}
use sscc_oslecture.Paging.Valid.{IsConsistent, IsPage, SameExcept, table-ne-dir}

abbrev pub Nowhere : ℕ → Type 0
Nowhere v = ⊥

-- The table of `vpn` is there, and every page translates as before. If the entry of `vpn` is
-- present, nothing was done.
pub record HasTable (vpn : ℕ) (m n : Mm) : Type 0 where
  pub consistent : IsConsistent n
  pub there : (pde n (vpn / 1024)).p ≡ true
  pub same : SameExcept Nowhere m n
  pub unchanged : (pte n vpn).p ≡ true → n ≡ m

abbrev pub TableOutcome : ℕ → Mm → Done × Mm → Type 0
TableOutcome vpn m (ok _, n) = HasTable vpn m n
TableOutcome vpn m (err s, n) = (s ≡ insufficient_memory) × (n ≡ m) × NoRun m.pma 1

module _ {m : Mm} {q : Pma} {pfn : ℕ} (c : IsConsistent m) (a : Allocated m.pma 1 pfn q) (vpn : ℕ)
    (h : IsPage vpn) (absent : (pde m (vpn / 1024)).p ≡ false) where
  abbrev grown : Mm
  grown = record m {
    pma = q;
    entry = clear_table (write m.entry m.dir (vpn / 1024) (present pfn)) (pfn % 2 ^ 20);
  }

  small : pfn % 2 ^ 20 ≡ pfn
  small = omega (arith, Allocated-small c.frames a)

  dir-ne : m.dir ≢ pfn
  dir-ne e =
      Used-ne c.frames a m.dir
        (subst (Used m.pma) c.self (c.used 1023 (omega arith) c.self_present)) e

  table-ne-new : (i : ℕ) → i < 1024 → (pde m i).p ≡ true → (pde m i).base ≢ pfn
  table-ne-new i b p = Used-ne c.frames a (pde m i).base (c.used i b p)

  pde-grown : (i : ℕ) → pde grown i ≡ (if vpn / 1024 == i then present pfn else pde m i)
  pde-grown i = ground (arith, dir-ne, small)

  apart-grown :
      (i j : ℕ)
      → i < 1024
      → j < 1024
      → (pde grown i).p ≡ true
      → (pde grown j).p ≡ true
      → (pde grown i).base ≡ (pde grown j).base
      → i ≡ j
  apart-grown i j bi bj =
      rw (pde-grown i, pde-grown j)
        (λ pi pj e. ground (arith, small, table-ne-new i bi, table-ne-new j bj, c.apart i j bi bj))

  Used-grown : (i : ℕ) → i < 1024 → (pde grown i).p ≡ true → Used q (pde grown i).base
  Used-grown i b = rw (pde-grown i) (elim (Bool-cases (vpn / 1024 == i)) [
    | inl new ↦ rw new (λ p. rw small (Allocated-Used c.frames a))
    | inr old ↦ rw old (λ p. Used-keep c.frames a (pde m i).base (c.used i b p))
  ])

  grown-IsConsistent : IsConsistent grown
  grown-IsConsistent = record {
    frames = a.valid;
    wired = record {
      self_present = rw (pde-grown 1023) (ground (arith, c.self_present));
      self = rw (pde-grown 1023) (ground (arith, c.self));
      apart = apart-grown;
    };
    used = Used-grown;
  }

  pte-grown_new : (v : ℕ) → v / 1024 ≡ vpn / 1024 → (pte grown v).p ≡ false
  pte-grown_new v e =
      ap (λ d. (grown.entry d.base (v % 1024)).p) (pde-grown (v / 1024)) ∙ ground (arith, small)

  pte-grown_old :
      (v : ℕ)
      → IsPage v
      → v / 1024 ≢ vpn / 1024
      → (pde m (v / 1024)).p ≡ true
      → pte grown v ≡ pte m v
  pte-grown_old v hv ne p =
      ap (λ d. grown.entry d.base (v % 1024)) (pde-grown (v / 1024))
      ∙ ground (arith, small, table-ne-new (v / 1024), table-ne-dir c.wired v hv p)

  same-grown : SameExcept Nowhere m grown
  unfolding vpn_to_pfn
  same-grown v hv _ =
      ground (arith, pde-grown (v / 1024), pte-grown_new v, pte-grown_old v hv, absent)

  HasTable-grown : HasTable vpn m grown
  HasTable-grown = record {
    consistent = grown-IsConsistent;
    there = rw (pde-grown (vpn / 1024)) (ground arith);
    same = same-grown;
    unchanged = λ p. cc (p, pte-grown_new vpn refl);
  }

install_table-TableOutcome :
    {m : Mm} (vpn : ℕ) (r : Result ℕ × Pma)
    → IsConsistent m
    → IsPage vpn
    → (pde m (vpn / 1024)).p ≡ false
    → Outcome m.pma 1 r
    → TableOutcome vpn m (install_table vpn m r)
unfolding install_table
install_table-TableOutcome {m} vpn (ok pfn, q) c h absent a = HasTable-grown c a vpn h absent
install_table-TableOutcome {m} vpn (err s, q) c h absent (e, same, no_run) =
    (e, ap (λ p. record m { pma = p }) same, no_run)

-- `map` has the table of the page afterwards, or there is no free frame and nothing has changed.
pub new_table-TableOutcome :
    {m : Mm} (vpn : ℕ) → IsConsistent m → IsPage vpn → TableOutcome vpn m (new_table vpn m)
unfolding new_table
new_table-TableOutcome {m} vpn c h = elim (Bool-cases (pde m (vpn / 1024)).p) [
  | inl there ↦
      rw (there, new_table)
        (record { consistent = c; there = there; same = λ v hv _. refl; unchanged = λ _. refl })
  | inr absent ↦
      rw (absent, new_table)
        (install_table-TableOutcome vpn (allocate_frame 1 m.pma) c h absent
          (allocate_frame-Outcome 1 c.frames (omega arith)))
]
