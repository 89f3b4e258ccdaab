-- ===== src/Paging/Valid.antt =====
-- The invariant of the page tables of vellum/mm/mm.c: the directory maps itself at its last entry,
-- the tables are frames in use, and no two entries name the same frame.
use sscc_oslecture.Base.{ℕ, ◌*◌, ◌/◌, ◌%◌, ◌<◌, ◌≡◌, sym, ap, ◌∙◌, ◌≢◌, true, false, arith}
use sscc_oslecture.Frames.Valid.{IsValid}
use sscc_oslecture.Frames.Used.{Used}
use sscc_oslecture.Paging.{Entry, Mm, pde, table, pte, write, vpn_to_pfn}
use sscc_oslecture.Status.{page_not_present, ok, err}

pub record IsWired (m : Mm) : Type 0 where
  pub self_present : (pde m 1023).p ≡ true
  pub self : (pde m 1023).base ≡ m.dir
  pub apart :
      (i j : ℕ)
      → i < 1024
      → j < 1024
      → (pde m i).p ≡ true
      → (pde m j).p ≡ true
      → (pde m i).base ≡ (pde m j).base
      → i ≡ j

pub record IsConsistent (m : Mm) : Type 0 where
  pub wired : IsWired m
  pub open wired use *
  pub frames : IsValid m.pma
  pub used : (i : ℕ) → i < 1024 → (pde m i).p ≡ true → Used m.pma (pde m i).base

-- The pages outside the window at 0xFFC00000 through which the tables themselves are reached.
abbrev pub IsPage : ℕ → Type 0
IsPage vpn = vpn < 1023 * 1024

-- Every page but those of `except` translates in `n` as in `m`.
abbrev pub SameExcept : (ℕ → Type 0) → Mm → Mm → Type 0
SameExcept except m n = (v : ℕ) → IsPage v → ¬ except v → vpn_to_pfn v n ≡ vpn_to_pfn v m

module _ {m : Mm} (c : IsWired m) where
  -- A table is not the directory.
  pub table-ne-dir : (vpn : ℕ) → IsPage vpn → (pde m (vpn / 1024)).p ≡ true → table m vpn ≢ m.dir
  table-ne-dir vpn h there e = omega (
    arith,
    c.apart (vpn / 1024) 1023 (omega arith) (omega arith) there c.self_present (e ∙ sym c.self),
  )

  pub table-ne :
      (v w : ℕ)
      → IsPage v
      → IsPage w
      → (pde m (v / 1024)).p ≡ true
      → (pde m (w / 1024)).p ≡ true
      → v / 1024 ≢ w / 1024
      → table m v ≢ table m w
  table-ne v w hv hw pv pw ne e =
      ne (c.apart (v / 1024) (w / 1024) (omega arith) (omega arith) pv pw e)

  -- Writing an entry of a page's table: the directory stays, and so do all other pages.
  module _ (vpn : ℕ) (e : Entry) (h : IsPage vpn) (there : (pde m (vpn / 1024)).p ≡ true) where
    abbrev after : Mm
    after = record m { entry = write m.entry (table m vpn) (vpn % 1024) e }

    pub pde-write : (i : ℕ) → pde after i ≡ pde m i
    pde-write i = ground (arith, table-ne-dir vpn h there)

    pub IsWired-write : IsWired after
    IsWired-write = record {
      self_present = rw (pde-write 1023) c.self_present;
      self = rw (pde-write 1023) c.self;
      apart = λ i j bi bj pi pj q.
          c.apart i j bi bj (rw (pde-write i) at pi) (rw (pde-write j) at pj)
            (rw (pde-write i, pde-write j) at q);
    }

    pub IsConsistent-write :
        IsValid m.pma
        → ((i : ℕ) → i < 1024 → (pde m i).p ≡ true → Used m.pma (pde m i).base)
        → IsConsistent after
    IsConsistent-write v u = record {
      wired = IsWired-write;
      frames = v;
      used = λ i b p. rw (pde-write i) (u i b (rw (pde-write i) at p));
    }

    pte_at :
        (v : ℕ) → pte after v ≡ write m.entry (table m vpn) (vpn % 1024) e (table m v) (v % 1024)
    pte_at v = ap (λ t. after.entry t (v % 1024)) (ap (λ d. d.base) (pde-write (v / 1024)))

    pub pte_written : pte after vpn ≡ e
    pte_written = pte_at vpn ∙ ground arith

    pte_other : (v : ℕ) → IsPage v → v ≢ vpn → (pde m (v / 1024)).p ≡ true → pte after v ≡ pte m v
    pte_other v hv ne pv = pte_at v ∙ ground (arith, table-ne vpn v h hv there pv)

    pub vpn_to_pfn-write_present : e.p ≡ true → vpn_to_pfn vpn after ≡ ok e.base
    unfolding vpn_to_pfn
    vpn_to_pfn-write_present p = ground (arith, pde-write (vpn / 1024), pte_written)

    pub vpn_to_pfn-write_absent : e.p ≡ false → vpn_to_pfn vpn after ≡ err page_not_present
    unfolding vpn_to_pfn
    vpn_to_pfn-write_absent p = ground (arith, pde-write (vpn / 1024), pte_written)

    pub SameExcept-write : SameExcept (λ v. v ≡ vpn) m after
    unfolding vpn_to_pfn
    SameExcept-write v hv ne = ground (arith, pde-write (v / 1024), pte_other v hv ne)
