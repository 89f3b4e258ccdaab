-- ===== src/Paging/MapLaws.antt =====
-- What `map`, `unmap`, mm_map and mm_unmap of vellum/mm/mm.c do to the translation of pages.
use sscc_oslecture.Base.{
  ◌==◌, ltb-false, Bool-cases, false, ℕ, ◌+◌, ◌/◌, ◌%◌, ◌^◌, ◌≤◌, ◌<◌, ◌≡◌, refl, sym, ap, subst,
  ◌∙◌, ◌⊎◌, inl, inr, true, ◌&&◌, arith,
}
use sscc_oslecture.Status.{Status, conflicting_state, insufficient_memory, ok, err, and_then}
use sscc_oslecture.Frames.Scan.{NoRun}
use sscc_oslecture.Paging.{Entry, Mm, pde, table, pte, write, max_vpn, vpn_to_pfn}
use sscc_oslecture.Paging.Mapping.{conflicts, mapped, Done, new_table, write_page, map_page}
use sscc_oslecture.Paging.Valid.{
  IsConsistent, IsPage, SameExcept, IsConsistent-write, pte_written, vpn_to_pfn-write_present,
  SameExcept-write,
}
use sscc_oslecture.Paging.Tables.{HasTable, TableOutcome, new_table-TableOutcome}

abbrev pub Only : ℕ → ℕ → Type 0
Only vpn v = v ≡ vpn

-- An entry for a frame with the attributes that PF_READONLY (1), PF_USER (2), PF_NOCACHE (4) and PF_WTCACHE
-- (8) ask for.
pub record IsEntry (pfn flags : ℕ) (e : Entry) : Type 0 where
  pub there : e.p ≡ true
  pub writable : e.r_w ≡ (flags % 2 == 0)
  pub user : e.u_s ≡ (flags / 2 % 2 == 1)
  pub uncached : e.pcd ≡ (flags / 4 % 2 == 1)
  pub through : e.pwt ≡ (flags / 8 % 2 == 1)
  pub frame : e.base ≡ pfn

mapped-IsEntry : (pfn flags : ℕ) → pfn < 2 ^ 20 → IsEntry pfn flags (mapped pfn flags)
unfolding mapped
mapped-IsEntry pfn flags small = record {
  there = refl;
  writable = ground arith;
  user = refl;
  uncached = refl;
  through = refl;
  frame = omega arith;
}

-- `vpn` translates to `pfn`, and every other page as before; it had no other attributes.
pub record Mapped (pfn vpn flags : ℕ) (m n : Mm) : Type 0 where
  pub consistent : IsConsistent n
  pub translates : vpn_to_pfn vpn n ≡ ok pfn
  pub entry : IsEntry pfn flags (pte n vpn)
  pub same : SameExcept (Only vpn) m n
  pub agreed : (f : ℕ) → vpn_to_pfn vpn m ≡ ok f → conflicts flags (pte m vpn) ≡ false

-- Why `map` fails: no frame for a table, or other attributes on a page that is mapped already.
abbrev pub MapError : ℕ → ℕ → Mm → Status → Type 0
MapError vpn flags m s =
    ((s ≡ insufficient_memory) × NoRun m.pma 1)
    ⊎ ((s ≡ conflicting_state)
        × (conflicts flags (pte m vpn) ≡ true)
        × (vpn_to_pfn vpn m ≡ ok (pte m vpn).base))

abbrev pub MapOutcome : ℕ → ℕ → ℕ → Mm → Done × Mm → Type 0
MapOutcome pfn vpn flags m (ok _, n) = Mapped pfn vpn flags m n
MapOutcome pfn vpn flags m (err s, n) = (n ≡ m) × MapError vpn flags m s

present_translates : (vpn : ℕ) (n : Mm) (f : ℕ) → vpn_to_pfn vpn n ≡ ok f → (pte n vpn).p ≡ true
unfolding vpn_to_pfn
present_translates vpn n f e = ground arith

translates_present :
    (vpn : ℕ) (n : Mm)
    → IsPage vpn
    → (pde n (vpn / 1024)).p ≡ true
    → (pte n vpn).p ≡ true
    → vpn_to_pfn vpn n ≡ ok (pte n vpn).base
unfolding vpn_to_pfn
translates_present vpn n h table page = ground arith

module _ (m : Mm) (pfn vpn flags : ℕ) (h : IsPage vpn) (small : pfn < 2 ^ 20) where
  write_page-MapOutcome :
      {n : Mm} → HasTable vpn m n → MapOutcome pfn vpn flags m (write_page pfn vpn flags n)
  unfolding write_page mapped
  write_page-MapOutcome {n} t = elim (Bool-cases ((pte n vpn).p && conflicts flags (pte n vpn))) [
    | inl clash ↦ rw (clash, write_page) (clashes clash)
    | inr free ↦ rw (free, write_page) (writes free)
  ]
    where
      clashes :
          ((pte n vpn).p && conflicts flags (pte n vpn)) ≡ true
          → (n ≡ m) × MapError vpn flags m conflicting_state
      clashes e =
          let same : n ≡ m = t.unchanged (ground arith) in
          (
            same,
            inr (
              refl,
              subst (λ k. conflicts flags (pte k vpn) ≡ true) same (ground arith),
              subst (λ k. vpn_to_pfn vpn k ≡ ok (pte k vpn).base) same
                  (translates_present vpn n h t.there (ground arith)),
            ),
          )

      agreed :
          ((pte n vpn).p && conflicts flags (pte n vpn)) ≡ false
          → (f : ℕ) → vpn_to_pfn vpn m ≡ ok f
          → conflicts flags (pte m vpn) ≡ false
      agreed free f e =
          let page : (pte n vpn).p ≡ true =
            present_translates vpn n f (t.same vpn h (λ none. none) ∙ e) in
          subst (λ k. conflicts flags (pte k vpn) ≡ false) (t.unchanged page) (ground arith)

      writes :
          ((pte n vpn).p && conflicts flags (pte n vpn)) ≡ false
          → Mapped pfn vpn flags m
              (record n { entry = write n.entry (table n vpn) (vpn % 1024) (mapped pfn flags) })
      writes free = record {
        agreed = agreed free;
        consistent =
            IsConsistent-write t.consistent.wired vpn (mapped pfn flags) h t.there
              t.consistent.frames t.consistent.used;
        translates =
            vpn_to_pfn-write_present t.consistent.wired vpn (mapped pfn flags) h t.there refl
            ∙ ap ok (omega arith);
        entry =
            subst (IsEntry pfn flags)
              (sym (pte_written t.consistent.wired vpn (mapped pfn flags) h t.there))
              (mapped-IsEntry pfn flags small);
        same = λ v hv ne.
            SameExcept-write t.consistent.wired vpn (mapped pfn flags) h t.there v hv ne
            ∙ t.same v hv (λ none. none);
      }

  then_write_page :
      (r : Done × Mm)
      → TableOutcome vpn m r
      → MapOutcome pfn vpn flags m (and_then r (λ _ n. write_page pfn vpn flags n))
  then_write_page (ok _, n) t = write_page-MapOutcome t
  then_write_page (err s, n) (e, same, no_run) = (same, inl (e, no_run))

  pub map_page-MapOutcome : IsConsistent m → MapOutcome pfn vpn flags m (map_page pfn vpn flags m)
  unfolding map_page
  map_page-MapOutcome c =
      rw (ltb-false max_vpn vpn (omega arith), map_page)
        (then_write_page (new_table vpn m) (new_table-TableOutcome vpn c h))

abbrev pub Within : ℕ → ℕ → ℕ → Type 0
Within vpn count v = (vpn ≤ v) × (v < vpn + count)

-- The pages of a range translate to consecutive frames, and all others as before.
pub record MappedRange (pfn vpn count : ℕ) (m n : Mm) : Type 0 where
  pub consistent : IsConsistent n
  pub translates : (i : ℕ) → i < count → vpn_to_pfn (vpn + i) n ≡ ok (pfn + i)
  pub same : SameExcept (Within vpn count) m n

abbrev pub RangeOutcome : ℕ → ℕ → ℕ → ℕ → Mm → Done × Mm → Type 0
RangeOutcome pfn vpn count flags m (ok _, n) = MappedRange pfn vpn count m n
RangeOutcome pfn vpn count flags m (err s, n) =
    (k : ℕ) × (k < count) × MappedRange pfn vpn k m n × MapError (vpn + k) flags n s
