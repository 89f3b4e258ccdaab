-- ===== src/Paging/PageLaws.antt =====
-- What mm_allocate_pages_to of vellum/mm/mm.c leaves behind.
use sscc_oslecture.Base.{
  add32, ℕ, zero, suc, ◌+◌, ◌*◌, ◌≤◌, ◌<◌, ◌≡◌, refl, sym, ap, subst, ◌∙◌, ◌≢◌, add-zero, arith,
}
use sscc_oslecture.Status.{page_not_present, insufficient_memory, ok, err, and_then}
use sscc_oslecture.Frames.Scan.{NoRun}
use sscc_oslecture.Paging.{Mm, vpn_to_pfn}
use sscc_oslecture.Paging.Mapping.{Done}
use sscc_oslecture.Paging.Valid.{IsConsistent, SameExcept}
use sscc_oslecture.Paging.MapLaws.{Within}
use sscc_oslecture.Paging.Growth.{
  Grows, Grows-refl, Grows-trans, WasTaken, WasTaken-Grows, WasTaken-earlier, WasTaken-apart,
}
use sscc_oslecture.Paging.Pages.{provide_page, allocate_pages_to}
use sscc_oslecture.Paging.Providing.{Kept, PageOutcome, provide_page-PageOutcome}

ok-inj : {a b : ℕ} → ok a ≡ ok b → a ≡ b
ok-inj e = ground arith

-- The pages of a range are there, no translation outside it has changed, and a page that was there
-- keeps its frame. A frame under a page that was not there was free and is allocated now, and no two
-- such pages share one.
pub record Provided (vpn count : ℕ) (m n : Mm) : Type 0 where
  pub consistent : IsConsistent n
  pub there : (i : ℕ) → i < count → (pfn : ℕ) × (vpn_to_pfn (vpn + i) n ≡ ok pfn)
  pub same : SameExcept (Within vpn count) m n
  pub kept : Kept m n
  pub taken :
      (i f : ℕ)
      → i < count
      → vpn_to_pfn (vpn + i) m ≡ err page_not_present
      → vpn_to_pfn (vpn + i) n ≡ ok f
      → WasTaken m.pma n.pma f
  pub apart :
      (i j f : ℕ)
      → i < j
      → j < count
      → vpn_to_pfn (vpn + i) m ≡ err page_not_present
      → vpn_to_pfn (vpn + j) m ≡ err page_not_present
      → vpn_to_pfn (vpn + i) n ≡ ok f
      → vpn_to_pfn (vpn + j) n ≢ ok f
  pub grows : Grows m.pma n.pma

Provided-nil :
    {m n : Mm} (vpn : ℕ)
    → IsConsistent n
    → SameExcept (λ v. ⊥) m n
    → Grows m.pma n.pma
    → Provided vpn 0 m n
Provided-nil vpn c same g = record {
  consistent = c;
  there = λ i b. absurd (omega arith);
  same = λ v hv out. same v hv (λ none. none);
  kept = λ v f hv q. same v hv (λ none. none) ∙ q;
  taken = λ i f b. absurd (omega arith);
  apart = λ i j f b b'. absurd (omega arith);
  grows = g;
}

Provided-cons :
    {m n o : Mm} (vpn count : ℕ)
    → vpn + suc count ≤ 1023 * 1024
    → PageOutcome vpn m (ok tt, n)
    → Provided (vpn + 1) count n o
    → Provided vpn (suc count) m o
Provided-cons {m} {n} {o} vpn count h (c, (pfn, e, new), same, kept, g) r = record {
  consistent = r.consistent;
  there = there;
  same = λ v hv out.
      r.same v hv (λ w. out (omega arith, omega arith))
      ∙ same v hv (λ q. out (omega arith, omega arith));
  kept = λ v f hv q. r.kept v f hv (kept v f hv q);
  taken = taken;
  apart = apart;
  grows = Grows-trans g r.grows;
}
  where
    next : (i : ℕ) → vpn + suc i ≡ vpn + 1 + i
    next i = omega arith

    before : (i : ℕ) → i < count → vpn_to_pfn (vpn + 1 + i) n ≡ vpn_to_pfn (vpn + suc i) m
    before i b = rw (next i) (same (vpn + 1 + i) (omega arith) (λ w. omega arith))

    first : vpn_to_pfn (vpn + 0) o ≡ ok pfn
    first = rw (add-zero vpn) (r.kept vpn pfn (omega arith) e)

    was_first : vpn_to_pfn (vpn + 0) m ≡ err page_not_present → WasTaken m.pma n.pma pfn
    was_first absent = new (sym (ap (λ v. vpn_to_pfn v m) (add-zero vpn)) ∙ absent)

    after : (i f : ℕ) → vpn_to_pfn (vpn + suc i) o ≡ ok f → vpn_to_pfn (vpn + 1 + i) o ≡ ok f
    after i f q = ap (λ v. vpn_to_pfn v o) (sym (next i)) ∙ q

    there : (i : ℕ) → i < suc count → (f : ℕ) × (vpn_to_pfn (vpn + i) o ≡ ok f)
    there zero b = (pfn, first)
    there (suc i) b = rw (next i) (r.there i (omega arith))

    later_taken :
        (i f : ℕ)
        → i < count
        → vpn_to_pfn (vpn + suc i) m ≡ err page_not_present
        → vpn_to_pfn (vpn + suc i) o ≡ ok f
        → WasTaken n.pma o.pma f
    later_taken i f b absent q = r.taken i f b (before i b ∙ absent) (after i f q)

    taken :
        (i f : ℕ)
        → i < suc count
        → vpn_to_pfn (vpn + i) m ≡ err page_not_present
        → vpn_to_pfn (vpn + i) o ≡ ok f
        → WasTaken m.pma o.pma f
    taken zero f b absent q =
        let same_frame : pfn ≡ f = ok-inj (sym first ∙ q) in
        subst (WasTaken m.pma o.pma) same_frame
          (WasTaken-Grows m.pma pfn (was_first absent) r.grows)
    taken (suc i) f b absent q = WasTaken-earlier o.pma f g (later_taken i f (omega arith) absent q)

    apart :
        (i j f : ℕ)
        → i < j
        → j < suc count
        → vpn_to_pfn (vpn + i) m ≡ err page_not_present
        → vpn_to_pfn (vpn + j) m ≡ err page_not_present
        → vpn_to_pfn (vpn + i) o ≡ ok f
        → vpn_to_pfn (vpn + j) o ≢ ok f
    apart i zero f b b' a a' q q' = absurd (omega arith)
    apart zero (suc j) f b b' a a' q q' =
        let same_frame : pfn ≡ f = ok-inj (sym first ∙ q) in
        WasTaken-apart o.pma f (subst (WasTaken m.pma n.pma) same_frame (was_first a)) g
          (later_taken j f (omega arith) a' q')
    apart (suc i) (suc j) f b b' a a' q q' =
        r.apart i j f (omega arith) (omega arith) (before i (omega arith) ∙ a)
          (before j (omega arith) ∙ a') (after i f q) (after j f q')

-- A failure, for want of a free frame, leaves the pages so far, in a state that keeps the invariant.
abbrev pub ProvideOutcome : ℕ → ℕ → Mm → Done × Mm → Type 0
ProvideOutcome vpn count m (ok _, n) = Provided vpn count m n
ProvideOutcome vpn count m (err s, n) =
    (s ≡ insufficient_memory) × NoRun n.pma 1 × ((k : ℕ) × (k < count) × Provided vpn k m n)

ProvideOutcome-cons :
    (m n : Mm) (vpn count : ℕ) (r : Done × Mm)
    → vpn + suc count ≤ 1023 * 1024
    → PageOutcome vpn m (ok tt, n)
    → ProvideOutcome (vpn + 1) count n r
    → ProvideOutcome vpn (suc count) m r
ProvideOutcome-cons m n vpn count (ok _, o) h p r = Provided-cons vpn count h p r
ProvideOutcome-cons m n vpn count (err e, o) h p (q, none_left, (j, b, r)) =
    (q, none_left, (suc j, omega arith, Provided-cons vpn j (omega arith) p r))

ProvideOutcome-step :
    (m : Mm) (vpn count : ℕ) (r : Done × Mm)
    → vpn + suc count ≤ 1023 * 1024
    → PageOutcome vpn m r
    → ((n : Mm)
        → IsConsistent n
        → ProvideOutcome (vpn + 1) count n (allocate_pages_to (add32 vpn 1) count n))
    → ProvideOutcome vpn (suc count) m (and_then r (λ _ n. allocate_pages_to (add32 vpn 1) count n))
ProvideOutcome-step m vpn count (ok _, n) h (c, p, s, k, g) next =
    ProvideOutcome-cons m n vpn count _ h (c, p, s, k, g) (next n c)
ProvideOutcome-step m vpn count (err e, n) h (c, s, g, absent, q, none_left) next =
    (q, none_left, (0, omega arith, Provided-nil vpn c s g))

-- mm_allocate_pages_to of a range outside the window of the tables puts a frame under every page of
-- the range that has none, one that was free and is allocated now, and no two of them the same. It keeps
-- the frames of the pages that have one and those that are in use, and changes no other page. It
-- fails only if there is no free frame left, and then this holds of the pages before the one that failed.
pub allocate_pages_to-ProvideOutcome :
    {m : Mm} (vpn count : ℕ)
    → IsConsistent m
    → vpn + count ≤ 1023 * 1024
    → ProvideOutcome vpn count m (allocate_pages_to vpn count m)
unfolding allocate_pages_to
allocate_pages_to-ProvideOutcome {m} vpn zero c h =
    Provided-nil vpn c (λ v hv out. refl) (Grows-refl m.pma)
allocate_pages_to-ProvideOutcome {m} vpn (suc count) c h =
    ProvideOutcome-step m vpn count (provide_page vpn m (vpn_to_pfn vpn m)) h
      (provide_page-PageOutcome m vpn c (omega arith) (vpn_to_pfn vpn m) refl)
      λ n d. rw next_vpn (allocate_pages_to-ProvideOutcome (vpn + 1) count d (omega arith))
  where
    next_vpn : add32 vpn 1 ≡ vpn + 1
    next_vpn = omega arith
