-- ===== src/Frames/Scan.antt =====
-- The first-fit search of mm_pma_allocate_frame (vellum/mm/mm.c).
use sscc_oslecture.Base.{
  ltb, leb, ◌==◌, if◌then◌else◌, ltb→lt, leb→le, ==_iff, Bool-cases, ℕ, zero, suc, ◌+◌, ◌-◌, ◌≤◌,
  ◌<◌, ◌≡◌, ◌⊎◌, inl, inr, true, false, arith,
}
use sscc_oslecture.Frames.Bitmap.{pbm_free}
use sscc_oslecture.Frames.{Pma, cell, scan}

-- The `count` cells from `s` on are free.
abbrev pub FreeRun : Pma → ℕ → ℕ → Type 0
FreeRun p s count = (j : ℕ) → s ≤ j → j < s + count → cell p j ≡ pbm_free

-- What the search returns: the first run of `count` free cells, or the certainty that there is none.
pub record Found (p : Pma) (count start : ℕ) : Type 0 where
  pub run : FreeRun p start count
  pub inside : start + count ≤ p.frame_desc_count
  pub first : (s : ℕ) → s < start → ¬ FreeRun p s count

abbrev pub NoRun : Pma → ℕ → Type 0
NoRun p count = (s : ℕ) → s + count ≤ p.frame_desc_count → ¬ FreeRun p s count

abbrev pub ScanResult : Pma → ℕ → ℕ × ℕ → Type 0
ScanResult p count (free, start) =
    ((count ≤ free) × Found p count start) ⊎ ((free < count) × NoRun p count)

-- The search before index `i`: the last `free` cells are a free run, and no run begins before them.
record Scanned (p : Pma) (count i free start : ℕ) : Type 0 where
  short : free < count
  within : free ≤ i
  run : FreeRun p (i - free) free
  begins : 0 < free → start ≡ i - free
  blocked : (s : ℕ) → s < i - free → ¬ FreeRun p s count

module _ {p : Pma} {count i free start : ℕ} (c : Scanned p count i free start) where
  -- The `start` that the loop body sets.
  begin : ℕ
  begin = if free == 0 then i else start

  begin-eq : begin ≡ i - free
  unfolding begin
  begin-eq = ground (arith, c.within, c.begins)

  extend : cell p i ≡ pbm_free → FreeRun p (i - free) (free + 1)
  extend e j lo hi = elim (Bool-cases (j == i)) [
    | inl last ↦ rw ((==_iff j i).0 last) e
    | inr other ↦ c.run j lo (ground (arith, c.within))
  ]

  block : ¬ (cell p i ≡ pbm_free) → (s : ℕ) → s < i + 1 → ¬ FreeRun p s count
  block busy s h run = elim (Bool-cases (ltb s (i - free))) [
    | inl before ↦ c.blocked s (ltb→lt _ _ before) run
    | inr after ↦ busy (run i (omega arith) (ground (arith, c.within, c.short)))
  ]

  next_free : cell p i ≡ pbm_free → free + 1 < count → Scanned p count (i + 1) (free + 1) begin
  next_free e h = record {
    short = h;
    within = omega (arith, c.within);
    run = λ j lo hi. extend e j (omega (arith, c.within)) (omega (arith, c.within));
    begins = λ _. omega (arith, begin-eq, c.within);
    blocked = λ s b. c.blocked s (omega (arith, c.within));
  }

  next_busy : ¬ (cell p i ≡ pbm_free) → Scanned p count (i + 1) 0 start
  next_busy busy = record {
    short = omega (arith, c.short);
    within = omega arith;
    run = λ j lo hi. absurd (omega arith);
    begins = λ h. absurd (omega arith);
    blocked = λ s b. block busy s (omega arith);
  }

  finish : cell p i ≡ pbm_free → count ≤ free + 1 → i < p.frame_desc_count → Found p count begin
  finish e h inside = record {
    run = λ j lo hi. extend e j (omega (arith, begin-eq)) (omega (arith, begin-eq, c.short));
    inside = omega (arith, begin-eq, c.short, c.within);
    first = λ s b. c.blocked s (omega (arith, begin-eq));
  }

module _ (p : Pma) (count left i free start : ℕ) where
  scan_busy :
      (cell p i == pbm_free) ≡ false
      → scan p count (suc left) i free start ≡ scan p count left (i + 1) 0 start
  unfolding scan
  scan_busy e = rw (e, scan)

  scan_free :
      (cell p i == pbm_free) ≡ true
      → scan p count (suc left) i free start ≡ (
          if leb count (free + 1)
          then (free + 1, if free == 0 then i else start)
          else scan p count left (i + 1) (free + 1) (if free == 0 then i else start))
  unfolding scan
  scan_free e = rw (e, scan) (ground arith)

scan-Scanned :
    (p : Pma) (count left i free start : ℕ)
    → Scanned p count i free start
    → i + left ≡ p.frame_desc_count
    → ScanResult p count (scan p count left i free start)
unfolding begin
scan-Scanned p count zero i free start c e =
    unfold scan in inr (c.short, λ s h. c.blocked s (omega (arith, c.short, c.within)))
scan-Scanned p count (suc left) i free start c e = elim (Bool-cases (cell p i == pbm_free)) [
  | inr busy ↦ rw (scan_busy p count left i free start busy) (
      scan-Scanned p count left (i + 1) 0 start
        (next_busy c (λ h. cc (busy, (==_iff (cell p i) 0).1 h))) (omega arith))
  | inl open_cell ↦
      let e' = (==_iff (cell p i) 0).0 open_cell in
      rw (scan_free p count left i free start open_cell) (elim (Bool-cases (leb count (free + 1))) [
        | inl enough ↦
            rw enough (inl (leb→le _ _ enough, finish c e' (leb→le _ _ enough) (omega arith)))
        | inr more ↦ rw more (
            scan-Scanned p count left (i + 1) (free + 1) (begin c) (next_free c e' (ground arith))
              (omega arith))
      ])
]

-- The search finds the first run of `count` free frames, or there is none.
pub scan_lem :
    (p : Pma) (count : ℕ) → 0 < count → ScanResult p count (scan p count p.frame_desc_count 0 0 0)
scan_lem p count h =
    scan-Scanned p count p.frame_desc_count 0 0 0
      (record {
        short = h;
        within = omega arith;
        run = λ j lo hi. absurd (omega arith);
        begins = λ b. absurd (omega arith);
        blocked = λ s b. absurd (omega arith);
      })
      (omega arith)
