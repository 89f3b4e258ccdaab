-- ===== src/Fat/Scanning.antt =====
-- The loop of iter_directory over one block, vellum/filesystem/fat/fat.c: the entry it stops at.
use sscc_oslecture.Base.{
  ◌==◌, ==_iff, Bool-cases, add32, within_block, end_of_block_rem, ℕ, zero, suc, ◌+◌, ◌-◌, ◌*◌, ◌%◌,
  ◌^◌, ◌≤◌, ◌<◌, ◌≡◌, refl, subst, inl, inr, false, arith,
}
use sscc_oslecture.Fat.Directory.{
  Kind, last, deleted, long, volume_id, other, kind_of, Scan, Stop, ended, found, used_up,
  next_entry, on_kind, scan,
}

-- The entries that the loop passes over.
abbrev pub IsSkipped : Kind → Type 0
IsSkipped last = ⊥
IsSkipped deleted = Unit {0}
IsSkipped long = Unit {0}
IsSkipped volume_id = Unit {0}
IsSkipped other = ⊥

module _ (per_block : ℕ) (bytes : ℕ → ℕ) where
  abbrev pub kind_at : ℕ → Kind
  kind_at i = kind_of bytes (i % per_block * 32)

  -- Every entry from one to another is passed over.
  abbrev pub IsRun : ℕ → ℕ → Type 0
  IsRun lo hi = (i : ℕ) → lo ≤ i → i < hi → IsSkipped (kind_at i)

  -- The loop stops at the first entry from `lo` to the end `hi` that is not passed over, if there is
  -- one.
  abbrev pub IsScanned : ℕ → ℕ → Stop × Scan → Type 0
  IsScanned lo hi (ended, t) =
      (lo ≤ t.index) × (t.index < hi) × IsRun lo t.index × (kind_at t.index ≡ last)
  IsScanned lo hi (found, t) =
      (lo ≤ t.index) × (t.index < hi) × IsRun lo t.index × (kind_at t.index ≡ other)
  IsScanned lo hi (used_up, t) = (t.index ≡ hi) × IsRun lo hi

  IsRun-from : (lo hi : ℕ) → IsSkipped (kind_at lo) → IsRun (suc lo) hi → IsRun lo hi
  IsRun-from lo hi skipped run i above below = elim (Bool-cases (lo == i)) [
    | inl h ↦ subst (λ n. IsSkipped (kind_at n)) ((==_iff lo i).0 h) skipped
    | inr h ↦ run i (ground arith) below
  ]

  passed :
      (lo hi : ℕ) (x : Stop × Scan)
      → IsSkipped (kind_at lo)
      → IsScanned (suc lo) hi x
      → IsScanned lo hi x
  passed lo hi (ended, t) skipped (above, below, run, is_last) =
      (omega arith, below, IsRun-from lo t.index skipped run, is_last)
  passed lo hi (found, t) skipped (above, below, run, is_other) =
      (omega arith, below, IsRun-from lo t.index skipped run, is_other)
  passed lo hi (used_up, t) skipped (at_end, run) = (at_end, IsRun-from lo hi skipped run)

  module _ (positive : 0 < per_block) (lo j : ℕ) (some_left : 0 < j)
      (ends : lo % per_block + j ≡ per_block) (small : lo + j < 2 ^ 32) where
    next_entry_lem :
        (s : Scan) (next : Scan → Stop × Scan)
        → s.index ≡ lo
        → IsSkipped (kind_at lo)
        → ((moved : Scan) → moved.index ≡ suc lo → 1 < j → IsScanned (suc lo) (lo + j) (next moved))
        → IsScanned lo (lo + j) (next_entry per_block s next)
    next_entry_lem s next here skipped go =
        let moved : Scan = record s { index = add32 s.index 1 } in
        let step : add32 s.index 1 ≡ lo + 1 = omega arith in
        elim (Bool-cases (j == 1)) [
          | inl h ↦
              let one : j ≡ 1 = ground arith in
              let wrapped : (lo + 1) % per_block ≡ 0 =
                end_of_block_rem per_block lo 1 positive (omega arith) in
              rw (step, wrapped)
                (
                  omega arith,
                  IsRun-from lo (lo + j) skipped (λ i above below. absurd (omega arith)),
                )
          | inr h ↦
              let more : 1 < j = ground arith in
              let inside : (lo + 1) % per_block ≡ lo % per_block + 1 =
                (within_block per_block lo 1 positive (omega arith)).1 in
              let nonzero : (lo % per_block + 1 == 0) ≡ false = ground arith in
              rw (step, inside, nonzero)
                (passed lo (lo + j) _ skipped (go (record s { index = lo + 1 }) (omega arith) more))
        ]

    on_kind_lem :
        (kind : Kind) (s : Scan) (next : Scan → Stop × Scan)
        → s.index ≡ lo
        → kind_at lo ≡ kind
        → ((moved : Scan) → moved.index ≡ suc lo → 1 < j → IsScanned (suc lo) (lo + j) (next moved))
        → IsScanned lo (lo + j) (on_kind per_block bytes (lo % per_block * 32) kind s next)
    on_kind_lem last s next here same go =
        (omega arith, omega arith, λ i above below. absurd (omega arith), rw (here) same)
    on_kind_lem other s next here same go =
        (omega arith, omega arith, λ i above below. absurd (omega arith), rw (here) same)
    on_kind_lem deleted s next here same go = next_entry_lem s next here (rw (same) tt) go
    on_kind_lem long s next here same go = next_entry_lem _ next here (rw (same) tt) go
    on_kind_lem volume_id s next here same go = next_entry_lem _ next here (rw (same) tt) go

  -- From entry `lo`, with `j` entries up to the end of the block, the loop of iter_directory over a block
  -- stops at the first entry that ends the list or is a file or directory, with every entry before it
  -- passed over; without one it passes over all of them and ends at the end of the block.
  pub scan-IsScanned :
      (rounds j : ℕ) (s : Scan)
      → 0 < per_block
      → 0 < j
      → j ≤ rounds
      → s.index % per_block + j ≡ per_block
      → s.index + j < 2 ^ 32
      → IsScanned s.index (s.index + j) (scan per_block bytes rounds s)
  unfolding scan
  scan-IsScanned zero j s positive some_left enough ends small = absurd (omega arith)
  scan-IsScanned (suc rounds) j s positive some_left enough ends small =
      on_kind_lem positive s.index j some_left ends small (kind_at s.index) s _ refl refl
        (λ moved here more.
          let inside : (s.index + 1) % per_block ≡ s.index % per_block + 1 =
            (within_block per_block s.index 1 positive (omega arith)).1 in
          let moved_at : moved.index ≡ s.index + 1 = omega arith in
          subst (λ n. IsScanned n (s.index + j) (scan per_block bytes rounds moved)) here
            (subst (λ n. IsScanned moved.index n (scan per_block bytes rounds moved)) (omega arith)
              (scan-IsScanned rounds (j - 1) moved positive (omega arith) (omega arith)
                (rw (moved_at, inside) (omega arith)) (omega arith))))
