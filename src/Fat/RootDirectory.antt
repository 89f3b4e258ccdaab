-- ===== src/Fat/RootDirectory.antt =====
-- iter_directory in the root directory of FAT12 and FAT16, vellum/filesystem/fat/fat.c, against the
-- entries on the disk.
use sscc_oslecture.Base.{
  ltb, ltb→lt, Bool-cases, ℕ, ◌+◌, ◌*◌, ◌/◌, ◌%◌, ◌^◌, ◌≤◌, ◌<◌, ◌≡◌, refl, sym, ap, ap₂, subst,
  ◌∙◌, ◌⊎◌, inl, inr, none, some, arith,
}
use sscc_oslecture.Status.{Status, ok, err}
use sscc_oslecture.Fat.{Volume, Cache}
use sscc_oslecture.Fat.Disk.{HasBytes, IsCoherent}
use sscc_oslecture.Fat.Directory.{
  Dir, Kind, last, other, kind_by, kind_of, Scan, Stop, ended, found, used_up, Iterated, after_scan,
}
use sscc_oslecture.Fat.Scanning.{IsSkipped, kind_at, IsRun, IsScanned}

module _ (disk : ℕ → ℕ) (vol : Volume) where
  -- Entry `i` of the root directory on the disk, in sectors of 16 entries.
  abbrev pub root_place : ℕ → ℕ
  root_place i = (vol.data_area_begin + i / 16) * 512 + i % 16 * 32

  abbrev pub root_kind : ℕ → Kind
  root_kind i = kind_of disk (root_place i)

  abbrev pub IsRootRun : ℕ → ℕ → Type 0
  IsRootRun lo hi = (i : ℕ) → lo ≤ i → i < hi → IsSkipped (root_kind i)

  -- The end of the list: an entry that says so, or the end of the directory.
  pub record IsEnd (lo e : ℕ) : Type 0 where
    pub from_lo : lo ≤ e
    pub run : IsRootRun lo e
    pub ends : (root_kind e ≡ last) ⊎ (e ≡ vol.root_sector_count * 16)

  -- The first file or directory, whose 32 bytes are stored when it stands in the first sector.
  pub record IsFirst (lo e : ℕ) (d : Dir) : Type 0 where
    pub from_lo : lo ≤ e
    pub run : IsRootRun lo e
    pub is_other : root_kind e ≡ other
    pub behind : d.current_entry_index ≡ e + 1
    pub stored : e < 16 → (i : ℕ) → i < 32 → d.direntry i ≡ disk (root_place e + i)

  -- An iteration that began at `lo` and returned.
  abbrev pub IsListed : ℕ → Iterated → Type 0
  IsListed lo none = ⊥
  IsListed lo (some (ok entry, (d, k))) = (e : ℕ) × IsFirst lo e d × IsCoherent disk vol k
  IsListed lo (some (err s, (d, k))) =
      (s ≡ Status.end_of_list) × IsEnd lo d.current_entry_index × IsCoherent disk vol k

  join : (lo hi e : ℕ) → IsRootRun lo hi → IsRootRun hi e → IsRootRun lo e
  join lo hi e run more i above below = elim (Bool-cases (ltb i hi)) [
    | inl h ↦ run i above (ltb→lt i hi h)
    | inr h ↦ more i (ground arith) below
  ]

  prepend : (lo hi : ℕ) (x : Iterated) → lo ≤ hi → IsRootRun lo hi → IsListed hi x → IsListed lo x
  prepend lo hi none below run listed = listed
  prepend lo hi (some (ok entry, (d, k))) below run (e, first, coherent) =
      let from = first.from_lo in
      (
        e,
        record {
          from_lo = omega arith;
          run = join lo hi e run first.run;
          is_other = first.is_other;
          behind = first.behind;
          stored = first.stored;
        },
        coherent,
      )
  prepend lo hi (some (err s, (d, k))) below run (same, at_end, coherent) =
      let from = at_end.from_lo in
      (
        same,
        record {
          from_lo = omega arith;
          run = join lo hi d.current_entry_index run at_end.run;
          ends = at_end.ends;
        },
        coherent,
      )

  -- A block of the root directory in the buffer.
  module _ (d : Dir) (k : Cache) (b : ℕ) (coherent : IsCoherent disk vol k)
      (bytes : HasBytes disk (vol.data_area_begin + b) 512 k.databuf) where
    kind_same : (i : ℕ) → i / 16 ≡ b → kind_at 16 k.databuf i ≡ root_kind i
    kind_same i here =
        ap₂ kind_by (bytes (i % 16 * 32) (omega arith) ∙ ap disk (omega arith))
          (bytes (i % 16 * 32 + 11) (omega arith) ∙ ap disk (omega arith))

    run_same :
        (lo hi : ℕ) → b * 16 ≤ lo → hi ≤ b * 16 + 16 → IsRun 16 k.databuf lo hi → IsRootRun lo hi
    run_same lo hi above below run i low high =
        subst IsSkipped (kind_same i (omega arith)) (run i low high)

    pub after_scan_lem :
        (lo hi : ℕ) (x : Stop × Scan) (next : Dir → Scan → Iterated)
        → b * 16 ≤ lo
        → lo < hi
        → hi ≡ b * 16 + 16
        → hi < 2 ^ 32
        → IsScanned 16 k.databuf lo hi x
        → ((s : Scan) → IsListed hi (next (record d { current_entry_index = hi }) s))
        → IsListed lo (after_scan d k x next)
    after_scan_lem lo hi (ended, t) next above some_left ends small (from, below, run, is_last) go =
        (
          refl,
          record {
            from_lo = from;
            run = run_same lo t.index above (omega arith) run;
            ends = inl (sym (kind_same t.index (omega arith)) ∙ is_last);
          },
          coherent,
        )
    after_scan_lem lo hi (found, t) next above some_left ends small (from, below, run, is_other)
          go =
        (
          t.index,
          record {
            from_lo = from;
            run = run_same lo t.index above (omega arith) run;
            is_other = sym (kind_same t.index (omega arith)) ∙ is_other;
            behind = omega arith;
            stored =
                λ first i inside. bytes (t.index * 32 + i) (omega arith) ∙ ap disk (omega arith);
          },
          coherent,
        )
    after_scan_lem lo hi (used_up, t) next above some_left ends small (at_end, run) go =
        prepend lo hi _ (omega arith) (run_same lo hi above (omega arith) run) (
          subst (λ n. IsListed hi (next (record d { current_entry_index = n }) t)) (sym at_end)
            (go t))
