-- ===== src/Fat/Failures.antt =====
-- What the functions of vellum/filesystem/fat/fat.c keep when the device fails: the buffers stay in
-- agreement with the disk, and a failed seek leaves the file where it was.
use sscc_oslecture.Base.{
  ltb, leb, ◌==◌, if◌then◌else◌, Bool-cases, add32, ℕ, zero, suc, ◌+◌, ◌-◌, ◌*◌, ◌/◌, ◌%◌, ◌≤◌, ◌≡◌,
  inl, inr, Bool, true, false, arith,
}
use sscc_oslecture.Status.{ok, err}
use sscc_oslecture.Fat.{
  FatType, fat12, fat16, fat32, Volume, Cache, Done, Device, is_tag, mark_fat, mark_data,
  cluster_to_sector, read_fat, read_cluster, then_entry, value12, last_cluster, round12, round16,
  round32, round, then_next, follow, get_next_cluster,
}
use sscc_oslecture.Fat.Disk.{IsVolume, HasBytes, first_sector, extent, IsCoherent}
use sscc_oslecture.Base.Int.{ℤ, pos, negsuc}
use sscc_oslecture.Fat.Files.{
  File, Reader, copied, at_next, then_copy, resume, advance, read_loop, read, Origin, new_cursor,
  store_place, seek_to, seek,
}

module _ (disk : ℕ → ℕ) where
  -- A read that fills the buffer with bytes of the disk, or fails and leaves it alone.
  abbrev pub IsHonestRead : ℕ → ℕ → (ℕ → ℕ) → Done × (ℕ → ℕ) → Type 0
  IsHonestRead lba count buf (ok _, new) = HasBytes disk lba (count * 512) new
  IsHonestRead lba count buf (err e, new) = new ≡ buf

  -- A device that may fail.
  abbrev pub IsHonest : Device → Type 0
  IsHonest dev = (lba count : ℕ) (buf : ℕ → ℕ) → IsHonestRead lba count buf (dev lba count buf)

module _ (disk : ℕ → ℕ) (vol : Volume) where
  -- The buffers after a step, however it ended.
  abbrev pub IsCoherentAt : Done × (ℕ × Cache) → Type 0
  IsCoherentAt (ok _, (c, k)) = IsCoherent disk vol k
  IsCoherentAt (err e, (c, k)) = IsCoherent disk vol k

  abbrev pub IsCoherentIn : Done × Cache → Type 0
  IsCoherentIn (ok _, k) = IsCoherent disk vol k
  IsCoherentIn (err e, k) = IsCoherent disk vol k

  mark_fat-IsCoherent :
      (k : Cache) (lba : ℕ) (x : Done × (ℕ → ℕ))
      → IsCoherent disk vol k
      → IsHonestRead disk lba 1 k.fatbuf x
      → IsCoherentIn (mark_fat k lba x)
  mark_fat-IsCoherent k lba (ok _, new) coherent held = record {
    fat_tagged = held;
    data_tagged = coherent.data_tagged;
  }
  mark_fat-IsCoherent k lba (err e, new) coherent same = record {
    fat_tagged = rw (same) coherent.fat_tagged;
    data_tagged = coherent.data_tagged;
  }

  mark_data-IsCoherent :
      (k : Cache) (lba count : ℕ) (x : Done × (ℕ → ℕ))
      → IsCoherent disk vol k
      → extent vol lba ≤ count * 512
      → IsHonestRead disk lba count k.databuf x
      → IsCoherentIn (mark_data k lba x)
  mark_data-IsCoherent k lba count (ok _, new) coherent size held = record {
    fat_tagged = coherent.fat_tagged;
    data_tagged = λ i below. held i (omega arith);
  }
  mark_data-IsCoherent k lba count (err e, new) coherent size same = record {
    fat_tagged = coherent.fat_tagged;
    data_tagged = rw (same) coherent.data_tagged;
  }

  if-IsCoherent :
      (b : Bool) (x y : Done × (ℕ × Cache))
      → IsCoherentAt x
      → IsCoherentAt y
      → IsCoherentAt (if b then x else y)
  if-IsCoherent true x y then_ok else_ok = then_ok
  if-IsCoherent false x y then_ok else_ok = else_ok

  then_entry-IsCoherent :
      (c : ℕ) (x : Done × Cache) (next : Cache → Done × (ℕ × Cache))
      → IsCoherentIn x
      → ((k : Cache) → IsCoherent disk vol k → IsCoherentAt (next k))
      → IsCoherentAt (then_entry c x next)
  then_entry-IsCoherent c (ok _, k) next coherent go = go k coherent
  then_entry-IsCoherent c (err e, k) next coherent go = coherent

  then_next-IsCoherent :
      (x : Done × (ℕ × Cache)) (next : ℕ → Cache → Done × (ℕ × Cache))
      → IsCoherentAt x
      → ((c : ℕ) (k : Cache) → IsCoherent disk vol k → IsCoherentAt (next c k))
      → IsCoherentAt (then_next vol x next)
  then_next-IsCoherent (ok _, (c, k)) next coherent go =
      elim (Bool-cases (ltb (last_cluster vol.fat_type) c)) [
        | inl h ↦ rw (h) coherent
        | inr h ↦ rw (h) (go c k coherent)
      ]
  then_next-IsCoherent (err e, at) next coherent go = coherent

module _ (disk : ℕ → ℕ) (dev : Device) (vol : Volume) (honest : IsHonest disk dev)
    (valid : IsVolume vol) where
  extent_small : (lba : ℕ) → extent vol lba ≤ vol.sectors_per_cluster * 512
  extent_small lba =
      let size = valid.cluster_sectors in
      let some = valid.some_sectors in
      elim (Bool-cases (leb (first_sector vol) lba)) [
        | inl h ↦ rw (h) (omega arith)
        | inr h ↦ rw (h) (omega arith)
      ]

  pub read_fat-IsCoherent :
      (s : ℕ) (k : Cache) → IsCoherent disk vol k → IsCoherentIn disk vol (read_fat dev vol s k)
  unfolding read_fat
  read_fat-IsCoherent s k coherent =
      let lba : ℕ = add32 vol.reserved_sectors s in
      elim (Bool-cases (is_tag k.fat_lba lba)) [
        | inl h ↦ rw (h) coherent
        | inr h ↦ rw (h) (
            mark_fat-IsCoherent disk vol k lba (dev lba 1 k.fatbuf) coherent
              (honest lba 1 k.fatbuf))
      ]

  pub read_cluster-IsCoherent :
      (c : ℕ) (k : Cache) → IsCoherent disk vol k → IsCoherentIn disk vol (read_cluster dev vol c k)
  unfolding read_cluster
  read_cluster-IsCoherent c k coherent =
      let lba : ℕ = cluster_to_sector vol c in
      let count : ℕ = vol.sectors_per_cluster in
      elim (Bool-cases (is_tag k.data_lba lba)) [
        | inl h ↦ rw (h) coherent
        | inr h ↦ rw (h) (
            mark_data-IsCoherent disk vol k lba count (dev lba count k.databuf) coherent
              (extent_small lba) (honest lba count k.databuf))
      ]

  round-IsCoherent :
      (t : FatType) (c : ℕ) (k : Cache)
      → IsCoherent disk vol k
      → IsCoherentAt disk vol (round dev vol t c k)
  unfolding round round12 round16 round32
  round-IsCoherent fat12 c k coherent =
      let byte : ℕ = (c + c / 2) % 65536 in
      let sector : ℕ = byte / vol.sector_size in
      let index : ℕ = byte % vol.sector_size in
      then_entry-IsCoherent disk vol c _ _ (read_fat-IsCoherent _ k coherent) (λ l same.
        if-IsCoherent disk vol (index == vol.sector_size - 1) _
          (ok tt, (value12 c (l.fatbuf index) (l.fatbuf (index + 1)), l))
          (then_entry-IsCoherent disk vol c (read_fat dev vol (sector + 1) l)
            (λ m. (ok tt, (value12 c (l.fatbuf index) (m.fatbuf 0), m)))
            (read_fat-IsCoherent (sector + 1) l same) (λ m held. held))
          same)
  round-IsCoherent fat16 c k coherent =
      then_entry-IsCoherent disk vol c _ _ (read_fat-IsCoherent _ k coherent) (λ l ok. ok)
  round-IsCoherent fat32 c k coherent =
      then_entry-IsCoherent disk vol c _ _ (read_fat-IsCoherent _ k coherent) (λ l ok. ok)

  follow-IsCoherent :
      (n c : ℕ) (k : Cache) → IsCoherent disk vol k → IsCoherentAt disk vol (follow dev vol n c k)
  unfolding follow
  follow-IsCoherent zero c k coherent = coherent
  follow-IsCoherent (suc n) c k coherent =
      then_next-IsCoherent disk vol _ _ (round-IsCoherent vol.fat_type c k coherent)
        (λ c k ok. follow-IsCoherent n c k ok)

  pub get_next_cluster-IsCoherent :
      (n c : ℕ) (k : Cache)
      → IsCoherent disk vol k
      → IsCoherentAt disk vol (get_next_cluster dev vol n c k)
  unfolding get_next_cluster
  get_next_cluster-IsCoherent n c k coherent =
      elim (Bool-cases (ltb (last_cluster vol.fat_type) c)) [
        | inl h ↦ rw (h) coherent
        | inr h ↦ rw (h) (follow-IsCoherent n c k coherent)
      ]

module _ (disk : ℕ → ℕ) (vol : Volume) where
  -- The buffers after read and seek.
  abbrev pub IsReadCoherent : Done × Reader → Type 0
  IsReadCoherent (ok _, r) = IsCoherent disk vol r.cache
  IsReadCoherent (err e, r) = IsCoherent disk vol r.cache

  abbrev pub IsAdvanceCoherent : Bool × Reader → Type 0
  IsAdvanceCoherent (true, r) = IsCoherent disk vol r.cache
  IsAdvanceCoherent (false, r) = IsCoherent disk vol r.cache

  abbrev pub IsSeekCoherent : Done × (File × Cache) → Type 0
  IsSeekCoherent (ok _, (file, k)) = IsCoherent disk vol k
  IsSeekCoherent (err e, (file, k)) = IsCoherent disk vol k

  then_copy-IsCoherent :
      (r : Reader) (x : Done × Cache) (next : Cache → Done × Reader)
      → IsCoherentIn disk vol x
      → ((k : Cache) → IsCoherent disk vol k → IsReadCoherent (next k))
      → IsReadCoherent (then_copy r x next)
  then_copy-IsCoherent r (ok _, k) next coherent go = go k coherent
  then_copy-IsCoherent r (err e, k) next coherent go = coherent

  resume-IsCoherent :
      (x : Bool × Reader) (next : Reader → Done × Reader)
      → IsAdvanceCoherent x
      → ((r : Reader) → IsCoherent disk vol r.cache → IsReadCoherent (next r))
      → IsReadCoherent (resume x next)
  resume-IsCoherent (true, r) next coherent go = go r coherent
  resume-IsCoherent (false, r) next coherent go = coherent

  at_next-IsCoherent :
      (r : Reader) (x : Done × (ℕ × Cache))
      → IsCoherentAt disk vol x
      → IsAdvanceCoherent (at_next r x)
  at_next-IsCoherent r (ok _, at) coherent = coherent
  at_next-IsCoherent r (err e, at) coherent = coherent

  store_place-IsCoherent :
      (file : File) (place : ℕ) (x : Done × (ℕ × Cache))
      → IsCoherentAt disk vol x
      → IsSeekCoherent (store_place file place x)
  store_place-IsCoherent file place (ok _, at) coherent = coherent
  store_place-IsCoherent file place (err e, at) coherent = coherent

module _ (disk : ℕ → ℕ) (dev : Device) (vol : Volume) (honest : IsHonest disk dev)
    (valid : IsVolume vol) where
  advance-IsCoherent :
      (used : ℕ) (r : Reader)
      → IsCoherent disk vol r.cache
      → IsAdvanceCoherent disk vol (advance dev vol used r)
  unfolding advance
  advance-IsCoherent used r coherent = elim (Bool-cases (ltb used vol.cluster_size)) [
    | inl h ↦ rw (h) coherent
    | inr h ↦ rw (h) (
        at_next-IsCoherent disk vol r _ (
          get_next_cluster-IsCoherent disk dev vol honest valid 1 r.file.current_cluster r.cache
            coherent))
  ]

  read_loop-IsCoherent :
      (fuel len : ℕ) (r : Reader)
      → IsCoherent disk vol r.cache
      → IsReadCoherent disk vol (read_loop dev vol fuel len r)
  unfolding read_loop copied
  read_loop-IsCoherent zero len r coherent = coherent
  read_loop-IsCoherent (suc fuel) len r coherent = elim (Bool-cases (len == 0)) [
    | inl h ↦ rw (h) coherent
    | inr h ↦ rw (h) (
        then_copy-IsCoherent disk vol r _ _
          (read_cluster-IsCoherent disk dev vol honest valid r.file.current_cluster r.cache
            coherent)
          (λ k ok.
            resume-IsCoherent disk vol _ _ (advance-IsCoherent _ _ ok)
              (λ next ok. read_loop-IsCoherent fuel _ next ok)))
  ]

  seek_to-IsCoherent :
      (r : Reader) (to : ℤ)
      → IsCoherent disk vol r.cache
      → IsSeekCoherent disk vol (seek_to dev vol r.file r.cache to)
  unfolding seek_to
  seek_to-IsCoherent r (pos n) coherent =
      store_place-IsCoherent disk vol r.file _ _ (
        get_next_cluster-IsCoherent disk dev vol honest valid _ r.file.head_cluster r.cache
          coherent)
  seek_to-IsCoherent r (negsuc n) coherent = coherent

  -- With a device that either fills the buffer with the bytes of the disk or fails and leaves it alone,
  -- a call of read and a call of seek, however they end, keep the buffers in agreement with the disk.
  pub read-IsCoherent :
      (r : Reader) (len : ℕ) (offset : ℤ) (origin : Origin)
      → IsCoherent disk vol r.cache
      → IsReadCoherent disk vol (read dev vol len r)
        × IsSeekCoherent disk vol (seek dev vol offset origin r.file r.cache)
  unfolding read seek
  read-IsCoherent r len offset origin coherent = (
    elim (Bool-cases (leb r.file.size r.file.cursor)) [
      | inl h ↦ rw (h) coherent
      | inr h ↦ rw (h) (read_loop-IsCoherent _ _ _ coherent)
    ],
    seek_to-IsCoherent r (new_cursor r.file offset origin) coherent,
  )
