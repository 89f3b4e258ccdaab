-- ===== src/Fat/Disk.antt =====
-- The disk behind a mounted FAT volume, vellum/filesystem/fat/fat.c: what read_fat and read_cluster
-- leave in the buffers.
use sscc_oslecture.Base.{
  leb, if◌then◌else◌, le→leb, leb-false, ==_iff, Bool-cases, add32, sub32, sub32-eq, ℕ, ◌+◌, ◌-◌,
  ◌*◌, ◌^◌, ◌≤◌, ◌<◌, ◌≡◌, refl, sym, subst, inl, inr, true, Option, none, some, arith,
}
use sscc_oslecture.Status.{ok, err}
use sscc_oslecture.Fat.{
  FatType, fat12, fat16, fat32, Volume, Cache, Done, Device, is_tag, mark_fat, mark_data, mul32,
  area_sector, cluster_to_sector, read_fat, read_sector, read_cluster,
}

-- The geometry mount accepts, for sectors of 512 bytes.
pub record IsVolume (vol : Volume) : Type 0 where
  pub sector_512 : vol.sector_size ≡ 512
  pub cluster_sectors : vol.cluster_size ≡ vol.sectors_per_cluster * 512
  pub some_sectors : 0 < vol.sectors_per_cluster
  pub reserved_u16 : vol.reserved_sectors < 65536

module _ (disk : ℕ → ℕ) where
  -- `buf` holds the first `size` bytes of the disk from a sector on.
  abbrev pub HasBytes : ℕ → ℕ → (ℕ → ℕ) → Type 0
  HasBytes lba size buf = (i : ℕ) → i < size → buf i ≡ disk (lba * 512 + i)

  -- A read that succeeded, with the bytes of the disk.
  abbrev pub IsFilled : ℕ → ℕ → Done × (ℕ → ℕ) → Type 0
  IsFilled lba count (ok _, buf) = HasBytes lba (count * 512) buf
  IsFilled lba count (err e, buf) = ⊥

  -- A device that reads every sector, with `disk` giving each byte of it.
  abbrev pub IsDisk : Device → Type 0
  IsDisk dev = (lba count : ℕ) (buf : ℕ → ℕ) → IsFilled lba count (dev lba count buf)

  -- A buffer with a tag holds as many bytes from there on as `extent` says.
  abbrev pub IsTagged : (ℕ → ℕ) → Option ℕ → (ℕ → ℕ) → Type 0
  IsTagged extent none buf = Unit {0}
  IsTagged extent (some lba) buf = HasBytes lba (extent lba) buf

-- The first sector of cluster 2.
abbrev pub first_area : FatType → ℕ → ℕ → ℕ
first_area fat32 begin root = begin
first_area _ begin root = begin + root

abbrev pub first_sector : Volume → ℕ
first_sector vol = first_area vol.fat_type vol.data_area_begin vol.root_sector_count

-- Whole clusters are read from the first one on, and single sectors below.
abbrev pub extent : Volume → ℕ → ℕ
extent vol lba = if leb (first_sector vol) lba then vol.cluster_size else 512

-- The buffers agree with the disk where their tags point.
pub record IsCoherent (disk : ℕ → ℕ) (vol : Volume) (k : Cache) : Type 0 where
  pub fat_tagged : IsTagged disk (λ _. 512) k.fat_lba k.fatbuf
  pub data_tagged : IsTagged disk (extent vol) k.data_lba k.databuf

-- A cluster of the data area whose sectors have numbers of 32 bits.
pub record IsCluster (vol : Volume) (cluster : ℕ) : Type 0 where
  pub from_2 : 2 ≤ cluster
  pub cluster_u32 : cluster < 2 ^ 32
  pub sector_u32 : (cluster - 2) * vol.sectors_per_cluster + first_sector vol < 2 ^ 32

module _ (disk : ℕ → ℕ) (vol : Volume) (lba : ℕ) (size : ℕ) where
  -- A cached read of the sector, through either buffer.
  abbrev pub IsFatRead : Done × Cache → Type 0
  IsFatRead (ok _, k) = IsCoherent disk vol k × HasBytes disk lba size k.fatbuf
  IsFatRead (err e, k) = ⊥

  abbrev pub IsDataRead : Done × Cache → Type 0
  IsDataRead (ok _, k) = IsCoherent disk vol k × HasBytes disk lba size k.databuf
  IsDataRead (err e, k) = ⊥

module _ (disk : ℕ → ℕ) (vol : Volume) where
  tag_bytes :
      (size : ℕ → ℕ) (tag : Option ℕ) (lba : ℕ) (buf : ℕ → ℕ)
      → is_tag tag lba ≡ true
      → IsTagged disk size tag buf
      → HasBytes disk lba (size lba) buf
  tag_bytes size none lba buf h held = absurd (ground (arith, h))
  tag_bytes size (some tag) lba buf h held =
      subst (λ s. HasBytes disk s (size s) buf) ((==_iff tag lba).0 h) held

  mark_fat_lem :
      (k : Cache) (lba : ℕ) (x : Done × (ℕ → ℕ))
      → IsCoherent disk vol k
      → IsFilled disk lba 1 x
      → IsFatRead disk vol lba 512 (mark_fat k lba x)
  mark_fat_lem k lba (ok _, buf) coherent filled =
      (record { fat_tagged = filled; data_tagged = coherent.data_tagged }, filled)
  mark_fat_lem k lba (err e, buf) coherent filled = elim filled [ ]

  mark_data_lem :
      (k : Cache) (lba count : ℕ) (x : Done × (ℕ → ℕ))
      → IsCoherent disk vol k
      → count * 512 ≡ extent vol lba
      → IsFilled disk lba count x
      → IsDataRead disk vol lba (extent vol lba) (mark_data k lba x)
  mark_data_lem k lba count (ok _, buf) coherent size filled =
      let held : HasBytes disk lba (extent vol lba) buf =
        subst (λ n. HasBytes disk lba n buf) size filled in
      (record { fat_tagged = coherent.fat_tagged; data_tagged = held }, held)
  mark_data_lem k lba count (err e, buf) coherent size filled = elim filled [ ]

module _ (disk : ℕ → ℕ) (dev : Device) (vol : Volume) (is_disk : IsDisk disk dev) (k : Cache)
    (coherent : IsCoherent disk vol k) where
  -- On a disk that can be read, read_fat leaves the sector in its buffer, read or still there.
  pub read_fat_lem :
      (s : ℕ)
      → vol.reserved_sectors + s < 2 ^ 32
      → IsFatRead disk vol (vol.reserved_sectors + s) 512 (read_fat dev vol s k)
  unfolding read_fat
  read_fat_lem s small =
      let same : add32 vol.reserved_sectors s ≡ vol.reserved_sectors + s = omega arith in
      let lba : ℕ = vol.reserved_sectors + s in
      rw (same) (elim (Bool-cases (is_tag k.fat_lba lba)) [
        | inl e ↦
            rw (e)
              (coherent, tag_bytes disk vol (λ _. 512) k.fat_lba lba k.fatbuf e coherent.fat_tagged)
        | inr e ↦
            rw (e)
              (mark_fat_lem disk vol k lba (dev lba 1 k.fatbuf) coherent (is_disk lba 1 k.fatbuf))
      ])

module _ (vol : Volume) where
  pub first_place :
      (t : FatType) (begin root x : ℕ)
      → x + first_area t begin root < 2 ^ 32
      → area_sector t x begin root ≡ x + first_area t begin root
  first_place fat12 begin root x small = omega arith
  first_place fat16 begin root x small = omega arith
  first_place fat32 begin root x small = omega arith

  pub cluster_place :
      (cluster : ℕ)
      → IsCluster vol cluster
      → cluster_to_sector vol cluster ≡ (cluster - 2) * vol.sectors_per_cluster + first_sector vol
  unfolding cluster_to_sector
  cluster_place cluster place =
      let small = place.sector_u32 in
      let low : sub32 cluster 2 ≡ cluster - 2 = sub32-eq cluster 2 place.from_2 place.cluster_u32 in
      let area : ℕ = (cluster - 2) * vol.sectors_per_cluster in
      let times : mul32 (cluster - 2) vol.sectors_per_cluster ≡ area = omega arith in
      rw (low, times)
        (first_place vol.fat_type vol.data_area_begin vol.root_sector_count area small)

module _ (disk : ℕ → ℕ) (dev : Device) (vol : Volume) (is_disk : IsDisk disk dev)
    (valid : IsVolume vol) (k : Cache) (coherent : IsCoherent disk vol k) where
  -- On a disk that can be read, read_cluster leaves the whole cluster in its buffer.
  pub read_cluster_lem :
      (cluster : ℕ)
      → IsCluster vol cluster
      → IsDataRead disk vol
          (cluster_to_sector vol cluster)
          vol.cluster_size
          (read_cluster dev vol cluster k)
  unfolding read_cluster
  read_cluster_lem cluster place =
      let lba : ℕ = cluster_to_sector vol cluster in
      let above : first_sector vol ≤ lba = rw (cluster_place vol cluster place) (omega arith) in
      let whole : extent vol lba ≡ vol.cluster_size =
        rw (le→leb (first_sector vol) lba above) refl in
      let size : vol.sectors_per_cluster * 512 ≡ extent vol lba =
        rw (whole) (sym valid.cluster_sectors) in
      subst (λ n. IsDataRead disk vol lba n (read_cluster dev vol cluster k)) whole
        (elim (Bool-cases (is_tag k.data_lba lba)) [
          | inl e ↦ rw (e) (
            coherent,
            tag_bytes disk vol (extent vol) k.data_lba lba k.databuf e coherent.data_tagged,
          )
          | inr e ↦ rw (e) (
              mark_data_lem disk vol k lba vol.sectors_per_cluster
                (dev lba vol.sectors_per_cluster k.databuf) coherent size
                (is_disk lba vol.sectors_per_cluster k.databuf))
        ])

module _ (disk : ℕ → ℕ) (dev : Device) (vol : Volume) (is_disk : IsDisk disk dev) (k : Cache)
    (coherent : IsCoherent disk vol k) where
  -- On a disk that can be read, read_sector leaves a sector below the clusters in its buffer.
  pub read_sector_lem :
      (lba : ℕ) → lba < first_sector vol → IsDataRead disk vol lba 512 (read_sector dev vol lba k)
  unfolding read_sector
  read_sector_lem lba below =
      let single : extent vol lba ≡ 512 = rw (leb-false (first_sector vol) lba below) refl in
      subst (λ n. IsDataRead disk vol lba n (read_sector dev vol lba k)) single
        (elim (Bool-cases (is_tag k.data_lba lba)) [
          | inl e ↦ rw (e) (
            coherent,
            tag_bytes disk vol (extent vol) k.data_lba lba k.databuf e coherent.data_tagged,
          )
          | inr e ↦ rw (e) (
              mark_data_lem disk vol k lba 1 (dev lba 1 k.databuf) coherent (sym single)
                (is_disk lba 1 k.databuf))
        ])
