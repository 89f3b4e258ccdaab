-- ===== src/Fat.antt =====
-- The FAT driver, vellum/filesystem/fat/fat.c: the mounted volume, its two sector buffers, the places of
-- clusters, and the steps along a chain of clusters.
pub mod Files
pub mod Names
pub mod Utf8
pub mod Directory
pub mod Opening
pub mod Scanning
pub mod Mount
pub mod Geometry
pub mod Mounting
pub mod RootDirectory
pub mod RootListing
pub mod RootEntries
pub mod Disk
pub mod Walk
pub mod Stored
pub mod Seeking
pub mod Reading
pub mod Failures
pub mod SeekErrors
mod Tests
use sscc_oslecture.Base.{
  ltb, ◌==◌, if◌then◌else◌, word_mod, add32, sub32, ℕ, zero, suc, ◌+◌, ◌-◌, ◌*◌, ◌/◌, ◌%◌, Bool,
  true, false, Option, none, some,
}
use sscc_oslecture.Status.{Status, invalid_value, end_of_list, Result, ok, err}

pub data FatType : Type 0 where
  fat12 fat16 fat32 : FatType

-- The fields of struct fat_data that mount sets once.
pub record Volume : Type 0 where
  pub reserved_sectors : ℕ
  pub sector_size : ℕ
  pub cluster_size : ℕ
  pub sectors_per_cluster : ℕ
  pub fat_type : FatType
  pub data_area_begin : ℕ
  pub root_cluster : ℕ
  pub root_sector_count : ℕ

-- The buffers of struct fat_data, each with the number of its first sector; `none` is -1.
pub record Cache : Type 0 where
  pub fat_lba : Option ℕ
  pub fatbuf : ℕ → ℕ
  pub data_lba : Option ℕ
  pub databuf : ℕ → ℕ

-- STATUS_SUCCESS of a function that stores no value.
abbrev pub Done : Type 0
Done = Result (Unit {0})

-- `blkif->read`: the first sector, the number of sectors and the buffer.
abbrev pub Device : Type 0
Device = ℕ → ℕ → (ℕ → ℕ) → Done × (ℕ → ℕ)

abbrev pub is_tag : Option ℕ → ℕ → Bool
is_tag none lba = false
is_tag (some tag) lba = tag == lba

-- A buffer is marked with its sector when the device has filled it.
abbrev pub mark_fat : Cache → ℕ → Done × (ℕ → ℕ) → Done × Cache
mark_fat k lba (ok _, buf) = (ok tt, record k { fat_lba = some lba; fatbuf = buf })
mark_fat k lba (err e, buf) = (err e, record k { fatbuf = buf })

abbrev pub mark_data : Cache → ℕ → Done × (ℕ → ℕ) → Done × Cache
mark_data k lba (ok _, buf) = (ok tt, record k { data_lba = some lba; databuf = buf })
mark_data k lba (err e, buf) = (err e, record k { databuf = buf })

abbrev pub mul32 : ℕ → ℕ → ℕ
mul32 a b = a * b % word_mod

-- The last sums of fatcluster_to_sector12_16 and fatcluster_to_sector32.
abbrev pub area_sector : FatType → ℕ → ℕ → ℕ → ℕ
area_sector fat32 area begin root = add32 area begin
area_sector _ area begin root = add32 (add32 area begin) root

module _ (vol : Volume) where
  -- fatcluster_to_sector
  unfoldable pub cluster_to_sector : ℕ → ℕ
  cluster_to_sector cluster =
      area_sector (vol.fat_type) (mul32 (sub32 cluster 2) vol.sectors_per_cluster)
        vol.data_area_begin vol.root_sector_count

  -- sector_to_cluster12_16 and sector_to_cluster32
  unfoldable pub sector_to_cluster : ℕ → ℕ
  sector_to_cluster lba = elim (vol.fat_type) [
    | fat32 ↦ (lba - vol.data_area_begin) / vol.sectors_per_cluster + 2
    | _ ↦ (lba - vol.data_area_begin - vol.root_sector_count) / vol.sectors_per_cluster + 2
  ]

module _ (dev : Device) (vol : Volume) where
  unfoldable pub read_fat : ℕ → Cache → Done × Cache
  read_fat fat_sector k =
      let lba = add32 vol.reserved_sectors fat_sector in
      if is_tag k.fat_lba lba then (ok tt, k) else mark_fat k lba (dev lba 1 k.fatbuf)

  unfoldable pub read_sector : ℕ → Cache → Done × Cache
  read_sector lba k =
      if is_tag k.data_lba lba then (ok tt, k) else mark_data k lba (dev lba 1 k.databuf)

  unfoldable pub read_cluster : ℕ → Cache → Done × Cache
  read_cluster cluster k =
      let lba = cluster_to_sector vol cluster in
      if is_tag k.data_lba lba
      then (ok tt, k)
      else mark_data k lba (dev lba vol.sectors_per_cluster k.databuf)

-- A failed read leaves `*cluster` as it is.
abbrev pub then_entry : ℕ → Done × Cache → (Cache → Done × (ℕ × Cache)) → Done × (ℕ × Cache)
then_entry cluster (ok _, k) next = next k
then_entry cluster (err e, k) next = (err e, (cluster, k))

-- The two bytes of an entry of 12 bits. The bits that `|` joins are disjoint.
abbrev pub value12 : ℕ → ℕ → ℕ → ℕ
value12 cluster b0 b1 = if cluster % 2 == 1 then b0 / 16 + b1 * 16 else b0 + b1 % 16 * 256

-- Little-endian words at a place of a buffer.
abbrev pub half_at : (ℕ → ℕ) → ℕ → ℕ
half_at buf i = buf i + buf (i + 1) * 256

abbrev pub word_at : (ℕ → ℕ) → ℕ → ℕ
word_at buf i = half_at buf i + half_at buf (i + 2) * 65536

abbrev pub is_fat32 : FatType → Bool
is_fat32 fat32 = true
is_fat32 _ = false

-- FAT12_MAX_CLUSTER, FAT16_MAX_CLUSTER and FAT32_MAX_CLUSTER
abbrev pub last_cluster : FatType → ℕ
last_cluster fat12 = 4084
last_cluster fat16 = 65524
last_cluster fat32 = 268435446

module _ (dev : Device) (vol : Volume) where
  -- A round of get_next_cluster12; the indices are uint16_t.
  unfoldable pub round12 : ℕ → Cache → Done × (ℕ × Cache)
  round12 cluster k =
      let byte : ℕ = (cluster + cluster / 2) % 65536 in
      let sector : ℕ = byte / vol.sector_size in
      let index : ℕ = byte % vol.sector_size in
      then_entry cluster (read_fat dev vol sector k) (λ k.
        if index == vol.sector_size - 1
        then then_entry cluster (read_fat dev vol (sector + 1) k)
            (λ l. (ok tt, (value12 cluster (k.fatbuf index) (l.fatbuf 0), l)))
        else (ok tt, (value12 cluster (k.fatbuf index) (k.fatbuf (index + 1)), k)))

  -- A round of get_next_cluster16
  unfoldable pub round16 : ℕ → Cache → Done × (ℕ × Cache)
  round16 cluster k =
      let per_sector : ℕ = vol.sector_size / 2 in
      then_entry cluster (read_fat dev vol (cluster / per_sector) k)
        (λ k. (ok tt, (half_at k.fatbuf (cluster % per_sector * 2), k)))

  -- A round of get_next_cluster32
  unfoldable pub round32 : ℕ → Cache → Done × (ℕ × Cache)
  round32 cluster k =
      let per_sector : ℕ = vol.sector_size / 4 in
      then_entry cluster (read_fat dev vol (cluster / per_sector) k)
        (λ k. (ok tt, (word_at k.fatbuf (cluster % per_sector * 4) % 268435456, k)))

  unfoldable pub round : FatType → ℕ → Cache → Done × (ℕ × Cache)
  round fat12 = round12
  round fat16 = round16
  round fat32 = round32

module _ (vol : Volume) where
  -- The end of a round: a cluster past the last one ends the walk.
  abbrev pub then_next : Done × (ℕ × Cache) → (ℕ → Cache → Done × (ℕ × Cache)) → Done × (ℕ × Cache)
  then_next (err e, at) next = (err e, at)
  then_next (ok _, (cluster, k)) next =
      if ltb (last_cluster vol.fat_type) cluster
      then (err Status.end_of_list, (cluster, k))
      else next cluster k

module _ (dev : Device) (vol : Volume) where
  -- The rounds of get_next_cluster12, 16 and 32.
  unfoldable pub follow : ℕ → ℕ → Cache → Done × (ℕ × Cache)
  follow zero cluster k = (ok tt, (cluster, k))
  follow (suc count) cluster k =
      then_next vol (round dev vol vol.fat_type cluster k) (λ cluster k. follow count cluster k)

  unfoldable pub get_next_cluster : ℕ → ℕ → Cache → Done × (ℕ × Cache)
  get_next_cluster count cluster k =
      if ltb (last_cluster vol.fat_type) cluster
      then (err Status.invalid_value, (cluster, k))
      else follow count cluster k
