-- ===== src/Fat/Mount.antt =====
-- probe, mount and unmount of vellum/filesystem/fat/fat.c. A sector is the function of its bytes; its
-- fields stand at the places of struct fat_bpb_sector and struct fat_fsinfo in fat.h.
use sscc_oslecture.Base.{
  ltb, leb, ◌==◌, if◌then◌else◌, add32, sub32, ℕ, ◌+◌, ◌*◌, ◌/◌, ◌%◌, Bool, not, ◌&&◌, ◌||◌, Option,
  none, some, List, [], ◌∷◌,
}
use sscc_oslecture.Status.{Status, Result, ok, err}
use sscc_oslecture.Libc.Strings.{strncmp}
use sscc_oslecture.Filesystem.{is_zero}
use sscc_oslecture.Fat.{
  FatType, fat12, fat16, fat32, Volume, Cache, Done, Device, mul32, half_at, word_at, is_fat32,
}

-- The block device: get_interface, get_block_size and read of its driver.
pub record Blkdev : Type 0 where
  pub interface : Done
  pub block_size : Result ℕ
  pub read_blocks : Device

module _ (bpb : ℕ → ℕ) where
  abbrev pub bytes_per_sector : ℕ
  bytes_per_sector = half_at bpb 11

  abbrev pub root_entry_count : ℕ
  root_entry_count = half_at bpb 17

  abbrev pub fat_size : ℕ
  fat_size = if half_at bpb 22 == 0 then word_at bpb 36 else half_at bpb 22

  abbrev pub total_sector_count : ℕ
  total_sector_count = if half_at bpb 19 == 0 then word_at bpb 32 else half_at bpb 19

  -- reserved_sector_count and fat_count
  unfoldable pub data_area : ℕ
  data_area = add32 (half_at bpb 14) (mul32 (bpb 16) fat_size)

  -- (root_entry_count * 32 + (sector_size - 1)) / sector_size, in 32 bits
  unfoldable pub root_sectors : ℕ
  root_sectors = add32 (root_entry_count * 32) (sub32 bytes_per_sector 1) / bytes_per_sector

  -- The clusters of the data area, for a root directory of so many sectors. No theorem is about a
  -- sector or a cluster of size 0, by which the source divides all the same.
  unfoldable pub cluster_count : ℕ → ℕ
  cluster_count root = sub32 (sub32 total_sector_count data_area) root / bpb 13

  -- The 8 bytes of fs_type at a place, against a name of 8 characters.
  abbrev pub is_type : ℕ → List ℕ → Bool
  is_type at name = is_zero (
      strncmp
        (bpb at
          ∷ bpb (at + 1)
          ∷ bpb (at + 2)
          ∷ bpb (at + 3)
          ∷ bpb (at + 4)
          ∷ bpb (at + 5)
          ∷ bpb (at + 6)
          ∷ bpb (at + 7)
          ∷ [])
        name 8)

  -- FAT_BPB_SIGNATURE, and FAT12_FSTYPE_STR, FAT16_FSTYPE_STR or FAT32_FSTYPE_STR
  unfoldable pub is_signed : Bool
  is_signed =
      (half_at bpb 510 == 43605)
      && (is_type 54 (70 ∷ 65 ∷ 84 ∷ 49 ∷ 50 ∷ 32 ∷ 32 ∷ 32 ∷ [])
          || is_type 54 (70 ∷ 65 ∷ 84 ∷ 49 ∷ 54 ∷ 32 ∷ 32 ∷ 32 ∷ [])
          || is_type 82 (70 ∷ 65 ∷ 84 ∷ 51 ∷ 50 ∷ 32 ∷ 32 ∷ 32 ∷ []))

-- FAT_FSINFO_SIGNATURE1, 2 and 3
unfoldable pub is_fsinfo : (ℕ → ℕ) → Bool
is_fsinfo fsinfo =
    (word_at fsinfo 0 == 1096897106)
    && (word_at fsinfo 484 == 1631679090)
    && (half_at fsinfo 510 == 43605)

abbrev pub then_ok {ℓ} : {A : Type ℓ} → Done → Result A → Result A
then_ok (ok _) next = next
then_ok (err e) next = err e

abbrev pub then_sector {ℓ} : {A : Type ℓ} → Done × (ℕ → ℕ) → ((ℕ → ℕ) → Result A) → Result A
then_sector (ok _, bytes) next = next bytes
then_sector (err e, bytes) next = err e

-- get_block_size, which must be 512.
abbrev pub check_block {ℓ} : {A : Type ℓ} → Result ℕ → Result A → Result A
check_block (ok size) next = if size == 512 then next else err Status.size_check_failure
check_block (err e) next = err e

-- The FSINFO sector of FAT32, which probe checks.
unfoldable pub probe_fsinfo : Blkdev → (ℕ → ℕ) → Done
probe_fsinfo dev bpb =
    if ltb 65524 (cluster_count bpb (root_sectors bpb))
    then then_sector (dev.read_blocks (half_at bpb 48) 1 (λ _. 0))
        (λ fsinfo. if is_fsinfo fsinfo then ok tt else err Status.invalid_signature)
    else ok tt

-- probe; `none` is no device.
unfoldable pub probe : Option Blkdev → Done
probe none = err Status.invalid_value
probe (some dev) = then_ok dev.interface (
    check_block dev.block_size (
      then_sector (dev.read_blocks 0 1 (λ _. 0))
        (λ bpb. if is_signed bpb then probe_fsinfo dev bpb else err Status.invalid_signature)))

-- FT_FAT12, FT_FAT16 or FT_FAT32
unfoldable pub type_for : ℕ → FatType
type_for count = if leb count 4084 then fat12 else if leb count 65524 then fat16 else fat32

-- The fields of struct fat_data; root_sector_count is a uint16_t. root_cluster is set for FAT32 only.
unfoldable pub volume_of : (ℕ → ℕ) → ℕ → Volume
volume_of bpb garbage =
    let root : ℕ = root_sectors bpb % 65536 in
    let type : FatType = type_for (cluster_count bpb root) in
    record {
      reserved_sectors = half_at bpb 14;
      sector_size = bytes_per_sector bpb;
      cluster_size = bytes_per_sector bpb * bpb 13;
      sectors_per_cluster = bpb 13;
      fat_type = type;
      data_area_begin = data_area bpb;
      root_cluster = elim type [ fat32 ↦ word_at bpb 44 | _ ↦ garbage ];
      root_sector_count = root;
    }

-- How mount ends: with a file system, with a failure after which everything it made is released, or
-- with one that returns at once and leaves the file system, its data and its buffer.
pub data Mounted : Type 0 where
  mounted : Volume → Cache → Mounted
  failed left : Status → Mounted

-- The buffers of a new file system. `stale` is fatbuf_lba, which mount does not set.
abbrev pub fresh : Option ℕ → Cache
fresh stale = record { fat_lba = stale; fatbuf = λ _. 0; data_lba = none; databuf = λ _. 0 }

abbrev pub mount_ok : Done → Mounted → Mounted
mount_ok (ok _) next = next
mount_ok (err e) next = failed e

abbrev pub mount_block : Result ℕ → Mounted → Mounted
mount_block (ok size) next = if size == 512 then next else failed Status.size_check_failure
mount_block (err e) next = failed e

abbrev pub mount_sector : Done × (ℕ → ℕ) → ((ℕ → ℕ) → Mounted) → Mounted
mount_sector (ok _, bytes) next = next bytes
mount_sector (err e, bytes) next = failed e

-- The FSINFO sector of FAT32. The free clusters it gives are used nowhere.
abbrev pub mount_fsinfo : Done × (ℕ → ℕ) → Mounted → Mounted
mount_fsinfo (ok _, bytes) next = next
mount_fsinfo (err e, bytes) next = left e

unfoldable pub finish : Blkdev → (ℕ → ℕ) → Volume → Cache → Mounted
finish dev bpb vol k =
    if is_fat32 vol.fat_type
    then mount_fsinfo (dev.read_blocks (half_at bpb 48) 1 (λ _. 0)) (mounted vol k)
    else mounted vol k

-- mount. `created` is what VlFs_Create returns, `has_data` and `has_buf` whether malloc succeeds.
unfoldable pub mount : Option Blkdev → Done → Bool → Bool → Option ℕ → ℕ → Mounted
mount none created has_data has_buf stale garbage = failed Status.invalid_value
mount (some dev) created has_data has_buf stale garbage = mount_ok dev.interface (
    mount_block dev.block_size (
      mount_ok created (
        if not has_data
        then failed Status.unknown_error
        else mount_sector (dev.read_blocks 0 1 (λ _. 0)) (λ bpb.
          if not (is_signed bpb)
          then failed Status.invalid_signature
          else if not has_buf
          then failed Status.unknown_error
          else finish dev bpb (volume_of bpb garbage) (fresh stale)))))
