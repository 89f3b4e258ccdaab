-- ===== src/Fat/Tests.antt =====
-- The theorems on the FAT driver at a small FAT16 volume with a file of two clusters.
use sscc_oslecture.Base.{
  ltb, leb, ◌==◌, if◌then◌else◌, get_or, ℕ, zero, suc, ◌+◌, ◌*◌, ◌%◌, ◌≤◌, ◌<◌, ◌≡◌, refl, Bool,
  true, ◌&&◌, none, some, List, [], ◌∷◌, arith,
}
use sscc_oslecture.Base.Int.{pos, negsuc}
use sscc_oslecture.Status.{Status, ok, err}
use sscc_oslecture.Fat.{
  fat16, Volume, Cache, Device, cluster_to_sector, read_fat, read_cluster, last_cluster, round16,
  round, follow, get_next_cluster,
}
use sscc_oslecture.Fat.Files.{
  File, Reader, copied, clip_len, advance, read_loop, read, Origin, seek,
}
use sscc_oslecture.Fat.Disk.{IsVolume, IsDisk, IsCoherent, IsCluster}
use sscc_oslecture.Fat.Walk.{nth_cluster, IsStep, IsChain, get_next_cluster_walks}
use sscc_oslecture.Fat.Stored.{IsStored, IsPlaced, IsReadTo}
use sscc_oslecture.Fat.Reading.{read-IsReadTo}
use sscc_oslecture.Fat.Seeking.{read_after, read-seek}
use sscc_oslecture.Fat.Failures.{IsHonest, IsReadCoherent, IsSeekCoherent, read-IsCoherent}
use sscc_oslecture.Libc.Strings.{first, strncmp}
use sscc_oslecture.Fat.Names.{lfn_ucs2_to_utf8}
use sscc_oslecture.Fat.Utf8.{decode, decode-lfn_ucs2_to_utf8}
use sscc_oslecture.Fat.Directory.{Dir, iter_directory}
use sscc_oslecture.Fat.RootListing.{IsRoot}
use sscc_oslecture.Fat.RootEntries.{AreOrdered, IsIterated, iter_directory-IsIterated}
use sscc_oslecture.Fat.Mount.{
  Blkdev, data_area, root_sectors, cluster_count, is_signed, probe_fsinfo, probe, mounted, fresh,
  mount,
}
use sscc_oslecture.Fat.Geometry.{IsBoot, IsGeometry}
use sscc_oslecture.Fat.Mounting.{mount-probe}
use sscc_oslecture.Fat.SeekErrors.{IsSeek, seek-IsSeek}

-- Sector 1 is the table, with 2 → 3 → end; sector 3 begins cluster 2.
abbrev bytes : ℕ → ℕ
bytes i =
    if ltb i 1024
    then (if i == 516 then 3 else (if leb 518 i && leb i 519 then 255 else 0))
    else i % 256

abbrev floppy : Device
floppy lba count buf = (ok tt, λ i. bytes (lba * 512 + i))

abbrev broken : Device
broken lba count buf = (err Status.hardware_failed, buf)

abbrev volume : Volume
volume = record {
  reserved_sectors = 1;
  sector_size = 512;
  cluster_size = 512;
  sectors_per_cluster = 1;
  fat_type = fat16;
  data_area_begin = 2;
  root_cluster = 0;
  root_sector_count = 1;
}

abbrev empty : Cache
empty = record { fat_lba = none; fatbuf = λ _. 0; data_lba = none; databuf = λ _. 0 }

abbrev file_of : ℕ → File
file_of size = record { size = size; head_cluster = 2; current_cluster = 2; cursor = 0 }

abbrev reader : Reader
reader = record { file = file_of 600; buf = λ _. 0; total_read_len = 0; cache = empty }

floppy-IsDisk : IsDisk bytes floppy
floppy-IsDisk lba count buf = λ i below. refl

broken-IsHonest : IsHonest bytes broken
broken-IsHonest lba count buf = refl

volume-IsVolume : IsVolume volume
volume-IsVolume = record {
  sector_512 = refl;
  cluster_sectors = refl;
  some_sectors = omega arith;
  reserved_u16 = omega arith;
}

empty-IsCoherent : IsCoherent bytes volume empty
empty-IsCoherent = record { fat_tagged = tt; data_tagged = tt }

two_clusters : (P : ℕ → Type 0) → P 2 → P 3 → (i : ℕ) → i ≤ 1 → P (nth_cluster bytes volume i 2)
unfolding nth_cluster
two_clusters P first second zero below = first
two_clusters P first second (suc zero) below = second
two_clusters P first second (suc (suc i)) below = absurd (omega arith)

file-IsStored : IsStored bytes volume (file_of 600)
file-IsStored = record {
  size_u32 = omega arith;
  clusters = λ i inside.
      two_clusters (IsCluster volume)
        (record { from_2 = omega arith; cluster_u32 = omega arith; sector_u32 = omega arith })
        (record { from_2 = omega arith; cluster_u32 = omega arith; sector_u32 = omega arith }) i
        (omega arith);
  chain = λ i inside. two_clusters (λ c. c ≤ 65524) (omega arith) (omega arith) i (omega arith);
}

start-IsPlaced : IsPlaced bytes volume (file_of 600)
unfolding nth_cluster
start-IsPlaced inside = refl

table-IsChain : IsChain bytes volume 2 1
table-IsChain = two_clusters (λ c. c ≤ 65524) (omega arith) (omega arith)

chain_ends : last_cluster fat16 < nth_cluster bytes volume 2 2
unfolding nth_cluster
chain_ends = omega arith

get_next_cluster_walks_example :
    IsStep bytes volume (nth_cluster bytes volume 1 2) (get_next_cluster floppy volume 1 2 empty)
get_next_cluster_walks_example =
    get_next_cluster_walks bytes floppy volume floppy-IsDisk volume-IsVolume 1 2 empty
      empty-IsCoherent table-IsChain

read-IsReadTo_example :
    IsReadTo bytes volume (file_of 600) (λ _. 0) 600 (read floppy volume 1000 reader)
read-IsReadTo_example =
    read-IsReadTo bytes floppy volume floppy-IsDisk volume-IsVolume reader file-IsStored
      empty-IsCoherent 1000 (omega arith) start-IsPlaced (omega arith)

read-seek_example :
    IsReadTo bytes volume
      (record (file_of 600) { cursor = 500 })
      (λ _. 0)
      50
      (read_after floppy volume 50
        (λ _. 0)
        (seek floppy volume (pos 500) Origin.seek_set (file_of 600) empty))
read-seek_example =
    read-seek bytes floppy volume floppy-IsDisk volume-IsVolume (file_of 600) file-IsStored 50
      (λ _. 0) 500 (omega arith) (omega arith) empty empty-IsCoherent

read-IsCoherent_example :
    IsReadCoherent bytes volume (read broken volume 100 reader)
    × IsSeekCoherent bytes volume (seek broken volume (pos 512) Origin.seek_cur reader.file empty)
read-IsCoherent_example =
    read-IsCoherent bytes broken volume broken-IsHonest volume-IsVolume reader 100 (pos 512)
      Origin.seek_cur empty-IsCoherent

seek-IsSeek_example :
    IsSeek (file_of 600) (seek broken volume (negsuc 0) Origin.seek_end (file_of 600) empty)
seek-IsSeek_example = seek-IsSeek broken volume (file_of 600) empty (negsuc 0) Origin.seek_end

-- Bytes that a read copies, and where a read behind the first cluster leaves the file.
read_bytes : (read floppy volume 600 reader).1.buf 513 ≡ bytes 2049
unfolding read read_loop read_cluster cluster_to_sector advance copied clip_len get_next_cluster
    follow round round16 read_fat
read_bytes = refl

abbrev long_name : List ℕ
long_name = 97 ∷ 233 ∷ 8364 ∷ []

abbrev name_buf : ℕ → ℕ
name_buf i = get_or long_name i 0

decode-lfn_ucs2_to_utf8_example : decode 0 0 (lfn_ucs2_to_utf8 name_buf true 63) ≡ long_name
decode-lfn_ucs2_to_utf8_example =
    decode-lfn_ucs2_to_utf8 name_buf long_name 63 (ground arith) (refl, (refl, (refl, refl)))
      (omega arith)

-- The root directory, from its second entry on: volume ids up to the ninth, which ends the list.
abbrev root : Dir
root = record {
  head_cluster = 0;
  current_cluster = 0;
  root_cluster = true;
  current_entry_index = 1;
  direntry = λ _. 0;
}

root-IsRoot : IsRoot volume root
root-IsRoot = record {
  sector_512 = refl;
  not_fat32 = refl;
  at_0 = refl;
  root_u16 = omega arith;
  area_u32 = omega arith;
}

root-AreOrdered : AreOrdered bytes volume
root-AreOrdered i inside attr = absurd (ground arith)

iter_directory-IsIterated_example :
    IsIterated bytes volume 1 (iter_directory floppy volume 2 (λ _. 0) root empty)
iter_directory-IsIterated_example =
    iter_directory-IsIterated bytes floppy volume (λ _. 0) root empty floppy-IsDisk root-IsRoot
      empty-IsCoherent (omega arith) root-AreOrdered

-- A boot sector of 512 bytes per sector, one sector per cluster, one table of 20 sectors, 16 root
-- entries and 5000 sectors.
abbrev fields : List (ℕ × ℕ)
fields =
    (12, 2)
    ∷ (13, 1)
    ∷ (14, 1)
    ∷ (16, 1)
    ∷ (17, 16)
    ∷ (19, 136)
    ∷ (20, 19)
    ∷ (22, 20)
    ∷ (54, 70)
    ∷ (55, 65)
    ∷ (56, 84)
    ∷ (57, 49)
    ∷ (58, 54)
    ∷ (59, 32)
    ∷ (60, 32)
    ∷ (61, 32)
    ∷ (510, 85)
    ∷ (511, 170)
    ∷ []

abbrev byte_of : List (ℕ × ℕ) → ℕ → ℕ
byte_of [] i = 0
byte_of ((at, value) ∷ list) i = let later = byte_of list i in if at == i then value else later

abbrev boot : ℕ → ℕ
boot = byte_of fields

abbrev drive : Blkdev
drive = record {
  interface = ok tt;
  block_size = ok 512;
  read_blocks = λ lba count buf. (ok tt, boot);
}

drive_accepted : probe (some drive) ≡ ok tt
unfolding probe is_signed strncmp probe_fsinfo cluster_count root_sectors data_area
drive_accepted = refl

abbrev all_small : List (ℕ × ℕ) → Bool
all_small [] = true
all_small ((at, value) ∷ list) = ltb value 256 && all_small list

byte_of-small : (list : List (ℕ × ℕ)) → all_small list ≡ true → (i : ℕ) → byte_of list i < 256
byte_of-small [] h i = omega arith
byte_of-small ((at, value) ∷ list) h i =
    let later = byte_of-small list (ground arith) i in ground arith

boot-IsBoot : IsBoot boot
unfolding root_sectors
boot-IsBoot = record {
  bytes = byte_of-small fields refl;
  sector_size = omega arith;
  cluster_size = omega arith;
  fits = omega arith;
  inside = omega arith;
}

mount-probe_example :
    (vol : Volume) × (mount (some drive) (ok tt) true true none 0 ≡ mounted vol (fresh none))
    × IsGeometry boot vol
mount-probe_example = mount-probe drive boot none 0 refl boot-IsBoot drive_accepted
