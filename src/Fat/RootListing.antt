-- ===== src/Fat/RootListing.antt =====
-- iter_directory over all of the root directory of FAT12 and FAT16, vellum/filesystem/fat/fat.c.
use sscc_oslecture.Base.{
  leb, leb→le, Bool-cases, add32, ℕ, zero, suc, ◌+◌, ◌-◌, ◌*◌, ◌/◌, ◌%◌, ◌^◌, ◌≤◌, ◌<◌, ◌≡◌, refl,
  subst, inl, inr, Bool, true, false, arith,
}
use sscc_oslecture.Status.{ok, err}
use sscc_oslecture.Fat.{
  FatType, fat12, fat16, fat32, Volume, Cache, Done, Device, read_sector, is_fat32,
}
use sscc_oslecture.Fat.Disk.{
  HasBytes, IsDisk, first_area, first_sector, IsCoherent, IsDataRead, read_sector_lem,
}
use sscc_oslecture.Fat.Directory.{
  Dir, Scan, scan, Iterated, then_block, in_place, is_rootdir, entries_per_block, fetch_sector,
  fetch, iter_loop, iter_directory,
}
use sscc_oslecture.Fat.Scanning.{IsScanned, scan-IsScanned}
use sscc_oslecture.Fat.RootDirectory.{IsListed, after_scan_lem}

-- The root directory of a volume with sectors of 512 bytes, below the sectors of the clusters.
pub record IsRoot (vol : Volume) (d : Dir) : Type 0 where
  pub sector_512 : vol.sector_size ≡ 512
  pub not_fat32 : is_fat32 vol.fat_type ≡ false
  pub at_0 : d.head_cluster ≡ 0
  pub root_u16 : vol.root_sector_count < 65536
  pub area_u32 : vol.data_area_begin + vol.root_sector_count < 2 ^ 32

area_lem :
    (t : FatType) (begin root : ℕ) → is_fat32 t ≡ false → first_area t begin root ≡ begin + root
area_lem fat12 begin root h = refl
area_lem fat16 begin root h = refl
area_lem fat32 begin root h = absurd (ground (arith, h))

module _ (vol : Volume) where
  root_lem : (d : Dir) → IsRoot vol d → is_rootdir vol d ≡ true
  unfolding is_rootdir
  root_lem d root = rw (root.not_fat32, root.at_0) refl

  per_block_lem : (d : Dir) → IsRoot vol d → entries_per_block vol d ≡ 16
  unfolding entries_per_block
  per_block_lem d root = rw (root_lem d root, root.sector_512) refl

  moved-IsRoot :
      (d : Dir) (i : ℕ) → IsRoot vol d → IsRoot vol (record d { current_entry_index = i })
  moved-IsRoot d i root = record {
    sector_512 = root.sector_512;
    not_fat32 = root.not_fat32;
    at_0 = root.at_0;
    root_u16 = root.root_u16;
    area_u32 = root.area_u32;
  }

module _ (disk : ℕ → ℕ) (vol : Volume) where
  then_sector_lem :
      (lo lba : ℕ) (d : Dir) (x : Done × Cache) (next : Dir → Cache → Iterated)
      → IsDataRead disk vol lba 512 x
      → ((k : Cache)
          → IsCoherent disk vol k
          → HasBytes disk lba 512 k.databuf
          → IsListed disk vol lo (next d k))
      → IsListed disk vol lo (then_block (in_place d x) next)
  then_sector_lem lo lba d (ok _, k) next (coherent, bytes) go = go k coherent bytes
  then_sector_lem lo lba d (err e, k) next failed go = elim failed [ ]

module _ (disk : ℕ → ℕ) (dev : Device) (vol : Volume) (is_disk : IsDisk disk dev) where
  module _ (d : Dir) (k : Cache) (root : IsRoot vol d) (coherent : IsCoherent disk vol k)
      (fits : d.current_entry_index ≤ vol.root_sector_count * 16)
      (next : Dir → Cache → Iterated) where
    -- The fetch of a block, or the end of the directory.
    fetch_lem :
        ((l : Cache)
          → IsCoherent disk vol l
          → HasBytes disk (vol.data_area_begin + d.current_entry_index / 16) 512 l.databuf
          → d.current_entry_index / 16 < vol.root_sector_count
          → IsListed disk vol d.current_entry_index (next d l))
        → IsListed disk vol d.current_entry_index (then_block (fetch dev vol d k) next)
    unfolding fetch fetch_sector
    fetch_lem go =
        let b : ℕ = d.current_entry_index / 16 in
        let count : ℕ = vol.root_sector_count in
        let area = root.area_u32 in
        rw (root_lem vol d root, per_block_lem vol d root)
          (elim (Bool-cases (leb count b)) [
            | inl h ↦
                let past : count ≤ b = leb→le count b h in
                rw (h) (
                  refl,
                  record {
                    from_lo = omega arith;
                    run = λ i above below. absurd (omega arith);
                    ends = inr (omega arith);
                  },
                  coherent,
                )
            | inr h ↦
                let below : b < count = ground arith in
                let lba : ℕ = vol.data_area_begin + b in
                let sum : add32 vol.data_area_begin b ≡ lba = omega arith in
                let low : lba < first_sector vol =
                  rw (area_lem vol.fat_type vol.data_area_begin count root.not_fat32)
                    (omega arith) in
                rw (h, sum)
                  (then_sector_lem disk vol d.current_entry_index lba d (read_sector dev vol lba k)
                    next (read_sector_lem disk dev vol is_disk k coherent lba low)
                    (λ l held bytes. go l held bytes below))
          ])

  iter_loop_lem :
      (fuel : ℕ) (is_lfn : Bool) (lfn : ℕ → ℕ) (d : Dir) (k : Cache)
      → IsRoot vol d
      → IsCoherent disk vol k
      → d.current_entry_index ≤ vol.root_sector_count * 16
      → vol.root_sector_count < d.current_entry_index / 16 + fuel
      → IsListed disk vol d.current_entry_index (iter_loop dev vol fuel is_lfn lfn d k)
  unfolding iter_loop
  iter_loop_lem zero is_lfn lfn d k root coherent fits enough = absurd (omega arith)
  iter_loop_lem (suc fuel) is_lfn lfn d k root coherent fits enough =
      let lo : ℕ = d.current_entry_index in
      let b : ℕ = lo / 16 in
      let hi : ℕ = b * 16 + 16 in
      let u16 = root.root_u16 in
      fetch_lem d k root coherent fits _ (λ l held bytes below.
        let s : Scan = record { index = lo; is_lfn = is_lfn; lfn = lfn } in
        let scanned : IsScanned 16 l.databuf lo hi (scan 16 l.databuf 16 s) =
          subst (λ n. IsScanned 16 l.databuf lo n (scan 16 l.databuf 16 s)) (omega arith)
            (scan-IsScanned 16 l.databuf 16 (16 - lo % 16) s (omega arith) (omega arith)
              (omega arith) (omega arith) (omega arith)) in
        rw (per_block_lem vol d root) (
          after_scan_lem disk vol d l b held bytes lo hi (scan 16 l.databuf 16 s) _ (omega arith)
            (omega arith) refl (omega arith) scanned
            (λ t.
              iter_loop_lem fuel t.is_lfn t.lfn (record d { current_entry_index = hi }) l
                (moved-IsRoot vol d hi root) held (omega arith) (omega arith))))

  -- On a disk that can be read, with buffers that agree with it, iter_directory in the root directory
  -- of FAT12 or FAT16 returns after at most root_sector_count + 1 blocks. It passes over deleted entries,
  -- pieces of long names and volume ids. It finds the first file or directory at or behind
  -- current_entry_index, moves behind it, and stores its 32 bytes if it stands in the first sector; or it
  -- returns END_OF_LIST, at an entry that ends the list or at the end of the directory.
  pub iter_directory-IsListed :
      (garbage : ℕ → ℕ) (d : Dir) (k : Cache)
      → IsRoot vol d
      → IsCoherent disk vol k
      → d.current_entry_index ≤ vol.root_sector_count * 16
      → IsListed disk vol d.current_entry_index
          (iter_directory dev vol (suc vol.root_sector_count) garbage d k)
  unfolding iter_directory
  iter_directory-IsListed garbage d k root coherent fits =
      iter_loop_lem (suc vol.root_sector_count) false garbage d k root coherent fits (omega arith)
