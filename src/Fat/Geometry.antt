-- ===== src/Fat/Geometry.antt =====
-- The geometry that mount of vellum/filesystem/fat/fat.c takes from the boot sector.
use sscc_oslecture.Base.{
  leb, ◌==◌, leb→le, Bool-cases, add32, sub32, ℕ, ◌+◌, ◌-◌, ◌*◌, ◌/◌, ◌%◌, ◌^◌, ◌≤◌, ◌<◌, ◌≡◌, refl,
  sym, ap, inl, inr, true, arith,
}
use native.Mathlib.Nat.{div-add-mod', mod-lt}
use sscc_oslecture.Fat.{FatType, fat12, fat16, fat32, Volume, half_at, is_fat32}
use sscc_oslecture.Fat.Mount.{
  fat_size, total_sector_count, data_area, root_sectors, cluster_count, type_for, volume_of,
}

-- The bytes of a boot sector, no field of which that is divided by is 0. Its reserved sectors, tables
-- and root directory lie inside of its sectors.
pub record IsBoot (bpb : ℕ → ℕ) : Type 0 where
  pub bytes : (i : ℕ) → bpb i < 256
  pub sector_size : 0 < bpb 11 + bpb 12 * 256
  pub cluster_size : 0 < bpb 13
  pub fits : root_sectors bpb < 65536
  pub inside :
      bpb 14 + bpb 15 * 256 + bpb 16 * fat_size bpb + root_sectors bpb ≤ total_sector_count bpb

-- The type of a volume by the number of its clusters.
abbrev pub IsType : ℕ → FatType → Type 0
IsType count fat12 = count < 4085
IsType count fat16 = (4085 ≤ count) × (count < 65525)
IsType count fat32 = 65525 ≤ count

-- The geometry that the fields of a boot sector give: the root directory has as few sectors as hold its
-- entries of 32 bytes, and `count` clusters are as many as what is left of the sectors holds.
pub record IsGeometry (bpb : ℕ → ℕ) (vol : Volume) : Type 0 where
  pub reserved : vol.reserved_sectors ≡ bpb 14 + bpb 15 * 256
  pub sector : vol.sector_size ≡ bpb 11 + bpb 12 * 256
  pub per_cluster : vol.sectors_per_cluster ≡ bpb 13
  pub cluster : vol.cluster_size ≡ (bpb 11 + bpb 12 * 256) * bpb 13
  pub tables : vol.data_area_begin ≡ bpb 14 + bpb 15 * 256 + bpb 16 * fat_size bpb
  pub root_holds : (bpb 17 + bpb 18 * 256) * 32 ≤ vol.root_sector_count * (bpb 11 + bpb 12 * 256)
  pub root_least :
      vol.root_sector_count * (bpb 11 + bpb 12 * 256)
      < (bpb 17 + bpb 18 * 256) * 32 + (bpb 11 + bpb 12 * 256)
  pub count : ℕ
  pub clusters_fit :
      count * bpb 13 + vol.data_area_begin + vol.root_sector_count ≤ total_sector_count bpb
  pub clusters_most :
      total_sector_count bpb < count * bpb 13 + bpb 13 + vol.data_area_begin + vol.root_sector_count
  pub type : IsType count vol.fat_type
  pub root_cluster :
      is_fat32 vol.fat_type ≡ true
      → vol.root_cluster ≡ bpb 44 + bpb 45 * 256 + (bpb 46 + bpb 47 * 256) * 65536

type_for-IsType : (count : ℕ) → IsType count (type_for count)
unfolding type_for
type_for-IsType count = elim (Bool-cases (leb count 4084)) [
  | inl small ↦ rw small (let low = leb→le count 4084 small in omega arith)
  | inr large ↦ elim (Bool-cases (leb count 65524)) [
    | inl medium ↦
        rw (large, medium) (ground arith, (let low = leb→le count 65524 medium in omega arith))
    | inr more ↦ rw (large, more) (ground arith)
  ]
]

floor_lem : (n d : ℕ) → 0 < d → (n / d * d ≤ n) × (n < n / d * d + d)
floor_lem n d h =
    let split : n / d * d + n % d ≡ n = div-add-mod' n d in
    let small : n % d < d = mod-lt n h in (omega arith, omega arith)

ceil_lem : (n d r : ℕ) → 0 < d → r ≡ (n + (d - 1)) / d → (n ≤ r * d) × (r * d < n + d)
ceil_lem n d r h e =
    let (low, high) = floor_lem (n + (d - 1)) d h in
    let same : (n + (d - 1)) / d * d ≡ r * d = ap (λ k. k * d) (sym e) in (omega arith, omega arith)

root_cluster_lem :
    (t : FatType) (cluster garbage : ℕ)
    → is_fat32 t ≡ true
    → elim t [ fat32 ↦ cluster | _ ↦ garbage ] ≡ cluster
root_cluster_lem fat12 cluster garbage h = absurd (ground arith)
root_cluster_lem fat16 cluster garbage h = absurd (ground arith)
root_cluster_lem fat32 cluster garbage h = refl

sum_lem : (x p r total : ℕ) → x + p + r ≤ total → total < 2 ^ 32 → add32 x (p % 2 ^ 32) ≡ x + p
sum_lem x p r total h small = omega arith

module _ (bpb : ℕ → ℕ) (b : IsBoot bpb) where
  total_u32 : total_sector_count bpb < 2 ^ 32
  total_u32 = elim (Bool-cases (half_at bpb 19 == 0)) [
    | inl long ↦ rw long (omega (arith, b.bytes 32, b.bytes 33, b.bytes 34, b.bytes 35))
    | inr short ↦ rw short (omega (arith, b.bytes 19, b.bytes 20))
  ]

  data_area_lem : data_area bpb ≡ bpb 14 + bpb 15 * 256 + bpb 16 * fat_size bpb
  unfolding data_area
  data_area_lem =
      sum_lem (half_at bpb 14) (bpb 16 * fat_size bpb) (root_sectors bpb) (total_sector_count bpb)
        b.inside total_u32

  root_sectors_lem :
      root_sectors bpb
      ≡ ((bpb 17 + bpb 18 * 256) * 32 + (bpb 11 + bpb 12 * 256 - 1)) / (bpb 11 + bpb 12 * 256)
  unfolding root_sectors
  root_sectors_lem =
      let sum : add32 ((bpb 17 + bpb 18 * 256) * 32) (sub32 (bpb 11 + bpb 12 * 256) 1)
          ≡ (bpb 17 + bpb 18 * 256) * 32 + (bpb 11 + bpb 12 * 256 - 1) =
        omega (arith, b.sector_size, b.bytes 11, b.bytes 12, b.bytes 17, b.bytes 18) in
      ap (λ n. n / (bpb 11 + bpb 12 * 256)) sum

  cluster_count_lem :
      cluster_count bpb (root_sectors bpb)
      ≡ (total_sector_count bpb - data_area bpb - root_sectors bpb) / bpb 13
  unfolding cluster_count
  cluster_count_lem =
      let left : sub32 (sub32 (total_sector_count bpb) (data_area bpb)) (root_sectors bpb)
          ≡ total_sector_count bpb - data_area bpb - root_sectors bpb =
        left_lem (total_sector_count bpb) (data_area bpb) (root_sectors bpb) room total_u32 in
      ap (λ n. n / bpb 13) left
    where
      room : data_area bpb + root_sectors bpb ≤ total_sector_count bpb
      room = rw data_area_lem b.inside

      left_lem : (t d r : ℕ) → d + r ≤ t → t < 2 ^ 32 → sub32 (sub32 t d) r ≡ t - d - r
      left_lem t d r h small = omega arith

  pub volume_of-IsGeometry : (garbage : ℕ) → IsGeometry bpb (volume_of bpb garbage)
  unfolding volume_of
  volume_of-IsGeometry garbage = record {
    reserved = refl;
    sector = refl;
    per_cluster = refl;
    cluster = refl;
    tables = data_area_lem;
    root_holds = rw same (ceil.0);
    root_least = rw same (ceil.1);
    count = cluster_count bpb (root_sectors bpb % 65536);
    clusters_fit = rw same fit;
    clusters_most = rw same most;
    type = type_for-IsType (cluster_count bpb (root_sectors bpb % 65536));
    root_cluster =
        root_cluster_lem (type_for (cluster_count bpb (root_sectors bpb % 65536))) _ garbage;
  }
    where
      same : root_sectors bpb % 65536 ≡ root_sectors bpb
      same = let fits = b.fits in omega arith

      ceil :
          ((bpb 17 + bpb 18 * 256) * 32 ≤ root_sectors bpb * (bpb 11 + bpb 12 * 256))
          × (root_sectors bpb * (bpb 11 + bpb 12 * 256)
              < (bpb 17 + bpb 18 * 256) * 32 + (bpb 11 + bpb 12 * 256))
      ceil = ceil_lem _ _ (root_sectors bpb) b.sector_size root_sectors_lem

      room : data_area bpb + root_sectors bpb ≤ total_sector_count bpb
      room = rw data_area_lem b.inside

      floor :
          (cluster_count bpb (root_sectors bpb) * bpb 13
            ≤ total_sector_count bpb - data_area bpb - root_sectors bpb)
          × (total_sector_count bpb - data_area bpb - root_sectors bpb
              < cluster_count bpb (root_sectors bpb) * bpb 13 + bpb 13)
      floor = rw cluster_count_lem (floor_lem _ (bpb 13) b.cluster_size)

      fit :
          cluster_count bpb (root_sectors bpb) * bpb 13 + data_area bpb + root_sectors bpb
          ≤ total_sector_count bpb
      fit = let (low, high) = floor in omega (arith, room)

      most :
          total_sector_count bpb
          < cluster_count bpb (root_sectors bpb) * bpb 13
            + bpb 13
            + data_area bpb
            + root_sectors bpb
      most = let (low, high) = floor in omega (arith, room)
