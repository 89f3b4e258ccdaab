-- ===== src/Fat/Mounting.antt =====
-- mount after probe, vellum/filesystem/fat/fat.c, and what a mounted volume gives the other functions.
use sscc_oslecture.Base.{
  ltb, leb, ◌==◌, if◌then◌else◌, lt→ltb, leb→le, ltb-false, ==_iff, Bool-cases, ℕ, ◌%◌, ◌≤◌, ◌<◌,
  ◌≡◌, refl, ap, inl, inr, Bool, true, false, Option, some, arith,
}
use sscc_oslecture.Status.{Status, Result, ok, err}
use sscc_oslecture.Fat.{Volume, Done, half_at, is_fat32}
use sscc_oslecture.Fat.Mount.{
  Blkdev, root_sectors, cluster_count, is_signed, then_ok, then_sector, check_block, probe_fsinfo,
  probe, type_for, volume_of, Mounted, mounted, fresh, mount_fsinfo, finish, mount,
}
use sscc_oslecture.Fat.Geometry.{IsBoot, IsGeometry, volume_of-IsGeometry}

-- What a success of each step of probe says.
then_ok_inv : (x y : Done) → then_ok x y ≡ ok tt → (x ≡ ok tt) × (y ≡ ok tt)
then_ok_inv (ok _) y h = (refl, h)
then_ok_inv (err e) y h = absurd (cc)

check_block_inv : (x : Result ℕ) (y : Done) → check_block x y ≡ ok tt → (x ≡ ok 512) × (y ≡ ok tt)
check_block_inv (ok size) y h = elim (Bool-cases (size == 512)) [
  | inl e ↦ (ap ok ((==_iff size 512).0 e), rw (e) at h)
  | inr e ↦ absurd (cc (rw (e) at h))
]
check_block_inv (err e) y h = absurd (cc)

then_sector_inv :
    (x : Done × (ℕ → ℕ)) (next : (ℕ → ℕ) → Done)
    → then_sector x next ≡ ok tt
    → (x.0 ≡ ok tt) × (next x.1 ≡ ok tt)
then_sector_inv (ok _, bytes) next h = (refl, h)
then_sector_inv (err e, bytes) next h = absurd (cc)

guard_inv :
    (b : Bool) (x : Done) (s : Status) → (if b then x else err s) ≡ ok tt → (b ≡ true) × (x ≡ ok tt)
guard_inv true x s h = (refl, h)
guard_inv false x s h = absurd (cc)

type_lem : (count : ℕ) → is_fat32 (type_for count) ≡ ltb 65524 count
unfolding type_for
type_lem count = elim (Bool-cases (leb count 4084)) [
  | inl small ↦
      let low : count ≤ 4084 = leb→le count 4084 small in
      rw (small, ltb-false 65524 count (omega arith)) refl
  | inr large ↦ elim (Bool-cases (leb count 65524)) [
    | inl medium ↦ rw (large, medium, ltb-false 65524 count (leb→le count 65524 medium)) refl
    | inr more ↦
        let past : 65524 < count = ground arith in rw (large, more, lt→ltb 65524 count past) refl
  ]
]

mount_fsinfo_lem : (x : Done × (ℕ → ℕ)) (next : Mounted) → x.0 ≡ ok tt → mount_fsinfo x next ≡ next
mount_fsinfo_lem (ok _, bytes) next h = refl
mount_fsinfo_lem (err e, bytes) next h = absurd (cc)

module _ (dev : Blkdev) (bpb : ℕ → ℕ) (stale : Option ℕ) (garbage : ℕ)
    (there : dev.read_blocks 0 1 (λ _. 0) ≡ (ok tt, bpb)) (fits : root_sectors bpb < 65536) where
  fat32_lem :
      is_fat32 (volume_of bpb garbage).fat_type ≡ ltb 65524 (cluster_count bpb (root_sectors bpb))
  unfolding volume_of
  fat32_lem =
      let same : root_sectors bpb % 65536 ≡ root_sectors bpb = omega arith in
      rw (same) (type_lem (cluster_count bpb (root_sectors bpb)))

  finish_lem :
      (vol : Volume)
      → is_fat32 vol.fat_type ≡ ltb 65524 (cluster_count bpb (root_sectors bpb))
      → probe_fsinfo dev bpb ≡ ok tt
      → finish dev bpb vol (fresh stale) ≡ mounted vol (fresh stale)
  unfolding finish probe_fsinfo
  finish_lem vol same probed =
      elim (Bool-cases (ltb 65524 (cluster_count bpb (root_sectors bpb)))) [
        | inl many ↦
            let (read, _) =
              then_sector_inv (dev.read_blocks (half_at bpb 48) 1 (λ _. 0)) _
                (rw (many) at probed) in
            rw (same, many) (mount_fsinfo_lem _ _ read)
        | inr few ↦ rw (same, few) refl
      ]

  -- mount yields what it computes of the boot sector.
  mount_of_probe :
      probe (some dev) ≡ ok tt
      → mount (some dev) (ok tt) true true stale garbage
        ≡ mounted (volume_of bpb garbage) (fresh stale)
  unfolding probe mount finish
  mount_of_probe accepted =
      let (interface, checked) = then_ok_inv dev.interface _ accepted in
      let (size, read) = check_block_inv dev.block_size _ checked in
      let (signed, fsinfo) =
        guard_inv (is_signed bpb) (probe_fsinfo dev bpb) Status.invalid_signature
          (rw (there) at read) in
      rw (interface, size, there, signed) (finish_lem (volume_of bpb garbage) fat32_lem fsinfo)

-- A device whose sector 0 can be read and is a boot sector with a geometry: when probe accepts it and
-- VlFs_Create and malloc succeed, mount succeeds too, with the geometry that the fields of that sector
-- give and empty buffers, of which fatbuf_lba has its value from before.
pub mount-probe :
    (dev : Blkdev) (bpb : ℕ → ℕ) (stale : Option ℕ) (garbage : ℕ)
    → dev.read_blocks 0 1 (λ _. 0) ≡ (ok tt, bpb)
    → IsBoot bpb
    → probe (some dev) ≡ ok tt
    → (vol : Volume) × (mount (some dev) (ok tt) true true stale garbage
        ≡ mounted vol (fresh stale))
      × IsGeometry bpb vol
mount-probe dev bpb stale garbage there b accepted = (
  volume_of bpb garbage,
  mount_of_probe dev bpb stale garbage there b.fits accepted,
  volume_of-IsGeometry bpb b garbage,
)
