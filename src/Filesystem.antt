-- ===== src/Filesystem.antt =====
-- vellum/filesystem/fs.c: the lists of mounted file systems and of file system drivers. A list is the
-- objects in the order of their `next` pointers; an object stands at one address, so in one place.
pub mod Names
pub mod Removal
pub mod Mount
mod Tests
use sscc_oslecture.Base.{
  ◌==◌, if◌then◌else◌, take, ℕ, Bool, true, false, not, Option, none, some, List, [], ◌∷◌, ◌++◌,
}
use sscc_oslecture.Status.{
  Status, success, deprecated, no_event, unknown_error, not_supported, entry_not_found,
  duplicate_entry, Result, ok, err,
}
use sscc_oslecture.Base.Int.{ℤ, pos, negsuc}
use sscc_oslecture.Libc.Strings.{strncmp, strcmp}

-- struct filesystem; `name` is the string in its buffer of 64 bytes.
pub record Filesystem : Type 0 where
  pub address : ℕ
  pub driver : ℕ
  pub dev : ℕ
  pub name : List ℕ

-- struct fs_driver; its functions are called through its address.
pub record Driver : Type 0 where
  pub address : ℕ
  pub name : List ℕ

-- `strncmp(p1, p2, n) == 0`
abbrev pub is_zero : ℤ → Bool
is_zero (pos n) = n == 0
is_zero (negsuc n) = false

-- VlFs_Find
unfoldable pub find : List ℕ → List Filesystem → Result Filesystem
find name [] = err Status.entry_not_found
find name (fs ∷ list) =
    let later = find name list in if is_zero (strncmp fs.name name 64) then ok fs else later

-- The append at the end of the list, here of the new object that calloc yields. The name is copied by
-- strncpy with the bound 63 into the cleared buffer.
pub create_at : ℕ → ℕ → ℕ → List ℕ → List Filesystem → Result Filesystem × List Filesystem
create_at address drv dev name list =
    let fs : Filesystem = record {
      address = address;
      driver = drv;
      dev = dev;
      name = take 63 name;
    } in
    (ok fs, list ++ (fs ∷ []))

-- VlFs_Create; `memory` is what calloc yields.
pub create : Option ℕ → ℕ → ℕ → List ℕ → List Filesystem → Result Filesystem × List Filesystem
create memory drv dev name list = elim (find name list) [
  | ok conflicting ↦ (err Status.duplicate_entry, list)
  | err e ↦ elim memory [
    | none ↦ (err Status.unknown_error, list)
    | some address ↦ create_at address drv dev name list
  ]
]

-- `prev_fs->next = fs->next` for the object before the one at `fs`, if there is one.
unfoldable pub unlink : ℕ → List Filesystem → List Filesystem
unlink fs [] = []
unlink fs (current ∷ list) =
    let others = unlink fs list in if current.address == fs then list else current ∷ others

-- VlFs_Remove looks for the object behind the first one only.
unfoldable pub remove : ℕ → List Filesystem → List Filesystem
remove fs [] = []
remove fs (head ∷ list) = head ∷ unlink fs list

-- VlFs_CreateDriver; the caller then fills in the name and the functions of the cleared object.
pub create_driver : Option ℕ → List Driver → Result ℕ × List Driver
create_driver none drivers = (err Status.unknown_error, drivers)
create_driver (some address) drivers =
    (ok address, drivers ++ (record { address = address; name = [] } ∷ []))

-- VlFs_FindDriver
pub find_driver : List ℕ → List Driver → Result Driver
find_driver name [] = err Status.entry_not_found
find_driver name (drv ∷ drivers) =
    let later = find_driver name drivers in if is_zero (strcmp name drv.name) then ok drv else later

abbrev pub is_success : Status → Bool
is_success success = true
is_success deprecated = true
is_success no_event = true
is_success _ = false

-- The drivers' functions act on a state `S`, which holds among other things the file systems.
module _ {ℓ} {S : Type ℓ} (probe mount : Driver → S → Status × S) where
  -- VlFs_MountAuto
  unfoldable pub mount_auto : List Driver → S → Status × S
  mount_auto [] s = (Status.not_supported, s)
  mount_auto (drv ∷ drivers) s =
      let (probed, s1) = probe drv s in
      let (mounted, s2) = mount drv s1 in
      if not (is_success probed)
      then mount_auto drivers s1
      else if is_success mounted
      then (mounted, s2)
      else mount_auto drivers s2
