-- ===== src/Fat/Opening.antt =====
-- Opening files (open_file is open there) and directories of vellum/filesystem/fat/fat.c: open, open_root_directory and
-- open_directory. `allocated` says whether the two calls of malloc succeed.
use sscc_oslecture.Base.{
  ◌==◌, if◌then◌else◌, ℕ, ◌+◌, ◌*◌, ◌/◌, ◌%◌, Bool, true, not, ◌&&◌, ◌||◌, Option, none, some, List,
  [], ◌∷◌,
}
use sscc_oslecture.Status.{Status, Result, ok, err}
use sscc_oslecture.Libc.Strings.{strcmp}
use sscc_oslecture.Filesystem.{is_zero}
use sscc_oslecture.Fat.{Volume, Cache, Device, half_at, word_at, is_fat32}
use sscc_oslecture.Fat.Files.{File}
use sscc_oslecture.Fat.Directory.{Dir, Iterated, match_name}

-- FAT_ATTR_DIRECTORY of the entry read last.
abbrev pub is_directory : Dir → Bool
is_directory d = d.direntry 11 / 16 % 2 == 1

-- cluster_location_high and cluster_location
abbrev pub location : Dir → ℕ
location d = half_at d.direntry 26 + half_at d.direntry 20 * 65536

abbrev pub entry_size : Dir → ℕ
entry_size d = word_at d.direntry 28

-- A call that opened something, with the directory it searched.
abbrev pub Opened {ℓ} : Type ℓ → Type ℓ
Opened A = Option (Result A × (Dir × Cache))

abbrev pub then_open {ℓ} : {A : Type ℓ} → Iterated → (Dir → Result A) → Opened A
then_open none next = none
then_open (some (err e, at)) next = some (err e, at)
then_open (some (ok entry, (d, k))) next = some (next d, (d, k))

-- The file of the entry that match_name has found.
unfoldable pub opened_file : Bool → Dir → Result File
opened_file allocated d =
    if is_directory d
    then err Status.wrong_element_type
    else if not allocated
    then err Status.unknown_error
    else ok (record {
      size = entry_size d;
      head_cluster = location d;
      current_cluster = location d;
      cursor = 0;
    })

unfoldable pub root_directory : Volume → (ℕ → ℕ) → Dir
root_directory vol garbage =
    let head : ℕ = if is_fat32 vol.fat_type then vol.root_cluster else 0 in
    record {
      head_cluster = head;
      current_cluster = head;
      root_cluster = true;
      current_entry_index = 0;
      direntry = garbage;
    }

-- `direntry` of a new directory is not initialised: `garbage`.
unfoldable pub open_root_directory : Volume → Bool → (ℕ → ℕ) → Result Dir
open_root_directory vol allocated garbage =
    if allocated then ok (root_directory vol garbage) else err Status.unknown_error

-- The directory of the entry that match_name has found; one at cluster 0 is the root.
unfoldable pub opened_directory : Volume → Bool → (ℕ → ℕ) → Dir → Result Dir
opened_directory vol allocated garbage d =
    let head : ℕ = if location d == 0 then vol.root_cluster else location d in
    if not (is_directory d)
    then err Status.wrong_element_type
    else if not allocated
    then err Status.unknown_error
    else ok (record {
      head_cluster = head;
      current_cluster = head;
      root_cluster = location d == 0;
      current_entry_index = 0;
      direntry = garbage;
    })

-- "." and ".."
abbrev pub dot : List ℕ
dot = 46 ∷ []

abbrev pub dot_dot : List ℕ
dot_dot = 46 ∷ 46 ∷ []

module _ (dev : Device) (vol : Volume) (fuel : ℕ) (garbage : ℕ → ℕ) (allocated : Bool) where
  unfoldable pub open_file : ℕ → List ℕ → Dir → Cache → Opened File
  open_file tries name d k =
      then_open (match_name dev vol fuel garbage tries name d k) (opened_file allocated)

  unfoldable pub open_directory : ℕ → List ℕ → Dir → Cache → Opened Dir
  open_directory tries name d k =
      if d.root_cluster && (is_zero (strcmp dot name) || is_zero (strcmp dot_dot name))
      then some (open_root_directory vol allocated garbage, (d, k))
      else then_open (match_name dev vol fuel garbage tries name d k)
          (opened_directory vol allocated garbage)
