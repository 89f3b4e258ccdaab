-- ===== src/Fat/Directory.antt =====
-- Directories of vellum/filesystem/fat/fat.c: rewind_directory, iter_directory, match_name, open,
-- open_root_directory and open_directory. A directory entry is 32 bytes of a block.
use sscc_oslecture.Base.{
  leb, ◌==◌, if◌then◌else◌, add32, ℕ, zero, suc, ◌+◌, ◌*◌, ◌/◌, ◌%◌, Bool, true, false, not, ◌&&◌,
  Option, none, some, List, [], ◌∷◌,
}
use sscc_oslecture.Status.{Status, Result, ok, err}
use sscc_oslecture.Fat.{
  Volume, Cache, Done, Device, read_sector, read_cluster, word_at, is_fat32, get_next_cluster,
}
use sscc_oslecture.Fat.Names.{lfn_ucs2_to_utf8, get_lfn_filename, get_sfn_filename}
use sscc_oslecture.Libc.Strings.{first, strncasecmp}
use sscc_oslecture.Filesystem.{is_zero}

-- struct fat_dir_data; `direntry` gives the bytes of the entry read last.
pub record Dir : Type 0 where
  pub head_cluster : ℕ
  pub current_cluster : ℕ
  pub root_cluster : Bool
  pub current_entry_index : ℕ
  pub direntry : ℕ → ℕ

-- struct fs_directory_entry, with the name before its 0.
pub record Dirent : Type 0 where
  pub name : List ℕ
  pub size : ℕ

-- The cases of iter_directory on an entry, in its order: the end of the list, a deleted entry, a piece
-- of a long name, a volume id, and a file or directory.
pub data Kind : Type 0 where
  last deleted long volume_id other : Kind

-- The tests on name[0] and on the attribute.
unfoldable pub kind_by : ℕ → ℕ → Kind
kind_by first attribute =
    if first == 0
    then last
    else if first == 229
    then deleted
    else if attribute % 16 == 15
    then long
    else if attribute / 8 % 2 == 1
    then volume_id
    else other

abbrev pub kind_of : (ℕ → ℕ) → ℕ → Kind
kind_of bytes entry = kind_by (bytes entry) (bytes (entry + 11))

-- current_entry_index, is_lfn and lfn_ucs2_buf
pub record Scan : Type 0 where
  pub index : ℕ
  pub is_lfn : Bool
  pub lfn : ℕ → ℕ

-- How the loop over a block ends.
pub data Stop : Type 0 where
  ended found used_up : Stop

-- On to the next entry, and out of the loop at the end of a block of `per_block` entries.
abbrev pub next_entry : ℕ → Scan → (Scan → Stop × Scan) → Stop × Scan
next_entry per_block s next =
    let moved : Scan = record s { index = add32 s.index 1 } in
    if add32 s.index 1 % per_block == 0 then (used_up, moved) else next moved

abbrev pub on_kind : ℕ → (ℕ → ℕ) → ℕ → Kind → Scan → (Scan → Stop × Scan) → Stop × Scan
on_kind per_block bytes entry last s next = (ended, s)
on_kind per_block bytes entry deleted s next = next_entry per_block s next
on_kind per_block bytes entry long s next =
    next_entry per_block (record s { is_lfn = true; lfn = get_lfn_filename bytes entry s.lfn }) next
on_kind per_block bytes entry volume_id s next =
    next_entry per_block (record s { is_lfn = false }) next
on_kind per_block bytes entry other s next = (found, s)

-- The loop over a block. A block has `per_block` entries, so as many rounds are enough.
unfoldable pub scan : ℕ → (ℕ → ℕ) → ℕ → Scan → Stop × Scan
scan per_block bytes zero s = (used_up, s)
scan per_block bytes (suc rounds) s =
    let entry : ℕ = s.index % per_block * 32 in
    on_kind per_block bytes entry (kind_of bytes entry) s
      (λ moved. scan per_block bytes rounds moved)

-- The first bytes of a buffer before a 0.
unfoldable pub c_string : List ℕ → List ℕ
c_string [] = []
c_string (c ∷ str) = let later = c_string str in if c == 0 then [] else c ∷ later

-- The entry found: entries[current_entry_index], without the remainder that the loop takes.
unfoldable pub dirent_at : (ℕ → ℕ) → Scan → Dirent
dirent_at bytes s = record {
  name =
      if s.is_lfn
      then c_string (lfn_ucs2_to_utf8 s.lfn true 63)
      else get_sfn_filename bytes (s.index * 32);
  size = word_at bytes (s.index * 32 + 28);
}

-- A call of iter_directory that returned; the loop over blocks may still be running.
abbrev pub Iterated : Type 0
Iterated = Option (Result Dirent × (Dir × Cache))

-- What follows the loop over a block.
abbrev pub after_scan : Dir → Cache → Stop × Scan → (Dir → Scan → Iterated) → Iterated
after_scan d k (ended, s) next =
    some (err Status.end_of_list, (record d { current_entry_index = s.index }, k))
after_scan d k (used_up, s) next = next (record d { current_entry_index = s.index }) s
after_scan d k (found, s) next = some (
  ok (dirent_at k.databuf s),
  (
    record d {
      current_entry_index = add32 s.index 1;
      direntry = λ i. k.databuf (s.index * 32 + i);
    },
    k,
  ),
)

-- A block fetched: the directory at it and the buffers.
abbrev pub Fetched : Type 0
Fetched = Done × (Dir × Cache)

abbrev pub then_block : Fetched → (Dir → Cache → Iterated) → Iterated
then_block (ok _, (d, k)) next = next d k
then_block (err e, at) next = some (err e, at)

abbrev pub in_place : Dir → Done × Cache → Fetched
in_place d (status, k) = (status, (d, k))

abbrev pub set_current : Dir → ℕ → Done × Cache → Fetched
set_current d cluster (ok _, k) = (ok tt, (record d { current_cluster = cluster }, k))
set_current d cluster (err e, k) = (err e, (d, k))

-- get_next_cluster when the current cluster is used up, and the cluster to read.
abbrev pub at_cluster : Dir → Done × (ℕ × Cache) → (Dir → ℕ → Cache → Fetched) → Fetched
at_cluster d (ok _, (cluster, k)) next = next (record d { current_entry_index = 0 }) cluster k
at_cluster d (err e, (cluster, k)) next = (err e, (d, k))

module _ (vol : Volume) where
  -- The root directory of FAT12 and FAT16, which has sectors of its own.
  unfoldable pub is_rootdir : Dir → Bool
  is_rootdir d = not (is_fat32 vol.fat_type) && (d.head_cluster == 0)

  -- block_size / sizeof(union fat_dir_entry), with block_size in 16 bits
  unfoldable pub entries_per_block : Dir → ℕ
  entries_per_block d = (if is_rootdir d then vol.sector_size else vol.cluster_size) % 65536 / 32

module _ (dev : Device) (vol : Volume) where
  unfoldable pub fetch_sector : Dir → Cache → Fetched
  fetch_sector d k =
      let sector : ℕ = d.current_entry_index / entries_per_block vol d in
      if leb vol.root_sector_count sector
      then (err Status.end_of_list, (d, k))
      else in_place d (read_sector dev vol (add32 vol.data_area_begin sector) k)

  unfoldable pub fetch_cluster : Dir → Cache → Fetched
  fetch_cluster d k =
      if leb (entries_per_block vol d) d.current_entry_index
      then at_cluster d (get_next_cluster dev vol 1 d.current_cluster k)
          (λ d cluster k. set_current d cluster (read_cluster dev vol cluster k))
      else set_current d d.current_cluster (read_cluster dev vol d.current_cluster k)

  unfoldable pub fetch : Dir → Cache → Fetched
  fetch d k = if is_rootdir vol d then fetch_sector d k else fetch_cluster d k

  -- The loop of iter_directory over blocks; `none` while it still runs.
  unfoldable pub iter_loop : ℕ → Bool → (ℕ → ℕ) → Dir → Cache → Iterated
  iter_loop zero is_lfn lfn d k = none
  iter_loop (suc fuel) is_lfn lfn d k = then_block (fetch d k) (λ d k.
      let per_block : ℕ = entries_per_block vol d in
      let s : Scan = record { index = d.current_entry_index; is_lfn = is_lfn; lfn = lfn } in
      after_scan d k (scan per_block k.databuf per_block s)
        (λ d s. iter_loop fuel s.is_lfn s.lfn d k))

  -- iter_directory; `garbage` is lfn_ucs2_buf, which it does not initialise.
  unfoldable pub iter_directory : ℕ → (ℕ → ℕ) → Dir → Cache → Iterated
  iter_directory fuel garbage d k = iter_loop fuel false garbage d k

unfoldable pub rewind_directory : Dir → Dir
rewind_directory d = record d {
  current_cluster = d.head_cluster;
  current_entry_index = 0;
  direntry = λ _. 0;
}

-- What match_name does with an iteration; any failure ends its loop.
abbrev pub on_entry : List ℕ → Iterated → (Dir → Cache → Iterated) → Iterated
on_entry name none next = none
on_entry name (some (err e, at)) next = some (err Status.entry_not_found, at)
on_entry name (some (ok entry, (d, k))) next =
    if is_zero (strncasecmp name entry.name 256) then some (ok entry, (d, k)) else next d k

module _ (dev : Device) (vol : Volume) (fuel : ℕ) (garbage : ℕ → ℕ) where
  unfoldable pub match_loop : ℕ → List ℕ → Dir → Cache → Iterated
  match_loop zero name d k = none
  match_loop (suc tries) name d k =
      on_entry name (iter_directory dev vol fuel garbage d k) (λ d k. match_loop tries name d k)

  unfoldable pub match_name : ℕ → List ℕ → Dir → Cache → Iterated
  match_name tries name d k = match_loop tries name (rewind_directory d) k
