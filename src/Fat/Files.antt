-- ===== src/Fat/Files.antt =====
-- Open files of vellum/filesystem/fat/fat.c: read, seek and tell.
use sscc_oslecture.Base.{
  ltb, leb, ◌==◌, if◌then◌else◌, add32, ℕ, zero, suc, ◌+◌, ◌-◌, ◌/◌, ◌%◌, min, Bool, true, false,
  ◌&&◌,
}
use sscc_oslecture.Base.Int.{ℤ, pos, negsuc}
use sscc_oslecture.Status.{Status, Result, ok, err}
use sscc_oslecture.Fat.{Volume, Cache, Done, Device, read_cluster, get_next_cluster}

-- The fields of struct fat_file_data that read and seek use; `size` is direntry.size.
pub record File : Type 0 where
  pub size : ℕ
  pub head_cluster : ℕ
  pub current_cluster : ℕ
  pub cursor : ℕ

-- read: the file, the caller's buffer, total_read_len and the volume's buffers.
pub record Reader : Type 0 where
  pub file : File
  pub buf : ℕ → ℕ
  pub total_read_len : ℕ
  pub cache : Cache

-- memcpy of `len` bytes from `src` to place `at` of `buf`.
abbrev pub paste : (ℕ → ℕ) → ℕ → ℕ → (ℕ → ℕ) → ℕ → ℕ
paste buf at len src i = if leb at i && ltb i (at + len) then src (i - at) else buf i

-- The bytes read, and the cursor past them.
unfoldable pub copied : ℕ → ℕ → Cache → Reader → Reader
copied cluster_offset read_len k r =
    let moved : File = record r.file { cursor = add32 r.file.cursor read_len } in
    record {
      file = moved;
      buf = paste r.buf r.total_read_len read_len (λ i. k.databuf (cluster_offset + i));
      total_read_len = r.total_read_len + read_len;
      cache = k;
    }

-- `if (!CHECK_SUCCESS(status)) break;` after get_next_cluster, which has stored the cluster; `true`
-- goes on.
abbrev pub at_next : Reader → Done × (ℕ × Cache) → Bool × Reader
at_next r (ok _, (cluster, k)) =
    (true, record r { file = record r.file { current_cluster = cluster }; cache = k })
at_next r (err _, (cluster, k)) =
    (false, record r { file = record r.file { current_cluster = cluster }; cache = k })

abbrev pub then_copy : Reader → Done × Cache → (Cache → Done × Reader) → Done × Reader
then_copy r (ok _, k) next = next k
then_copy r (err e, k) next = (err e, record r { cache = k })

abbrev pub resume : Bool × Reader → (Reader → Done × Reader) → Done × Reader
resume (true, r) next = next r
resume (false, r) next = (ok tt, r)

-- `len` clipped to what the file still has.
unfoldable pub clip_len : File → ℕ → ℕ
clip_len file len = if leb file.size (add32 file.cursor len) then file.size - file.cursor else len

module _ (dev : Device) (vol : Volume) where
  -- The end of a round: on to the next cluster when this one is used up.
  unfoldable pub advance : ℕ → Reader → Bool × Reader
  advance used r =
      if ltb used vol.cluster_size
      then (true, r)
      else at_next r (get_next_cluster dev vol 1 r.file.current_cluster r.cache)

  -- The loop of read with `len` bytes to go. `cluster_offset + read_len` is at most the cluster size.
  unfoldable pub read_loop : ℕ → ℕ → Reader → Done × Reader
  read_loop zero len r = (ok tt, r)
  read_loop (suc fuel) len r =
      let cluster_offset : ℕ = r.file.cursor % vol.cluster_size in
      let read_len : ℕ = min (vol.cluster_size - cluster_offset) len in
      if len == 0
      then (ok tt, r)
      else then_copy r (read_cluster dev vol r.file.current_cluster r.cache) (λ k.
        resume (advance (cluster_offset + read_len) (copied cluster_offset read_len k r))
          (λ next. read_loop fuel (len - read_len) next))

  -- Each round reads at least a byte, so `len` rounds are enough.
  unfoldable pub read : ℕ → Reader → Done × Reader
  read len r =
      let clipped : ℕ = clip_len r.file len in
      if leb r.file.size r.file.cursor
      then (err Status.end_of_file, r)
      else read_loop clipped clipped (record r { total_read_len = 0 })

-- SEEK_SET, SEEK_CUR and SEEK_END
pub data Origin : Type 0 where
  seek_set seek_cur seek_end : Origin

-- base + offset of a uint32_t and an int64_t; C leaves a sum past 64 bits undefined, and the model
-- goes on.
abbrev pub offset_by : ℕ → ℤ → ℤ
offset_by base (pos n) = pos (base + n)
offset_by base (negsuc n) = if ltb n base then pos (base - n - 1) else negsuc (n - base)

unfoldable pub new_cursor : File → ℤ → Origin → ℤ
new_cursor file offset seek_set = offset
new_cursor file offset seek_cur = offset_by file.cursor offset
new_cursor file offset seek_end = offset_by file.size offset

abbrev pub store_place : File → ℕ → Done × (ℕ × Cache) → Done × (File × Cache)
store_place file cursor (ok _, (cluster, k)) =
    (ok tt, (record file { current_cluster = cluster; cursor = cursor }, k))
store_place file cursor (err e, (cluster, k)) = (err e, (file, k))

module _ (dev : Device) (vol : Volume) where
  -- seek, once the new cursor is known
  unfoldable pub seek_to : File → Cache → ℤ → Done × (File × Cache)
  seek_to file k (negsuc n) = (err Status.invalid_value, (file, k))
  seek_to file k (pos n) =
      let place : ℕ = min n file.size in
      store_place file place
        (get_next_cluster dev vol (place / vol.cluster_size) file.head_cluster k)

  unfoldable pub seek : ℤ → Origin → File → Cache → Done × (File × Cache)
  seek offset origin file k = seek_to file k (new_cursor file offset origin)

abbrev pub tell : File → Result ℕ
tell file = ok file.cursor
