-- ===== src/Fat/Seeking.antt =====
-- seek of vellum/filesystem/fat/fat.c: the place it finds, and read from there.
use native.Mathlib.Nat.{mul-le-mul_right}
use sscc_oslecture.Base.{
  block_start, ℕ, ◌+◌, ◌-◌, ◌*◌, ◌/◌, ◌^◌, ◌≤◌, ◌<◌, min, ◌≡◌, refl, sym, ap₂, subst, ◌∙◌, Option,
  none, some, arith,
}
use sscc_oslecture.Base.Int.{ℤ, pos, negsuc}
use sscc_oslecture.Status.{ok, err}
use sscc_oslecture.Fat.{Volume, Cache, Done, Device}
use sscc_oslecture.Fat.Files.{File, Reader, read, Origin, new_cursor, store_place, seek_to, seek}
use sscc_oslecture.Fat.Disk.{IsVolume, IsDisk, IsCoherent}
use sscc_oslecture.Fat.Walk.{nth_cluster, IsStep, get_next_cluster_walks}
use sscc_oslecture.Fat.Stored.{IsStored, IsPlaced, IsReadTo}
use sscc_oslecture.Fat.Reading.{read-IsReadTo}

module _ (disk : ℕ → ℕ) (vol : Volume) where
  -- A seek that ended at `place`, the file else as before.
  pub record IsAt (file : File) (place : ℕ) (after : File) (k : Cache) : Type 0 where
    pub same_size : after.size ≡ file.size
    pub same_head : after.head_cluster ≡ file.head_cluster
    pub cursor_at : after.cursor ≡ place
    pub placed : IsPlaced disk vol after
    pub coherent : IsCoherent disk vol k

  abbrev pub IsSought : File → ℕ → Done × (File × Cache) → Type 0
  IsSought file place (ok _, (after, k)) = IsAt file place after k
  IsSought file place (err e, at) = ⊥

  store_place_lem :
      (file : File) (place : ℕ) (x : Done × (ℕ × Cache))
      → IsStep disk vol (nth_cluster disk vol (place / vol.cluster_size) file.head_cluster) x
      → IsSought file place (store_place file place x)
  store_place_lem file place (ok _, (c, k)) (same, coherent) = record {
    same_size = refl;
    same_head = refl;
    cursor_at = refl;
    placed = λ _. same;
    coherent = coherent;
  }
  store_place_lem file place (err e, at) failed = elim failed [ ]

-- The number of an offset from SEEK_SET, SEEK_CUR or SEEK_END, clipped to the file.
abbrev pub target : File → ℤ → Option ℕ
target file (pos n) = some (min n file.size)
target file (negsuc n) = none

module _ (disk : ℕ → ℕ) (dev : Device) (vol : Volume) (is_disk : IsDisk disk dev)
    (valid : IsVolume vol) (file : File) (stored : IsStored disk vol file) (k : Cache)
    (coherent : IsCoherent disk vol k) where
  -- The place is inside the file, or its end where that is inside a cluster of the file.
  abbrev pub IsReachable : ℕ → Type 0
  IsReachable place = place / vol.cluster_size * vol.cluster_size < file.size

  below_place :
      (i q : ℕ) → i ≤ q → q * vol.cluster_size < file.size → i * vol.cluster_size < file.size
  below_place i q below inside =
      let steps : i * vol.cluster_size ≤ q * vol.cluster_size =
        mul-le-mul_right vol.cluster_size below in
      omega arith

  seek_to-IsSought :
      (n place : ℕ)
      → place ≡ min n file.size
      → IsReachable place
      → IsSought disk vol file place (seek_to dev vol file k (pos n))
  unfolding seek_to
  seek_to-IsSought n place is_min reachable = rw (← is_min) (
      store_place_lem disk vol file place _ (
        get_next_cluster_walks disk dev vol is_disk valid (place / vol.cluster_size)
          file.head_cluster k coherent
          (λ i below. stored.chain i (below_place i (place / vol.cluster_size) below reachable))))

  -- On a disk that can be read, for a file with a cluster for each byte and buffers that agree with
  -- the disk: a seek to an offset that is not negative, from the start, the cursor or the end, sets the
  -- cursor to it, clipped to the size, and the current cluster to the one there, when the cluster of
  -- that place is one of the file's; size and head stay, and the buffers still agree with the disk.
  pub seek-IsSought :
      (offset : ℤ) (origin : Origin) (n : ℕ)
      → new_cursor file offset origin ≡ pos n
      → IsReachable (min n file.size)
      → IsSought disk vol file (min n file.size) (seek dev vol offset origin file k)
  unfolding seek
  seek-IsSought offset origin n there reachable =
      rw (there) (seek_to-IsSought n (min n file.size) refl reachable)

-- A seek, then a read of `len` bytes into `buf` if it succeeded.
abbrev pub read_after : Device → Volume → ℕ → (ℕ → ℕ) → Done × (File × Cache) → Done × Reader
read_after dev vol len buf (ok _, (file, k)) =
    read dev vol len (record { file = file; buf = buf; total_read_len = 0; cache = k })
read_after dev vol len buf (err e, (file, k)) =
    (err e, record { file = file; buf = buf; total_read_len = 0; cache = k })

-- Two files of one size, one head and one cursor are read alike.
module _ (disk : ℕ → ℕ) (vol : Volume) (f g : File) (size : f.size ≡ g.size)
    (head : f.head_cluster ≡ g.head_cluster) where
  IsStored-same : IsStored disk vol g → IsStored disk vol f
  IsStored-same stored = record {
    size_u32 = rw (size) stored.size_u32;
    clusters = λ i inside. rw (head) (stored.clusters i (rw⁻¹ (size) inside));
    chain = λ i inside. rw (head) (stored.chain i (rw⁻¹ (size) inside));
  }

  reading_same :
      f.cursor ≡ g.cursor
      → (buf : ℕ → ℕ) (total : ℕ) (x : Done × Reader) → IsReadTo disk vol f buf total x
      → IsReadTo disk vol g buf total x
  reading_same cursor buf total (ok _, r) (same, reading, placed) = (
    same,
    record {
      same_size = reading.same_size ∙ size;
      same_head = reading.same_head ∙ head;
      moved = rw⁻¹ (cursor) reading.moved;
      inside = rw⁻¹ (size) reading.inside;
      coherent = reading.coherent;
      filled = λ i below. rw⁻¹ (cursor, head) (reading.filled i below);
      beyond = reading.beyond;
    },
    placed,
  )
  reading_same cursor buf total (err e, r) failed = elim failed [ ]

module _ (disk : ℕ → ℕ) (dev : Device) (vol : Volume) (is_disk : IsDisk disk dev)
    (valid : IsVolume vol) (file : File) (stored : IsStored disk vol file) (len : ℕ) (buf : ℕ → ℕ)
    (n : ℕ) (inside : n < file.size) (small : n + len < 2 ^ 32) where
  read_after_lem :
      (x : Done × (File × Cache))
      → IsSought disk vol file n x
      → IsReadTo disk vol
          (record file { cursor = n })
          buf
          (min len (file.size - n))
          (read_after dev vol len buf x)
  read_after_lem (ok _, (f, k)) sought =
      let r : Reader = record { file = f; buf = buf; total_read_len = 0; cache = k } in
      let size = sought.same_size in
      let at = sought.cursor_at in
      let f_stored = IsStored-same disk vol f file size sought.same_head stored in
      reading_same disk vol f (record file { cursor = n }) size sought.same_head at buf
        (min len (file.size - n)) (read dev vol len r)
        (subst (λ t. IsReadTo disk vol f buf t (read dev vol len r))
          (ap₂ (λ a b. min len (a - b)) size at)
          (read-IsReadTo disk dev vol is_disk valid r f_stored sought.coherent len (omega arith)
            sought.placed (omega arith)))
  read_after_lem (err e, at) failed = elim failed [ ]

  -- On a disk that can be read, for a file with a cluster for each byte and buffers that agree with
  -- the disk, wherever its cursor was: seek to `n` below the size from the start, and a read of `len`
  -- bytes from there (n + len within 32 bits) gives the min len (size - n) bytes of the file from `n`.
  pub read-seek :
      (k : Cache)
      → IsCoherent disk vol k
      → IsReadTo disk vol
          (record file { cursor = n })
          buf
          (min len (file.size - n))
          (read_after dev vol len buf (seek dev vol (pos n) Origin.seek_set file k))
  unfolding new_cursor
  read-seek k coherent =
      let sectors = valid.some_sectors in
      let cs = valid.cluster_sectors in
      let low : n ≡ min n file.size = omega arith in
      let start = block_start vol.cluster_size n file.size (omega arith) inside in
      read_after_lem (seek dev vol (pos n) Origin.seek_set file k) (
        subst (λ p. IsSought disk vol file p (seek dev vol (pos n) Origin.seek_set file k))
          (sym low)
          (seek-IsSought disk dev vol is_disk valid file stored k coherent (pos n) Origin.seek_set n
            refl (subst (λ p. p / vol.cluster_size * vol.cluster_size < file.size) low start)))
