-- ===== src/Fat/SeekErrors.antt =====
-- When seek of vellum/filesystem/fat/fat.c fails, and what it leaves then.
use native.Mathlib.Nat.{mul-div_left}
use sscc_oslecture.Base.{
  lt→ltb, ltb-false, ℕ, zero, suc, ◌+◌, ◌*◌, ◌/◌, ◌≤◌, ◌<◌, min, ◌≡◌, refl, ap, ◌∙◌, arith,
}
use sscc_oslecture.Base.Int.{ℤ, pos, negsuc}
use sscc_oslecture.Status.{Status, ok, err}
use sscc_oslecture.Fat.{
  Volume, Cache, Done, Device, last_cluster, round, then_next, follow, get_next_cluster,
}
use sscc_oslecture.Fat.Files.{File, Origin, new_cursor, store_place, seek_to, seek}
use sscc_oslecture.Fat.Disk.{IsVolume, IsDisk, IsCoherent}
use sscc_oslecture.Fat.Walk.{entry_of, nth_cluster, IsStep, round_lem, IsChain}

-- A seek that failed left the file as it was, one that succeeded left the cursor inside it.
abbrev pub IsSeek : File → Done × (File × Cache) → Type 0
IsSeek file (ok _, (after, k)) =
    (after.size ≡ file.size) × (after.head_cluster ≡ file.head_cluster) × (after.cursor ≤ file.size)
IsSeek file (err e, (after, k)) = after ≡ file

store_place-IsSeek :
    (file : File) (place : ℕ) (x : Done × (ℕ × Cache))
    → place ≤ file.size
    → IsSeek file (store_place file place x)
store_place-IsSeek file place (ok _, at) inside = (refl, refl, inside)
store_place-IsSeek file place (err e, at) inside = refl

module _ (dev : Device) (vol : Volume) (file : File) (k : Cache) where
  seek_to-IsSeek : (to : ℤ) → IsSeek file (seek_to dev vol file k to)
  unfolding seek_to
  seek_to-IsSeek (pos n) = store_place-IsSeek file (min n file.size) _ (omega arith)
  seek_to-IsSeek (negsuc n) = refl

  -- With any device, any volume, and any file: a seek that fails leaves the file as it was, and one
  -- that succeeds keeps its size and head and sets a cursor no larger than the size.
  pub seek-IsSeek : (offset : ℤ) (origin : Origin) → IsSeek file (seek dev vol offset origin file k)
  unfolding seek
  seek-IsSeek offset origin = seek_to-IsSeek (new_cursor file offset origin)

-- A walk that failed with a status.
abbrev pub IsFailed : Status → Done × (ℕ × Cache) → Type 0
IsFailed s (ok _, at) = ⊥
IsFailed s (err e, at) = e ≡ s

-- The status, and the file left as it was.
abbrev pub IsSeekFailed : File → Status → Done × (File × Cache) → Type 0
IsSeekFailed file s (ok _, at) = ⊥
IsSeekFailed file s (err e, (after, k)) = (e ≡ s) × (after ≡ file)

store_place-IsFailed :
    (file : File) (place : ℕ) (s : Status) (x : Done × (ℕ × Cache))
    → IsFailed s x
    → IsSeekFailed file s (store_place file place x)
store_place-IsFailed file place s (ok _, at) failed = elim failed [ ]
store_place-IsFailed file place s (err e, at) failed = (failed, refl)

module _ (disk : ℕ → ℕ) (vol : Volume) where
  then_next-past :
      (e : ℕ) (x : Done × (ℕ × Cache)) (next : ℕ → Cache → Done × (ℕ × Cache))
      → IsStep disk vol e x
      → last_cluster vol.fat_type < e
      → IsFailed Status.end_of_list (then_next vol x next)
  then_next-past e (ok _, (c, k)) next (same, coherent) past =
      rw (lt→ltb (last_cluster vol.fat_type) c (rw (same) past)) refl
  then_next-past e (err s, at) next failed past = elim failed [ ]

  then_next-IsFailed :
      (e : ℕ) (x : Done × (ℕ × Cache)) (next : ℕ → Cache → Done × (ℕ × Cache))
      → IsStep disk vol e x
      → e ≤ last_cluster vol.fat_type
      → ((k : Cache) → IsCoherent disk vol k → IsFailed Status.end_of_list (next e k))
      → IsFailed Status.end_of_list (then_next vol x next)
  then_next-IsFailed e (ok _, (c, k)) next (same, coherent) low go =
      rw (ltb-false (last_cluster vol.fat_type) c (rw (same) low), same) (go k coherent)
  then_next-IsFailed e (err s, at) next failed low go = elim failed [ ]

module _ (disk : ℕ → ℕ) (dev : Device) (vol : Volume) (is_disk : IsDisk disk dev)
    (valid : IsVolume vol) where
  follow_past :
      (n c : ℕ) (k : Cache)
      → IsCoherent disk vol k
      → IsChain disk vol c n
      → last_cluster vol.fat_type < nth_cluster disk vol (suc n) c
      → IsFailed Status.end_of_list (follow dev vol (suc n) c k)
  unfolding follow nth_cluster
  follow_past zero c k coherent chain past =
      then_next-past disk vol (entry_of disk vol vol.fat_type c) _ _
        (round_lem disk dev vol is_disk valid k coherent vol.fat_type c (chain 0 (omega arith)))
        past
  follow_past (suc n) c k coherent chain past =
      then_next-IsFailed disk vol (entry_of disk vol vol.fat_type c)
        (round dev vol vol.fat_type c k) (λ c k. follow dev vol (suc n) c k)
        (round_lem disk dev vol is_disk valid k coherent vol.fat_type c (chain 0 (omega arith)))
        (chain 1 (omega arith))
        (λ l held.
          follow_past n (entry_of disk vol vol.fat_type c) l held
            (λ i below. chain (suc i) (omega arith)) past)

  -- On a disk that can be read, for a file that fills its clusters to the last byte and whose chain
  -- ends behind them, a seek to the end fails with END_OF_LIST and leaves the file as it was.
  pub seek-end_fails :
      (file : File) (k : Cache) (q : ℕ)
      → IsCoherent disk vol k
      → file.size ≡ suc q * vol.cluster_size
      → IsChain disk vol file.head_cluster q
      → last_cluster vol.fat_type < nth_cluster disk vol (suc q) file.head_cluster
      → IsSeekFailed file Status.end_of_list (seek dev vol (pos 0) Origin.seek_end file k)
  unfolding seek seek_to new_cursor get_next_cluster nth_cluster
  seek-end_fails file k q coherent full chain past =
      let sectors = valid.some_sectors in
      let cs = valid.cluster_sectors in
      let place : min (file.size + 0) file.size ≡ file.size = omega arith in
      let steps : file.size / vol.cluster_size ≡ suc q =
        ap (λ z. z / vol.cluster_size) full
        ∙ mul-div_left (suc q) {n = vol.cluster_size} (omega arith) in
      store_place-IsFailed file _ Status.end_of_list _ (
        rw
          (
            place,
            steps,
            ltb-false (last_cluster vol.fat_type) file.head_cluster (chain 0 (omega arith)),
          )
          (follow_past q file.head_cluster k coherent chain past))
