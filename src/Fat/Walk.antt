-- ===== src/Fat/Walk.antt =====
-- Chains of clusters of vellum/filesystem/fat/fat.c: get_next_cluster12, 16 and 32 against the
-- entries of the table on the disk.
use sscc_oslecture.Base.{
  ltb, ◌==◌, if◌then◌else◌, ltb→lt, ltb-false, ==_iff, Bool-cases, ℕ, zero, suc, ◌+◌, ◌*◌, ◌/◌, ◌%◌,
  ◌≤◌, ◌<◌, ◌≡◌, refl, sym, ap, ap₂, subst, ◌∙◌, ◌≢◌, inl, inr, arith,
}
use sscc_oslecture.Status.{ok, err}
use sscc_oslecture.Fat.{
  FatType, fat12, fat16, fat32, Volume, Cache, Done, Device, read_fat, then_entry, value12, half_at,
  word_at, last_cluster, round12, round16, round32, round, then_next, follow, get_next_cluster,
}
use sscc_oslecture.Fat.Disk.{IsVolume, HasBytes, IsDisk, IsCoherent, IsFatRead, read_fat_lem}

module _ (disk : ℕ → ℕ) (vol : Volume) where
  -- The bytes of the first table on the disk.
  abbrev pub table : ℕ → ℕ
  table i = disk (vol.reserved_sectors * 512 + i)

  -- The entry of a cluster, read from the disk by the layout of each kind of table.
  abbrev pub entry_of : FatType → ℕ → ℕ
  entry_of fat12 c = value12 c (table (c + c / 2)) (table (c + c / 2 + 1))
  entry_of fat16 c = half_at table (c * 2)
  entry_of fat32 c = word_at table (c * 4) % 268435456

  -- The cluster `n` steps down the chain.
  unfoldable pub nth_cluster : ℕ → ℕ → ℕ
  nth_cluster zero c = c
  nth_cluster (suc n) c = nth_cluster n (entry_of vol.fat_type c)

  -- A step or a walk that ended well, at the cluster expected.
  abbrev pub IsStep : ℕ → Done × (ℕ × Cache) → Type 0
  IsStep expected (ok _, (c, k)) = (c ≡ expected) × IsCoherent disk vol k
  IsStep expected (err e, at) = ⊥

  then_entry_lem :
      (expected c lba : ℕ) (x : Done × Cache) (next : Cache → Done × (ℕ × Cache))
      → IsFatRead disk vol lba 512 x
      → ((l : Cache)
          → IsCoherent disk vol l
          → HasBytes disk lba 512 l.fatbuf
          → IsStep expected (next l))
      → IsStep expected (then_entry c x next)
  then_entry_lem expected c lba (ok _, k) next (coherent, bytes) step = step k coherent bytes
  then_entry_lem expected c lba (err e, k) next failed step = elim failed [ ]

  -- A byte or a half word of a sector in the buffer is that of the table.
  byte_at :
      (lba i j : ℕ) (buf : ℕ → ℕ)
      → HasBytes disk lba 512 buf
      → i < 512
      → lba * 512 + i ≡ vol.reserved_sectors * 512 + j
      → buf i ≡ table j
  byte_at lba i j buf bytes inside same = bytes i inside ∙ ap disk same

  half_lem :
      (lba i j : ℕ) (buf : ℕ → ℕ)
      → HasBytes disk lba 512 buf
      → i + 1 < 512
      → lba * 512 + i ≡ vol.reserved_sectors * 512 + j
      → half_at buf i ≡ half_at table j
  half_lem lba i j buf bytes inside same =
      ap₂ (λ a b. a + b * 256) (byte_at lba i j buf bytes (omega arith) same)
        (byte_at lba (i + 1) (j + 1) buf bytes inside (omega arith))

module _ (disk : ℕ → ℕ) (dev : Device) (vol : Volume) (is_disk : IsDisk disk dev)
    (valid : IsVolume vol) (k : Cache) (coherent : IsCoherent disk vol k) where
  round16-IsStep :
      (c : ℕ)
      → c ≤ last_cluster fat16
      → IsStep disk vol (entry_of disk vol fat16 c) (round16 dev vol c k)
  unfolding round16
  round16-IsStep c low =
      let r = valid.reserved_u16 in
      let lba : ℕ = vol.reserved_sectors + c / 256 in
      simp (valid.sector_512) (
        then_entry_lem disk vol (entry_of disk vol fat16 c) c lba (read_fat dev vol (c / 256) k)
          (λ l. (ok tt, (half_at l.fatbuf (c % 256 * 2), l)))
          (read_fat_lem disk dev vol is_disk k coherent (c / 256) (omega arith))
          (λ l ok bytes. (
            half_lem disk vol lba (c % 256 * 2) (c * 2) l.fatbuf bytes (omega arith) (omega arith),
            ok,
          )))

  round32-IsStep :
      (c : ℕ)
      → c ≤ last_cluster fat32
      → IsStep disk vol (entry_of disk vol fat32 c) (round32 dev vol c k)
  unfolding round32
  round32-IsStep c low =
      let r = valid.reserved_u16 in
      let lba : ℕ = vol.reserved_sectors + c / 128 in
      let i : ℕ = c % 128 * 4 in
      simp (valid.sector_512) (
        then_entry_lem disk vol (entry_of disk vol fat32 c) c lba (read_fat dev vol (c / 128) k)
          (λ l. (ok tt, (word_at l.fatbuf (c % 128 * 4) % 268435456, l)))
          (read_fat_lem disk dev vol is_disk k coherent (c / 128) (omega arith))
          (λ l ok bytes. (
            ap₂ (λ a b. (a + b * 65536) % 268435456)
                (half_lem disk vol lba i (c * 4) l.fatbuf bytes (omega arith) (omega arith))
                (half_lem disk vol lba (i + 2) (c * 4 + 2) l.fatbuf bytes (omega arith)
                  (omega arith)),
            ok,
          )))

  -- The second byte of an entry of 12 bits may be the first of the next sector.
  second_byte :
      (l : Cache)
      → IsCoherent disk vol l
      → (c j : ℕ) → c ≤ last_cluster fat12
      → j ≤ c + c / 2
      → HasBytes disk (vol.reserved_sectors + j / 512) 512 l.fatbuf
      → IsStep disk vol (value12 c (table disk vol j) (table disk vol (j + 1))) (
          if j % 512 == 511
          then then_entry c
              (read_fat dev vol (j / 512 + 1) l)
              (λ m. (ok tt, (value12 c (l.fatbuf (j % 512)) (m.fatbuf 0), m)))
          else (ok tt, (value12 c (l.fatbuf (j % 512)) (l.fatbuf (j % 512 + 1)), l)))
  second_byte l ok_l c j low below bytes =
      let r = valid.reserved_u16 in
      let lba : ℕ = vol.reserved_sectors + j / 512 in
      let first = byte_at disk vol lba (j % 512) j l.fatbuf bytes (omega arith) (omega arith) in
      elim (Bool-cases (j % 512 == 511)) [
        | inl e ↦
            let last : j % 512 ≡ 511 = (==_iff (j % 512) 511).0 e in
            rw (e) (
              then_entry_lem disk vol (value12 c (table disk vol j) (table disk vol (j + 1))) c
                (vol.reserved_sectors + (j / 512 + 1)) (read_fat dev vol (j / 512 + 1) l)
                (λ m. (ok tt, (value12 c (l.fatbuf (j % 512)) (m.fatbuf 0), m)))
                (read_fat_lem disk dev vol is_disk l ok_l (j / 512 + 1) (omega arith))
                (λ m ok_m more. (
                  ap₂ (value12 c) first (
                      byte_at disk vol (vol.reserved_sectors + (j / 512 + 1)) 0 (j + 1) m.fatbuf
                        more (omega arith) (omega arith)),
                  ok_m,
                )))
        | inr e ↦
            let inside : j % 512 ≢ 511 = λ last. absurd (cc (e, (==_iff (j % 512) 511).1 last)) in
            rw (e) (
              ap₂ (value12 c) first (
                  byte_at disk vol lba (j % 512 + 1) (j + 1) l.fatbuf bytes (omega arith)
                    (omega arith)),
              ok_l,
            )
      ]

  round12-IsStep :
      (c : ℕ)
      → c ≤ last_cluster fat12
      → IsStep disk vol (entry_of disk vol fat12 c) (round12 dev vol c k)
  unfolding round12
  round12-IsStep c low =
      let r = valid.reserved_u16 in
      let j : ℕ = c + c / 2 in
      let wide : j % 65536 ≡ j = omega arith in
      let lba : ℕ = vol.reserved_sectors + j / 512 in
      simp (valid.sector_512, wide)
        (then_entry_lem disk vol (entry_of disk vol fat12 c) c lba (read_fat dev vol (j / 512) k) _
          (read_fat_lem disk dev vol is_disk k coherent (j / 512) (omega arith))
          (λ l ok bytes. second_byte l ok c j low (omega arith) bytes))

  -- One round of get_next_cluster follows the entry on the disk.
  pub round_lem :
      (t : FatType) (c : ℕ)
      → c ≤ last_cluster t
      → IsStep disk vol (entry_of disk vol t c) (round dev vol t c k)
  unfolding round
  round_lem fat12 = round12-IsStep
  round_lem fat16 = round16-IsStep
  round_lem fat32 = round32-IsStep

-- The clusters of a chain from `c` on, `n` steps down: all of them within the table.
module _ (disk : ℕ → ℕ) (vol : Volume) where
  abbrev pub IsChain : ℕ → ℕ → Type 0
  IsChain c n = (i : ℕ) → i ≤ n → nth_cluster disk vol i c ≤ last_cluster vol.fat_type

  then_next_lem :
      (expected e c : ℕ) (x : Done × (ℕ × Cache)) (next : ℕ → Cache → Done × (ℕ × Cache))
      → IsStep disk vol e x
      → e ≤ last_cluster vol.fat_type
      → ((l : Cache) → IsCoherent disk vol l → IsStep disk vol expected (next e l))
      → IsStep disk vol expected (then_next vol x next)
  then_next_lem expected e c (ok _, (at, l)) next (same, coherent) low step =
      let low_at : at ≤ last_cluster vol.fat_type =
        subst (λ m. m ≤ last_cluster vol.fat_type) (sym same) low in
      rw (ltb-false (last_cluster vol.fat_type) at low_at)
        (subst (λ m. IsStep disk vol expected (next m l)) (sym same) (step l coherent))
  then_next_lem expected e c (err s, at) next failed low step = elim failed [ ]

module _ (disk : ℕ → ℕ) (dev : Device) (vol : Volume) (is_disk : IsDisk disk dev)
    (valid : IsVolume vol) where
  follow_lem :
      (n c : ℕ) (k : Cache)
      → IsCoherent disk vol k
      → IsChain disk vol c n
      → IsStep disk vol (nth_cluster disk vol n c) (follow dev vol n c k)
  unfolding follow nth_cluster
  follow_lem zero c k coherent chain = (refl, coherent)
  follow_lem (suc n) c k coherent chain =
      let e : ℕ = entry_of disk vol vol.fat_type c in
      then_next_lem disk vol (nth_cluster disk vol n e) e c (round dev vol vol.fat_type c k)
        (λ c k. follow dev vol n c k)
        (round_lem disk dev vol is_disk valid k coherent vol.fat_type c (chain 0 (omega arith)))
        (chain 1 (omega arith))
        (λ l ok. follow_lem n e l ok (λ i below. chain (suc i) (omega arith)))

  -- On a disk that can be read, with buffers that agree with it and a chain within the table,
  -- get_next_cluster of any kind of table ends at the cluster `n` entries down the chain, and the
  -- buffers still agree with the disk.
  pub get_next_cluster_walks :
      (n c : ℕ) (k : Cache)
      → IsCoherent disk vol k
      → IsChain disk vol c n
      → IsStep disk vol (nth_cluster disk vol n c) (get_next_cluster dev vol n c k)
  unfolding get_next_cluster nth_cluster
  get_next_cluster_walks n c k coherent chain =
      let low : c ≤ last_cluster vol.fat_type = chain 0 (omega arith) in
      rw (ltb-false (last_cluster vol.fat_type) c low) (follow_lem n c k coherent chain)

module _ (disk : ℕ → ℕ) (vol : Volume) where
  pub nth_cluster-suc :
      (n c : ℕ)
      → nth_cluster disk vol (suc n) c ≡ entry_of disk vol vol.fat_type (nth_cluster disk vol n c)
  unfolding nth_cluster
  nth_cluster-suc zero c = refl
  nth_cluster-suc (suc n) c = nth_cluster-suc n (entry_of disk vol vol.fat_type c)

  -- One step of get_next_cluster: it fails only behind the last cluster, with the entry stored.
  abbrev pub IsNext : ℕ → Done × (ℕ × Cache) → Type 0
  IsNext e (ok _, (c, k)) = (c ≡ e) × IsCoherent disk vol k
  IsNext e (err _, (c, k)) = (last_cluster vol.fat_type < e) × IsCoherent disk vol k

  then_next-IsNext :
      (e : ℕ) (x : Done × (ℕ × Cache))
      → IsStep disk vol e x
      → IsNext e (then_next vol x (λ c k. (ok tt, (c, k))))
  then_next-IsNext e (ok _, (c, k)) (same, coherent) =
      elim (Bool-cases (ltb (last_cluster vol.fat_type) c)) [
        | inl h ↦ rw (h) (
          subst (λ m. last_cluster vol.fat_type < m) same (ltb→lt (last_cluster vol.fat_type) c h),
          coherent,
        )
        | inr h ↦ rw (h) (same, coherent)
      ]
  then_next-IsNext e (err s, at) failed = elim failed [ ]

module _ (disk : ℕ → ℕ) (dev : Device) (vol : Volume) (is_disk : IsDisk disk dev)
    (valid : IsVolume vol) where
  pub get_next_cluster-IsNext :
      (c : ℕ) (k : Cache)
      → IsCoherent disk vol k
      → c ≤ last_cluster vol.fat_type
      → IsNext disk vol (entry_of disk vol vol.fat_type c) (get_next_cluster dev vol 1 c k)
  unfolding get_next_cluster follow
  get_next_cluster-IsNext c k coherent low = rw (ltb-false (last_cluster vol.fat_type) c low) (
      then_next-IsNext disk vol (entry_of disk vol vol.fat_type c) (round dev vol vol.fat_type c k)
        (round_lem disk dev vol is_disk valid k coherent vol.fat_type c low))
