-- ===== src/Fat/Stored.antt =====
-- Files of vellum/filesystem/fat/fat.c as they lie on the disk, the clusters of a chain one after
-- the other, and what a round of read copies of them.
use sscc_oslecture.Base.{
  ltb, ltb→lt, lt→ltb, le→leb, leb-false, ltb-false, Bool-cases, add32, within_block, ℕ, ◌+◌, ◌-◌,
  ◌*◌, ◌/◌, ◌%◌, ◌^◌, ◌≤◌, ◌<◌, ◌≡◌, refl, ◌∙◌, inl, inr, Bool, true, false, arith,
}
use sscc_oslecture.Status.{ok, err}
use sscc_oslecture.Fat.{Volume, Cache, Done, Device, cluster_to_sector, last_cluster}
use sscc_oslecture.Fat.Files.{File, Reader, paste, copied, then_copy, resume}
use sscc_oslecture.Fat.Disk.{IsVolume, HasBytes, IsDisk, IsCoherent, IsCluster, IsDataRead}
use sscc_oslecture.Fat.Walk.{nth_cluster}

module _ (disk : ℕ → ℕ) (vol : Volume) where
  -- Byte `p` of the file whose chain starts at `head`.
  abbrev pub file_byte : ℕ → ℕ → ℕ
  file_byte head p = disk (
      cluster_to_sector vol (nth_cluster disk vol (p / vol.cluster_size) head) * 512
      + p % vol.cluster_size)

  -- A file whose chain has a cluster for each of its bytes.
  pub record IsStored (file : File) : Type 0 where
    pub size_u32 : file.size < 2 ^ 32
    pub clusters :
        (i : ℕ)
        → i * vol.cluster_size < file.size
        → IsCluster vol (nth_cluster disk vol i file.head_cluster)
    pub chain :
        (i : ℕ)
        → i * vol.cluster_size < file.size
        → nth_cluster disk vol i file.head_cluster ≤ last_cluster vol.fat_type

  -- The cursor is in the current cluster, unless it is at the end.
  abbrev pub IsPlaced : File → Type 0
  IsPlaced file =
      file.cursor < file.size
      → file.current_cluster
        ≡ nth_cluster disk vol (file.cursor / vol.cluster_size) file.head_cluster

  -- What a call of read has done so far, for the file and the buffer it began with.
  pub record IsReading (file : File) (buf : ℕ → ℕ) (r : Reader) : Type 0 where
    pub same_size : r.file.size ≡ file.size
    pub same_head : r.file.head_cluster ≡ file.head_cluster
    pub moved : r.file.cursor ≡ file.cursor + r.total_read_len
    pub inside : r.file.cursor ≤ file.size
    pub coherent : IsCoherent disk vol r.cache
    pub filled :
        (i : ℕ) → i < r.total_read_len → r.buf i ≡ file_byte file.head_cluster (file.cursor + i)
    pub beyond : (i : ℕ) → r.total_read_len ≤ i → r.buf i ≡ buf i

  -- A call that succeeded with `total` bytes.
  abbrev pub IsReadTo : File → (ℕ → ℕ) → ℕ → Done × Reader → Type 0
  IsReadTo file buf total (ok _, r) =
      (r.total_read_len ≡ total) × IsReading file buf r × IsPlaced r.file
  IsReadTo file buf total (err e, r) = ⊥

  -- A round that went on to the next cluster, or found the chain at its end.
  abbrev pub IsAdvanced : File → (ℕ → ℕ) → ℕ → Bool × Reader → Type 0
  IsAdvanced file buf total (true, r) =
      (r.total_read_len ≡ total) × IsReading file buf r × IsPlaced r.file
  IsAdvanced file buf total (false, r) =
      (r.total_read_len ≡ total) × IsReading file buf r × (r.file.cursor ≡ file.size)

  pub then_copy_lem :
      (file : File) (buf : ℕ → ℕ) (total lba size : ℕ) (r : Reader) (x : Done × Cache)
      (next : Cache → Done × Reader)
      → IsDataRead disk vol lba size x
      → ((k : Cache)
          → IsCoherent disk vol k
          → HasBytes disk lba size k.databuf
          → IsReadTo file buf total (next k))
      → IsReadTo file buf total (then_copy r x next)
  then_copy_lem file buf total lba size r (ok _, k) next (coherent, bytes) go = go k coherent bytes
  then_copy_lem file buf total lba size r (err e, k) next failed go = elim failed [ ]

  pub resume_lem :
      (file : File) (buf : ℕ → ℕ) (here total : ℕ) (x : Bool × Reader)
      (next : Reader → Done × Reader)
      → here ≤ total
      → file.cursor + total ≤ file.size
      → IsAdvanced file buf here x
      → ((r : Reader)
          → r.total_read_len ≡ here
          → IsReading file buf r
          → IsPlaced r.file
          → IsReadTo file buf total (next r))
      → IsReadTo file buf total (resume x next)
  resume_lem file buf here total (true, r) next below fits (same, reading, placed) go =
      go r same reading placed
  resume_lem file buf here total (false, r) next below fits (same, reading, at_end) go =
      let moved = reading.moved in
      let size = reading.same_size in (omega arith, reading, λ inside. absurd (omega arith))

paste_inside :
    (buf : ℕ → ℕ) (at n : ℕ) (src : ℕ → ℕ) (i : ℕ)
    → at ≤ i
    → i < at + n
    → paste buf at n src i ≡ src (i - at)
paste_inside buf at n src i h l = rw (le→leb at i h, lt→ltb i (at + n) l) refl

paste_before :
    (buf : ℕ → ℕ) (at n : ℕ) (src : ℕ → ℕ) (i : ℕ) → i < at → paste buf at n src i ≡ buf i
paste_before buf at n src i h = rw (leb-false at i h) refl

paste_after :
    (buf : ℕ → ℕ) (at n : ℕ) (src : ℕ → ℕ) (i : ℕ) → at + n ≤ i → paste buf at n src i ≡ buf i
paste_after buf at n src i h = rw (le→leb at i (omega arith), ltb-false i (at + n) h) refl

module _ (disk : ℕ → ℕ) (dev : Device) (vol : Volume) (is_disk : IsDisk disk dev)
    (valid : IsVolume vol) (file : File) (stored : IsStored disk vol file) (buf : ℕ → ℕ)
    (r : Reader) (reading : IsReading disk vol file buf r) where
  module _ (placed : IsPlaced disk vol r.file) (inside : r.file.cursor < file.size) where
    pub current_lem :
        r.file.current_cluster
        ≡ nth_cluster disk vol (r.file.cursor / vol.cluster_size) file.head_cluster
    current_lem = rw (← reading.same_head) (placed (rw (reading.same_size) inside))

    -- The byte `j` places after the cursor, in the same cluster.
    same_cluster :
        (j i : ℕ)
        → r.file.cursor % vol.cluster_size + j < vol.cluster_size
        → file.cursor + i ≡ r.file.cursor + j
        → disk (
            cluster_to_sector vol r.file.current_cluster * 512
            + (r.file.cursor % vol.cluster_size + j))
          ≡ file_byte disk vol file.head_cluster (file.cursor + i)
    same_cluster j i h same =
        let (quotient, remainder) = within_block vol.cluster_size r.file.cursor j (omega arith) h in
        rw (same, quotient, remainder, current_lem) refl

    module _ (n : ℕ) (fits : r.file.cursor % vol.cluster_size + n ≤ vol.cluster_size)
        (ends : r.file.cursor + n ≤ file.size) (k : Cache) (coherent : IsCoherent disk vol k)
        (bytes : HasBytes disk
          (cluster_to_sector vol r.file.current_cluster)
          vol.cluster_size
          k.databuf) where
      pub copied-IsReading :
          IsReading disk vol file buf (copied (r.file.cursor % vol.cluster_size) n k r)
      unfolding copied
      copied-IsReading =
          let total : ℕ = r.total_read_len in
          let off : ℕ = r.file.cursor % vol.cluster_size in
          let src : ℕ → ℕ = λ i. k.databuf (off + i) in
          let u32 = stored.size_u32 in
          let moved = reading.moved in
          let sum : add32 r.file.cursor n ≡ r.file.cursor + n = omega arith in
          record {
            same_size = reading.same_size;
            same_head = reading.same_head;
            moved = sum ∙ omega arith;
            inside = rw (sum) ends;
            coherent = coherent;
            filled = λ i low. elim (Bool-cases (ltb i total)) [
              | inl h ↦
                  let early : i < total = ltb→lt i total h in
                  paste_before r.buf total n src i early ∙ reading.filled i early
              | inr h ↦
                  let late : total ≤ i = ground arith in
                  paste_inside r.buf total n src i late low
                  ∙ bytes (off + (i - total)) (omega arith)
                  ∙ same_cluster (i - total) i (omega arith) (omega arith)
            ];
            beyond =
                λ i late. paste_after r.buf total n src i late ∙ reading.beyond i (omega arith);
          }
