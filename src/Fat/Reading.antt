-- ===== src/Fat/Reading.antt =====
-- read of vellum/filesystem/fat/fat.c against the bytes of the file.
use sscc_oslecture.Base.{
  ltb, leb, ◌==◌, ltb→lt, leb→le, leb-false, ==_iff, Bool-cases, add32, within_block, end_of_block,
  block_start, ℕ, zero, suc, ◌+◌, ◌-◌, ◌/◌, ◌%◌, ◌^◌, ◌≤◌, ◌<◌, min, ◌≡◌, refl, sym, subst, ◌∙◌,
  inl, inr, arith,
}
use sscc_oslecture.Status.{ok, err}
use sscc_oslecture.Fat.{Volume, Cache, Done, Device, cluster_to_sector, read_cluster}
use sscc_oslecture.Fat.Files.{
  File, Reader, copied, at_next, then_copy, resume, clip_len, advance, read_loop, read,
}
use sscc_oslecture.Fat.Disk.{IsVolume, IsDisk, IsCoherent, IsCluster, read_cluster_lem}
use sscc_oslecture.Fat.Walk.{nth_cluster, nth_cluster-suc, IsNext, get_next_cluster-IsNext}
use sscc_oslecture.Fat.Stored.{
  IsStored, IsPlaced, IsReading, IsReadTo, IsAdvanced, then_copy_lem, resume_lem, current_lem,
  copied-IsReading,
}

-- The end of a round, for a state at a place of the file.
module _ (disk : ℕ → ℕ) (dev : Device) (vol : Volume) (is_disk : IsDisk disk dev)
    (valid : IsVolume vol) (file : File) (stored : IsStored disk vol file) (buf : ℕ → ℕ) where
  -- The current cluster is no part of what a call has done.
  with_cluster :
      (r : Reader) (c : ℕ) (k : Cache)
      → IsReading disk vol file buf r
      → IsCoherent disk vol k
      → IsReading disk vol file buf
          (record r { file = record r.file { current_cluster = c }; cache = k })
  with_cluster r c k reading coherent = record {
    same_size = reading.same_size;
    same_head = reading.same_head;
    moved = reading.moved;
    inside = reading.inside;
    coherent = coherent;
    filled = reading.filled;
    beyond = reading.beyond;
  }

  at_next_lem :
      (r : Reader) (e : ℕ) (x : Done × (ℕ × Cache))
      → IsReading disk vol file buf r
      → IsNext disk vol e x
      → (r.file.cursor < file.size
          → e ≡ nth_cluster disk vol (r.file.cursor / vol.cluster_size) file.head_cluster)
      → IsAdvanced disk vol file buf r.total_read_len (at_next r x)
  at_next_lem r e (ok _, (c, k)) reading (same, coherent) next = (
    refl,
    with_cluster r c k reading coherent,
    λ inside. rw (reading.same_head) (same ∙ next (rw⁻¹ (reading.same_size) inside)),
  )
  at_next_lem r e (err s, (c, k)) reading (past, coherent) next =
      let sectors = valid.some_sectors in
      let size = valid.cluster_sectors in
      let positive : 0 < vol.cluster_size = omega arith in
      let i : ℕ = r.file.cursor / vol.cluster_size in
      let at_end : r.file.cursor ≡ file.size = elim (Bool-cases (ltb r.file.cursor file.size)) [
        | inl h ↦
            let inside : r.file.cursor < file.size = ltb→lt r.file.cursor file.size h in
            let low =
              stored.chain i
                (block_start vol.cluster_size r.file.cursor file.size positive inside) in
            absurd (omega (arith, past, low, next inside))
        | inr h ↦ let le = reading.inside in ground arith
      ] in
      (refl, with_cluster r c k reading coherent, at_end)

  module _ (r : Reader) (reading : IsReading disk vol file buf r) (p : ℕ)
      (here : r.file.current_cluster
        ≡ nth_cluster disk vol (p / vol.cluster_size) file.head_cluster)
      (n : ℕ) (moved : r.file.cursor ≡ p + n) (was : p < file.size)
      (fits : p % vol.cluster_size + n ≤ vol.cluster_size) where
    advance_lem :
        IsAdvanced disk vol file buf r.total_read_len (advance dev vol (p % vol.cluster_size + n) r)
    unfolding advance
    advance_lem =
        let sectors = valid.some_sectors in
        let size = valid.cluster_sectors in
        let positive : 0 < vol.cluster_size = omega arith in
        let used : ℕ = p % vol.cluster_size + n in
        elim (Bool-cases (ltb used vol.cluster_size)) [
          | inl h ↦
              let (quotient, _) =
                within_block vol.cluster_size p n positive (ltb→lt used vol.cluster_size h) in
              rw (h) (refl, reading, λ _. rw (reading.same_head, moved, quotient) here)
          | inr h ↦
              let whole : used ≡ vol.cluster_size = ground arith in
              let low =
                stored.chain (p / vol.cluster_size)
                  (block_start vol.cluster_size p file.size positive was) in
              rw (h) (
                at_next_lem r _ _ reading
                  (get_next_cluster-IsNext disk dev vol is_disk valid r.file.current_cluster r.cache
                    reading.coherent (rw (here) low))
                  (λ _.
                    rw (moved, end_of_block vol.cluster_size p n positive whole, here)
                      (sym (nth_cluster-suc disk vol (p / vol.cluster_size) file.head_cluster))))
        ]

module _ (disk : ℕ → ℕ) (dev : Device) (vol : Volume) (is_disk : IsDisk disk dev)
    (valid : IsVolume vol) (file : File) (stored : IsStored disk vol file) (buf : ℕ → ℕ) where
  -- A round with `n` bytes, before the rest of the loop.
  read_round :
      (n total : ℕ) (r : Reader) (next : Reader → Done × Reader)
      → IsReading disk vol file buf r
      → IsPlaced disk vol r.file
      → r.file.cursor < file.size
      → r.file.cursor % vol.cluster_size + n ≤ vol.cluster_size
      → r.total_read_len + n ≤ total
      → file.cursor + total ≤ file.size
      → ((l : Reader)
          → l.total_read_len ≡ r.total_read_len + n
          → IsReading disk vol file buf l
          → IsPlaced disk vol l.file
          → IsReadTo disk vol file buf total (next l))
      → IsReadTo disk vol file buf total (
          then_copy r (read_cluster dev vol r.file.current_cluster r.cache) (λ k.
            resume
              (advance dev vol
                (r.file.cursor % vol.cluster_size + n)
                (copied (r.file.cursor % vol.cluster_size) n k r))
              next))
  unfolding copied
  read_round n total r next reading placed inside fits below ends go =
      let p : ℕ = r.file.cursor in
      let was = reading.moved in
      let sectors = valid.some_sectors in
      let size = valid.cluster_sectors in
      let here = current_lem disk dev vol is_disk valid file stored buf r reading placed inside in
      let cluster : IsCluster vol r.file.current_cluster = rw (here) (
        stored.clusters (p / vol.cluster_size)
          (block_start vol.cluster_size p file.size (omega arith) inside)) in
      then_copy_lem disk vol file buf total (cluster_to_sector vol r.file.current_cluster)
        vol.cluster_size r (read_cluster dev vol r.file.current_cluster r.cache) _
        (read_cluster_lem disk dev vol is_disk valid r.cache reading.coherent r.file.current_cluster
          cluster)
        (λ k coherent bytes.
          let s : Reader = copied (p % vol.cluster_size) n k r in
          let read : IsReading disk vol file buf s =
            copied-IsReading disk dev vol is_disk valid file stored buf r reading placed inside n
              fits (omega arith) k coherent bytes in
          resume_lem disk vol file buf (r.total_read_len + n) total _ next below ends
            (advance_lem disk dev vol is_disk valid file stored buf s read p here n
              (read.moved ∙ omega arith) inside fits)
            go)

  read_loop_lem :
      (fuel len : ℕ) (r : Reader)
      → len ≤ fuel
      → IsReading disk vol file buf r
      → IsPlaced disk vol r.file
      → r.file.cursor + len ≤ file.size
      → IsReadTo disk vol file buf (r.total_read_len + len) (read_loop dev vol fuel len r)
  unfolding read_loop
  read_loop_lem zero len r enough reading placed fits = (omega arith, reading, placed)
  read_loop_lem (suc fuel) len r enough reading placed fits =
      let moved = reading.moved in
      let off : ℕ = r.file.cursor % vol.cluster_size in
      let n : ℕ = min (vol.cluster_size - off) len in
      let sectors = valid.some_sectors in
      let size = valid.cluster_sectors in
      elim (Bool-cases (len == 0)) [
        | inl h ↦
            let none_left : len ≡ 0 = (==_iff len 0).0 h in rw (h) (omega arith, reading, placed)
        | inr h ↦
            let some_left : 0 < len = ground arith in
            rw (h) (
              read_round n (r.total_read_len + len) r
                (λ next. read_loop dev vol fuel (len - n) next) reading placed (omega arith)
                (omega arith) (omega arith) (omega arith)
                (λ l total reading_l placed_l.
                  subst (λ t. IsReadTo disk vol file buf t (read_loop dev vol fuel (len - n) l))
                    (omega arith)
                    (read_loop_lem fuel (len - n) l (omega arith) reading_l placed_l
                      (let moved_l = reading_l.moved in omega arith))))
      ]

module _ (disk : ℕ → ℕ) (dev : Device) (vol : Volume) (is_disk : IsDisk disk dev)
    (valid : IsVolume vol) (r : Reader) (stored : IsStored disk vol r.file)
    (coherent : IsCoherent disk vol r.cache) (len : ℕ) where
  clip_len-min :
      r.file.cursor < r.file.size
      → r.file.cursor + len < 2 ^ 32
      → clip_len r.file len ≡ min len (r.file.size - r.file.cursor)
  unfolding clip_len
  clip_len-min inside small =
      let sum : add32 r.file.cursor len ≡ r.file.cursor + len = omega arith in
      rw (sum) (elim (Bool-cases (leb r.file.size (r.file.cursor + len))) [
        | inl h ↦
            let past : r.file.size ≤ r.file.cursor + len =
              leb→le r.file.size (r.file.cursor + len) h in
            rw (h) (omega arith)
        | inr h ↦
            let short : r.file.cursor + len < r.file.size = ground arith in rw (h) (omega arith)
      ])

  -- On a disk that can be read, for a file with a cluster for each byte, buffers that agree with the
  -- disk, and a cursor inside the file and in the current cluster, read of `len` bytes (cursor + len
  -- within 32 bits) succeeds: it stores min len (size - cursor) bytes, each the file's byte at its
  -- place, leaves the rest of the caller's buffer, moves the cursor behind them, and keeps the current
  -- cluster at the cursor and the buffers in agreement with the disk.
  pub read-IsReadTo :
      r.file.cursor < r.file.size
      → IsPlaced disk vol r.file
      → r.file.cursor + len < 2 ^ 32
      → IsReadTo disk vol r.file r.buf (min len (r.file.size - r.file.cursor)) (read dev vol len r)
  unfolding read
  read-IsReadTo inside placed small =
      let clipped : ℕ = clip_len r.file len in
      let clip : clipped ≡ min len (r.file.size - r.file.cursor) = clip_len-min inside small in
      let start : IsReading disk vol r.file r.buf (record r { total_read_len = 0 }) = record {
        same_size = refl;
        same_head = refl;
        moved = omega arith;
        inside = omega arith;
        coherent = coherent;
        filled = λ i none. absurd (omega arith);
        beyond = λ i late. refl;
      } in
      rw (leb-false r.file.size r.file.cursor inside) (
        subst
          (λ t.
            IsReadTo disk vol r.file r.buf t
              (read_loop dev vol clipped clipped (record r { total_read_len = 0 })))
          (omega (arith, clip))
          (read_loop_lem disk dev vol is_disk valid r.file stored r.buf clipped clipped
            (record r { total_read_len = 0 }) (omega arith) start placed (omega arith)))
