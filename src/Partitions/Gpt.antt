-- ===== src/Partitions/Gpt.antt =====
-- The entries of a GPT, vellum/device/block/part/gpt.c, against the list on the disk.
use sscc_oslecture.Base.{
  leb, ◌==◌, if◌then◌else◌, leb→le, Bool-cases, add32, ℕ, zero, suc, ◌+◌, ◌-◌, ◌*◌, ◌/◌, ◌%◌, ◌^◌,
  ◌≤◌, ◌<◌, ◌≡◌, refl, sym, ap, ap₂, subst, ◌∙◌, inl, inr, true, false, List, [], ◌∷◌, arith,
}
use sscc_oslecture.Status.{Status, ok, err}
use sscc_oslecture.Fat.{Done, Device, half_at, word_at}
use sscc_oslecture.Partitions.{
  Range, Registered, then_part, is_null, long_at, range_at, next_place, gpt_entries,
}
use sscc_oslecture.Fat.Disk.{HasBytes, IsFilled, IsDisk}

-- A number of 64 bits on the disk, and the range of an entry.
abbrev pub number_at : (ℕ → ℕ) → ℕ → ℕ
number_at disk p =
    disk p
    + disk (p + 1) * 256
    + disk (p + 2) * 65536
    + disk (p + 3) * 16777216
    + disk (p + 4) * 4294967296
    + disk (p + 5) * 1099511627776
    + disk (p + 6) * 281474976710656
    + disk (p + 7) * 72057594037927936

abbrev pub entry_range : (ℕ → ℕ) → ℕ → Range
entry_range disk at = record { base = number_at disk (at + 32); limit = number_at disk (at + 40) }

module _ (accept : Range → Done) (disk : ℕ → ℕ) (list_lba : ℕ) where
  -- Entry `i` of the list, in entries of 128 bytes.
  abbrev pub entry_place : ℕ → ℕ
  entry_place i = list_lba * 512 + i * 128

  -- What the loop does from entry `i` on, with `left` entries to go.
  pub data IsListed : ℕ → ℕ → Registered → Type 0 where
    complete : (i : ℕ) → IsListed zero i (ok tt, [])
    stopped :
        (left i : ℕ)
        → ((j : ℕ) → j < 16 → disk (entry_place i + j) ≡ 0)
        → IsListed (suc left) i (ok tt, [])
    taken :
        (left i : ℕ) (status : Done) (parts : List Range)
        → (((j : ℕ) → j < 16 → disk (entry_place i + j) ≡ 0) → ⊥)
        → accept (entry_range disk (entry_place i)) ≡ ok tt
        → IsListed left (suc i) (status, parts)
        → IsListed (suc left) i (status, entry_range disk (entry_place i) ∷ parts)
    refused :
        (left i : ℕ) (e : Status)
        → (((j : ℕ) → j < 16 → disk (entry_place i + j) ≡ 0) → ⊥)
        → accept (entry_range disk (entry_place i)) ≡ err e
        → IsListed (suc left) i (err e, [])

  -- The partitions of the entries from `i` on, `left` of them at most: up to the first whose type is 0, or
  -- the first that is not accepted.
  unfoldable listed : ℕ → ℕ → Registered
  listed zero i = (ok tt, [])
  listed (suc left) i =
      let range : Range = range_at disk (entry_place i) in
      if is_null 16 disk (entry_place i)
      then (ok tt, [])
      else then_part range (accept range) (listed left (suc i))

-- Bytes of a sector in the buffer and on the disk.
module _ (disk : ℕ → ℕ) (lba : ℕ) (sector : ℕ → ℕ) (bytes : HasBytes disk lba 512 sector) where
  is_null_same : (n at : ℕ) → at + n ≤ 512 → is_null n sector at ≡ is_null n disk (lba * 512 + at)
  unfolding is_null
  is_null_same zero at inside = refl
  is_null_same (suc n) at inside =
      let later : is_null n sector (suc at) ≡ is_null n disk (suc (lba * 512 + at)) =
        is_null_same n (suc at) (omega arith) ∙ ap (is_null n disk) (omega arith) in
      ap₂ (λ b l. if b == 0 then l else false) (bytes at (omega arith)) later

  half_same : (at i : ℕ) → at + 1 < 512 → i ≡ lba * 512 + at → half_at sector at ≡ half_at disk i
  half_same at i inside place =
      ap₂ (λ a b. a + b * 256) (bytes at (omega arith) ∙ ap disk (omega arith))
        (bytes (at + 1) inside ∙ ap disk (omega arith))

  word_same : (at i : ℕ) → at + 3 < 512 → i ≡ lba * 512 + at → word_at sector at ≡ word_at disk i
  word_same at i inside place =
      ap₂ (λ a b. a + b * 65536) (half_same at i (omega arith) place)
        (half_same (at + 2) (i + 2) (omega arith) (omega arith))

  long_same : (at i : ℕ) → at + 7 < 512 → i ≡ lba * 512 + at → long_at sector at ≡ long_at disk i
  long_same at i inside place =
      ap₂ (λ a b. a + b * 2 ^ 32) (word_same at i (omega arith) place)
        (word_same (at + 4) (i + 4) (omega arith) (omega arith))

  range_same : (at : ℕ) → at + 48 ≤ 512 → range_at sector at ≡ range_at disk (lba * 512 + at)
  range_same at inside =
      ap₂ (λ b l. record { base = b; limit = l })
        (long_same (at + 32) _ (omega arith) (omega arith))
        (long_same (at + 40) _ (omega arith) (omega arith))

filled_bytes :
    (disk : ℕ → ℕ) (lba : ℕ) (x : Done × (ℕ → ℕ))
    → IsFilled disk lba 1 x
    → HasBytes disk lba 512 x.1
filled_bytes disk lba (ok _, buf) filled = filled
filled_bytes disk lba (err e, buf) filled = elim filled [ ]

module _ (accept : Range → Done) (disk : ℕ → ℕ) (list_lba : ℕ) where
  is_null_lem : (n at : ℕ) → is_null n disk at ≡ true → (j : ℕ) → j < n → disk (at + j) ≡ 0
  unfolding is_null
  is_null_lem zero at h j below = absurd (omega arith)
  is_null_lem (suc n) at h zero below =
      let here : disk at ≡ 0 = elim (Bool-cases (disk at == 0)) [
        | inl e ↦ ground arith
        | inr e ↦ absurd (cc (rw e at h))
      ] in
      ap disk (omega arith) ∙ here
  is_null_lem (suc n) at h (suc j) below =
      let later : is_null n disk (suc at) ≡ true = elim (Bool-cases (disk at == 0)) [
        | inl e ↦ rw e at h
        | inr e ↦ absurd (cc (rw e at h))
      ] in
      ap disk (omega arith) ∙ is_null_lem n (suc at) later j (omega arith)

  is_null_inv : (n at : ℕ) → is_null n disk at ≡ false → ((j : ℕ) → j < n → disk (at + j) ≡ 0) → ⊥
  unfolding is_null
  is_null_inv zero at h all = cc
  is_null_inv (suc n) at h all =
      let here : (disk at == 0) ≡ true =
        let z : disk (at + 0) ≡ 0 = all 0 (omega arith) in
        let same : disk (at + 0) ≡ disk at = ap disk (omega arith) in ground arith in
      is_null_inv n (suc at) (rw here at h)
        (λ j below. ap disk (omega arith) ∙ all (suc j) (omega arith))

  number_lem : (p : ℕ) → long_at disk p ≡ number_at disk p
  number_lem p =
      let b3 : disk (p + 2 + 1) ≡ disk (p + 3) = ap disk (omega arith) in
      let b5 : disk (p + 4 + 1) ≡ disk (p + 5) = ap disk (omega arith) in
      let b6 : disk (p + 4 + 2) ≡ disk (p + 6) = ap disk (omega arith) in
      let b7 : disk (p + 4 + 2 + 1) ≡ disk (p + 7) = ap disk (omega arith) in omega arith

  place_range : (at : ℕ) → range_at disk at ≡ entry_range disk at
  place_range at =
      ap₂ (λ b l. record { base = b; limit = l }) (number_lem (at + 32)) (number_lem (at + 40))

  listed_step :
      (left i : ℕ) (a : Done) (later : Registered)
      → accept (entry_range disk (entry_place accept disk list_lba i)) ≡ a
      → (((j : ℕ) → j < 16 → disk (entry_place accept disk list_lba i + j) ≡ 0) → ⊥)
      → IsListed accept disk list_lba left (suc i) later
      → IsListed accept disk list_lba
          (suc left)
          i
          (then_part (entry_range disk (entry_place accept disk list_lba i)) a later)
  listed_step left i (ok _) (status, parts) e used rest = taken left i status parts used e rest
  listed_step left i (err s) (status, parts) e used rest = refused left i s used e

  listed-IsListed :
      (left i : ℕ) → IsListed accept disk list_lba left i (listed accept disk list_lba left i)
  unfolding listed
  listed-IsListed zero i = complete i
  listed-IsListed (suc left) i =
      let place = entry_place accept disk list_lba i in
      elim (Bool-cases (is_null 16 disk place)) [
        | inl h ↦ rw h (stopped left i (is_null_lem 16 place h))
        | inr h ↦
            rw (h, place_range place)
              (listed_step left i (accept (entry_range disk place)) _ refl (is_null_inv 16 place h)
                (listed-IsListed left (suc i)))
      ]

module _ (accept : Range → Done) (disk : ℕ → ℕ) (dev : Device) (is_disk : IsDisk disk dev) where
  gpt_entries_lem :
      (list_lba left i lba offset : ℕ) (sector : ℕ → ℕ)
      → lba ≡ list_lba + i / 4
      → offset ≡ i % 4 * 128
      → HasBytes disk lba 512 sector
      → gpt_entries accept dev 128 left (lba, (offset, sector)) ≡ listed accept disk list_lba left i
  unfolding gpt_entries listed next_place
  gpt_entries_lem list_lba zero i lba offset sector here at bytes = refl
  gpt_entries_lem list_lba (suc left) i lba offset sector here at bytes =
      let place : lba * 512 + offset ≡ entry_place accept disk list_lba i = omega arith in
      let same_null =
        is_null_same disk lba sector bytes 16 offset (omega arith) ∙ ap (is_null 16 disk) place in
      let same_range =
        range_same disk lba sector bytes offset (omega arith) ∙ ap (range_at disk) place in
      let sum : add32 offset 128 ≡ offset + 128 = omega arith in
      let later : gpt_entries accept dev 128 left (next_place dev 128 lba offset sector)
          ≡ listed accept disk list_lba left (suc i) =
        elim (Bool-cases (leb 512 (offset + 128))) [
          | inl h ↦
              let whole : 512 ≤ offset + 128 = leb→le 512 (offset + 128) h in
              let next = (dev (lba + 1) 1 sector).1 in
              rw (sum, h)
                (gpt_entries_lem list_lba left (suc i) (lba + 1) (offset + 128 - 512) next
                  (omega arith) (omega arith)
                  (filled_bytes disk (lba + 1) (dev (lba + 1) 1 sector)
                    (is_disk (lba + 1) 1 sector)))
          | inr h ↦
              let part : offset + 128 < 512 = ground arith in
              rw (sum, h)
                (gpt_entries_lem list_lba left (suc i) lba (offset + 128) sector (omega arith)
                  (omega arith) bytes)
        ] in
      rw (same_null, same_range, later) refl

  -- On a disk that can be read, the loop of the probe function of gpt.c over a list of entries of 128 bytes,
  -- begun with the list's first sector, goes through the entries of the list in order. It ends with success
  -- behind the last one and at the first whose 16 bytes of type are 0; it registers the range that the two
  -- 64-bit numbers at bytes 32 and 40 of each entry before give, and ends with the failure of the first that is
  -- not accepted.
  pub gpt_entries-listed :
      (list_lba count : ℕ) (sector : ℕ → ℕ)
      → HasBytes disk list_lba 512 sector
      → IsListed accept disk list_lba count 0
          (gpt_entries accept dev 128 count (list_lba, (0, sector)))
  gpt_entries-listed list_lba count sector bytes =
      subst (IsListed accept disk list_lba count 0)
        (sym (gpt_entries_lem list_lba count 0 list_lba 0 sector (omega arith) (omega arith) bytes))
        (listed-IsListed accept disk list_lba count 0)
