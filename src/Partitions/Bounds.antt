-- ===== src/Partitions/Bounds.antt =====
-- The requests that read and write of vellum/device/block/part/part.c pass on, against the range of the
-- partition.
use sscc_oslecture.Base.{
  ltb, ◌==◌, ltb→lt, ==_iff, Bool-cases, ℕ, ◌+◌, ◌-◌, ◌^◌, ◌≤◌, ◌<◌, min, ◌≡◌, refl, ◌⊎◌, inl, inr,
  true, false, arith,
}
use sscc_oslecture.Partitions.{Request, refused, nothing, pass, clip_count, some_sectors, request}

-- A request of sectors from `first` on, below `limit`; nothing when none was asked for or `first` is the
-- last sector of the range.
abbrev pub IsWithin : ℕ → ℕ → ℕ → Request → Type 0
IsWithin first limit count (refused s) = ⊥
IsWithin first limit count nothing = (count ≡ 0) ⊎ (first ≡ limit)
IsWithin first limit count (pass from n) =
    (from ≡ first) × (0 < n) × (n ≡ min count (limit - first)) × (from + n ≤ limit)

some_sectors_lem :
    (first limit count n : ℕ)
    → n ≡ min count (limit - first)
    → first ≤ limit
    → IsWithin first limit count (some_sectors first n)
some_sectors_lem first limit count n same below = elim (Bool-cases (ltb n 1)) [
  | inl h ↦
      let empty : n ≡ 0 = let low = ltb→lt n 1 h in omega arith in
      rw (h) (elim (Bool-cases (count == 0)) [
        | inl e ↦ inl ((==_iff count 0).0 e)
        | inr e ↦ inr (let more : 0 < count = ground arith in omega arith)
      ])
  | inr h ↦ let more : 0 < n = ground arith in rw (h) (refl, more, same, omega arith)
]

-- For a sector of the partition and a count of 32 bits, the request is for the sectors from it on, as
-- many as asked for or as lie before the last sector of the range. The last sector itself is never
-- reached.
pub request-IsWithin :
    (part_base part_limit lba count : ℕ)
    → part_base + lba ≤ part_limit
    → count < 2 ^ 32
    → IsWithin (part_base + lba) part_limit count (request part_base part_limit lba count)
unfolding request
request-IsWithin part_base part_limit lba count below small =
    let first : ℕ = part_base + lba in
    let relative : ltb part_limit lba ≡ false = ground arith in
    let last : ℕ = first + count in
    rw (relative) (elim (Bool-cases (ltb part_limit last)) [
      | inl h ↦
          let past : part_limit < last = ltb→lt part_limit last h in
          rw (h) (
            some_sectors_lem first part_limit count (clip_count count (last - part_limit))
              (omega arith) below)
      | inr h ↦
          let fits : last ≤ part_limit = ground arith in
          rw (h) (some_sectors_lem first part_limit count count (omega arith) below)
    ])

-- A sector behind the partition whose number is within its limit all the same is read, and with nearly
-- 2 ^ 32 sectors behind it, whatever the count.
pub request_outside :
    (part_base part_limit lba count : ℕ)
    → lba ≤ part_limit
    → part_limit < part_base + lba
    → part_base + lba + count < part_limit + 2 ^ 32
    → request part_base part_limit lba count
      ≡ pass (part_base + lba) (2 ^ 32 - (part_base + lba - part_limit))
unfolding request
request_outside part_base part_limit lba count accepted past small =
    let last : ℕ = part_base + lba + count in
    let relative : ltb part_limit lba ≡ false = ground arith in
    let behind : ltb part_limit last ≡ true = ground arith in
    let clipped : clip_count count (last - part_limit) ≡ 2 ^ 32 - (part_base + lba - part_limit) =
      omega arith in
    let more : ltb (2 ^ 32 - (part_base + lba - part_limit)) 1 ≡ false = ground arith in
    rw (relative, behind, clipped, more) refl
