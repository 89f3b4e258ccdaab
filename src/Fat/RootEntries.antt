-- ===== src/Fat/RootEntries.antt =====
-- iter_directory in the root directory of FAT12 and FAT16 (vellum/filesystem/fat/fat.c), against the first
-- bytes and the attributes of the entries on the disk.
use sscc_oslecture.Base.{
  ◌==◌, Bool-cases, ℕ, suc, ◌+◌, ◌*◌, ◌/◌, ◌%◌, ◌≤◌, ◌<◌, ◌≡◌, ◌≢◌, ◌⊎◌, inl, inr, none, some,
  arith,
}
use sscc_oslecture.Status.{Status, ok, err}
use sscc_oslecture.Fat.{Volume, Cache, Device}
use sscc_oslecture.Fat.Disk.{IsDisk, IsCoherent}
use sscc_oslecture.Fat.Directory.{Dir, last, other, kind_by, Iterated, iter_directory}
use sscc_oslecture.Fat.Scanning.{IsSkipped}
use sscc_oslecture.Fat.RootDirectory.{root_place, IsListed}
use sscc_oslecture.Fat.RootListing.{IsRoot, iter_directory-IsListed}

-- An entry by its first byte and its attribute: a deleted one begins with E5h; the four low bits of the
-- attribute are set in a piece of a long name, the bit 8 in a volume id.
abbrev pub IsPassed : ℕ → ℕ → Type 0
IsPassed first attribute =
    (first ≡ 229) ⊎ ((first ≢ 0) × ((attribute % 16 ≡ 15) ⊎ (attribute / 8 % 2 ≡ 1)))

-- A file or directory.
abbrev pub IsObject : ℕ → ℕ → Type 0
IsObject first attribute =
    (first ≢ 0) × (first ≢ 229) × (attribute % 16 ≢ 15) × (attribute / 8 % 2 ≢ 1)

kind_by-last : (first attribute : ℕ) → kind_by first attribute ≡ last → first ≡ 0
unfolding kind_by
kind_by-last first attribute e = ground arith

kind_by-other : (first attribute : ℕ) → kind_by first attribute ≡ other → IsObject first attribute
unfolding kind_by
kind_by-other first attribute e =
    (λ a. ground arith, λ a. ground arith, λ a. ground arith, λ a. ground arith)

kind_by-skipped :
    (first attribute : ℕ) → IsSkipped (kind_by first attribute) → IsPassed first attribute
unfolding kind_by
kind_by-skipped first attribute s = elim (Bool-cases (first == 0)) [
  | inl a ↦ absurd (ground arith)
  | inr a ↦ elim (Bool-cases (first == 229)) [
    | inl b ↦ inl (ground arith)
    | inr b ↦ elim (Bool-cases (attribute % 16 == 15)) [
      | inl c ↦ inr (λ z. ground arith, inl (ground arith))
      | inr c ↦ elim (Bool-cases (attribute / 8 % 2 == 1)) [
        | inl d ↦ inr (λ z. ground arith, inr (ground arith))
        | inr d ↦ absurd (ground arith)
      ]
    ]
  ]
]

module _ (disk : ℕ → ℕ) (vol : Volume) where
  abbrev pub first_byte : ℕ → ℕ
  first_byte i = disk (root_place disk vol i)

  abbrev pub attribute_of : ℕ → ℕ
  attribute_of i = disk (root_place disk vol i + 11)

  -- The pieces of long names have an order of 1 to the last that fits in the buffer for a long name.
  abbrev pub AreOrdered : Type 0
  AreOrdered =
      (i : ℕ)
      → i < vol.root_sector_count * 16
      → attribute_of i % 16 ≡ 15
      → (0 < first_byte i % 32) × (first_byte i % 32 * 13 < 256)

  -- The end of the list: an entry that begins with 0, or the end of the directory.
  pub record EndsAt (lo e : ℕ) : Type 0 where
    pub from_lo : lo ≤ e
    pub run : (i : ℕ) → lo ≤ i → i < e → IsPassed (first_byte i) (attribute_of i)
    pub ends : (first_byte e ≡ 0) ⊎ (e ≡ vol.root_sector_count * 16)

  -- The first file or directory, whose 32 bytes are stored when it stands in the first sector.
  pub record FoundAt (lo e : ℕ) (d : Dir) : Type 0 where
    pub from_lo : lo ≤ e
    pub run : (i : ℕ) → lo ≤ i → i < e → IsPassed (first_byte i) (attribute_of i)
    pub is_object : IsObject (first_byte e) (attribute_of e)
    pub behind : d.current_entry_index ≡ e + 1
    pub stored : e < 16 → (i : ℕ) → i < 32 → d.direntry i ≡ disk (root_place disk vol e + i)

  -- An iteration that began at `lo` and returned.
  abbrev pub IsIterated : ℕ → Iterated → Type 0
  IsIterated lo none = ⊥
  IsIterated lo (some (ok entry, (d, k))) = (e : ℕ) × FoundAt lo e d × IsCoherent disk vol k
  IsIterated lo (some (err s, (d, k))) =
      (s ≡ Status.end_of_list) × EndsAt lo d.current_entry_index × IsCoherent disk vol k

  IsListed-IsIterated : (lo : ℕ) (x : Iterated) → IsListed disk vol lo x → IsIterated lo x
  IsListed-IsIterated lo none h = h
  IsListed-IsIterated lo (some (ok entry, (d, k))) (e, f, c) = (
    e,
    record {
      from_lo = f.from_lo;
      run = λ i above below. kind_by-skipped _ _ (f.run i above below);
      is_object = kind_by-other _ _ f.is_other;
      behind = f.behind;
      stored = f.stored;
    },
    c,
  )
  IsListed-IsIterated lo (some (err s, (d, k))) (q, f, c) = (
    q,
    record {
      from_lo = f.from_lo;
      run = λ i above below. kind_by-skipped _ _ (f.run i above below);
      ends = elim f.ends [ inl z ↦ inl (kind_by-last _ _ z) | inr z ↦ inr z ];
    },
    c,
  )

-- On a disk that can be read, with buffers that agree with it and pieces of long names whose order fits in the
-- buffer, iter_directory in the root directory of FAT12 or FAT16 returns after at most
-- root_sector_count + 1 blocks. It passes over entries that begin with E5h, pieces of long names and
-- volume ids. It finds the first entry at or behind current_entry_index that is none of these and does
-- not begin with 0, moves behind it, and stores its 32 bytes if it stands in the first sector; or it
-- returns END_OF_LIST, at an entry that begins with 0 or at the end of the directory.
pub iter_directory-IsIterated :
    (disk : ℕ → ℕ) (dev : Device) (vol : Volume) (garbage : ℕ → ℕ) (d : Dir) (k : Cache)
    → IsDisk disk dev
    → IsRoot vol d
    → IsCoherent disk vol k
    → d.current_entry_index ≤ vol.root_sector_count * 16
    → AreOrdered disk vol
    → IsIterated disk vol d.current_entry_index
        (iter_directory dev vol (suc vol.root_sector_count) garbage d k)
iter_directory-IsIterated disk dev vol garbage d k is_disk root coherent fits ordered =
    IsListed-IsIterated disk vol d.current_entry_index _
      (iter_directory-IsListed disk dev vol is_disk garbage d k root coherent fits)
