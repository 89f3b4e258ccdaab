-- ===== src/Partitions.antt =====
-- Partitions: the requests to a partition (vellum/device/block/part/part.c) and the tables that mbr.c and
-- gpt.c beside it read. The device below is a function as in the FAT driver; `accept` is what the probe
-- function of the driver "part" returns for a range, which then is a device.
pub mod Bounds
pub mod Mbr
pub mod Gpt
mod Tests
use sscc_oslecture.Base.{
  ltb, leb, ◌==◌, if◌then◌else◌, word_mod, add32, ℕ, zero, suc, ◌+◌, ◌-◌, ◌*◌, ◌%◌, ◌^◌, Bool, true,
  false, not, Option, none, some, List, [], ◌∷◌, ◌++◌,
}
use sscc_oslecture.Status.{Status, invalid_signature, invalid_value, ok, err}
use sscc_oslecture.Libc.Strings.{first, strncmp}
use sscc_oslecture.Fat.{Done, Device, half_at, word_at}
use sscc_oslecture.Filesystem.{is_zero}

-- What read and write of part.c ask of the device below: nothing, or so many sectors from one on.
pub data Request : Type 0 where
  refused : Status → Request
  nothing : Request
  pass : ℕ → ℕ → Request

-- The excess, of 64 bits, is taken from a count of 32 bits.
abbrev pub clip_count : ℕ → ℕ → ℕ
clip_count count excess = (count + word_mod - excess % word_mod) % word_mod

abbrev pub some_sectors : ℕ → ℕ → Request
some_sectors first count = if ltb count 1 then nothing else pass first count

-- read and write of part.c, for the range of a partition.
unfoldable pub request : ℕ → ℕ → ℕ → ℕ → Request
request part_base part_limit lba count =
    let last : ℕ = part_base + lba + count in
    if ltb part_limit lba
    then refused Status.invalid_value
    else some_sectors (part_base + lba)
        (if ltb part_limit last then clip_count count (last - part_limit) else count)

-- struct resource of type RT_LBA
pub record Range : Type 0 where
  pub base : ℕ
  pub limit : ℕ

-- The status of a registration and the partitions that it has made.
abbrev pub Registered : Type 0
Registered = Done × List Range

-- A partition and those behind it.
abbrev pub then_part : Range → Done → Registered → Registered
then_part range (ok _) (status, later) = (status, range ∷ later)
then_part range (err e) later = (err e, [])

-- Partitions of a table within a table, and those behind them; `none` does not return.
abbrev pub then_table : Option Registered → Option Registered → Option Registered
then_table none later = none
then_table (some (err e, parts)) later = some (err e, parts)
then_table (some (ok _, parts)) none = none
then_table (some (ok _, parts)) (some (status, later)) = some (status, parts ++ later)

abbrev pub with_part : Range → Done → Option Registered → Option Registered
with_part range (ok _) none = none
with_part range (ok _) (some (status, later)) = some (status, range ∷ later)
with_part range (err e) later = some (err e, [])

abbrev pub with_sector : Done × (ℕ → ℕ) → ((ℕ → ℕ) → Option Registered) → Option Registered
with_sector (ok _, sector) next = next sector
with_sector (err e, sector) next = some (err e, [])

-- base + base_lba + sector_count - 1, in 64 bits
abbrev pub limit_of : ℕ → ℕ → ℕ → ℕ
limit_of base base_lba sector_count = (base + base_lba + sector_count + 2 ^ 64 - 1) % 2 ^ 64

module _ (accept : Range → Done) where
  -- The loop of register_partitions over `n` entries of a sector; `extended` registers the partitions of
  -- another sector.
  unfoldable pub mbr_entries : (ℕ → Option Registered) → (ℕ → ℕ) → ℕ → ℕ → ℕ → Option Registered
  mbr_entries extended sector base zero i = some (ok tt, [])
  mbr_entries extended sector base (suc n) i =
      let entry : ℕ = 446 + 16 * i in
      let type : ℕ = sector (entry + 4) in
      let first : ℕ = word_at sector (entry + 8) in
      let range : Range = record {
        base = base + first;
        limit = limit_of base first (word_at sector (entry + 12));
      } in
      let later = mbr_entries extended sector base n (suc i) in
      if type == 0
      then later
      else if type == 5
      then then_table (extended (base + first)) later
      else with_part range (accept range) later

  -- register_partitions of mbr.c; `none` while it still runs.
  unfoldable pub register_partitions : Device → ℕ → ℕ → Option Registered
  register_partitions dev zero base = none
  register_partitions dev (suc fuel) base = with_sector (dev base 1 (λ _. 0)) (λ sector.
      if not (half_at sector 510 == 43605)
      then some (err Status.invalid_signature, [])
      else if sector 450 == 238
      then some (err Status.invalid_value, [])
      else mbr_entries (register_partitions dev fuel) sector base 4 0)

-- The type of an entry of a GPT is 16 bytes of 0.
unfoldable pub is_null : ℕ → (ℕ → ℕ) → ℕ → Bool
is_null zero sector at = true
is_null (suc n) sector at =
    let later = is_null n sector (suc at) in if sector at == 0 then later else false

-- Little-endian words of 64 bits.
abbrev pub long_at : (ℕ → ℕ) → ℕ → ℕ
long_at sector i = word_at sector i + word_at sector (i + 4) * 2 ^ 32

abbrev pub range_at : (ℕ → ℕ) → ℕ → Range
range_at sector at = record { base = long_at sector (at + 32); limit = long_at sector (at + 40) }

-- The place of the next entry: in the sector, or in the next one, which is read whether that succeeds or
-- not.
unfoldable pub next_place : Device → ℕ → ℕ → ℕ → (ℕ → ℕ) → ℕ × (ℕ × (ℕ → ℕ))
next_place dev bytes_per_entry lba offset sector =
    let moved : ℕ = add32 offset bytes_per_entry in
    if leb 512 moved
    then (lba + 1, (moved - 512, (dev (lba + 1) 1 sector).1))
    else (lba, (moved, sector))

-- The end of probe of gpt.c: a failure removes the partitions that are registered.
abbrev pub has_error : Registered → Registered
has_error (ok _, parts) = (ok tt, parts)
has_error (err e, parts) = (err e, [])

module _ (accept : Range → Done) where
  -- The loop of probe of gpt.c, with `left` entries to go.
  unfoldable pub gpt_entries : Device → ℕ → ℕ → ℕ × (ℕ × (ℕ → ℕ)) → Registered
  gpt_entries dev bytes_per_entry zero at = (ok tt, [])
  gpt_entries dev bytes_per_entry (suc left) (lba, (offset, sector)) =
      let range : Range = range_at sector offset in
      let later =
        gpt_entries dev bytes_per_entry left (next_place dev bytes_per_entry lba offset sector) in
      if is_null 16 sector offset then (ok tt, []) else then_part range (accept range) later

  -- probe of gpt.c from the reading of sector 0 on: the protective table, the header, and the entries.
  unfoldable pub gpt_table : Device → Option Registered
  gpt_table dev = with_sector (dev 0 1 (λ _. 0)) (λ boot.
      if not (half_at boot 510 == 43605)
      then some (err Status.invalid_signature, [])
      else if not (boot 450 == 238)
      then some (err Status.invalid_value, [])
      else with_sector (dev (word_at boot 454) 1 boot) (λ header.
        if not (
          is_zero (
            strncmp
              (header 0
                ∷ header 1
                ∷ header 2
                ∷ header 3
                ∷ header 4
                ∷ header 5
                ∷ header 6
                ∷ header 7
                ∷ [])
              (69 ∷ 70 ∷ 73 ∷ 32 ∷ 80 ∷ 65 ∷ 82 ∷ 84 ∷ []) 8))
        then some (err Status.invalid_signature, [])
        else with_sector (dev (long_at header 72) 1 header) (λ sector. some (
            has_error (
              gpt_entries dev (word_at header 84) (word_at header 80)
                (long_at header 72, (0, sector)))))))
