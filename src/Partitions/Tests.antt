-- ===== src/Partitions/Tests.antt =====
-- The theorems on partitions at small disks.
use sscc_oslecture.Base.{
  ltb, ◌==◌, if◌then◌else◌, ℕ, ◌+◌, ◌-◌, ◌*◌, ◌%◌, ◌^◌, ◌≡◌, refl, none, arith,
}
use sscc_oslecture.Status.{ok}
use sscc_oslecture.Fat.{Done, Device}
use sscc_oslecture.Fat.Disk.{IsDisk}
use sscc_oslecture.Partitions.{pass, request, Range, register_partitions, gpt_entries}
use sscc_oslecture.Partitions.Bounds.{IsWithin, request-IsWithin, request_outside}
use sscc_oslecture.Partitions.Mbr.{register_partitions-none}
use sscc_oslecture.Partitions.Gpt.{IsListed, gpt_entries-listed}

request-IsWithin_example : IsWithin 108 110 5 (request 100 110 8 5)
request-IsWithin_example = request-IsWithin 100 110 8 5 (omega arith) (omega arith)

request_outside_example : request 100 110 50 1 ≡ pass 150 (2 ^ 32 - 40)
request_outside_example = request_outside 100 110 50 1 (omega arith) (omega arith) (omega arith)

abbrev bytes : ℕ → ℕ
bytes i =
    if i == 450
    then 5
    else (if i == 510 then 85 else (if i == 511 then 170 else (if ltb i 512 then 0 else i % 251)))

abbrev drive : Device
drive lba count buf = (ok tt, λ i. bytes (lba * 512 + i))

abbrev accepting : Range → Done
accepting range = ok tt

drive-IsDisk : IsDisk bytes drive
drive-IsDisk lba count buf = λ i below. refl

register_partitions-none_example : register_partitions accepting drive 7 0 ≡ none
register_partitions-none_example =
    register_partitions-none accepting drive 0 (λ i. bytes (0 * 512 + i)) refl refl refl refl 7

gpt_entries-listed_example :
    IsListed accepting bytes 2 6 0
      (gpt_entries accepting drive 128 6 (2, (0, λ i. bytes (2 * 512 + i))))
gpt_entries-listed_example =
    gpt_entries-listed accepting bytes drive drive-IsDisk 2 6 (λ i. bytes (2 * 512 + i))
      (λ i below. refl)
