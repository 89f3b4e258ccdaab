-- ===== src/Devices/Names.antt =====
-- VlDev_GenerateName of vellum/device/device.c: the number is above those of the devices that share the
-- name.
use sscc_oslecture.Base.{drop, ℕ, ◌<◌, ◌≡◌, ◌⊎◌, List, [], ◌∷◌}
use sscc_oslecture.Base.Int.{ℤ, pos, negsuc}
use sscc_oslecture.Devices.{Device}
use sscc_oslecture.Libc.Strings.{strlen}
use sscc_oslecture.Libc.Numbers.{strtol}

-- A list with a device of the name.
abbrev pub HasName : List ℕ → List Device → Type 0
HasName name [] = ⊥
HasName name (dev ∷ devices) = (dev.name ≡ name) ⊎ HasName name devices

-- A number that is not the largest `int`.
abbrev pub IsLow : ℤ → Type 0
IsLow (pos n) = n < 2147483647
IsLow (negsuc n) = Unit

-- Neither is any number that strtol finds in the names behind the length of the base.
abbrev pub AreLow : List ℕ → List Device → Type 0
AreLow basename [] = Unit
AreLow basename (dev ∷ devices) =
    IsLow (strtol 2147483648 (drop (strlen basename) dev.name) 10).value × AreLow basename devices
