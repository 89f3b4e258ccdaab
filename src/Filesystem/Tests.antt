-- ===== src/Filesystem/Tests.antt =====
-- The theorem on mount at a list of two drivers, of which the second mounts the device.
use sscc_oslecture.Base.{◌==◌, if◌then◌else◌, ℕ, suc, [], ◌∷◌}
use sscc_oslecture.Status.{Status}
use sscc_oslecture.Filesystem.{Driver, mount_auto}
use sscc_oslecture.Filesystem.Mount.{IsMounting, mount_auto-IsMounting}

abbrev fat : Driver
fat = record { address = 8; name = 102 ∷ [] }

abbrev iso : Driver
iso = record { address = 16; name = 105 ∷ [] }

abbrev accept : Driver → ℕ → Status × ℕ
accept drv calls =
    (if drv.address == 16 then Status.no_event else Status.invalid_signature, suc calls)

mount_auto-IsMounting_example :
    IsMounting accept accept (fat ∷ iso ∷ []) 0 (mount_auto accept accept (fat ∷ iso ∷ []) 0)
mount_auto-IsMounting_example = mount_auto-IsMounting accept accept (fat ∷ iso ∷ []) 0
