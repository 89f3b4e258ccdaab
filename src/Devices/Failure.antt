-- ===== src/Devices/Failure.antt =====
-- VlDev_Remove of a device that VlDev_Create has just made, as the failure paths of the drivers do
-- (vellum/device/device.c).
use sscc_oslecture.Base.{
  ==_refl, ==_false, ℕ, ◌≡◌, refl, ap, ◌≢◌, false, none, some, List, [], ◌∷◌, ◌++◌,
}
use sscc_oslecture.Devices.{Device, lookup, sibling_of, create, has_next, remove}
use sscc_oslecture.Devices.Removal.{remove_last}

-- No device of the list has the address.
abbrev pub IsFresh : ℕ → List Device → Type 0
IsFresh dev [] = Unit {0}
IsFresh dev (current ∷ devices) = (current.address ≢ dev) × IsFresh dev devices

module _ (new : Device) where
  lookup-last :
      (devices : List Device)
      → IsFresh new.address devices
      → lookup new.address (devices ++ (new ∷ [])) ≡ some new
  unfolding lookup
  lookup-last [] fresh = rw (==_refl new.address) refl
  lookup-last (dev ∷ devices) (other, fresh) =
      rw (==_false dev.address new.address other) (lookup-last devices fresh)

  has_next-last :
      (devices : List Device)
      → IsFresh new.address devices
      → has_next new.address (devices ++ (new ∷ [])) ≡ false
  unfolding has_next
  has_next-last [] fresh = refl
  has_next-last (dev ∷ []) (other, fresh) = rw (==_false dev.address new.address other) refl
  has_next-last (dev ∷ next ∷ devices) (other, fresh) =
      rw (==_false dev.address new.address other) (has_next-last (next ∷ devices) fresh)

-- With two devices or more in the list, a device that VlDev_Create makes without a parent at a new
-- address is not taken out by VlDev_Remove.
pub remove-create :
    (address driver : ℕ) (head second : Device) (devices : List Device)
    → IsFresh address (head ∷ second ∷ devices)
    → remove address (create (some address) driver none (head ∷ second ∷ devices)).1
      ≡ (create (some address) driver none (head ∷ second ∷ devices)).1
unfolding create
remove-create address driver head second devices (not_head, (not_second, fresh)) =
    let new : Device = record {
      address = address;
      driver = driver;
      parent = none;
      first_child = none;
      sibling = none;
      name = [];
    } in
    remove_last address head second (devices ++ (new ∷ [])) not_head not_second
      (has_next-last new (head ∷ second ∷ devices) (not_head, (not_second, fresh)))
      (ap sibling_of (lookup-last new (head ∷ second ∷ devices) (not_head, (not_second, fresh))))
