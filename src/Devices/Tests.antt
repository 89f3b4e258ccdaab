-- ===== src/Devices/Tests.antt =====
-- The theorems on the device registry at three devices.
use sscc_oslecture.Base.{ℕ, ◌≡◌, refl, inl, inr, true, none, some, List, [], ◌∷◌, ◌++◌, arith}
use sscc_oslecture.Libc.Numbers.Numerals.{numeral}
use sscc_oslecture.Devices.{Device, create, has_next, remove}
use sscc_oslecture.Devices.Removal.{addresses, without, remove-without}
use sscc_oslecture.Devices.Failure.{IsFresh, remove-create}

abbrev device : ℕ → List ℕ → Device
device address name = record {
  address = address;
  driver = 1;
  parent = none;
  first_child = none;
  sibling = none;
  name = name;
}

-- "hd"
abbrev hd : List ℕ
hd = 104 ∷ 100 ∷ []

abbrev registry : List Device
registry =
    device 16 (hd ++ numeral (0 ∷ []) [])
    ∷ device 32 (hd ++ numeral (1 ∷ 2 ∷ []) [])
    ∷ device 48 []
    ∷ []

followed : has_next 32 registry ≡ true
unfolding has_next
followed = refl

remove-without_example : addresses (remove 32 registry) ≡ without 32 (16 ∷ 32 ∷ 48 ∷ [])
remove-without_example =
    remove-without 32 (device 16 (hd ++ numeral (0 ∷ []) []))
      (device 32 (hd ++ numeral (1 ∷ 2 ∷ []) []) ∷ device 48 [] ∷ []) (inr (inl refl)) followed

registry-IsFresh : IsFresh 64 registry
registry-IsFresh = ground arith

remove-create_example :
    remove 64 (create (some 64) 1 none registry).1 ≡ (create (some 64) 1 none registry).1
remove-create_example =
    remove-create 64 1 (device 16 (hd ++ numeral (0 ∷ []) []))
      (device 32 (hd ++ numeral (1 ∷ 2 ∷ []) [])) (device 48 [] ∷ []) registry-IsFresh
