-- ===== src/Devices.antt =====
-- The device registry of vellum/device/device.c. The list of devices is in the order of `next`; the
-- other pointers are the addresses of devices.
pub mod Names
pub mod Removal
pub mod Failure
mod Tests
use sscc_oslecture.Base.{
  ltb, leb, ◌==◌, if◌then◌else◌, length, drop, ℕ, zero, suc, ◌-◌, ◌%◌, ◌^◌, Bool, true, false, not,
  ◌&&◌, ◌||◌, Option, none, some, List, [], ◌∷◌, ◌++◌,
}
use sscc_oslecture.Base.Int.{ℤ, pos, negsuc}
use sscc_oslecture.Status.{Status, unknown_error, entry_not_found, Result, ok, err}
use sscc_oslecture.Libc.Strings.{strlen, before, first, strncmp, strcmp}
use sscc_oslecture.Libc.Numbers.{Parsed, digits, strtol}
use sscc_oslecture.Filesystem.{is_zero}

-- The fields of struct device that the registry uses; `none` is NULL.
pub record Device : Type 0 where
  pub address : ℕ
  pub driver : ℕ
  pub parent : Option ℕ
  pub first_child : Option ℕ
  pub sibling : Option ℕ
  pub name : List ℕ

abbrev pub is_at : Option ℕ → ℕ → Bool
is_at none address = false
is_at (some a) address = a == address

abbrev pub is_some {ℓ} : {A : Type ℓ} → Option A → Bool
is_some none = false
is_some (some a) = true

unfoldable pub lookup : ℕ → List Device → Option Device
lookup address [] = none
lookup address (dev ∷ devices) =
    let later = lookup address devices in if dev.address == address then some dev else later

-- A store to the device at an address.
unfoldable pub change : ℕ → (Device → Device) → List Device → List Device
change address store [] = []
change address store (dev ∷ devices) =
    (if dev.address == address then store dev else dev) ∷ change address store devices

abbrev pub first_child_of : Option Device → Option ℕ
first_child_of none = none
first_child_of (some dev) = dev.first_child

abbrev pub sibling_of : Option Device → Option ℕ
sibling_of none = none
sibling_of (some dev) = dev.sibling

-- The end of the list of siblings from a device on; each of them is another device.
unfoldable pub last_sibling : ℕ → List Device → ℕ → ℕ
last_sibling zero devices address = address
last_sibling (suc fuel) devices address = elim (sibling_of (lookup address devices)) [
  | none ↦ address
  | some next ↦ last_sibling fuel devices next
]

-- `dev` as the last child of `parent`.
unfoldable pub add_child : ℕ → ℕ → List Device → List Device
add_child parent dev devices = elim (first_child_of (lookup parent devices)) [
  | none ↦ change parent (λ p. record p { first_child = some dev }) devices
  | some child ↦
      change (last_sibling (length devices) devices child) (λ s. record s { sibling = some dev })
        devices
]

-- VlDev_Create; `allocated` is what calloc returns.
unfoldable pub create : Option ℕ → ℕ → Option ℕ → List Device → Result ℕ × List Device
create none driver parent devices = (err Status.unknown_error, devices)
create (some address) driver parent devices =
    let dev : Device = record {
      address = address;
      driver = driver;
      parent = parent;
      first_child = none;
      sibling = none;
      name = [];
    } in
    (
      ok address,
      elim parent [
        | none ↦ devices ++ (dev ∷ [])
        | some p ↦ add_child p address (devices ++ (dev ∷ []))
      ],
    )

-- The loop of VlDev_Remove, which stops at the last device: prev_device and prev_sibling.
unfoldable pub search : ℕ → Bool → Bool → List Device → Option ℕ → Option ℕ → Option ℕ × Option ℕ
search dev has_next has_sibling [] prev_device prev_sibling = (prev_device, prev_sibling)
search dev has_next has_sibling (current ∷ []) prev_device prev_sibling =
    (prev_device, prev_sibling)
search dev has_next has_sibling (current ∷ next ∷ devices) prev_device prev_sibling =
    let device = if next.address == dev then some current.address else prev_device in
    let sibling = if is_at current.sibling dev then some current.address else prev_sibling in
    let later = search dev has_next has_sibling (next ∷ devices) device sibling in
    if (not has_next || is_some device) && (not has_sibling || is_some sibling)
    then (device, sibling)
    else later

-- prev_device->next = dev->next
unfoldable pub unlink : ℕ → List Device → List Device
unlink dev [] = []
unlink dev (current ∷ devices) =
    let later = unlink dev devices in if current.address == dev then devices else current ∷ later

-- prev_sibling->sibling = dev->sibling
abbrev pub close_gap : Option ℕ → Option ℕ → List Device → List Device
close_gap none after devices = devices
close_gap (some prev) after devices = change prev (λ s. record s { sibling = after }) devices

abbrev pub take_out : ℕ → Option ℕ → Option ℕ × Option ℕ → List Device → List Device
take_out dev after (none, prev_sibling) devices = devices
take_out dev after (some prev, prev_sibling) devices =
    unlink dev (close_gap prev_sibling after devices)

-- `dev->next` is not NULL.
unfoldable pub has_next : ℕ → List Device → Bool
has_next dev [] = false
has_next dev (current ∷ []) = false
has_next dev (current ∷ next ∷ devices) =
    let later = has_next dev (next ∷ devices) in if current.address == dev then true else later

-- VlDev_Remove of the device at an address. The first device leaves the list and is not freed.
unfoldable pub remove : ℕ → List Device → List Device
remove dev [] = []
remove dev (head ∷ devices) =
    let after = sibling_of (lookup dev (head ∷ devices)) in
    let found =
      search dev (has_next dev (head ∷ devices)) (is_some after) (head ∷ devices) none none in
    if head.address == dev then devices else take_out dev after found (head ∷ devices)

-- VlDev_Find; names have 64 bytes.
unfoldable pub find : List ℕ → List Device → Result Device
find id [] = err Status.entry_not_found
find id (dev ∷ devices) =
    let later = find id devices in if is_zero (strncmp dev.name id 64) then ok dev else later

-- `*name_end` is 0: `before` is what it was, since strtol stores nothing when it is out of range.
abbrev pub at_end : List ℕ → Option ℕ → Bool → Bool
at_end digits none before = before
at_end digits (some place) before = first (drop place digits) == 0

-- The larger of id_max and id, each plus one.
abbrev pub above : ℕ → ℤ → ℕ
above next (pos id) = if leb next id then suc id else next
above next (negsuc id) = next

-- The loop of VlDev_GenerateName: id_max + 1, which starts at 0.
unfoldable pub next_id : List ℕ → Bool → ℕ → List Device → ℕ
next_id basename ended next [] = next
next_id basename ended next (dev ∷ devices) =
    let number : List ℕ = drop (strlen basename) dev.name in
    let parsed : Parsed = strtol 2147483648 number 10 in
    let now : Bool = at_end number parsed.endptr ended in
    if not (is_zero (strncmp basename dev.name (strlen basename)))
    then next_id basename ended next devices
    else next_id basename now (if now then above next parsed.value else next) devices

-- The `int` of a pattern of 32 bits.
abbrev pub as_int : ℕ → ℤ
as_int n = if ltb n 2147483648 then pos n else negsuc (4294967295 - n)

-- VlDev_GenerateName: the number that snprintf writes behind the name, id_max + 1 as an `int`.
unfoldable pub generate_id : List ℕ → Bool → List Device → ℤ
generate_id basename garbage devices = as_int (next_id basename garbage 0 devices % 2 ^ 32)

-- struct device_driver, without its functions.
pub record DeviceDriver : Type 0 where
  pub address : ℕ
  pub name : List ℕ

-- VlDev_CreateDriver; the caller then fills in the name and the functions of the cleared object.
unfoldable pub create_driver : Option ℕ → List DeviceDriver → Result ℕ × List DeviceDriver
create_driver none drivers = (err Status.unknown_error, drivers)
create_driver (some address) drivers =
    (ok address, drivers ++ (record { address = address; name = [] } ∷ []))

-- VlDev_FindDriver
unfoldable pub find_driver : List ℕ → List DeviceDriver → Result DeviceDriver
find_driver name [] = err Status.entry_not_found
find_driver name (drv ∷ drivers) =
    let later = find_driver name drivers in if is_zero (strcmp name drv.name) then ok drv else later
