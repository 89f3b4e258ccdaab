-- ===== src/Devices/Removal.antt =====
-- VlDev_Create and VlDev_Remove of vellum/device/device.c and the list of devices.
use sscc_oslecture.Base.{
  ◌==◌, if◌then◌else◌, ==_iff, ==_false, Bool-cases, ℕ, ◌≡◌, refl, sym, ap, ap₂, subst, ◌∙◌, ◌≢◌,
  ◌⊎◌, inl, inr, Bool, true, false, not, ◌&&◌, ◌||◌, Option, none, some, List, [], ◌∷◌,
}
use sscc_oslecture.Devices.{
  Device, is_at, is_some, lookup, change, sibling_of, search, unlink, close_gap, take_out, has_next,
  remove,
}

abbrev pub addresses : List Device → List ℕ
addresses [] = []
addresses (dev ∷ devices) = dev.address ∷ addresses devices

-- A list without the first place of a number.
unfoldable pub without : ℕ → List ℕ → List ℕ
without n [] = []
without n (m ∷ ms) = let later = without n ms in if m == n then ms else m ∷ later

abbrev pub IsListed : ℕ → List Device → Type 0
IsListed dev [] = ⊥
IsListed dev (current ∷ devices) = (current.address ≡ dev) ⊎ IsListed dev devices

-- A store that leaves the address leaves the addresses.
addresses-change :
    (address : ℕ) (store : Device → Device) (devices : List Device)
    → ((dev : Device) → (store dev).address ≡ dev.address)
    → addresses (change address store devices) ≡ addresses devices
unfolding change
addresses-change address store [] same = refl
addresses-change address store (dev ∷ devices) same = elim (Bool-cases (dev.address == address)) [
  | inl h ↦ rw (h) (ap₂ ◌∷◌ (same dev) (addresses-change address store devices same))
  | inr h ↦ rw (h) (ap (λ l. dev.address ∷ l) (addresses-change address store devices same))
]

addresses-unlink :
    (dev : ℕ) (devices : List Device)
    → addresses (unlink dev devices) ≡ without dev (addresses devices)
unfolding unlink without
addresses-unlink dev [] = refl
addresses-unlink dev (current ∷ devices) = elim (Bool-cases (current.address == dev)) [
  | inl h ↦ rw (h) refl
  | inr h ↦ rw (h) (ap (λ l. current.address ∷ l) (addresses-unlink dev devices))
]

addresses-close_gap :
    (prev after : Option ℕ) (devices : List Device)
    → addresses (close_gap prev after devices) ≡ addresses devices
addresses-close_gap none after devices = refl
addresses-close_gap (some prev) after devices = addresses-change prev _ devices (λ dev. refl)

-- Stopping with a device found, or going on and finding one.
stop_lem :
    (device sibling : Option ℕ) (b : Bool) (later : Option ℕ × Option ℕ)
    → is_some later.0 ≡ true
    → is_some (if is_some device && b then (device, sibling) else later).0 ≡ true
stop_lem none sibling b later found = found
stop_lem (some prev) sibling true later found = refl
stop_lem (some prev) sibling false later found = found

-- What the first test of a round keeps.
seen_lem :
    (dev : ℕ) (current next : Device) (devices : List Device) (prev : Option ℕ)
    → (IsListed dev (next ∷ devices) ⊎ (is_some prev ≡ true))
    → IsListed dev devices
      ⊎ (is_some (if next.address == dev then some current.address else prev) ≡ true)
seen_lem dev current next devices prev (inl (inl here)) =
    inr (rw ((==_iff next.address dev).1 here) refl)
seen_lem dev current next devices prev (inl (inr later)) = inl later
seen_lem dev current next devices prev (inr found) = elim (Bool-cases (next.address == dev)) [
  | inl h ↦ inr (rw (h) refl)
  | inr h ↦ inr (rw (h) found)
]

-- The loop of VlDev_Remove finds the device before one that has a next one.
search_finds :
    (dev : ℕ) (has_sibling : Bool) (current : Device) (devices : List Device)
    (prev_device prev_sibling : Option ℕ)
    → (IsListed dev devices ⊎ (is_some prev_device ≡ true))
    → is_some (search dev true has_sibling (current ∷ devices) prev_device prev_sibling).0 ≡ true
unfolding search
search_finds dev has_sibling current [] prev_device prev_sibling (inl listed) = elim listed [ ]
search_finds dev has_sibling current [] prev_device prev_sibling (inr found) = found
search_finds dev has_sibling current (next ∷ devices) prev_device prev_sibling there =
    let device : Option ℕ = if next.address == dev then some current.address else prev_device in
    let sibling : Option ℕ =
      if is_at current.sibling dev then some current.address else prev_sibling in
    stop_lem device sibling (not has_sibling || is_some sibling)
      (search dev true has_sibling (next ∷ devices) device sibling)
      (search_finds dev has_sibling next devices device sibling
        (seen_lem dev current next devices prev_device there))

take_out_lem :
    (dev : ℕ) (after : Option ℕ) (found : Option ℕ × Option ℕ) (devices : List Device)
    → is_some found.0 ≡ true
    → addresses (take_out dev after found devices) ≡ without dev (addresses devices)
take_out_lem dev after (none, sibling) devices h = absurd (cc)
take_out_lem dev after (some prev, sibling) devices h =
    addresses-unlink dev (close_gap sibling after devices)
    ∙ ap (without dev) (addresses-close_gap sibling after devices)

behind_lem :
    (dev : ℕ) (head : Device) (devices : List Device)
    → (head.address == dev) ≡ false
    → IsListed dev (head ∷ devices)
    → IsListed dev devices
behind_lem dev head devices other (inl here) = absurd (cc (other, (==_iff head.address dev).1 here))
behind_lem dev head devices other (inr later) = later

-- VlDev_Remove of a listed device that has a next one takes it out of the list and leaves the other
-- devices in their order.
pub remove-without :
    (dev : ℕ) (head : Device) (devices : List Device)
    → IsListed dev (head ∷ devices)
    → has_next dev (head ∷ devices) ≡ true
    → addresses (remove dev (head ∷ devices)) ≡ without dev (addresses (head ∷ devices))
unfolding remove without
remove-without dev head devices listed followed = elim (Bool-cases (head.address == dev)) [
  | inl h ↦ rw (h) refl
  | inr h ↦
      let after : Option ℕ = sibling_of (lookup dev (head ∷ devices)) in
      let found : Option ℕ × Option ℕ =
        search dev true (is_some after) (head ∷ devices) none none in
      let out : addresses (take_out dev after found (head ∷ devices))
          ≡ without dev (addresses (head ∷ devices)) =
        take_out_lem dev after found (head ∷ devices) (
          search_finds dev (is_some after) head devices none none
            (inl (behind_lem dev head devices h listed))) in
      rw (h) (
        subst
          (λ b.
            addresses (
              take_out dev after (search dev b (is_some after) (head ∷ devices) none none)
                (head ∷ devices))
            ≡ head.address ∷ without dev (addresses devices))
          (sym followed) (rw (h) at out))
]

-- VlDev_Remove of a device without a next one and a sibling behind it, which is neither the first nor
-- the second, changes nothing: the loop ends in its first round.
pub remove_last :
    (dev : ℕ) (head second : Device) (devices : List Device)
    → head.address ≢ dev
    → second.address ≢ dev
    → has_next dev (head ∷ second ∷ devices) ≡ false
    → sibling_of (lookup dev (head ∷ second ∷ devices)) ≡ none
    → remove dev (head ∷ second ∷ devices) ≡ head ∷ second ∷ devices
unfolding remove search
remove_last dev head second devices not_head not_second unfollowed alone =
    rw
      (
        alone,
        unfollowed,
        ==_false head.address dev not_head,
        ==_false second.address dev not_second,
      )
      refl
