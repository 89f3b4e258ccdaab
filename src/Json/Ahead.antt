-- ===== src/Json/Ahead.antt =====
-- What it is that a run of the parser of vellum/json/json.c ends within the text.
use sscc_oslecture.Base.{leb, if◌then◌else◌, ℕ, ◌+◌, ◌≤◌, ◌<◌, ◌≡◌, refl, Bool, true, false, arith}
use sscc_oslecture.Status.{Status}
use sscc_oslecture.Json.{State, Run, out_of_fuel, failed, done, bind}

module _ (len : ℕ) where
  -- The run ends, and if it succeeds, with a cursor from `from` to the end of the text.
  abbrev pub IsAhead {ℓ} : {A : Type ℓ} → ℕ → Run A → Type 0
  IsAhead from out_of_fuel = ⊥
  IsAhead from (failed e) = Unit
  IsAhead from (done a s) = (from ≤ s.cursor) × (s.cursor ≤ len)

module _ {ℓ} {A : Type ℓ} (len : ℕ) where
  pub IsAhead-weaken : (from to : ℕ) (r : Run A) → from ≤ to → IsAhead len to r → IsAhead len from r
  IsAhead-weaken from to out_of_fuel h a = a
  IsAhead-weaken from to (failed e) h a = a
  IsAhead-weaken from to (done v s) h (lo, hi) = (omega arith, hi)

  pub IsAhead-if :
      (from : ℕ) (b : Bool) (x y : Run A)
      → (b ≡ true → IsAhead len from x)
      → (b ≡ false → IsAhead len from y)
      → IsAhead len from (if b then x else y)
  IsAhead-if from true x y if_true if_false = if_true refl
  IsAhead-if from false x y if_true if_false = if_false refl

  pub IsAhead-step :
      (from : ℕ) (s : State) (e : Status) (x : Run A)
      → (s.cursor + 1 < len → IsAhead len from x)
      → IsAhead len from (if leb len (s.cursor + 1) then failed e else x)
  IsAhead-step from s e x next =
      IsAhead-if from (leb len (s.cursor + 1)) (failed e) x (λ _. _) (λ inside. next (ground arith))

  pub IsAhead-alloc :
      (from : ℕ) (b : Bool) (x : Run A)
      → IsAhead len from x
      → IsAhead len from (if b then x else failed Status.unknown_error)
  IsAhead-alloc from b x next =
      IsAhead-if from b x (failed Status.unknown_error) (λ _. next) (λ _. _)

module _ {ℓ κ} {A : Type ℓ} {B : Type κ} (len : ℕ) where
  pub IsAhead-bind :
      (from : ℕ) (r : Run A) (k : A → State → Run B)
      → IsAhead len from r
      → ((a : A) (s : State) → from ≤ s.cursor → s.cursor ≤ len → IsAhead len from (k a s))
      → IsAhead len from (bind r k)
  IsAhead-bind from out_of_fuel k h next = h
  IsAhead-bind from (failed e) k h next = h
  IsAhead-bind from (done a s) k (lo, hi) next = next a s lo hi
