-- ===== src/Json/Numbers.antt =====
-- The digits that parse_number of vellum/json/json.c reads.
use sscc_oslecture.Base.{
  length, ℕ, zero, suc, ◌+◌, ◌-◌, ◌*◌, ◌%◌, ◌^◌, ◌≤◌, ◌<◌, ◌≡◌, refl, true, false, List, [], ◌∷◌,
  add-zero, arith,
}
use sscc_oslecture.Libc.Ctype.{isdigit}
use sscc_oslecture.Json.{State, done}
use sscc_oslecture.Json.Scan.{moved, digits}

-- The number that decimal digits denote, behind those of `num`.
abbrev pub decimal : ℕ → List ℕ → ℕ
decimal num [] = num
decimal num (d ∷ ds) = decimal (num * 10 + (d - 48)) ds

-- The digits stand in the text from the cursor on, and no other digit behind them.
abbrev pub AreDigitsAt : (ℕ → ℕ) → ℕ → List ℕ → Type 0
AreDigitsAt str cursor [] = isdigit (str cursor) ≡ false
AreDigitsAt str cursor (d ∷ ds) =
    (str cursor ≡ d) × (isdigit d ≡ true) × (48 ≤ d) × AreDigitsAt str (cursor + 1) ds

module _ (str : ℕ → ℕ) where
  digits_from :
      (ds : List ℕ) (fuel num wide : ℕ) (s : State)
      → AreDigitsAt str s.cursor ds
      → length ds < fuel
      → num ≡ wide % 2 ^ 64
      → digits str fuel num s ≡ done (decimal wide ds % 2 ^ 64) (moved s (length ds))
  unfolding digits
  digits_from [] zero num wide s at enough e = ground arith
  digits_from [] (suc fuel) num wide s at enough e = rw (at, e, add-zero s.cursor) refl
  digits_from (d ∷ ds) zero num wide s at enough e = ground arith
  digits_from (d ∷ ds) (suc fuel) num wide s (here, digit, low, later) enough e =
      let wraps : (num * 10 + d - 48) % 2 ^ 64 ≡ (wide * 10 + (d - 48)) % 2 ^ 64 = omega arith in
      let next =
        digits_from ds fuel ((num * 10 + d - 48) % 2 ^ 64) (wide * 10 + (d - 48)) (moved s 1) later
          (omega arith) wraps in
      let steps : s.cursor + 1 + length ds ≡ s.cursor + suc (length ds) = omega arith in
      rw (here, digit, next, steps) refl

  -- The digits of a number are read to their end and yield the number they denote, as a 64-bit word.
  pub digits-eq :
      (ds : List ℕ) (fuel : ℕ) (s : State)
      → AreDigitsAt str s.cursor ds
      → length ds < fuel
      → digits str fuel 0 s ≡ done (decimal 0 ds % 2 ^ 64) (moved s (length ds))
  digits-eq ds fuel s at enough = digits_from ds fuel 0 0 s at enough refl
