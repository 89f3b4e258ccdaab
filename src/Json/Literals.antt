-- ===== src/Json/Literals.antt =====
-- What parse_string_literal of vellum/json/json.c writes fits in the buffer that it allocates.
use sscc_oslecture.Base.{ℕ, ◌≡◌, List}
use sscc_oslecture.Status.{Status}
use sscc_oslecture.Json.{Run, out_of_fuel, failed, done}

-- A literal that was read has these bytes.
abbrev pub IsText : List ℕ → Run (List ℕ) → Type 0
IsText bytes out_of_fuel = Unit
IsText bytes (failed e) = Unit
IsText bytes (done text s) = text ≡ bytes
