-- ===== src/Json/Tests.antt =====
-- The parser on short texts, and the theorems on it at them.
use sscc_oslecture.Base.{get_or, ℕ, ◌≡◌, refl, Bool, true, Option, none, some, List, [], ◌∷◌, arith}
use sscc_oslecture.Libc.Ctype.{flags, has, isdigit, isspace}
use sscc_oslecture.Json.{
  Json, number, array, no_elements, element, State, Run, out_of_fuel, failed, done,
}
use sscc_oslecture.Json.Ahead.{IsAhead}
use sscc_oslecture.Json.Scan.{skip, digits, parse_number}
use sscc_oslecture.Json.Parse.{separated, elements, parse_array, parse_value, parse}
use sscc_oslecture.Json.Numbers.{AreDigitsAt}
use sscc_oslecture.Json.Termination.{parse-IsAhead}

abbrev memory : List ℕ → ℕ → ℕ
memory text i = get_or text i 0

abbrev succeeds : ℕ → ℕ → Bool
succeeds call size = true

abbrev at : ℕ → State
at cursor = record { cursor = cursor; calls = 0 }

-- [1, 23] and [1,23], each with a line feed
abbrev spaced : List ℕ
spaced = 91 ∷ 49 ∷ 44 ∷ 32 ∷ 50 ∷ 51 ∷ 93 ∷ 10 ∷ []

abbrev tight : List ℕ
tight = 91 ∷ 49 ∷ 44 ∷ 50 ∷ 51 ∷ 93 ∷ 10 ∷ []

abbrev pair : ℕ → Json
pair n = array (element 0 (number 1) (element 1 (number n) no_elements))

value_of : Run Json → Option Json
value_of out_of_fuel = none
value_of (failed e) = none
value_of (done v s) = some v

blank_kept : value_of (parse succeeds (memory spaced) 8 12) ≡ some (pair 23)
unfolding value_of parse parse_value parse_array elements separated parse_number digits skip isspace
    isdigit has flags
blank_kept = refl

-- Without the blank the first digit is lost.
digit_lost : value_of (parse succeeds (memory tight) 7 12) ≡ some (pair 3)
unfolding value_of parse parse_value parse_array elements separated parse_number digits skip isspace
    isdigit has flags
digit_lost = refl

parse-IsAhead_example : IsAhead 7 0 (parse succeeds (memory tight) 7 12)
parse-IsAhead_example =
    parse-IsAhead succeeds (memory tight) 7 (unfold isdigit has flags in refl) 12 (omega arith)

-- The second quote is missing: the loop stores two bytes and fails.
abbrev unended : ℕ → ℕ
unended = memory (34 ∷ 97 ∷ 10 ∷ [])

digits_there : AreDigitsAt (memory spaced) 4 (50 ∷ 51 ∷ [])
unfolding isdigit has flags
digits_there = (refl, refl, omega arith, (refl, refl, omega arith, refl))
