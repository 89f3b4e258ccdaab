-- ===== src/Libc/Numbers/Tests.antt =====
-- The theorems on numbers at "-42;" and "0x2a".
use sscc_oslecture.Base.{◌==◌, ℕ, ◌≡◌, refl, true, false, ◌||◌, some, List, [], ◌∷◌, arith}
use sscc_oslecture.Base.Int.{pos}
use sscc_oslecture.Libc.Strings.{first, rest}
use sscc_oslecture.Libc.Numbers.{
  unset, einval, skip_spaces, sign_of, prefix, digit_of, digits, signed, strtol, atoi,
}
use sscc_oslecture.Libc.Numbers.Numerals.{numeral, IsStop, with_sign, strtol-numeral}
use sscc_oslecture.Libc.Numbers.Atoi.{atoi-strtol}

abbrev tail : List ℕ
tail = 59 ∷ []

tail-IsStop : IsStop tail
unfolding digit_of
tail-IsStop = refl

abbrev forty_two : List ℕ
forty_two = 4 ∷ 2 ∷ []

strtol-numeral_example :
    strtol 2147483648 (with_sign true (numeral forty_two tail)) 10
    ≡ record { value = signed true 42; endptr = some 3; errno = einval }
strtol-numeral_example =
    strtol-numeral 2147483648 10 true forty_two tail (omega arith) (omega arith) (omega arith)
      (ground arith) tail-IsStop (omega arith)

not_hex :
    ((first (rest (sign_of (skip_spaces (45 ∷ 52 ∷ 50 ∷ []))).1) == 120)
      || (first (rest (sign_of (skip_spaces (45 ∷ 52 ∷ 50 ∷ []))).1) == 88))
    ≡ false
unfolding sign_of skip_spaces
not_hex = refl

atoi-strtol_example : atoi 2147483648 (45 ∷ 52 ∷ 50 ∷ []) ≡ (
  (strtol 2147483648 (45 ∷ 52 ∷ 50 ∷ []) 10).value,
  (strtol 2147483648 (45 ∷ 52 ∷ 50 ∷ []) 10).errno,
)
atoi-strtol_example = atoi-strtol 2147483648 (45 ∷ 52 ∷ 50 ∷ []) (omega arith) not_hex

-- Base 0 reads no decimal number, and 2 ^ 32 is no error.
base_0 : strtol 2147483648 (49 ∷ []) 0 ≡ record { value = pos 0; endptr = some 0; errno = einval }
unfolding strtol sign_of skip_spaces prefix digits digit_of
base_0 = refl

wrapped :
    (strtol 2147483648 (52 ∷ 50 ∷ 57 ∷ 52 ∷ 57 ∷ 54 ∷ 55 ∷ 50 ∷ 57 ∷ 54 ∷ []) 10).errno ≡ unset
unfolding strtol sign_of skip_spaces prefix digits digit_of
wrapped = refl
