-- ===== src/Libc/Numbers.antt =====
-- Numbers from strings: strtol, strtoll, strtoul, strtoull and atoi of vellum/stdc/stdlib, and rand.
-- A string is the list of its bytes before the terminating 0. Signed overflow, which C leaves
-- undefined, wraps around, as the tests for a negative result behind it take for granted.
pub mod Numerals
pub mod Atoi
mod Tests
use sscc_oslecture.Base.{
  ltb, leb, ◌==◌, if◌then◌else◌, length, word_mod, add32, ℕ, zero, suc, ◌+◌, ◌-◌, ◌*◌, ◌/◌, ◌%◌,
  Bool, true, false, ◌&&◌, ◌||◌, Option, none, some, List, [], ◌∷◌,
}
use sscc_oslecture.Base.Int.{ℤ, pos, negsuc}
use sscc_oslecture.Libc.Strings.{first, rest}

pub data Errno : Type 0 where
  unset einval erange : Errno

-- The result, how many bytes lie before *endptr if that is stored, and errno.
pub record Parsed : Type 0 where
  pub value : ℤ
  pub endptr : Option ℕ
  pub errno : Errno

unfoldable pub skip_spaces : List ℕ → List ℕ
skip_spaces [] = []
skip_spaces (c ∷ str) = let later = skip_spaces str in if c == 32 then later else c ∷ str

-- The sign, and the string behind it.
unfoldable pub sign_of : List ℕ → Bool × List ℕ
sign_of [] = (false, [])
sign_of (c ∷ str) =
    if c == 43 then (false, str) else if c == 45 then (true, str) else (false, c ∷ str)

-- The base and the string behind a leading 0 or 0x.
unfoldable pub prefix : ℕ → List ℕ → ℕ × List ℕ
prefix base str =
    if first str == 48
    then (if first (rest str) == 120 || first (rest str) == 88
        then (if base == 0 then 16 else base, rest (rest str))
        else (if base == 0 then 8 else base, rest str))
    else (base, str)

unfoldable pub digit_of : ℕ → Option ℕ
digit_of c =
    if leb 48 c && leb c 57
    then some (c - 48)
    else if leb 97 c && leb c 122
    then some (c - 97 + 10)
    else if leb 65 c && leb c 90
    then some (c - 65 + 10)
    else none

-- How the loop over the digits ends: with a number and the string left, or out of range.
pub data Digits : Type 0 where
  stopped : ℕ → List ℕ → Errno → Digits
  out_of_range : Digits

-- A digit below the base goes on.
abbrev pub on_digit : ℕ → Option ℕ → Digits → (ℕ → Digits) → Digits
on_digit base none stop next = stop
on_digit base (some digit) stop next = if leb base digit then stop else next digit

-- ret = ret * base + digit in a word of 2 * half values, whose upper half is negative.
unfoldable pub digits : ℕ → ℕ → ℕ → List ℕ → Digits
digits half base ret [] = stopped ret [] unset
digits half base ret (c ∷ str) = on_digit base (digit_of c) (stopped ret (c ∷ str) einval) (λ digit.
    let next : ℕ = (ret * base + digit) % (2 * half) in
    if leb half next then out_of_range else digits half base next str)

abbrev pub signed : Bool → ℕ → ℤ
signed minus zero = pos 0
signed true (suc n) = negsuc n
signed false (suc n) = pos (suc n)

-- LONG_MIN or LONG_MAX, without *endptr, when the number is out of range.
abbrev pub finish_long : ℕ → ℕ → Bool → Digits → Parsed
finish_long half len minus (stopped ret left errno) = record {
  value = signed minus ret;
  endptr = some (len - length left);
  errno = errno;
}
finish_long half len minus out_of_range = record {
  value = if minus then negsuc (half - 1) else pos (half - 1);
  endptr = none;
  errno = erange;
}

abbrev pub invalid : Parsed
invalid = record { value = pos 0; endptr = none; errno = einval }

-- strtol with half = 2 ^ 31, strtoll with half = 2 ^ 63. A negative base is as invalid as 1.
unfoldable pub strtol : ℕ → List ℕ → ℕ → Parsed
strtol half str base =
    let (minus, unsigned) = sign_of (skip_spaces str) in
    let (actual, body) = prefix base unsigned in
    if base == 1 || ltb 36 base
    then invalid
    else finish_long half (length str) minus (digits half actual 0 body)

-- The loop of strtoul, in a word of `words` values.
unfoldable pub unsigned_digits : ℕ → ℕ → ℕ → List ℕ → Digits
unsigned_digits words base ret [] = stopped ret [] unset
unsigned_digits words base ret (c ∷ str) =
    on_digit base (digit_of c) (stopped ret (c ∷ str) einval)
      (λ digit. unsigned_digits words base ((ret * base + digit) % words) str)

-- strtoul with words = 2 ^ 32, strtoull with words = 2 ^ 64.
unfoldable pub strtoul : ℕ → List ℕ → ℕ → Parsed
strtoul words str base =
    let (actual, body) = prefix base (skip_spaces str) in
    if base == 1 || ltb 36 base
    then invalid
    else finish_long words (length str) false (unsigned_digits words actual 0 body)

unfoldable pub decimal_of : ℕ → Option ℕ
decimal_of c = if leb 48 c && leb c 57 then some (c - 48) else none

unfoldable pub decimal_digits : ℕ → ℕ → List ℕ → Digits
decimal_digits half ret [] = stopped ret [] unset
decimal_digits half ret (c ∷ str) =
    on_digit 10 (decimal_of c) (stopped ret (c ∷ str) einval) (λ digit.
      let next : ℕ = (ret * 10 + digit) % (2 * half) in
      if leb half next then out_of_range else decimal_digits half next str)

-- atoi, with half = 2 ^ 31: the value that it returns and errno.
unfoldable pub atoi : ℕ → List ℕ → ℤ × Errno
atoi half str =
    let (minus, body) = sign_of (skip_spaces str) in
    let parsed : Parsed = finish_long half 0 minus (decimal_digits half 0 body) in
    (parsed.value, parsed.errno)

-- rand: the next state and the number; RAND_MAX is 32767.
unfoldable pub rand : ℕ → ℕ × ℕ
rand next =
    let state : ℕ = add32 (next * 1103515245 % word_mod) 12345 in (state, state / 65536 % 32768)
