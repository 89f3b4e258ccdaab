-- ===== src/Libc/Numbers/Numerals.antt =====
-- strtol and strtoul of vellum/stdc/stdlib on numerals.
use native.Mathlib.Nat.{mul-le-mul_left, mod-eq_of_lt}
use sscc_oslecture.Base.{
  ltb, leb, ◌==◌, if◌then◌else◌, ltb→lt, leb-false, ==_iff, Bool-cases, length, ℕ, zero, suc, ◌+◌,
  ◌-◌, ◌*◌, ◌%◌, ◌≤◌, ◌<◌, ◌≡◌, refl, ap, inl, inr, Bool, true, false, ◌||◌, none, some, List, [],
  ◌∷◌, arith,
}
use sscc_oslecture.Libc.Numbers.{
  Errno, unset, einval, skip_spaces, sign_of, prefix, digit_of, stopped, digits, signed, strtol,
  unsigned_digits, strtoul,
}
use sscc_oslecture.Libc.Strings.{first}

-- The character of a digit, with small letters from ten on.
abbrev pub digit_char : ℕ → ℕ
digit_char d = if ltb d 10 then d + 48 else d + 87

abbrev pub numeral : List ℕ → List ℕ → List ℕ
numeral [] tail = tail
numeral (d ∷ ds) tail = digit_char d ∷ numeral ds tail

-- Digits below the base.
abbrev pub IsDigits : ℕ → List ℕ → Type 0
IsDigits base [] = Unit {0}
IsDigits base (d ∷ ds) = (d < base) × IsDigits base ds

-- The number that digits denote, behind a number read before them.
abbrev pub number : ℕ → ℕ → List ℕ → ℕ
number base ret [] = ret
number base ret (d ∷ ds) = number base (ret * base + d) ds

digit_of-digit_char : (d : ℕ) → d < 36 → digit_of (digit_char d) ≡ some d
unfolding digit_of
digit_of-digit_char d small = elim (Bool-cases (ltb d 10)) [
  | inl h ↦
      let low : d < 10 = ltb→lt d 10 h in
      let a : leb 48 (d + 48) ≡ true = ground arith in
      let b : leb (d + 48) 57 ≡ true = ground arith in rw (h, a, b) (ap some (omega arith))
  | inr h ↦
      let high : 10 ≤ d = ground arith in
      let a : leb (d + 87) 57 ≡ false = ground arith in
      let b : leb 48 (d + 87) ≡ true = ground arith in
      let c : leb 97 (d + 87) ≡ true = ground arith in
      let e : leb (d + 87) 122 ≡ true = ground arith in rw (h, a, b, c, e) (ap some (omega arith))
]

pub number_grows : (base ret : ℕ) (ds : List ℕ) → 0 < base → ret ≤ number base ret ds
number_grows base ret [] positive = omega arith
number_grows base ret (d ∷ ds) positive =
    let later = number_grows base (ret * base + d) ds positive in
    let grown : ret * 1 ≤ ret * base = mul-le-mul_left ret positive in omega arith

module _ (base : ℕ) (least : 2 ≤ base) (most : base ≤ 36) where
  digits_lem :
      (half ret : ℕ) (ds tail : List ℕ)
      → IsDigits base ds
      → number base ret ds < half
      → digits half base ret (numeral ds tail) ≡ digits half base (number base ret ds) tail
  unfolding digits
  digits_lem half ret [] tail below fits = refl
  digits_lem half ret (d ∷ ds) tail (small, below) fits =
      let next : ℕ = ret * base + d in
      let grown = number_grows base next ds (omega arith) in
      let wrapped : next % (2 * half) ≡ next =
        mod-eq_of_lt {n = next} {m = 2 * half} (omega arith) in
      rw
        (
          digit_of-digit_char d (omega arith),
          leb-false base d small,
          wrapped,
          leb-false half next (omega arith),
        )
        (digits_lem half next ds tail below fits)

  unsigned_digits_lem :
      (words ret : ℕ) (ds tail : List ℕ)
      → IsDigits base ds
      → number base ret ds < words
      → unsigned_digits words base ret (numeral ds tail)
        ≡ unsigned_digits words base (number base ret ds) tail
  unfolding unsigned_digits
  unsigned_digits_lem words ret [] tail below fits = refl
  unsigned_digits_lem words ret (d ∷ ds) tail (small, below) fits =
      let next : ℕ = ret * base + d in
      let grown = number_grows base next ds (omega arith) in
      let wrapped : next % words ≡ next = mod-eq_of_lt {n = next} {m = words} (omega arith) in
      rw (digit_of-digit_char d (omega arith), leb-false base d small, wrapped)
        (unsigned_digits_lem words next ds tail below fits)

-- What stands behind a numeral: the end of the string or a character that is no digit.
abbrev pub IsStop : List ℕ → Type 0
IsStop tail = digit_of (first tail) ≡ none

-- errno is left alone at the end of the string.
abbrev pub errno_at : List ℕ → Errno
errno_at [] = unset
errno_at (c ∷ tail) = einval

digits-stop :
    (half base ret : ℕ) (tail : List ℕ)
    → IsStop tail
    → digits half base ret tail ≡ stopped ret tail (errno_at tail)
unfolding digits
digits-stop half base ret [] stops = refl
digits-stop half base ret (c ∷ tail) stops = rw (stops) refl

unsigned_digits-stop :
    (words base ret : ℕ) (tail : List ℕ)
    → IsStop tail
    → unsigned_digits words base ret tail ≡ stopped ret tail (errno_at tail)
unfolding unsigned_digits
unsigned_digits-stop words base ret [] stops = refl
unsigned_digits-stop words base ret (c ∷ tail) stops = rw (stops) refl

not_x : (c : ℕ) → digit_of c ≡ none → ((c == 120) || (c == 88)) ≡ false
unfolding digit_of
not_x c h = elim (Bool-cases (c == 120)) [
  | inl e ↦ let big : c ≡ 120 = (==_iff c 120).0 e in absurd (cc (rw (big) at h))
  | inr e ↦ elim (Bool-cases (c == 88)) [
    | inl f ↦ let capital : c ≡ 88 = (==_iff c 88).0 f in absurd (cc (rw (capital) at h))
    | inr f ↦ rw (e, f) refl
  ]
]

digit_not_x : (d : ℕ) → d < 33 → ((digit_char d == 120) || (digit_char d == 88)) ≡ false
digit_not_x d small = ground arith

-- Behind a leading 0 no x follows.
second_lem :
    (base : ℕ) (ds tail : List ℕ)
    → base ≤ 33
    → IsDigits base ds
    → IsStop tail
    → ((first (numeral ds tail) == 120) || (first (numeral ds tail) == 88)) ≡ false
second_lem base [] tail most below stops = not_x (first tail) stops
second_lem base (d ∷ ds) tail most (small, below) stops = digit_not_x d (omega arith)

abbrev without_zero : List ℕ → List ℕ
without_zero [] = []
without_zero (zero ∷ ds) = ds
without_zero (suc d ∷ ds) = suc d ∷ ds

prefix_lem :
    (base : ℕ) (ds tail : List ℕ)
    → 2 ≤ base
    → base ≤ 33
    → IsDigits base ds
    → IsStop tail
    → 0 < length ds
    → prefix base (numeral ds tail) ≡ (base, numeral (without_zero ds) tail)
unfolding prefix
prefix_lem base [] tail least most below stops some_digits = absurd (omega arith)
prefix_lem base (zero ∷ ds) tail least most (small, below) stops some_digits =
    let nonzero : (base == 0) ≡ false = ground arith in
    rw (second_lem base ds tail most below stops, nonzero) refl
prefix_lem base (suc d ∷ ds) tail least most (small, below) stops some_digits =
    let other : (digit_char (suc d) == 48) ≡ false = ground arith in rw (other) refl

-- A numeral, with its leading 0 taken off or not, denotes the same number.
without_zero_lem :
    (base : ℕ) (ds : List ℕ)
    → IsDigits base ds
    → IsDigits base (without_zero ds) × (number base 0 (without_zero ds) ≡ number base 0 ds)
without_zero_lem base [] below = (tt, refl)
without_zero_lem base (zero ∷ ds) (small, below) = (below, ap (λ r. number base r ds) (omega arith))
without_zero_lem base (suc d ∷ ds) below = (below, refl)

-- A sign and a numeral behind it.
abbrev pub with_sign : Bool → List ℕ → List ℕ
with_sign true str = 45 ∷ str
with_sign false str = str

sign_lem :
    (minus : Bool) (base : ℕ) (ds tail : List ℕ)
    → base ≤ 33
    → IsDigits base ds
    → 0 < length ds
    → sign_of (skip_spaces (with_sign minus (numeral ds tail))) ≡ (minus, numeral ds tail)
unfolding sign_of skip_spaces
sign_lem minus base [] tail most below some_digits = absurd (omega arith)
sign_lem true base (d ∷ ds) tail most below some_digits = refl
sign_lem false base (d ∷ ds) tail most (small, below) some_digits =
    let a : (digit_char d == 32) ≡ false = ground arith in
    let b : (digit_char d == 43) ≡ false = ground arith in
    let c : (digit_char d == 45) ≡ false = ground arith in rw (a, b, c) refl

spaces_lem :
    (base : ℕ) (ds tail : List ℕ)
    → base ≤ 33
    → IsDigits base ds
    → 0 < length ds
    → skip_spaces (numeral ds tail) ≡ numeral ds tail
unfolding skip_spaces
spaces_lem base [] tail most below some_digits = absurd (omega arith)
spaces_lem base (d ∷ ds) tail most (small, below) some_digits =
    let a : (digit_char d == 32) ≡ false = ground arith in rw (a) refl

-- A numeral of a base from 2 to 33, with or without a minus sign, whose number is below half the values
-- of the type, up to the end of the string or a character that is no digit: strtol and strtoll yield
-- the number with its sign and set *endptr behind the last digit; errno is EINVAL when a character
-- follows.
pub strtol-numeral :
    (half base : ℕ) (minus : Bool) (ds tail : List ℕ)
    → 2 ≤ base
    → base ≤ 33
    → 0 < length ds
    → IsDigits base ds
    → IsStop tail
    → number base 0 ds < half
    → strtol half (with_sign minus (numeral ds tail)) base ≡ record {
      value = signed minus (number base 0 ds);
      endptr = some (length (with_sign minus (numeral ds tail)) - length tail);
      errno = errno_at tail;
    }
unfolding strtol
strtol-numeral half base minus ds tail least most some_digits below stops fits =
    let one : (base == 1) ≡ false = ground arith in
    let large : ltb 36 base ≡ false = ground arith in
    let (kept, same) = without_zero_lem base ds below in
    let read =
      digits_lem base least (omega arith) half 0 (without_zero ds) tail kept (rw (same) fits) in
    rw
      (
        sign_lem minus base ds tail most below some_digits,
        prefix_lem base ds tail least most below stops some_digits,
        one,
        large,
        read,
        same,
        digits-stop half base (number base 0 ds) tail stops,
      )
      refl

-- The same for strtoul and strtoull, without a sign, for numbers of the type.
pub strtoul-numeral :
    (words base : ℕ) (ds tail : List ℕ)
    → 2 ≤ base
    → base ≤ 33
    → 0 < length ds
    → IsDigits base ds
    → IsStop tail
    → number base 0 ds < words
    → strtoul words (numeral ds tail) base ≡ record {
      value = signed false (number base 0 ds);
      endptr = some (length (numeral ds tail) - length tail);
      errno = errno_at tail;
    }
unfolding strtoul
strtoul-numeral words base ds tail least most some_digits below stops fits =
    let one : (base == 1) ≡ false = ground arith in
    let large : ltb 36 base ≡ false = ground arith in
    let (kept, same) = without_zero_lem base ds below in
    let read =
      unsigned_digits_lem base least (omega arith) words 0 (without_zero ds) tail kept
        (rw (same) fits) in
    rw
      (
        spaces_lem base ds tail most below some_digits,
        prefix_lem base ds tail least most below stops some_digits,
        one,
        large,
        read,
        same,
        unsigned_digits-stop words base (number base 0 ds) tail stops,
      )
      refl
