-- ===== src/Libc/Numbers/Atoi.antt =====
-- atoi of vellum/stdc/stdlib against strtol in base 10.
use native.Mathlib.Nat.{zero-mod}
use sscc_oslecture.Base.{
  leb, ◌==◌, if◌then◌else◌, le→leb, leb-false, ==_iff, Bool-cases, length, ℕ, ◌+◌, ◌-◌, ◌*◌, ◌%◌,
  ◌≤◌, ◌<◌, ◌≡◌, refl, sym, ap, ap₂, ◌∙◌, fun_ext, ◌⊎◌, inl, inr, Bool, false, ◌&&◌, ◌||◌, none,
  some, List, [], ◌∷◌, arith,
}
use sscc_oslecture.Libc.Numbers.{
  einval, skip_spaces, sign_of, prefix, digit_of, Digits, stopped, out_of_range, on_digit, digits,
  finish_long, strtol, decimal_of, decimal_digits, atoi,
}
use sscc_oslecture.Libc.Strings.{first, rest}

-- Of a character, the two loops see the same digit below ten.
digit_cases :
    (c : ℕ)
    → (decimal_of c ≡ digit_of c)
      ⊎ ((decimal_of c ≡ none) × (d : ℕ) × (digit_of c ≡ some d) × (10 ≤ d))
unfolding decimal_of digit_of
digit_cases c = elim (Bool-cases (leb 48 c && leb c 57)) [
  | inl h ↦ inl (rw (h) refl)
  | inr h ↦ elim (Bool-cases (leb 97 c && leb c 122)) [
    | inl k ↦
        let low : 97 ≤ c = ground arith in inr (rw (h, k) (refl, c - 97 + 10, refl, omega arith))
    | inr k ↦ elim (Bool-cases (leb 65 c && leb c 90)) [
      | inl m ↦
          let low : 65 ≤ c = ground arith in
          inr (rw (h, k, m) (refl, c - 65 + 10, refl, omega arith))
      | inr m ↦ inl (rw (h, k, m) refl)
    ]
  ]
]

on_digit_cases :
    (c : ℕ) (stop : Digits) (next : ℕ → Digits)
    → on_digit 10 (decimal_of c) stop next ≡ on_digit 10 (digit_of c) stop next
on_digit_cases c stop next = elim (digit_cases c) [
  | inl same ↦ ap (λ o. on_digit 10 o stop next) same
  | inr h ↦
      let (no_decimal, d, is_digit, big) = h in rw (no_decimal, is_digit, le→leb 10 d big) refl
]

decimal_digits_lem :
    (half ret : ℕ) (str : List ℕ) → decimal_digits half ret str ≡ digits half 10 ret str
unfolding decimal_digits digits
decimal_digits_lem half ret [] = refl
decimal_digits_lem half ret (c ∷ str) =
    on_digit_cases c _ _
    ∙ ap (λ next. on_digit 10 (digit_of c) (stopped ret (c ∷ str) einval) next)
        (fun_ext (λ d.
          ap (λ r. if leb half ((ret * 10 + d) % (2 * half)) then out_of_range else r)
            (decimal_digits_lem half ((ret * 10 + d) % (2 * half)) str)))

-- A 0 in front changes nothing.
leading_zero :
    (half : ℕ) (str : List ℕ) → 0 < half → digits half 10 0 (48 ∷ str) ≡ digits half 10 0 str
unfolding digits digit_of
leading_zero half str positive =
    let wrapped : 0 % (2 * half) ≡ 0 = zero-mod (2 * half) in
    rw (wrapped, leb-false half 0 positive) refl

-- The digits behind a prefix in base 10.
prefix-digits :
    (half : ℕ) (body : List ℕ)
    → 0 < half
    → ((first (rest body) == 120) || (first (rest body) == 88)) ≡ false
    → ((prefix 10 body).0 ≡ 10) × (digits half 10 0 (prefix 10 body).1 ≡ digits half 10 0 body)
unfolding prefix
prefix-digits half [] positive plain = (refl, refl)
prefix-digits half (c ∷ body) positive plain = elim (Bool-cases (c == 48)) [
  | inl h ↦
      let zero_char : c ≡ 48 = (==_iff c 48).0 h in
      rw (h, plain)
        (
          refl,
          sym (ap (λ d. digits half 10 0 (d ∷ body)) zero_char ∙ leading_zero half body positive),
        )
  | inr h ↦ rw (h) (refl, refl)
]

-- The value and errno do not depend on the length.
finish_same :
    (half n : ℕ) (minus : Bool) (x : Digits)
    → ((finish_long half 0 minus x).value ≡ (finish_long half n minus x).value)
      × ((finish_long half 0 minus x).errno ≡ (finish_long half n minus x).errno)
finish_same half n minus (stopped ret left e) = (refl, refl)
finish_same half n minus out_of_range = (refl, refl)

-- On a string without 0x behind its spaces and its sign, atoi yields the value and the errno of strtol
-- in base 10, also when the number is out of range.
pub atoi-strtol :
    (half : ℕ) (str : List ℕ)
    → 0 < half
    → ((first (rest (sign_of (skip_spaces str)).1) == 120)
        || (first (rest (sign_of (skip_spaces str)).1) == 88))
      ≡ false
    → atoi half str ≡ ((strtol half str 10).value, (strtol half str 10).errno)
unfolding atoi strtol
atoi-strtol half str positive plain =
    let minus : Bool = (sign_of (skip_spaces str)).0 in
    let body : List ℕ = (sign_of (skip_spaces str)).1 in
    let (ten, same) = prefix-digits half body positive plain in
    let (value, errno) = finish_same half (length str) minus (digits half 10 0 body) in
    rw (ten, same, decimal_digits_lem half 0 body) (ap₂ (λ a b. (a, b)) value errno)
