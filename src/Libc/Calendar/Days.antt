-- ===== src/Libc/Calendar/Days.antt =====
-- gmtime_r and mktime of vellum/stdc/time are inverse.
use sscc_oslecture.Base.{
  ltb, leb, if◌then◌else◌, Bool-cases, sub32, ℕ, ◌+◌, ◌-◌, ◌*◌, ◌/◌, ◌%◌, ◌^◌, ◌≤◌, ◌<◌, ◌≡◌, refl,
  ap, ◌∙◌, inl, inr, true, arith,
}
use sscc_oslecture.Libc.Calendar.{
  Tm, gmtime_r, mktime, year_of_era, day_of_year, month_of, day_of_month, calendar_month,
  march_days, year_days,
}
use sscc_oslecture.Base.Int.{pos, sub_ℕ}

-- The days before a date, from the first of March of year 0, without a bound.
day_number : ℕ → ℕ → ℕ → ℕ
day_number year mon mday =
    let y = if ltb mon 2 then year - 1 else year in
    let m = if ltb mon 2 then mon + 12 else mon in march_days y + (153 * (m - 2) + 2) / 5 + mday - 1

year_of_era-lt : (doe : ℕ) → doe < 146097 → year_of_era doe < 400
unfolding year_of_era
year_of_era-lt doe h = omega arith

-- The day stands within its year.
day_of_year_bounds :
    (doe : ℕ)
    → doe < 146097
    → let yoe = year_of_era doe in (365 * yoe + yoe / 4 - yoe / 100 ≤ doe) × (day_of_year doe < 366)
unfolding day_of_year year_of_era
day_of_year_bounds doe h = omega arith

month_of-lt : (doy : ℕ) → doy < 366 → month_of doy < 12
unfolding month_of
month_of-lt doy h = omega arith

month_of_bounds : (doy : ℕ) → (153 * month_of doy + 2) / 5 ≤ doy
unfolding month_of
month_of_bounds doy = omega arith

-- The first of March of year `y`, counted from the first of March of year 0.
abbrev year_start : ℕ → ℕ
year_start y = y * 365 + y / 4 - y / 100 + y / 400

year_start-era :
    (yoe era : ℕ)
    → yoe < 400
    → year_start (yoe + era * 400) ≡ era * 146097 + (365 * yoe + yoe / 4 - yoe / 100)
year_start-era yoe era h = omega arith

module _ (days : ℕ) where
  abbrev era : ℕ
  era = days / 146097

  abbrev doe : ℕ
  doe = days - era * 146097

  abbrev doy : ℕ
  doy = day_of_year doe

  abbrev mp : ℕ
  mp = month_of doy

  -- The year that begins in March.
  abbrev march_year : ℕ
  march_year = year_of_era doe + era * 400

  doe-lt : doe < 146097
  doe-lt = omega arith

  -- The days are those before the year, and those in it.
  days-eq : days ≡ year_start march_year + doy
  unfolding day_of_year
  days-eq = omega (
    arith,
    day_of_year_bounds doe doe-lt,
    year_start-era (year_of_era doe) era (year_of_era-lt doe doe-lt),
  )

  -- Times from 1970 on lie in years from 1969 on.
  march_year-le : 719468 ≤ days → 1969 ≤ march_year
  march_year-le h = omega (arith, days-eq, day_of_year_bounds doe doe-lt)

  calendar_month_bounds :
      (1 ≤ calendar_month mp)
      × (calendar_month mp ≤ 12)
      × (if leb (calendar_month mp) 2
          then calendar_month mp + 9 ≡ mp
          else calendar_month mp ≡ mp + 3)
  unfolding calendar_month
  calendar_month_bounds = ground (arith, month_of-lt doy (day_of_year_bounds doe doe-lt).1)

  -- The calendar year, which begins in January.
  abbrev civil_year : ℕ
  civil_year = march_year + (if leb (calendar_month mp) 2 then 1 else 0)

  day_number-eq :
      719468 ≤ days → day_number civil_year (calendar_month mp - 1) (day_of_month doy) ≡ days
  unfolding day_number day_of_month march_days
  day_number-eq h = elim (Bool-cases (leb (calendar_month mp) 2)) [
    | inl early ↦ rw early (ground (arith, calendar_month_bounds, days-eq, month_of_bounds doy))
    | inr late ↦ rw late (ground (arith, calendar_month_bounds, days-eq, month_of_bounds doy))
  ]

abbrev days_of : ℕ → ℕ
days_of time = time / 60 / 60 / 24 + 719468

civil_year-eq : (time : ℕ) → (gmtime_r time).year ≡ sub32 (civil_year (days_of time) % 2 ^ 32) 1900
unfolding gmtime_r
civil_year-eq time = refl

-- The broken-down date of a time is that of its day.
day_number-gmtime_r :
    (time : ℕ)
    → let tm = gmtime_r time in day_number (civil_year (days_of time)) tm.mon tm.mday ≡ days_of time
unfolding gmtime_r
day_number-gmtime_r time = day_number-eq (days_of time) (omega arith)

year_days_lem : (y : ℕ) → march_days y < 2147483648 → year_days y ≡ march_days y
unfolding year_days march_days
year_days_lem y small = let first : ltb y 2147483648 ≡ true = ground arith in rw first (omega arith)

years_lem : (y : ℕ) → march_days y < 2147483648 → y < 2147483648
unfolding march_days
years_lem y small = omega arith

-- mktime of a date whose days can be counted in a long.
mktime_lem :
    (tm : Tm) (year days : ℕ)
    → tm.year ≡ sub32 (year % 2 ^ 32) 1900
    → 1900 ≤ year
    → day_number year tm.mon tm.mday ≡ days
    → days < 2147000000
    → mktime tm ≡ sub_ℕ (days * 86400 + tm.hour * 3600 + tm.min * 60 + tm.sec) (719468 * 86400)
unfolding mktime day_number
mktime_lem tm year days e past number small = elim (Bool-cases (ltb tm.mon 2)) [
  | inl early ↦
      let n : march_days (year - 1) + (153 * (tm.mon + 12 - 2) + 2) / 5 + tm.mday - 1 ≡ days =
        rw early at number in
      let some_days : march_days (year - 1) < 2147483648 = omega arith in
      let known : year_days (year - 1) ≡ march_days (year - 1) =
        year_days_lem (year - 1) some_days in
      let some_years : year - 1 < 2147483648 = years_lem (year - 1) some_days in
      let same : (tm.year + 1900) % 2 ^ 32 ≡ year = omega arith in
      let back : sub32 year 1 ≡ year - 1 = omega arith in
      let short : ltb (march_days (year - 1)) 2147483648 ≡ true = ground arith in
      rw (early, same, back, known, short)
        (ap (λ n. sub_ℕ (n * 86400 + tm.hour * 3600 + tm.min * 60 + tm.sec) (719468 * 86400)) n)
  | inr late ↦
      let n : march_days (year) + (153 * (tm.mon - 2) + 2) / 5 + tm.mday - 1 ≡ days =
        rw late at number in
      let some_days : march_days (year) < 2147483648 = omega arith in
      let known : year_days (year) ≡ march_days (year) = year_days_lem (year) some_days in
      let some_years : year < 2147483648 = years_lem (year) some_days in
      let same : (tm.year + 1900) % 2 ^ 32 ≡ year = omega arith in
      let back : year ≡ year = omega arith in
      let short : ltb (march_days (year)) 2147483648 ≡ true = ground arith in
      rw (late, same, back, known, short)
        (ap (λ n. sub_ℕ (n * 86400 + tm.hour * 3600 + tm.min * 60 + tm.sec) (719468 * 86400)) n)
]

-- mktime undoes gmtime_r: from the broken-down form of a time of 0 to 184999999999999 it computes the time.
pub mktime-gmtime_r : (time : ℕ) → time < 185000000000000 → mktime (gmtime_r time) ≡ pos time
mktime-gmtime_r time small =
    mktime_lem (gmtime_r time) (civil_year (days_of time)) (days_of time) (civil_year-eq time)
      (omega (arith, march_year-le (days_of time) (omega arith))) (day_number-gmtime_r time)
      (omega arith)
    ∙ unfold gmtime_r in ground arith
