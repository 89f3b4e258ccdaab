-- ===== src/Libc/Calendar.antt =====
-- gmtime_r and mktime of vellum/stdc/time, for times that are not negative. tm_year, an int, and the years
-- and days of mktime, which it counts in a long, are patterns of 32 bits.
pub mod Days
mod Tests
use sscc_oslecture.Base.{
  ltb, leb, ◌==◌, if◌then◌else◌, sub32, ℕ, ◌+◌, ◌-◌, ◌*◌, ◌/◌, ◌%◌, ◌^◌, Bool, not, ◌&&◌, ◌||◌,
}
use sscc_oslecture.Base.Int.{ℤ, sub_ℕ}

-- `struct tm`, without tm_wday and tm_isdst, which neither function sets or reads.
pub record Tm : Type 0 where
  pub sec : ℕ
  pub min : ℕ
  pub hour : ℕ
  pub mday : ℕ
  pub mon : ℕ
  pub year : ℕ
  pub yday : ℕ

-- The parts of a day number that gmtime_r computes in turn. Day 0 is the first of March of year 0.
year_of_era : ℕ → ℕ
year_of_era doe = (doe - doe / 1460 + doe / 36524 - doe / 146096) / 365

day_of_year : ℕ → ℕ
day_of_year doe = let yoe = year_of_era doe in doe - (365 * yoe + yoe / 4 - yoe / 100)

-- `mp`, the month from March on
month_of : ℕ → ℕ
month_of doy = (5 * doy + 2) / 153

day_of_month : ℕ → ℕ
day_of_month doy = doy - (153 * month_of doy + 2) / 5 + 1

-- `m`, from 1 for January
calendar_month : ℕ → ℕ
calendar_month mp = if ltb mp 10 then mp + 3 else mp - 9

-- `is_leap`, of a year that is an int: a remainder is 0 whatever the sign.
is_leap : ℕ → Bool
is_leap year =
    let y = if ltb year 2147483648 then year else 4294967296 - year in
    (y % 4 == 0 && not (y % 100 == 0)) || y % 400 == 0

year_day : ℕ → ℕ → ℕ → Bool → ℕ
year_day m d doy leap =
    if leb m 2 then (if m == 1 then d - 1 else 31 + d - 1) else doy + 58 + (if leap then 1 else 0)

pub gmtime_r : ℕ → Tm
gmtime_r time =
    let days = time / 60 / 60 / 24 + 719468 in
    let era = days / 146097 in
    let doe = days - era * 146097 in
    let doy = day_of_year doe in
    let m = calendar_month (month_of doy) in
    let d = day_of_month doy in
    let year = year_of_era doe + era * 400 + (if leb m 2 then 1 else 0) in
    record {
      sec = time % 60;
      min = time / 60 % 60;
      hour = time / 60 / 60 % 24;
      mday = d;
      mon = m - 1;
      year = sub32 (year % 2 ^ 32) 1900;
      yday = year_day m d doy (is_leap (year % 2 ^ 32));
    }

-- The days of so many years from the first of March of year 0.
unfoldable march_days : ℕ → ℕ
march_days y = y * 365 + y / 4 - y / 100 + y / 400

-- They as a long: those of a negative year are the negative ones of its absolute value, for the divisions drop
-- the fraction.
unfoldable year_days : ℕ → ℕ
year_days y =
    if ltb y 2147483648
    then march_days y % 2 ^ 32
    else (2 ^ 32 - march_days (2 ^ 32 - y) % 2 ^ 32) % 2 ^ 32

-- A long becomes a time_t with its sign; `tm_mday` is 1 at least.
pub mktime : Tm → ℤ
mktime tm =
    let year = (tm.year + 1900) % 2 ^ 32 in
    let days = year_days (if ltb tm.mon 2 then sub32 year 1 else year) in
    let mon = if ltb tm.mon 2 then tm.mon + 12 else tm.mon in
    sub_ℕ
      ((days + (153 * (mon - 2) + 2) / 5 + tm.mday - 1) * 86400
        + tm.hour * 3600
        + tm.min * 60
        + tm.sec)
      ((719468 + (if ltb days 2147483648 then 0 else 2 ^ 32)) * 86400)
