-- ===== src/Libc/Calendar/Tests.antt =====
-- The theorem on gmtime_r and mktime at the time 1,000,000,000, on the ninth of September 2001.
use sscc_oslecture.Base.{◌≡◌, arith}
use sscc_oslecture.Base.Int.{pos}
use sscc_oslecture.Libc.Calendar.{gmtime_r, mktime}
use sscc_oslecture.Libc.Calendar.Days.{mktime-gmtime_r}

mktime-gmtime_r_example : mktime (gmtime_r 1000000000) ≡ pos 1000000000
mktime-gmtime_r_example = mktime-gmtime_r 1000000000 (omega arith)
