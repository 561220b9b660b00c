-- ===== src/Rtc/Tests.antt =====
-- The clock at concrete settings: the theorems, and tests.
use minidos.Common.{◌≡◌, refl, true, false, some, [], ◌∷◌, arith}
use minidos.Rtc.{Time, Date, encode_hours}
use minidos.Rtc.Clock.{Cmos, rtc_set_time, rtc_read_time, rtc_set_date, rtc_read_date}
use minidos.Rtc.RoundTrip.{read_both, time_regs, date_regs, rtc_read_time-rtc_set_time}
use minidos.Rtc.Dates.{rtc_read_date-rtc_set_date}

-- A chip that counts in BCD and to 12 hours.
abbrev chip : Cmos
chip = λ i. 0

abbrev evening : Time
evening = record { hours = 20; minutes = 45; seconds = 7 }

-- 8 PM
evening_hours : encode_hours false false 20 ≡ 0x88
unfolding encode_hours
evening_hours = refl

evening_set : (rtc_set_time chip evening).1 ≡ true
unfolding rtc_set_time
evening_set = refl

rtc_read_time-rtc_set_time_example :
    rtc_read_time (read_both time_regs (rtc_set_time chip evening).0 3 5 ∷ []) ≡ some (some evening)
rtc_read_time-rtc_set_time_example =
    rtc_read_time-rtc_set_time chip evening 3 5 [] evening_set (omega arith)

abbrev leap_day : Date
leap_day = record { year = 2024; month = 2; day = 29 }

leap_day_set : (rtc_set_date chip leap_day).1 ≡ true
unfolding rtc_set_date
leap_day_set = refl

rtc_read_date-rtc_set_date_example :
    rtc_read_date (read_both date_regs (rtc_set_date chip leap_day).0 0 9 ∷ [])
    ≡ some (some leap_day)
rtc_read_date-rtc_set_date_example =
    rtc_read_date-rtc_set_date chip leap_day 0 9 [] leap_day_set (omega arith)

no_leap_day : (rtc_set_date chip (record { year = 2023; month = 2; day = 29 })).1 ≡ false
unfolding rtc_set_date
no_leap_day = refl
