-- ===== src/Rtc.antt =====
-- src/kernel/time/rtc.c: the real-time clock in the CMOS registers. A byte is a number below 256,
-- `x & 2^k` a digit of it, and `x | y` of disjoint bits a sum.
pub mod Clock
pub mod RoundTrip
pub mod Dates
mod Tests
use minidos.Common.{
  ℕ, zero, suc, ◌+◌, ◌-◌, ◌*◌, ◌/◌, ◌%◌, ◌^◌, Bool, true, false, not, ◌&&◌, ◌||◌, Option, some,
  none, List, [], ◌∷◌, ltb, leb, ◌==◌, if◌then◌else◌, get_or,
}

unfoldable pub bcd_to_bin : ℕ → ℕ
bcd_to_bin bcd = (bcd / 16 * 10 + bcd % 16) % 256

unfoldable pub bin_to_bcd : ℕ → ℕ
bin_to_bcd bin = (bin / 10 * 16 + bin % 10) % 256

unfoldable pub is_leap_year : ℕ → Bool
is_leap_year year =
    if year % 400 == 0 then true else if year % 100 == 0 then false else year % 4 == 0

abbrev pub month_days : List ℕ
month_days = 31 ∷ 28 ∷ 31 ∷ 30 ∷ 31 ∷ 30 ∷ 31 ∷ 31 ∷ 30 ∷ 31 ∷ 30 ∷ 31 ∷ []

unfoldable pub days_in_month : ℕ → ℕ → ℕ
unfolding is_leap_year
days_in_month year month =
    if ltb month 1 || ltb 12 month
    then 0
    else if month == 2 && is_leap_year year
    then 29
    else get_or month_days (month - 1) 0

-- `rtc_time_t`
pub record Time : Type 0 where
  pub hours : ℕ
  pub minutes : ℕ
  pub seconds : ℕ

-- `rtc_date_t`
pub record Date : Type 0 where
  pub year : ℕ
  pub month : ℕ
  pub day : ℕ

-- `status_b & 0x04`: the registers are binary; `status_b & 0x02`: the hours go to 24.
abbrev pub is_binary : ℕ → Bool
is_binary status_b = status_b / 4 % 2 == 1

abbrev pub is_24_hour : ℕ → Bool
is_24_hour status_b = status_b / 2 % 2 == 1

unfoldable pub from_bcd : Bool → ℕ → ℕ
unfolding bcd_to_bin
from_bcd binary v = if binary then v else bcd_to_bin v

unfoldable pub to_bcd : Bool → ℕ → ℕ
unfolding bin_to_bcd
to_bcd binary v = if binary then v else bin_to_bcd v

-- The register of the hours: bit 7 is PM on a 12-hour clock.
unfoldable pub decode_hours : Bool → Bool → ℕ → ℕ
unfolding bcd_to_bin
decode_hours binary full raw =
    let hours : ℕ = if binary then raw else bcd_to_bin (raw % 128) + raw / 128 % 2 * 128 in
    let pm : Bool = hours / 128 % 2 == 1 in
    let h : ℕ = hours % 128 in
    if full then h else if pm && ltb h 12 then h + 12 else if not pm && h == 12 then 0 else h

unfoldable pub encode_hours : Bool → Bool → ℕ → ℕ
unfolding bin_to_bcd
encode_hours binary full hours =
    let hour12 : ℕ = if hours % 12 == 0 then 12 else hours % 12 in
    let new_hours : ℕ = if full then hours else if leb 12 hours then hour12 + 128 else hour12 in
    if binary then new_hours else bin_to_bcd (new_hours % 128) + new_hours / 128 % 2 * 128

-- `rtc_read_time` once two readings agree.
unfoldable pub decode_time : ℕ → Time → Option Time
unfolding from_bcd decode_hours
decode_time status_b raw =
    let b : Bool = is_binary status_b in
    let hours : ℕ = decode_hours b (is_24_hour status_b) raw.hours in
    let minutes : ℕ = from_bcd b raw.minutes in
    let seconds : ℕ = from_bcd b raw.seconds in
    if ltb 23 hours || ltb 59 minutes || ltb 59 seconds
    then none
    else some (record { hours = hours; minutes = minutes; seconds = seconds })

-- The registers of a date: day, month, year of the century, century.
pub record DateRegs : Type 0 where
  pub day : ℕ
  pub month : ℕ
  pub year : ℕ
  pub century : ℕ

unfoldable pub full_year : ℕ → ℕ → ℕ
full_year century year =
    if leb 19 century && leb century 99
    then (century * 100 + year) % 2 ^ 16
    else (2000 + year) % 2 ^ 16

-- `rtc_read_date` once two readings agree.
unfoldable pub decode_date : ℕ → DateRegs → Option Date
unfolding from_bcd full_year days_in_month
decode_date status_b raw =
    let b : Bool = is_binary status_b in
    let day : ℕ = from_bcd b raw.day in
    let month : ℕ = from_bcd b raw.month in
    let year : ℕ = full_year (from_bcd b raw.century) (from_bcd b raw.year) in
    if ltb month 1 || ltb 12 month
    then none
    else if ltb day 1 || ltb (days_in_month year month) day
    then none
    else some (record { year = year; month = month; day = day })
