-- ===== src/Rtc/Clock.antt =====
-- src/kernel/time/rtc.c: the loops that read the registers until two readings agree, and the calls
-- that set the clock.
use minidos.Common.{
  ℕ, ◌+◌, ◌-◌, ◌/◌, ◌%◌, Bool, true, false, ◌&&◌, ◌||◌, Option, some, none, List, [], ◌∷◌, ltb,
  ◌==◌, if◌then◌else◌,
}
use minidos.Rtc.{
  Time, Date, DateRegs, is_binary, is_24_hour, to_bcd, encode_hours, decode_time, decode_date,
  days_in_month,
}

-- What a round of a reading loop meets: how often the chip says that it is updating before each
-- of the two readings, and what these read. `A` is the type of what is read.
pub record Attempt (A : Type 0) : Type 0 where
  pub busy : ℕ
  pub first : A
  pub status_b : ℕ
  pub busy_again : ℕ
  pub second : A

-- A reading that agrees with the one before it, or none where the counter `safety` has run out.
pub data Reading (A : Type 0) : Type 0 where
  waiting gave_up : Reading A
  agreed : ℕ → A → Reading A

module _ {A : Type 0} (same : A → A → Bool) where
  -- The `do` loop. `waiting` stands for a loop that goes on when the attempts are over.
  unfoldable pub read_twice : List (Attempt A) → ℕ → Reading A
  read_twice [] safety = waiting
  read_twice (a ∷ rs) safety =
      let left : ℕ = safety - a.busy in
      let left' : ℕ = left - a.busy_again in
      let again : Reading A = read_twice rs left' in
      if left == 0
      then gave_up
      else if left' == 0
      then gave_up
      else if same a.first a.second
      then agreed a.status_b a.second
      else again

abbrev pub same_time : Time → Time → Bool
same_time a b = a.seconds == b.seconds && a.minutes == b.minutes && a.hours == b.hours

abbrev pub same_date : DateRegs → DateRegs → Bool
same_date a b = a.day == b.day && a.month == b.month && a.year == b.year && a.century == b.century

abbrev pub safety_limit : ℕ
safety_limit = 100000

-- The end of the calls: `some none` is the result 0.
abbrev pub time_of : Reading Time → Option (Option Time)
time_of waiting = none
time_of gave_up = some none
time_of (agreed status_b raw) = some (decode_time status_b raw)

abbrev pub date_of : Reading DateRegs → Option (Option Date)
date_of waiting = none
date_of gave_up = some none
date_of (agreed status_b raw) = some (decode_date status_b raw)

unfoldable pub rtc_read_time : List (Attempt Time) → Option (Option Time)
unfolding read_twice
rtc_read_time rs = time_of (read_twice same_time rs safety_limit)

unfoldable pub rtc_read_date : List (Attempt DateRegs) → Option (Option Date)
unfolding read_twice
rtc_read_date rs = date_of (read_twice same_date rs safety_limit)

-- The CMOS registers.
abbrev pub Cmos : Type 0
Cmos = ℕ → ℕ

abbrev pub write_reg : Cmos → ℕ → ℕ → Cmos
write_reg r reg v = λ i. if i == reg then v else r i

-- `status_b | 0x80` stops the updates.
abbrev pub stop_updates : ℕ → ℕ
stop_updates status_b = if status_b / 128 % 2 == 1 then status_b else status_b + 128

unfoldable pub rtc_set_time : Cmos → Time → Cmos × Bool
unfolding to_bcd encode_hours
rtc_set_time r t =
    let status_b : ℕ = r 0x0B in
    let b : Bool = is_binary status_b in
    let r1 : Cmos = write_reg r 0x0B (stop_updates status_b) in
    let r2 : Cmos = write_reg r1 0x00 (to_bcd b t.seconds) in
    let r3 : Cmos = write_reg r2 0x02 (to_bcd b t.minutes) in
    let r4 : Cmos = write_reg r3 0x04 (encode_hours b (is_24_hour status_b) t.hours) in
    if ltb 23 t.hours || ltb 59 t.minutes || ltb 59 t.seconds
    then (r, false)
    else (write_reg r4 0x0B status_b, true)

unfoldable pub rtc_set_date : Cmos → Date → Cmos × Bool
unfolding to_bcd days_in_month
rtc_set_date r d =
    let status_b : ℕ = r 0x0B in
    let b : Bool = is_binary status_b in
    let r1 : Cmos = write_reg r 0x0B (stop_updates status_b) in
    let r2 : Cmos = write_reg r1 0x07 (to_bcd b d.day) in
    let r3 : Cmos = write_reg r2 0x08 (to_bcd b d.month) in
    let r4 : Cmos = write_reg r3 0x09 (to_bcd b (d.year % 100 % 256)) in
    let r5 : Cmos = write_reg r4 0x32 (to_bcd b (d.year / 100 % 256)) in
    if ltb d.year 1980 || ltb 2099 d.year
    then (r, false)
    else if ltb d.month 1 || ltb 12 d.month
    then (r, false)
    else if ltb d.day 1 || ltb (days_in_month d.year d.month) d.day
    then (r, false)
    else (write_reg r5 0x0B status_b, true)
