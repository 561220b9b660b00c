-- ===== src/Rtc/RoundTrip.antt =====
-- src/kernel/time/rtc.c: a time or a date that is set is the one that is read, in every mode of the
-- chip.
use minidos.Common.{
  ℕ, ◌+◌, ◌-◌, ◌<◌, ◌≡◌, refl, ap, ◌∙◌, Bool, true, false, ◌||◌, some, List, ◌∷◌, ltb, ◌==◌, arith,
  Bool-cases, inl, inr,
}
use minidos.Rtc.{
  Time, DateRegs, is_binary, is_24_hour, bcd_to_bin, bin_to_bcd, from_bcd, to_bcd, decode_hours,
  encode_hours, decode_time,
}
use minidos.Rtc.Clock.{
  Attempt, agreed, read_twice, same_time, same_date, time_of, rtc_read_time, Cmos, rtc_set_time,
}

bcd_to_bin-bin_to_bcd : (v : ℕ) → v < 100 → bcd_to_bin (bin_to_bcd v) ≡ v
unfolding bcd_to_bin bin_to_bcd
bcd_to_bin-bin_to_bcd v h = omega arith

pub from_bcd-to_bcd : (b : Bool) (v : ℕ) → v < 100 → from_bcd b (to_bcd b v) ≡ v
unfolding from_bcd to_bcd
from_bcd-to_bcd true v h = refl
from_bcd-to_bcd false v h = bcd_to_bin-bin_to_bcd v h

decode_hours-encode_hours :
    (b f : Bool) (h : ℕ) → h < 24 → decode_hours b f (encode_hours b f h) ≡ h
unfolding decode_hours encode_hours bcd_to_bin bin_to_bcd
decode_hours-encode_hours true true h lt = ground arith
decode_hours-encode_hours true false h lt = ground arith
decode_hours-encode_hours false true h lt = ground arith
decode_hours-encode_hours false false h lt = ground arith

-- What a reading of the registers finds.
abbrev pub time_regs : Cmos → Time
time_regs r = record { hours = r 0x04; minutes = r 0x02; seconds = r 0x00 }

abbrev pub date_regs : Cmos → DateRegs
date_regs r = record { day = r 0x07; month = r 0x08; year = r 0x09; century = r 0x32 }

-- Two readings of the same registers, with the chip busy for a while before each.
abbrev pub read_both : {A : Type 0} → (Cmos → A) → Cmos → ℕ → ℕ → Attempt A
read_both regs r busy busy_again = record {
  busy = busy;
  first = regs r;
  status_b = r 0x0B;
  busy_again = busy_again;
  second = regs r;
}

-- Two equal readings end the loop, if the chip is not busy for too long.
pub read_twice_lem :
    {A : Type 0} (same : A → A → Bool) (regs : Cmos → A) (r : Cmos) (busy busy_again n : ℕ)
    (later : List (Attempt A))
    → same (regs r) (regs r) ≡ true
    → busy + busy_again < n
    → read_twice same (read_both regs r busy busy_again ∷ later) n ≡ agreed (r 0x0B) (regs r)
unfolding read_twice
read_twice_lem same regs r busy busy_again n later s lt =
    let left : (n - busy == 0) ≡ false = ground arith in
    let left' : (n - busy - busy_again == 0) ≡ false = ground arith in
    rw left (rw left' (rw s refl))

same_time_self : (t : Time) → same_time t t ≡ true
same_time_self t = ground arith

pub same_date_self : (d : DateRegs) → same_date d d ≡ true
same_date_self d = ground arith

-- The registers once the time is set.
time_set :
    (r : Cmos) (t : Time)
    → (rtc_set_time r t).1 ≡ true
    → (t.hours < 24)
      × (t.minutes < 60)
      × (t.seconds < 60)
      × ((rtc_set_time r t).0 0x0B ≡ r 0x0B)
      × (time_regs (rtc_set_time r t).0 ≡ record {
        hours = encode_hours (is_binary (r 0x0B)) (is_24_hour (r 0x0B)) t.hours;
        minutes = to_bcd (is_binary (r 0x0B)) t.minutes;
        seconds = to_bcd (is_binary (r 0x0B)) t.seconds;
      })
unfolding rtc_set_time
time_set r t h = elim (Bool-cases (ltb 23 t.hours || ltb 59 t.minutes || ltb 59 t.seconds)) [
  | inl bad ↦ let none_set = rw bad at h in cc
  | inr good ↦
      let hours : t.hours < 24 = ground arith in
      let minutes : t.minutes < 60 = ground arith in
      let seconds : t.seconds < 60 = ground arith in rw good (hours, minutes, seconds, refl, refl)
]

decode_time_set :
    (s : ℕ) (t : Time)
    → t.hours < 24
    → t.minutes < 60
    → t.seconds < 60
    → decode_time s (record {
      hours = encode_hours (is_binary s) (is_24_hour s) t.hours;
      minutes = to_bcd (is_binary s) t.minutes;
      seconds = to_bcd (is_binary s) t.seconds;
    })
      ≡ some t
unfolding decode_time
decode_time_set s t h m sec =
    let good : (ltb 23 t.hours || ltb 59 t.minutes || ltb 59 t.seconds) ≡ false = ground arith in
    rw (decode_hours-encode_hours (is_binary s) (is_24_hour s) t.hours h) (
      rw (from_bcd-to_bcd (is_binary s) t.minutes (omega arith))
        (rw (from_bcd-to_bcd (is_binary s) t.seconds (omega arith)) (rw good refl)))

-- A time that `rtc_set_time` accepts is the one that `rtc_read_time` then gives, whether the chip
-- counts in binary or in BCD and to 12 hours or to 24, if it is not busy for too long.
pub rtc_read_time-rtc_set_time :
    (r : Cmos) (t : Time) (busy busy_again : ℕ) (later : List (Attempt Time))
    → (rtc_set_time r t).1 ≡ true
    → busy + busy_again < 100000
    → rtc_read_time (read_both time_regs (rtc_set_time r t).0 busy busy_again ∷ later)
      ≡ some (some t)
unfolding rtc_read_time
rtc_read_time-rtc_set_time r t busy busy_again later h lt =
    let r' : Cmos = (rtc_set_time r t).0 in
    let (hours, minutes, seconds, status, regs) = time_set r t h in
    ap time_of (
      read_twice_lem same_time time_regs r' busy busy_again 100000 later
        (same_time_self (time_regs r')) lt)
    ∙ (λ i. some (decode_time (status i) (regs i)))
    ∙ ap some (decode_time_set (r 0x0B) t hours minutes seconds)
