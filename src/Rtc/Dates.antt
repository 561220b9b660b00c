-- ===== src/Rtc/Dates.antt =====
-- src/kernel/time/rtc.c: dates.
use minidos.Common.{
  ℕ, zero, suc, ◌+◌, ◌-◌, ◌/◌, ◌%◌, ◌<◌, ◌≤◌, ◌≡◌, refl, ap, ◌∙◌, true, false, ◌||◌, some, List, [],
  ◌∷◌, ltb, arith, Bool-cases, inl, inr, get_or,
}
use minidos.Rtc.{
  Date, DateRegs, is_binary, to_bcd, full_year, decode_date, days_in_month, month_days,
}
use minidos.Rtc.Clock.{Attempt, same_date, date_of, rtc_read_date, Cmos, rtc_set_date}
use minidos.Rtc.RoundTrip.{from_bcd-to_bcd, date_regs, read_both, read_twice_lem, same_date_self}

-- The dates that `rtc_set_date` is for.
pub record IsDate (d : Date) : Type 0 where
  pub year_from : 1980 ≤ d.year
  pub year_to : d.year ≤ 2099
  pub month_from : 1 ≤ d.month
  pub month_to : d.month ≤ 12
  pub day_from : 1 ≤ d.day
  pub day_to : d.day ≤ days_in_month d.year d.month

AllLe : ℕ → List ℕ → Type 0
AllLe n [] = Unit
AllLe n (x ∷ xs) = (x ≤ n) × AllLe n xs

get_or-le : (xs : List ℕ) (i n : ℕ) → AllLe n xs → get_or xs i 0 ≤ n
unfolding AllLe
get_or-le [] i n h = omega arith
get_or-le (x ∷ xs) zero n h = h.0
get_or-le (x ∷ xs) (suc i) n h = get_or-le xs i n h.1

month_le : (i : ℕ) → get_or month_days i 0 ≤ 31
unfolding AllLe
month_le i = get_or-le month_days i 31 (omega arith)

days_le : (y m : ℕ) → days_in_month y m ≤ 31
unfolding days_in_month
days_le y m = ground (arith, month_le (m - 1))

accepted_date :
    (d : Date)
    → (ltb d.year 1980 || ltb 2099 d.year) ≡ false
    → (ltb d.month 1 || ltb 12 d.month) ≡ false
    → (ltb d.day 1 || ltb (days_in_month d.year d.month) d.day) ≡ false
    → IsDate d
accepted_date d y m n = ground arith

date_set :
    (r : Cmos) (d : Date)
    → (rtc_set_date r d).1 ≡ true
    → IsDate d
      × ((rtc_set_date r d).0 0x0B ≡ r 0x0B)
      × (date_regs (rtc_set_date r d).0 ≡ record {
        day = to_bcd (is_binary (r 0x0B)) d.day;
        month = to_bcd (is_binary (r 0x0B)) d.month;
        year = to_bcd (is_binary (r 0x0B)) (d.year % 100 % 256);
        century = to_bcd (is_binary (r 0x0B)) (d.year / 100 % 256);
      })
unfolding rtc_set_date
date_set r d h = elim (Bool-cases (ltb d.year 1980 || ltb 2099 d.year)) [
  | inl bad ↦ let none_set = rw bad at h in cc
  | inr y ↦ elim (Bool-cases (ltb d.month 1 || ltb 12 d.month)) [
    | inl bad ↦ let none_set = rw (y, bad) at h in cc
    | inr m ↦ elim (Bool-cases (ltb d.day 1 || ltb (days_in_month d.year d.month) d.day)) [
      | inl bad ↦ let none_set = rw (y, bad, m) at h in cc
      | inr n ↦ let is_date = accepted_date d y m n in rw y (rw n (rw m (is_date, refl, refl)))
    ]
  ]
]

full_year_lem : (y : ℕ) → 1980 ≤ y → y ≤ 2099 → full_year (y / 100 % 256) (y % 100 % 256) ≡ y
unfolding full_year
full_year_lem y lo hi = ground arith

decode_date_set :
    (s : ℕ) (d : Date)
    → IsDate d
    → decode_date s (record {
      day = to_bcd (is_binary s) d.day;
      month = to_bcd (is_binary s) d.month;
      year = to_bcd (is_binary s) (d.year % 100 % 256);
      century = to_bcd (is_binary s) (d.year / 100 % 256);
    })
      ≡ some d
unfolding decode_date
decode_date_set s d v =
    let month_good : (ltb d.month 1 || ltb 12 d.month) ≡ false =
      ground (arith, v.month_from, v.month_to) in
    let day_good : (ltb d.day 1 || ltb (days_in_month d.year d.month) d.day) ≡ false =
      ground (arith, v.day_from, v.day_to) in
    rw (from_bcd-to_bcd (is_binary s) d.day (omega (arith, v.day_to, days_le d.year d.month))) (
      rw (from_bcd-to_bcd (is_binary s) d.month (omega (arith, v.month_to))) (
        rw (from_bcd-to_bcd (is_binary s) (d.year % 100 % 256) (omega arith)) (
          rw (from_bcd-to_bcd (is_binary s) (d.year / 100 % 256) (omega (arith, v.year_to)))
            (rw (full_year_lem d.year v.year_from v.year_to) (rw day_good (rw month_good refl))))))

-- A date that `rtc_set_date` accepts is the one that `rtc_read_date` then gives, in BCD or in
-- binary, if the chip is not busy for too long.
pub rtc_read_date-rtc_set_date :
    (r : Cmos) (d : Date) (busy busy_again : ℕ) (later : List (Attempt DateRegs))
    → (rtc_set_date r d).1 ≡ true
    → busy + busy_again < 100000
    → rtc_read_date (read_both date_regs (rtc_set_date r d).0 busy busy_again ∷ later)
      ≡ some (some d)
unfolding rtc_read_date
rtc_read_date-rtc_set_date r d busy busy_again later h lt =
    let r' : Cmos = (rtc_set_date r d).0 in
    let (is_date, status, regs) = date_set r d h in
    ap date_of (
      read_twice_lem same_date date_regs r' busy busy_again 100000 later
        (same_date_self (date_regs r')) lt)
    ∙ (λ i. some (decode_date (status i) (regs i)))
    ∙ ap some (decode_date_set (r 0x0B) d is_date)
