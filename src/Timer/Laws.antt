-- ===== src/Timer/Laws.antt =====
-- What timer.c promises its callers.
use minidos.Common.{
  ℕ, zero, suc, ◌+◌, ◌-◌, ◌*◌, ◌/◌, ◌%◌, ◌^◌, ◌≤◌, ◌<◌, min, ap, true, false, ◌≡◌, arith, ltb, ◌==◌,
  if◌then◌else◌, u32, ◌&&◌, add32, Bool-cases, inl, inr,
}
use minidos.Timer.{
  Timer, pit_base_hz, u32_max, init_divisor, ceil_ticks, timer_init, timer_ms_to_ticks_ceil,
}

-- What `timer_init` establishes and the tick handler keeps.
pub record IsValid (t : Timer) : Type 0 where
  pub running : t.ready ≡ true
  pub hz_pos : 0 < t.hz
  pub hz_le : t.hz ≤ pit_base_hz
  pub ticks_lt : t.ticks < 2 ^ 32

div_pos : (a d : ℕ) → 0 < d → d ≤ a → 0 < a / d
div_pos a d h k = grind arith

init_divisor_bounds : (hz : ℕ) → (0 < init_divisor hz) × (init_divisor hz ≤ 0xFFFF)
unfolding init_divisor
init_divisor_bounds hz = ground arith

div-le : (a d : ℕ) → a / d ≤ a
div-le a d = grind arith

-- Whatever frequency is asked for, the divisor fits the 16-bit channel and is not 0, and the timer
-- that results is running, at a frequency between 1 and the base frequency.
timer_init-IsValid :
    (hz : ℕ) → (0 < init_divisor hz) × (init_divisor hz ≤ 0xFFFF) × IsValid (timer_init hz).0
unfolding timer_init
timer_init-IsValid hz = (
  (init_divisor_bounds hz).0,
  (init_divisor_bounds hz).1,
  ground (arith, init_divisor_bounds hz, div-le pit_base_hz (init_divisor hz)),
)

lt_of_div-lt : (m s h : ℕ) → 0 < s → m / s < h → m < s * h
lt_of_div-lt m s h p q = grind arith

le_of_le-div : (m s h : ℕ) → 0 < s → h ≤ m / s → s * h ≤ m
le_of_le-div m s h p q = grind arith

mul-pos : (a b : ℕ) → 0 < a → 0 < b → 0 < a * b
mul-pos a b p q = grind arith

split-mul : (ms hz : ℕ) → ms * hz ≡ 1000 * (ms / 1000 * hz) + ms % 1000 * hz
split-mul ms hz = omega (arith, ap (λ (t : ℕ). t * hz) whole)
  where
    whole : ms ≡ 1000 * (ms / 1000) + ms % 1000
    whole = omega arith

rest-le : (ms hz : ℕ) → hz ≤ pit_base_hz → ms % 1000 * hz ≤ 999 * pit_base_hz
rest-le ms hz h = grind arith

-- `q` is the product for the whole seconds and `r` that for the rest.
ceil_sum :
    (n q r : ℕ)
    → 0 < n
    → n ≡ 1000 * q + r
    → r ≤ 999 * pit_base_hz
    → q ≤ u32_max
    → (let sum = add32 (u32 q) (add32 (u32 r) 999 / 1000) in
        if ltb (u32_max - add32 (u32 r) 999 / 1000) (u32 q)
        then u32_max
        else if sum == 0
        then 1
        else sum)
      ≡ min u32_max ((n + 999) / 1000)
ceil_sum n q r p e h k = ground arith

mul_overflow : (s h : ℕ) → (ltb 0 s && ltb (u32_max / s) h) ≡ true → u32_max < s * h
mul_overflow s h t = ground (arith, lt_of_div-lt u32_max s h)

mul_fits : (s h : ℕ) → (ltb 0 s && ltb (u32_max / s) h) ≡ false → s * h ≤ u32_max
mul_fits zero h t = omega arith
mul_fits (suc s) h t = ground (arith, le_of_le-div u32_max (suc s) h)

ceil_ticks_lem :
    (ms hz : ℕ)
    → 0 < ms
    → 0 < hz
    → hz ≤ pit_base_hz
    → ceil_ticks ms hz ≡ min u32_max ((ms * hz + 999) / 1000)
unfolding ceil_ticks
ceil_ticks_lem ms hz m p h =
    elim (Bool-cases (ltb 0 (ms / 1000) && ltb (u32_max / (ms / 1000)) hz)) [
      | inl big ↦ rw big (omega (arith, mul_overflow (ms / 1000) hz big, split-mul ms hz))
      | inr small ↦ rw small (
          ceil_sum (ms * hz) (ms / 1000 * hz) (ms % 1000 * hz) (omega (arith, mul-pos ms hz m p))
            (split-mul ms hz) (rest-le ms hz h) (mul_fits (ms / 1000) hz small))
    ]

-- On a valid timer the conversion is the exact ceiling of ms * hz / 1000, capped at the largest
-- 32-bit value: no intermediate product or sum wraps.
pub timer_ms_to_ticks_ceil_lem :
    (t : Timer) (ms : ℕ)
    → IsValid t
    → timer_ms_to_ticks_ceil t ms ≡ min u32_max ((ms * t.hz + 999) / 1000)
unfolding timer_ms_to_ticks_ceil
timer_ms_to_ticks_ceil_lem t ms v = ground (arith, ceil_ticks_lem ms t.hz)
