-- ===== src/Timer/Tests.antt =====
-- Concrete runs of the timer.
use minidos.Common.{ℕ, ◌+◌, ◌*◌, ◌/◌, ◌≡◌, refl, arith, true, List, [], ◌∷◌, some, min}
use minidos.Timer.{
  Timer, timer_on_tick, pass, sleep_loop, u32_max, timer_ms_to_ticks_ceil, timer_sleep_ticks,
}
use minidos.Timer.Laws.{IsValid, timer_ms_to_ticks_ceil_lem}
use minidos.Timer.Sleep.{Sleeps, timer_sleep_ticks_lem}

abbrev timer_100 : Timer
timer_100 = record { ticks = 0xFFFF_FFFF; hz = 100; ready = true }

timer_100-IsValid : IsValid timer_100
timer_100-IsValid = ground arith

-- No tick by the first test, then two, none, and two at once.
abbrev rounds_5 : List ℕ
rounds_5 = 0 ∷ 2 ∷ 0 ∷ 2 ∷ 1 ∷ []

ms_15 : timer_ms_to_ticks_ceil timer_100 15 ≡ 2
unfolding timer_ms_to_ticks_ceil
ms_15 = refl

timer_ms_to_ticks_ceil_lem_example :
    timer_ms_to_ticks_ceil timer_100 1234 ≡ min u32_max ((1234 * 100 + 999) / 1000)
timer_ms_to_ticks_ceil_lem_example = timer_ms_to_ticks_ceil_lem timer_100 1234 timer_100-IsValid

timer_sleep_ticks_lem_example :
    Sleeps 0 3 rounds_5 timer_100 (timer_sleep_ticks true rounds_5 timer_100 3)
timer_sleep_ticks_lem_example =
    timer_sleep_ticks_lem rounds_5 timer_100 3 timer_100-IsValid (omega arith) (omega arith)
      (omega arith)

slept_four :
    timer_sleep_ticks true rounds_5 timer_100 3
    ≡ some (record { ticks = 3; hz = 100; ready = true }, 1 ∷ [])
unfolding timer_sleep_ticks sleep_loop pass timer_on_tick
slept_four = refl
