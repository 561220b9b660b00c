-- ===== src/Timer.antt =====
-- src/kernel/time/timer.c: the programmable interval timer on IRQ0, its tick counter and the
-- conversion from milliseconds. Port writes are returned as a list of (port, byte).
pub mod Laws
pub mod Sleep
mod Tests
use minidos.Common.{
  ℕ, zero, suc, ◌+◌, ◌-◌, ◌*◌, ◌/◌, ◌%◌, ◌^◌, Bool, true, false, List, [], ◌∷◌, ltb, leb, ◌==◌,
  if◌then◌else◌, u32, add32, sub32, not, ◌||◌, ◌&&◌, Option, some, none,
}

-- `g_timer_ticks`, `g_timer_hz` and `g_timer_ready`
pub record Timer : Type 0 where
  pub ticks : ℕ
  pub hz : ℕ
  pub ready : Bool

abbrev pub pit_command_port : ℕ
pit_command_port = 0x43

abbrev pub pit_channel0_port : ℕ
pit_channel0_port = 0x40

abbrev pub pit_base_hz : ℕ
pit_base_hz = 1193182

abbrev pub u32_max : ℕ
u32_max = 0xFFFFFFFF

-- The divisor that `timer_init` programs.
pub init_divisor : ℕ → ℕ
init_divisor hz0 =
    let hz : ℕ = if hz0 == 0 then 100 else hz0 in
    let d0 : ℕ = pit_base_hz / hz in
    let d1 : ℕ = if d0 == 0 then 1 else d0 in if ltb 0xFFFF d1 then 0xFFFF else d1

unfoldable pub timer_init : ℕ → Timer × List (ℕ × ℕ)
unfolding init_divisor
timer_init hz =
    let divisor : ℕ = init_divisor hz in
    let actual : ℕ = pit_base_hz / divisor in
    let actual_hz : ℕ = if actual == 0 then 1 else actual in
    (
      record { ticks = 0; hz = actual_hz; ready = true },
      (pit_command_port, 0x36)
          ∷ (pit_channel0_port, divisor % 256)
          ∷ (pit_channel0_port, divisor / 256 % 256)
          ∷ [],
    )

unfoldable pub timer_on_tick : Timer → Timer
timer_on_tick t = if t.ready then record t { ticks = add32 t.ticks 1 } else t

unfoldable pub timer_get_ticks : Timer → ℕ
timer_get_ticks t = t.ticks

-- The computation of `timer_ms_to_ticks_ceil` below its two early returns.
pub ceil_ticks : ℕ → ℕ → ℕ
ceil_ticks ms hz =
    let seconds : ℕ = ms / 1000 in
    let remainder_ms : ℕ = ms % 1000 in
    if ltb 0 seconds && ltb (u32_max / seconds) hz
    then u32_max
    else let ticks : ℕ = u32 (seconds * hz) in
      let remainder_ticks : ℕ = add32 (u32 (remainder_ms * hz)) 999 / 1000 in
      if ltb (u32_max - remainder_ticks) ticks
      then u32_max
      else let sum : ℕ = add32 ticks remainder_ticks in if sum == 0 then 1 else sum

unfoldable pub timer_ms_to_ticks_ceil : Timer → ℕ → ℕ
unfolding ceil_ticks
timer_ms_to_ticks_ceil t ms =
    if ms == 0 then 0 else if not t.ready || t.hz == 0 then 0 else ceil_ticks ms t.hz

-- The timer interrupts that come between two readings of `g_timer_ticks`, whether before the `hlt`
-- of `timer_wait_for_interrupt`, by ending it, or while other code runs.
unfoldable pub pass : ℕ → Timer → Timer
unfolding timer_on_tick
pass zero t = t
pass (suc k) t = pass k (timer_on_tick t)

-- The loop of `timer_sleep_ticks`, which goes on while `(unsigned)(ticks - start) < n`. The list
-- holds, for each test of the loop that is to come, the number of timer interrupts since the
-- reading before; 0 where only other interrupts have come. `none` means that the list ends before
-- the loop does.
unfoldable pub sleep_loop : List ℕ → Timer → ℕ → ℕ → Option (Timer × List ℕ)
unfolding pass
sleep_loop [] t start n = none
sleep_loop (k ∷ ks) t start n =
    let t1 : Timer = pass k t in
    let rest = sleep_loop ks t1 start n in
    if ltb (sub32 t1.ticks start) n then rest else some (t1, ks)

-- `interrupts_on` is the IF flag of the caller.
unfoldable pub timer_sleep_ticks : Bool → List ℕ → Timer → ℕ → Option (Timer × List ℕ)
timer_sleep_ticks interrupts_on ks t n =
    if n == 0 || not t.ready || not interrupts_on then some (t, ks) else sleep_loop ks t t.ticks n

unfoldable pub timer_sleep_ms : Bool → List ℕ → Timer → ℕ → Option (Timer × List ℕ)
timer_sleep_ms interrupts_on ks t ms =
    timer_sleep_ticks interrupts_on ks t (timer_ms_to_ticks_ceil t ms)
