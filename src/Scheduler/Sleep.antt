-- ===== src/Scheduler/Sleep.antt =====
-- Sleeping in src/kernel/process/scheduler.c: the 32-bit tick counter wraps, and a sleeper is woken
-- by the sign of the wrapped difference to its wake tick.
use minidos.Common.{
  ℕ, ◌+◌, ◌^◌, ◌<◌, ◌≡◌, ◌∙◌, ap, length, length-set, get_or-map, get_or-set_self, add32, arith,
}
use minidos.Timer.{timer_get_ticks}
use minidos.Process.{Process, blocked, ready, zero_process}
use minidos.Scheduler.{Sched, slot}
use minidos.Scheduler.Invariant.{IsValidAt}
use minidos.Scheduler.Switch.{wake, wake_sleepers, block_current}

wake_far :
    (p : Process) (start ticks elapsed : ℕ)
    → p.state ≡ blocked
    → p.wake_tick ≡ add32 start ticks
    → start < 2 ^ 32
    → ticks < 2 ^ 32
    → elapsed + 2 ^ 31 < ticks
    → (wake (add32 start elapsed) p).state ≡ ready
unfolding wake
wake_far p start ticks elapsed b w hs ht he = ground arith

slot-wake_sleepers :
    (s : Sched) (now i : ℕ)
    → length s.slots ≡ 8
    → i < 8
    → slot (wake_sleepers now s) i ≡ wake now (slot s i)
unfolding wake_sleepers
slot-wake_sleepers s now i size h =
    get_or-map (wake now) s.slots i zero_process zero_process (omega (arith, size))

module _ {s : Sched} {c : ℕ} (v : IsValidAt s c) (ticks elapsed : ℕ) where
  blocked_slot :
      slot (block_current s c ticks) c
      ≡ record (slot s c) { wake_tick = add32 s.timer.ticks ticks; state = blocked }
  unfolding block_current timer_get_ticks
  blocked_slot = get_or-set_self s.slots c _ zero_process (omega (arith, v.table.size, v.in_range))

  blocked_size : length (block_current s c ticks).slots ≡ 8
  unfolding block_current
  blocked_size = length-set s.slots c _ ∙ v.table.size

  woken :
      slot (wake_sleepers (add32 s.timer.ticks elapsed) (block_current s c ticks)) c
      ≡ wake (add32 s.timer.ticks elapsed) (slot (block_current s c ticks) c)
  woken = slot-wake_sleepers (block_current s c ticks) _ c blocked_size v.in_range

  slept_blocked : (slot (block_current s c ticks) c).state ≡ blocked
  slept_blocked = ap (λ (p : Process). p.state) blocked_slot

  slept_until : (slot (block_current s c ticks) c).wake_tick ≡ add32 s.timer.ticks ticks
  slept_until = ap (λ (p : Process). p.wake_tick) blocked_slot

  -- A sleep of more than 2 ^ 31 ticks does not last: the first look at the sleepers wakes the
  -- process, as long as more than 2 ^ 31 ticks of the sleep are left.
  pub sleep_too_long :
      s.timer.ticks < 2 ^ 32
      → ticks < 2 ^ 32
      → elapsed + 2 ^ 31 < ticks
      → (slot (wake_sleepers (add32 s.timer.ticks elapsed) (block_current s c ticks)) c).state
        ≡ ready
  sleep_too_long hs ht he =
      ap (λ (p : Process). p.state) woken
      ∙ wake_far _ s.timer.ticks ticks elapsed slept_blocked slept_until hs ht he
