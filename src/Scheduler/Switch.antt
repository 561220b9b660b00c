-- ===== src/Scheduler/Switch.antt =====
-- src/kernel/process/scheduler.c: the switch between processes, the timer tick, yielding, sleeping
-- and the exit of the current process. A handler returns the new state with the frame to resume
-- (0: go on with the interrupted one).
use minidos.Common.{
  ℕ, ◌-◌, true, false, not, ◌||◌, Option, some, none, ltb, leb, ◌==◌, if◌then◌else◌, add32, sub32,
  set, map,
}
use minidos.Timer.{timer_on_tick, timer_get_ticks}
use minidos.Paging.{Machine, activate_directory, set_kernel_stack_top}
use minidos.Process.{
  Process, is_ready, is_running, is_blocked, ready, running, blocked, idle_pid, mark_terminated,
}
use minidos.Scheduler.{
  Linkage, Sched, slot, put_slot, live_current, find_ready_non_idle, pick_next, default_quantum,
}

unfoldable pub activate_slot : Linkage → Sched → ℕ → Sched × ℕ
unfolding activate_directory set_kernel_stack_top
activate_slot l s next =
    let nxt : Process = record (slot s next) {
      state = running;
      switch_count = add32 (slot s next).switch_count 1;
    } in
    let machine : Machine =
      set_kernel_stack_top (activate_directory l.kernel_pd s.machine nxt.page_directory)
        nxt.kernel_stack_top in
    (
      record s {
        slots = set s.slots next nxt;
        current = some next;
        slice_ticks_left = s.quantum_ticks;
        machine = machine;
      },
      nxt.irq_frame,
    )

-- `if (cur->state == PROCESS_READY) cur->state = PROCESS_RUNNING;`
abbrev pub resume : Process → Process
resume p = if is_ready p.state then record p { state = running } else p

-- `if (cur->state == PROCESS_RUNNING) cur->state = PROCESS_READY;`
abbrev pub preempt : Process → Process
preempt p = if is_running p.state then record p { state = ready } else p

-- What `sched_switch_from_frame` does with the choice of `sched_pick_next`.
unfoldable pub switch_to : Linkage → Sched → ℕ → Option ℕ → Sched × ℕ
switch_to l s cur none = (put_slot s cur (resume (slot s cur)), 0)
switch_to l s cur (some next) =
    if next == cur
    then (put_slot s cur (resume (slot s cur)), 0)
    else activate_slot l (put_slot s cur (preempt (slot s cur))) next

abbrev pub save_frame : Sched → ℕ → ℕ → Sched
save_frame s cur frame = put_slot s cur (record (slot s cur) { irq_frame = frame })

-- `sched_switch_from_frame` below its guard, with `cur` the current index.
unfoldable pub switch_current : Linkage → Sched → ℕ → ℕ → Sched × ℕ
unfolding switch_to
switch_current l s cur frame =
    let saved : Sched = save_frame s cur frame in switch_to l saved cur (pick_next saved)

unfoldable pub switch_from_frame : Linkage → Sched → ℕ → Sched × ℕ
unfolding switch_current
switch_from_frame l s frame = elim s.current [
  | none ↦ (s, 0)
  | some c ↦ if leb 8 c then (s, 0) else switch_current l s c frame
]

-- One round of `sched_wake_sleepers`: a sleeper whose tick has come, by the sign of the wrapped
-- difference, becomes ready.
unfoldable pub wake : ℕ → Process → Process
wake now p =
    if not (is_blocked p.state)
    then p
    else if leb 0x80000000 (sub32 now p.wake_tick)
    then p
    else record p { wake_tick = 0; state = ready }

unfoldable pub wake_sleepers : ℕ → Sched → Sched
unfolding wake
wake_sleepers now s = record s { slots = map (wake now) s.slots }

-- `scheduler_on_timer_tick` from the choice of `forced_next` on.
unfoldable pub tick_dispatch : Linkage → Sched → ℕ → ℕ → Sched × ℕ
tick_dispatch l s cur frame =
    let forced : Option ℕ = if cur == idle_pid then find_ready_non_idle s else none in
    let switched : Sched → Sched × ℕ = λ t. switch_from_frame l t frame in
    if not s.preemption_enabled || s.quantum_ticks == 0
    then elim forced [ none ↦ (s, 0) | some next ↦ switched s ]
    else elim forced [
      | some next ↦ switched (record s { slice_ticks_left = s.quantum_ticks })
      | none ↦
          if ltb 1 s.slice_ticks_left
          then (record s { slice_ticks_left = s.slice_ticks_left - 1 }, 0)
          else switched (record s { slice_ticks_left = s.quantum_ticks })
    ]

-- The accounting of a tick: the current process is charged, and the sleepers are looked at.
unfoldable pub account_tick : Sched → ℕ → Sched
unfolding wake_sleepers timer_get_ticks
account_tick s cur =
    let p : Process = slot s cur in
    wake_sleepers (timer_get_ticks s.timer)
      (put_slot s cur (record p { runtime_ticks = add32 p.runtime_ticks 1 }))

unfoldable pub on_timer_tick : Linkage → Sched → ℕ → Sched × ℕ
unfolding timer_on_tick tick_dispatch account_tick
on_timer_tick l s frame =
    let ticked : Sched = record s { timer = timer_on_tick s.timer } in
    if frame == 0 then (ticked, 0) else elim (live_current ticked) [
      | none ↦ (ticked, 0)
      | some c ↦ tick_dispatch l (account_tick ticked c) c frame
    ]

-- Also what `int $0x81`, and so `scheduler_yield`, does with the frame that the interrupt pushed.
unfoldable pub on_yield : Linkage → Sched → ℕ → Sched × ℕ
on_yield l s frame =
    if frame == 0
    then (s, 0)
    else elim (live_current s) [ none ↦ (s, 0) | some c ↦ switch_from_frame l s frame ]

unfoldable pub yield : Linkage → Sched → ℕ → Sched × ℕ
yield l s frame = if s.runtime_ready then on_yield l s frame else (s, 0)

-- The part of `scheduler_sleep_ticks` before it yields.
unfoldable pub block_current : Sched → ℕ → ℕ → Sched
unfolding timer_get_ticks
block_current s cur ticks =
    put_slot s cur
      (record (slot s cur) { wake_tick = add32 (timer_get_ticks s.timer) ticks; state = blocked })

-- `frame` is the one that the yield's interrupt pushes.
unfoldable pub sleep_ticks : Linkage → Sched → ℕ → ℕ → Sched × ℕ
unfolding block_current
sleep_ticks l s ticks frame = elim (live_current s) [
  | none ↦ (s, 0)
  | some c ↦ if ticks == 0 then yield l s frame else yield l (block_current s c ticks) frame
]

abbrev pub terminate_slot : Linkage → Sched → ℕ → Sched
terminate_slot l s i = put_slot s i (mark_terminated l.kernel_pd (slot s i))

-- `sched_exit_current`, and so `scheduler_exit_current_task` and the end of every thread.
unfoldable pub exit_current : Linkage → Sched → ℕ → Sched × ℕ
unfolding mark_terminated
exit_current l s frame = elim s.current [
  | none ↦ yield l s frame
  | some c ↦ yield l (if ltb c 8 then terminate_slot l s c else s) frame
]

-- What `scheduler_exit_current_from_interrupt` does with the choice of `sched_pick_next`.
unfoldable pub leave_to : Linkage → Sched → Option ℕ → Sched × ℕ
leave_to l s none = (s, 0)
leave_to l s (some next) = activate_slot l s next

unfoldable pub exit_current_from_interrupt : Linkage → Sched → ℕ → Sched × ℕ
unfolding mark_terminated leave_to
exit_current_from_interrupt l s frame = if frame == 0 then (s, 0) else elim (live_current s) [
  | none ↦ (s, 0)
  | some c ↦
      let ended : Sched = terminate_slot l (save_frame s c frame) c in
      leave_to l ended (pick_next ended)
]

unfoldable pub enable_preemption : Sched → ℕ → Sched
enable_preemption s quantum0 =
    let quantum : ℕ = if quantum0 == 0 then default_quantum else quantum0 in
    record s { quantum_ticks = quantum; slice_ticks_left = quantum; preemption_enabled = true }

unfoldable pub disable_preemption : Sched → Sched
disable_preemption s = record s { preemption_enabled = false; slice_ticks_left = s.quantum_ticks }
