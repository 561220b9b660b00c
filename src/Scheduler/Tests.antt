-- ===== src/Scheduler/Tests.antt =====
-- Runs of the scheduler from a start on: the theorems at concrete states, and tests.
use minidos.Common.{
  List, ℕ, ◌^◌, ◌≤◌, ◌<◌, ◌≡◌, ◌⊎◌, refl, true, false, some, none, [], ◌∷◌, replicate, arith, ap,
  subst, add32,
}
use minidos.Memory.{write}
use minidos.Paging.{unmap_page, page_present}
use minidos.Process.{reset_slot, zero_process, running, ready, blocked, terminated, Text}
use minidos.Scheduler.{Linkage, Sched, slot, pick_next, find_free_slot_from, find_ready_non_idle}
use minidos.Scheduler.Invariant.{IsValidAt, IsValid}
use minidos.Scheduler.Pick.{Picks, pick_next_lem}
use minidos.Scheduler.Switch.{
  switch_from_frame, on_timer_tick, wake_sleepers, block_current, exit_current_from_interrupt,
}
use minidos.Scheduler.Manage.{runtime_init, spawn_kernel_task}
use minidos.Scheduler.Init.{InitOutcome, runtime_init-InitOutcome}
use minidos.Scheduler.Spawn.{SpawnOutcome, spawn_kernel_task_lem}
use minidos.Scheduler.Reach.{Reach, start, next, tick, Reach-IsValid, outcome-IsValid}
use minidos.Scheduler.Resume.{Switched, Resumes, switch_from_frame-Switched}
use minidos.Scheduler.Exit.{exit_current_from_interrupt-Resumes}
use minidos.Scheduler.Sleep.{sleep_too_long}
use minidos.Scheduler.Guard.{IsRegion, reset_slot-apart}
use minidos.Scheduler.Progress.{Waits, Turn, switches-Turn}

abbrev linkage : Linkage
linkage = record {
  kernel_pd = 0x10_0000;
  thread_exit_trampoline = 0x11000;
  thread_bootstrap = 0x12000;
  idle_thread = 0x13000;
}

-- Every table entry is present.
abbrev cold : Sched
cold = record {
  slots = replicate 8 zero_process;
  current = none;
  runtime_ready = false;
  preemption_enabled = false;
  quantum_ticks = 0;
  slice_ticks_left = 0;
  timer = record { ticks = 7; hz = 100; ready = true };
  machine = record { memory = λ a. 3; cr3 = 0; esp0 = 0 };
}

booted : Sched
booted = (runtime_init linkage cold).0

armed : (runtime_init linkage cold).1 ≡ true
unfolding runtime_init unmap_page page_present write
armed = refl

booted_lem : runtime_init linkage cold ≡ (booted, true)
unfolding booted
booted_lem = ap (λ b. ((runtime_init linkage cold).0, b)) armed

runtime_init-InitOutcome_example : InitOutcome (runtime_init linkage cold)
runtime_init-InitOutcome_example = runtime_init-InitOutcome linkage cold refl refl refl

booted-IsValidAt : IsValidAt booted 0
booted-IsValidAt = subst InitOutcome booted_lem runtime_init-InitOutcome_example

-- "a"
abbrev name_a : Text
name_a = b'a' ∷ []

-- One task has been spawned from the boot process.
spawned : Sched
spawned = (spawn_kernel_task linkage booted (some name_a) none false 0x4000 0 0).0

spawn_kernel_task_lem_example :
    SpawnOutcome linkage booted-IsValidAt
      (some name_a)
      none
      false
      0x4000
      0
      0
      (spawn_kernel_task linkage booted (some name_a) none false 0x4000 0 0)
spawn_kernel_task_lem_example =
    spawn_kernel_task_lem linkage booted-IsValidAt (some name_a) none false 0x4000 0 0

spawned_pid : (spawn_kernel_task linkage booted (some name_a) none false 0x4000 0 0).1 ≡ some 3
unfolding booted runtime_init unmap_page page_present write spawn_kernel_task find_free_slot_from
spawned_pid = refl

spawned-IsValidAt : IsValidAt spawned 0
unfolding spawned
spawned-IsValidAt =
    outcome-IsValid linkage booted-IsValidAt (some name_a) none false 0x4000 0 0 _
      spawn_kernel_task_lem_example

spawned_ready : (slot spawned 3).state ≡ ready
unfolding spawned booted runtime_init unmap_page page_present write spawn_kernel_task
    find_free_slot_from
spawned_ready = refl

spawned_next : pick_next spawned ≡ some 3
unfolding spawned booted runtime_init unmap_page page_present write spawn_kernel_task
    find_free_slot_from pick_next find_ready_non_idle
spawned_next = refl

pick_next_lem_example : (n : ℕ) × (pick_next spawned ≡ some n) × Picks spawned.slots 0 n
pick_next_lem_example = pick_next_lem spawned-IsValidAt

booted-Reach : Reach linkage booted
booted-Reach = start cold refl refl refl booted_lem

ticked-Reach : Reach linkage (on_timer_tick linkage booted 0x9000).0
ticked-Reach = next booted-Reach (tick 0x9000 (omega arith))

Reach-IsValid_example : IsValid (on_timer_tick linkage booted 0x9000).0
Reach-IsValid_example = Reach-IsValid ticked-Reach

booted_running : (slot booted 0).state ≡ running
unfolding booted runtime_init unmap_page page_present write
booted_running = refl

switch_from_frame-Switched_example :
    Switched linkage spawned 0 0x9000 (switch_from_frame linkage spawned 0x9000)
switch_from_frame-Switched_example = switch_from_frame-Switched linkage spawned-IsValidAt 0x9000

exit_current_from_interrupt-Resumes_example :
    let (t, r) = exit_current_from_interrupt linkage spawned 0x9000 in
    (n : ℕ) × Resumes linkage spawned 0 0x9000 n t r × ((slot t 0).state ≡ terminated)
exit_current_from_interrupt-Resumes_example =
    exit_current_from_interrupt-Resumes linkage 0x9000 spawned-IsValidAt (omega arith) (omega arith)

booted_ticks : booted.timer.ticks < 2 ^ 32
unfolding booted runtime_init unmap_page page_present write
booted_ticks = omega arith

sleep_too_long_example :
    (slot (wake_sleepers (add32 booted.timer.ticks 1) (block_current booted 0 0x9000_0000)) 0).state
    ≡ ready
sleep_too_long_example =
    sleep_too_long booted-IsValidAt 0x9000_0000 1 booted_ticks (omega arith) (omega arith)

guard_page : (slot booted 3).guard_page_base ≡ 0x622000
unfolding booted runtime_init unmap_page page_present write
guard_page = refl

reset_slot-apart_example :
    let one = reset_slot 0x10_0000 zero_process 3 none ready in
    let two = reset_slot 0x10_0000 zero_process 4 none blocked in
    IsRegion one
    × IsRegion two
    × ((one.kernel_stack_top ≤ two.guard_page_base) ⊎ (two.kernel_stack_top ≤ one.guard_page_base))
reset_slot-apart_example =
    reset_slot-apart 0x10_0000 zero_process zero_process 3 4 none none ready blocked (omega arith)
      (omega arith) (omega arith) (omega arith) (omega arith)

third-Waits : Waits spawned 0 3
third-Waits = record {
  in_range = omega arith;
  not_current = omega arith;
  not_idle = omega arith;
  is_ready = spawned_ready;
}

abbrev frames : List ℕ
frames = replicate 7 0x9000

switches-Turn_example : Turn linkage frames spawned 3 7
switches-Turn_example =
    switches-Turn linkage frames 3 spawned-IsValidAt third-Waits (omega arith) (omega arith)
