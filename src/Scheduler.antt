-- ===== src/Scheduler.antt =====
-- src/kernel/process/scheduler.c: the process table, the choice of the next process, the timer
-- tick, sleeping, spawning and termination. An `int` that is -1 or an index is an option; a frame
-- or function pointer is its address, 0 for NULL. An interrupt handler returns the frame to resume.
pub mod Switch
pub mod Invariant
pub mod Pick
pub mod Steps
pub mod Frame
pub mod Free
pub mod Spawned
pub mod Spawn
pub mod Init
pub mod Reach
pub mod Resume
pub mod Progress
pub mod Exit
pub mod Sleep
pub mod Guard
mod Tests
pub mod Manage
use minidos.Common.{
  ℕ, zero, suc, ◌+◌, ◌-◌, ◌*◌, ◌/◌, ◌%◌, ◌^◌, Bool, true, false, not, ◌&&◌, ◌||◌, Option, some,
  none, List, [], ◌∷◌, ltb, leb, ◌==◌, if◌then◌else◌, u32, add32, sub32, get_or, set, map, length,
  replicate,
}
use minidos.Timer.{Timer, timer_on_tick, timer_get_ticks}
use minidos.Memory.{Memory, write, write_words, zero_words}
use minidos.Paging.{Machine, activate_directory, set_kernel_stack_top}
use minidos.Process.{
  Process, ProcessState, is_ready, is_running, is_blocked, is_free, ready, running, blocked, Text,
  max_processes, boot_pid, idle_pid, stack_bytes, zero_process, reset_slot, set_slot_name,
  set_slot_origin, mark_terminated,
}

-- The addresses that the linker gives: `page_directory`, `sched_thread_exit_trampoline`,
-- `sched_thread_bootstrap` and `sched_idle_thread`.
pub record Linkage : Type 0 where
  pub kernel_pd : ℕ
  pub thread_exit_trampoline : ℕ
  pub thread_bootstrap : ℕ
  pub idle_thread : ℕ

-- The file's static variables, with the timer and the machine registers that it drives.
pub record Sched : Type 0 where
  pub slots : List Process
  pub current : Option ℕ
  pub runtime_ready : Bool
  pub preemption_enabled : Bool
  pub quantum_ticks : ℕ
  pub slice_ticks_left : ℕ
  pub timer : Timer
  pub machine : Machine

abbrev pub default_quantum : ℕ
default_quantum = 5

abbrev pub external_pid_min : ℕ
external_pid_min = 3

abbrev pub slot : Sched → ℕ → Process
slot s i = get_or s.slots i zero_process

abbrev pub put_slot : Sched → ℕ → Process → Sched
put_slot s i p = record s { slots = set s.slots i p }

-- `!frame || !g_runtime_ready || g_current < 0 || g_current >= SCHEDULER_MAX_PROCESSES` is the
-- guard of most operations: the current index where it passes.
abbrev pub live_current : Sched → Option ℕ
live_current s = elim s.current [
  | none ↦ none
  | some c ↦ if s.runtime_ready && ltb c max_processes then some c else none
]

-- The words of an `irq_frame_t` from `gs` to `eflags`.
abbrev pub thread_frame : Linkage → List ℕ
thread_frame l =
    0x10 ∷ 0x10 ∷ 0x10 ∷ 0x10 ∷ 0 ∷ 0 ∷ 0 ∷ 0 ∷ 0 ∷ 0 ∷ 0 ∷ 0 ∷ 0 ∷ 0 ∷ l.thread_bootstrap ∷ 0x08
    ∷ 0x202 ∷ []

-- sizeof(irq_frame_t)
abbrev pub frame_bytes : ℕ
frame_bytes = 68

-- The stack that `sched_prepare_kernel_thread` builds: zeros, the return address, the frame.
unfoldable pub prepare_stack : Linkage → Memory → ℕ → ℕ → Memory
prepare_stack l m base top =
    let cleared : Memory = zero_words m base (stack_bytes / 4) in
    let returning : Memory = write cleared (sub32 top 4) l.thread_exit_trampoline in
    write_words returning (sub32 top (4 + frame_bytes)) (thread_frame l)

unfoldable pub prepare_kernel_thread : Linkage → Sched → ℕ → ℕ → ℕ → Sched
unfolding prepare_stack
prepare_kernel_thread l s idx entry arg =
    let p : Process = slot s idx in
    let top : ℕ = p.kernel_stack_top in
    let machine : Machine = record (s.machine) {
      memory = prepare_stack l s.machine.memory p.kernel_stack_base top;
    } in
    record s {
      slots = set s.slots idx (record p {
        thread_entry = entry;
        thread_arg = arg;
        irq_frame = sub32 top (4 + frame_bytes);
      });
      machine = machine;
    }

-- The loop of `sched_find_free_slot_from`, with `n` indices left.
unfoldable pub find_free_from : List Process → ℕ → ℕ → Option ℕ
find_free_from slots idx zero = none
find_free_from slots idx (suc n) =
    let rest = find_free_from slots (idx + 1) n in
    if is_free (get_or slots idx zero_process).state then some idx else rest

unfoldable pub find_free_slot_from : Sched → ℕ → Option ℕ
unfolding find_free_from
find_free_slot_from s first_pid =
    let first : ℕ = if ltb first_pid (idle_pid + 1) then idle_pid + 1 else first_pid in
    find_free_from s.slots first (max_processes - first)

-- The loop of `sched_find_ready_non_idle` from `step` on, with `n` steps left.
unfoldable pub find_ready_from : List Process → ℕ → ℕ → ℕ → Option ℕ
find_ready_from slots current step zero = none
find_ready_from slots current step (suc n) =
    let rest = find_ready_from slots current (step + 1) n in
    let idx : ℕ = (current + step) % max_processes in
    if idx == idle_pid
    then rest
    else if is_ready (get_or slots idx zero_process).state
    then some idx
    else rest

unfoldable pub find_ready_non_idle : Sched → Option ℕ
unfolding find_ready_from
find_ready_non_idle s = elim s.current [
  | none ↦ none
  | some c ↦ find_ready_from s.slots c 1 (max_processes - 1)
]

-- The last resort of `sched_pick_next`.
unfoldable pub pick_idle : List Process → Option ℕ
pick_idle slots =
    let st : ProcessState = (get_or slots idle_pid zero_process).state in
    if is_ready st || is_running st then some idle_pid else none

unfoldable pub pick_next : Sched → Option ℕ
unfolding pick_idle
pick_next s = elim (find_ready_non_idle s) [
  | some next ↦ some next
  | none ↦ elim s.current [
    | none ↦ pick_idle s.slots
    | some c ↦ if is_running (slot s c).state then some c else pick_idle s.slots
  ]
]
