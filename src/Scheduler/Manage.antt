-- ===== src/Scheduler/Manage.antt =====
-- src/kernel/process/scheduler.c: starting the runtime, spawning and terminating processes, and the
-- queries about them.
use minidos.Common.{
  ℕ, zero, suc, ◌+◌, ◌-◌, ◌%◌, Bool, true, false, not, ◌||◌, Option, some, none, List, [], ◌∷◌, leb,
  ◌==◌, if◌then◌else◌, add32, get_or, set,
}
use minidos.Common.Int.{ℤ, pos, negsuc}
use minidos.Memory.{Memory}
use minidos.Paging.{page_present, unmap_page, activate_directory, set_kernel_stack_top}
use minidos.Process.{
  Process, ProcessState, Text, is_free, ready, running, blocked, unused, max_processes, boot_pid,
  idle_pid, stack_page_size, zero_process, reset_slot, set_slot_name, set_slot_origin,
  mark_terminated,
}
use minidos.Scheduler.{
  Linkage, Sched, slot, put_slot, live_current, prepare_kernel_thread, find_free_slot_from,
  default_quantum, external_pid_min,
}
use minidos.Scheduler.Switch.{terminate_slot}

-- The slot that a spawn sets up, before its stack is built.
unfoldable pub blank_slot : Linkage → Process → ℕ → Text → Option Text → Bool → ℕ → Process
unfolding reset_slot set_slot_origin
blank_slot l p idx name origin exe page_directory =
    let p0 : Process = reset_slot l.kernel_pd p idx (some name) blocked in
    set_slot_origin
      (if page_directory == 0 then p0 else record p0 { page_directory = page_directory }) origin exe

-- It is blocked while its stack is built, then ready.
unfoldable pub fill_slot : Linkage → Sched → ℕ → Text → Option Text → Bool → ℕ → ℕ → ℕ → Sched
unfolding blank_slot prepare_kernel_thread
fill_slot l s idx name origin exe entry arg page_directory =
    let blank : Process = blank_slot l (slot s idx) idx name origin exe page_directory in
    let prepared : Sched = prepare_kernel_thread l (put_slot s idx blank) idx entry arg in
    put_slot prepared idx (record (slot prepared idx) { state = ready })

-- The body runs with interrupts off, so that it is one step.
unfoldable pub spawn_internal :
    Linkage → Sched → Option Text → Option Text → Bool → ℕ → ℕ → ℕ → ℕ → Sched × Option ℕ
unfolding fill_slot
spawn_internal l s name origin exe entry arg page_directory first_pid =
    elim (find_free_slot_from s first_pid) [
      | none ↦ (s, none)
      | some idx ↦ elim name [
        | none ↦ (s, none)
        | some n ↦
            if entry == 0
            then (s, none)
            else (fill_slot l s idx n origin exe entry arg page_directory, some idx)
      ]
    ]

unfoldable pub spawn_kernel_task :
    Linkage → Sched → Option Text → Option Text → Bool → ℕ → ℕ → ℕ → Sched × Option ℕ
unfolding spawn_internal
spawn_kernel_task l s name origin exe entry arg page_directory =
    if s.runtime_ready
    then spawn_internal l s name origin exe entry arg page_directory external_pid_min
    else (s, none)

-- A `pid` is an `int`: a negative one is refused by `pid <= SCHED_IDLE_PID`.
unfoldable pub terminate_process : Linkage → Sched → ℤ → Sched × Bool
unfolding mark_terminated
terminate_process l s (negsuc n) = (s, false)
terminate_process l s (pos pid) =
    if not s.runtime_ready || leb pid idle_pid || leb max_processes pid
    then (s, false)
    else if is_free (slot s pid).state
    then (s, false)
    else (terminate_slot l s pid, true)

-- The loop of `sched_guard_pages_init` from slot `idx` on: every stack's guard page is unmapped.
unfoldable pub guard_pages_from : ℕ → Memory → List Process → ℕ → ℕ → Memory × Bool
guard_pages_from kernel_pd m slots idx zero = (m, true)
guard_pages_from kernel_pd m slots idx (suc n) =
    let guard_addr : ℕ = (get_or slots idx zero_process).guard_page_base in
    let stack_addr : ℕ = (get_or slots idx zero_process).kernel_stack_base in
    let (m', unmapped) = unmap_page kernel_pd m guard_addr in
    let rest = guard_pages_from kernel_pd m' slots (idx + 1) n in
    if guard_addr == 0 || stack_addr == 0
    then (m, false)
    else if not unmapped
    then (m', false)
    else if page_present kernel_pd m' guard_addr
    then (m', false)
    else if not (page_present kernel_pd m' stack_addr)
        || not (page_present kernel_pd m' (add32 stack_addr stack_page_size))
    then (m', false)
    else rest

-- "unused", "kernel" and "idle"
abbrev pub unused_name : Text
unused_name = b'u' ∷ b'n' ∷ b'u' ∷ b's' ∷ b'e' ∷ b'd' ∷ []

abbrev pub kernel_name : Text
kernel_name = b'k' ∷ b'e' ∷ b'r' ∷ b'n' ∷ b'e' ∷ b'l' ∷ []

abbrev pub idle_name : Text
idle_name = b'i' ∷ b'd' ∷ b'l' ∷ b'e' ∷ []

-- The loop that resets every slot to "unused".
unfoldable pub reset_slots : ℕ → List Process → ℕ → List Process
unfolding reset_slot
reset_slots kernel_pd [] idx = []
reset_slots kernel_pd (p ∷ ps) idx =
    reset_slot kernel_pd p idx (some unused_name) unused ∷ reset_slots kernel_pd ps (idx + 1)

-- The table before the guard pages are armed: the boot process runs, the idle process is ready.
unfoldable pub initial_slots : ℕ → List Process → List Process
unfolding reset_slots
initial_slots kernel_pd slots0 =
    let cleared : List Process = reset_slots kernel_pd slots0 0 in
    let booted : List Process = set cleared boot_pid (
      reset_slot kernel_pd (get_or cleared boot_pid zero_process) boot_pid (some kernel_name)
        running) in
    set booted idle_pid
      (reset_slot kernel_pd (get_or booted idle_pid zero_process) idle_pid (some idle_name) ready)

-- `scheduler_runtime_init` below `sched_guard_pages_init`, whose success is the last argument.
unfoldable pub finish_init : Linkage → Sched → Bool → Sched × Bool
unfolding prepare_kernel_thread activate_directory set_kernel_stack_top
finish_init l s false = (s, false)
finish_init l s true =
    let prepared : Sched = prepare_kernel_thread l s idle_pid l.idle_thread 0 in
    let boot : Process = slot prepared boot_pid in
    (
      record prepared {
        current = some boot_pid;
        runtime_ready = true;
        quantum_ticks = default_quantum;
        slice_ticks_left = default_quantum;
        machine =
            set_kernel_stack_top
              (activate_directory l.kernel_pd prepared.machine boot.page_directory)
              boot.kernel_stack_top;
      },
      true,
    )

-- The state in which `sched_guard_pages_init` leaves the table and the memory, and its success.
unfoldable pub guard_init : Linkage → Sched → Sched × Bool
unfolding initial_slots guard_pages_from
guard_init l s =
    let slots : List Process = initial_slots l.kernel_pd s.slots in
    let (m, armed) =
      guard_pages_from l.kernel_pd s.machine.memory slots idle_pid (max_processes - 1) in
    (record s { slots = slots; machine = record (s.machine) { memory = m } }, armed)

unfoldable pub runtime_init : Linkage → Sched → Sched × Bool
unfolding guard_init finish_init
runtime_init l s =
    if s.runtime_ready then (s, true) else finish_init l (guard_init l s).0 (guard_init l s).1

unfoldable pub set_current_name : Sched → Option Text → Sched
unfolding set_slot_name
set_current_name s name = elim (live_current s) [
  | none ↦ s
  | some c ↦ put_slot s c (set_slot_name (slot s c) name)
]

unfoldable pub set_current_origin : Sched → Option Text → Bool → Sched
unfolding set_slot_origin
set_current_origin s origin exe = elim (live_current s) [
  | none ↦ s
  | some c ↦ put_slot s c (set_slot_origin (slot s c) origin exe)
]

unfoldable pub get_current_pid : Sched → Option ℕ
get_current_pid s = live_current s

unfoldable pub get_process_state : Sched → ℤ → ProcessState
get_process_state s (negsuc n) = unused
get_process_state s (pos pid) =
    if not s.runtime_ready || leb max_processes pid then unused else (slot s pid).state

-- `scheduler_describe_guard_fault` from slot `idx` on, with `n` slots left: the pid and the name.
unfoldable pub guard_fault_from : List Process → ℕ → ℕ → ℕ → Option (ℕ × Option Text)
guard_fault_from slots page idx zero = none
guard_fault_from slots page idx (suc n) =
    let rest = guard_fault_from slots page (idx + 1) n in
    let p : Process = get_or slots idx zero_process in
    if p.guard_page_base == page then some (p.pid, p.name) else rest

unfoldable pub describe_guard_fault : Sched → ℕ → Option (ℕ × Option Text)
unfolding guard_fault_from
describe_guard_fault s fault_addr =
    guard_fault_from s.slots (fault_addr - fault_addr % stack_page_size) idle_pid
      (max_processes - idle_pid)

-- `scheduler_enter_current_user_mode` up to the `iret`: `none` is the halt on an invalid handoff.
unfoldable pub enter_user_mode : Sched → ℕ → ℕ → Option Sched
unfolding set_kernel_stack_top
enter_user_mode s entry_virtual user_esp = elim (live_current s) [
  | none ↦ none
  | some c ↦
      if entry_virtual == 0 || user_esp == 0
      then none
      else let entered : Sched = put_slot s c (record (slot s c) { user_esp = user_esp }) in
        some (record entered {
          machine = set_kernel_stack_top entered.machine (slot entered c).kernel_stack_top;
        })
]
