-- ===== src/Process.antt =====
-- src/kernel/process/process.h and the process slots of src/kernel/process/scheduler.c: the
-- control block, its names, its reset and its termination. `pcb.name` and `pcb.origin_name` only
-- ever point to the slot's own storage, so they are the text that stands there (`none` for NULL).
pub mod Slots
pub mod Fresh
use minidos.Common.{
  ℕ, zero, suc, ◌+◌, ◌-◌, ◌*◌, Bool, true, false, Option, some, none, List, [], ◌∷◌, ltb, ◌==◌,
  if◌then◌else◌, u32, add32, sub32,
}

-- A C string: its bytes before the terminating NUL.
abbrev pub Text : Type 0
Text = List ℕ

pub data ProcessState : Type 0 where
  unused ready running blocked terminated : ProcessState

abbrev pub is_ready : ProcessState → Bool
is_ready ready = true
is_ready _ = false

abbrev pub is_running : ProcessState → Bool
is_running running = true
is_running _ = false

abbrev pub is_blocked : ProcessState → Bool
is_blocked blocked = true
is_blocked _ = false

-- A slot that `sched_find_free_slot_from` takes.
abbrev pub is_free : ProcessState → Bool
is_free unused = true
is_free terminated = true
is_free _ = false

-- `process_t` with its `process_context_t`; an address is a number, 0 for NULL.
pub record Process : Type 0 where
  pub pid : ℕ
  pub name : Option Text
  pub origin_name : Option Text
  pub origin_is_executable : Bool
  pub state : ProcessState
  pub irq_frame : ℕ
  pub user_esp : ℕ
  pub kernel_stack_base : ℕ
  pub kernel_stack_top : ℕ
  pub user_stack_base : ℕ
  pub user_stack_top : ℕ
  pub guard_page_base : ℕ
  pub page_directory : ℕ
  pub wake_tick : ℕ
  pub runtime_ticks : ℕ
  pub switch_count : ℕ
  pub thread_entry : ℕ
  pub thread_arg : ℕ

-- A slot of the zero-initialised table.
abbrev pub zero_process : Process
zero_process = record {
  pid = 0;
  name = none;
  origin_name = none;
  origin_is_executable = false;
  state = unused;
  irq_frame = 0;
  user_esp = 0;
  kernel_stack_base = 0;
  kernel_stack_top = 0;
  user_stack_base = 0;
  user_stack_top = 0;
  guard_page_base = 0;
  page_directory = 0;
  wake_tick = 0;
  runtime_ticks = 0;
  switch_count = 0;
  thread_entry = 0;
  thread_arg = 0;
}

abbrev pub max_processes : ℕ
max_processes = 8

abbrev pub boot_pid : ℕ
boot_pid = 0

abbrev pub idle_pid : ℕ
idle_pid = 1

abbrev pub stack_page_size : ℕ
stack_page_size = 4096

abbrev pub stack_bytes : ℕ
stack_bytes = stack_page_size * 16

abbrev pub guard_bytes : ℕ
guard_bytes = stack_page_size

abbrev pub stack_region_bytes : ℕ
stack_region_bytes = guard_bytes + stack_bytes

abbrev pub stack_arena_base : ℕ
stack_arena_base = 0x00600000

-- The text that `sched_copy_text` leaves in a buffer of `size` > 0 bytes: it copies while a byte
-- and the NUL after it fit.
unfoldable pub copy_text : Text → ℕ → Text
copy_text [] size = []
copy_text (c ∷ src) zero = []
copy_text (c ∷ src) (suc zero) = []
copy_text (c ∷ src) (suc (suc n)) = c ∷ copy_text src (suc n)

-- "unknown"
abbrev pub unknown_name : Text
unknown_name = b'u' ∷ b'n' ∷ b'k' ∷ b'n' ∷ b'o' ∷ b'w' ∷ b'n' ∷ []

unfoldable pub set_slot_name : Process → Option Text → Process
unfolding copy_text
set_slot_name p none = record p { name = some (copy_text unknown_name 24) }
set_slot_name p (some []) = record p { name = some (copy_text unknown_name 24) }
set_slot_name p (some (c ∷ cs)) = record p { name = some (copy_text (c ∷ cs) 24) }

unfoldable pub set_slot_origin : Process → Option Text → Bool → Process
unfolding copy_text
set_slot_origin p none exe = record p { origin_name = none; origin_is_executable = false }
set_slot_origin p (some []) exe = record p { origin_name = none; origin_is_executable = false }
set_slot_origin p (some (c ∷ cs)) exe = record p {
  origin_name = some (copy_text (c ∷ cs) 24);
  origin_is_executable = exe;
}

unfoldable pub slot_guard_base : ℕ → ℕ
slot_guard_base idx = u32 (stack_arena_base + sub32 idx 1 * stack_region_bytes)

-- The stack fields that `sched_reset_slot` sets last.
unfoldable pub set_slot_stack : Process → ℕ → Process
unfolding slot_guard_base
set_slot_stack p idx =
    if idx == boot_pid
    then record p { kernel_stack_base = 0; kernel_stack_top = 0; guard_page_base = 0 }
    else record p {
      guard_page_base = slot_guard_base idx;
      kernel_stack_base = add32 (slot_guard_base idx) guard_bytes;
      kernel_stack_top = add32 (slot_guard_base idx) stack_region_bytes;
    }

-- The scalar fields that `sched_reset_slot` sets first.
unfoldable pub clear_slot : ℕ → Process → ℕ → ProcessState → Process
clear_slot kernel_pd p idx st = record p {
  pid = idx;
  state = st;
  irq_frame = 0;
  user_esp = 0;
  user_stack_base = 0;
  user_stack_top = 0;
  page_directory = kernel_pd;
  wake_tick = 0;
  runtime_ticks = 0;
  switch_count = 0;
  thread_entry = 0;
  thread_arg = 0;
}

-- `kernel_pd` is `paging_get_kernel_directory()`.
unfoldable pub reset_slot : ℕ → Process → ℕ → Option Text → ProcessState → Process
unfolding clear_slot set_slot_name set_slot_origin set_slot_stack
reset_slot kernel_pd p idx name st =
    set_slot_stack (set_slot_origin (set_slot_name (clear_slot kernel_pd p idx st) name) none false)
      idx

unfoldable pub mark_terminated : ℕ → Process → Process
mark_terminated kernel_pd p = record p {
  state = terminated;
  wake_tick = 0;
  thread_entry = 0;
  thread_arg = 0;
  user_esp = 0;
  page_directory = kernel_pd;
}
