-- ===== src/Scheduler/Spawned.antt =====
-- The slot and the stack that `sched_spawn_kernel_thread_internal` of
-- src/kernel/process/scheduler.c sets up.
use minidos.Common.{
  subst, sym, ℕ, ◌+◌, ◌*◌, ◌≤◌, ◌<◌, ◌≡◌, ◌⊎◌, refl, Bool, if◌then◌else◌, ap, Option, some, List,
  ◌==◌, get_or, set, arith, get_or-set_self, sub32, length, set-set,
}
use minidos.Memory.{Memory}
use minidos.Process.{
  Process, zero_process, ready, blocked, Text, reset_slot, stack_arena_base, stack_region_bytes,
  stack_bytes,
}
use minidos.Process.Slots.{HasStack, set_slot_origin_keeps, reset_slot_lem, reset_slot-HasStack}
use minidos.Process.Fresh.{IsFresh, set_slot_origin-IsFresh, in_space-IsFresh, reset_slot-IsFresh}
use minidos.Scheduler.{Linkage, Sched, slot, prepare_stack, frame_bytes}
use minidos.Scheduler.Frame.{HasFrame, prepare_stack_outside, prepare_stack-HasFrame}
use minidos.Scheduler.Manage.{blank_slot, fill_slot}

-- The slot that a spawn leaves.
unfoldable pub spawned : Linkage → Process → ℕ → Text → Option Text → Bool → ℕ → ℕ → ℕ → Process
unfolding blank_slot
spawned l p idx name origin exe entry arg pd =
    let blank : Process = blank_slot l p idx name origin exe pd in
    record blank {
      state = ready;
      thread_entry = entry;
      thread_arg = arg;
      irq_frame = sub32 blank.kernel_stack_top (4 + frame_bytes);
    }

-- `sched_prepare_kernel_thread` seen from the slot that is set up.
set_twice :
    (ps : List Process) (i : ℕ) (p : Process) (f g : Process → Process)
    → i < length ps
    → (let a = set ps i p in
        let b = set a i (f (get_or a i zero_process)) in set b i (g (get_or b i zero_process)))
      ≡ set ps i (g (f p))
set_twice ps i p f g h = rw (get_or-set_self ps i p zero_process h) (
    rw (set-set ps i p (f p))
      (rw (get_or-set_self ps i (f p) zero_process h) (set-set ps i (f p) (g (f p)))))

module _ (l : Linkage) (s : Sched) (idx : ℕ) (name : Text) (origin : Option Text) (exe : Bool)
    (entry arg pd : ℕ) where
  pub fill_slot-slots :
      idx < length s.slots
      → (fill_slot l s idx name origin exe entry arg pd).slots
        ≡ set s.slots idx (spawned l (slot s idx) idx name origin exe entry arg pd)
  unfolding fill_slot spawned
  fill_slot-slots h =
      set_twice s.slots idx _
        (λ p. record p {
          thread_entry = entry;
          thread_arg = arg;
          irq_frame = sub32 p.kernel_stack_top (4 + frame_bytes);
        })
        (λ p. record p { state = ready }) h

-- What a spawn leaves in its slot, in any state of the table.
pub record IsSpawned (idx : ℕ) (entry arg : ℕ) (p : Process) : Type 0 where
  pub numbered : p.pid ≡ idx
  pub runnable : p.state ≡ ready
  pub target : p.thread_entry ≡ entry
  pub argument : p.thread_arg ≡ arg
  pub stacked : HasStack idx p
  pub framed : p.irq_frame + 72 ≡ p.kernel_stack_top

blank_slot_lem :
    (l : Linkage) (p : Process) (idx : ℕ) (name : Text) (origin : Option Text) (exe : Bool) (pd : ℕ)
    → 1 ≤ idx
    → idx < 8
    → ((blank_slot l p idx name origin exe pd).pid ≡ idx)
      × HasStack idx (blank_slot l p idx name origin exe pd)
unfolding blank_slot
blank_slot_lem l p idx name origin exe pd lo hi = ground (
  arith,
  reset_slot_lem l.kernel_pd p idx (some name) blocked,
  reset_slot-HasStack l.kernel_pd p idx (some name) blocked lo hi,
  set_slot_origin_keeps (reset_slot l.kernel_pd p idx (some name) blocked) origin exe,
  set_slot_origin_keeps
      (record (reset_slot l.kernel_pd p idx (some name) blocked) { page_directory = pd }) origin
      exe,
)

pub spawned-IsFresh :
    (l : Linkage) (p : Process) (idx : ℕ) (name : Text) (origin : Option Text) (exe : Bool)
    (entry arg pd : ℕ)
    → IsFresh (if pd == 0 then l.kernel_pd else pd) (spawned l p idx name origin exe entry arg pd)
unfolding spawned blank_slot
spawned-IsFresh l p idx name origin exe entry arg pd =
    let blank = set_slot_origin-IsFresh _ _ origin exe (
      in_space-IsFresh (pd == 0) l.kernel_pd pd
        (reset_slot-IsFresh l.kernel_pd p idx (some name) blocked)) in
    record {
      space = blank.space;
      not_asleep = blank.not_asleep;
      no_runtime = blank.no_runtime;
      no_switch = blank.no_switch;
      no_user_stack = blank.no_user_stack;
    }

pub spawned-IsSpawned :
    (l : Linkage) (p : Process) (idx : ℕ) (name : Text) (origin : Option Text) (exe : Bool)
    (entry arg pd : ℕ)
    → 1 ≤ idx
    → idx < 8
    → IsSpawned idx entry arg (spawned l p idx name origin exe entry arg pd)
unfolding spawned
spawned-IsSpawned l p idx name origin exe entry arg pd lo hi =
    ground (arith, blank_slot_lem l p idx name origin exe pd lo hi)

-- The bytes of the stack of slot `i`, without its guard page.
abbrev pub OutsideStack : ℕ → ℕ → Type 0
OutsideStack i b =
    (b + stack_bytes < stack_arena_base + i * stack_region_bytes)
    ⊎ (stack_arena_base + i * stack_region_bytes ≤ b)

module _ (l : Linkage) (s : Sched) (idx : ℕ) (name : Text) (origin : Option Text) (exe : Bool)
    (entry arg pd : ℕ) where
  pub fill_slot-memory :
      (b : ℕ)
      → idx < length s.slots
      → 1 ≤ idx
      → idx < 8
      → OutsideStack idx b
      → (fill_slot l s idx name origin exe entry arg pd).machine.memory b ≡ s.machine.memory b
  unfolding fill_slot
  fill_slot-memory b h lo hi out =
      let blank : Process = blank_slot l (slot s idx) idx name origin exe pd in
      rw (get_or-set_self s.slots idx blank zero_process h) (
        prepare_stack_outside l s.machine.memory blank.kernel_stack_base blank.kernel_stack_top b
          (omega (arith, blank_slot_lem l (slot s idx) idx name origin exe pd lo hi))
          (omega (arith, blank_slot_lem l (slot s idx) idx name origin exe pd lo hi))
          (omega (arith, out, blank_slot_lem l (slot s idx) idx name origin exe pd lo hi)))

  fill_slot_stack :
      idx < length s.slots
      → (fill_slot l s idx name origin exe entry arg pd).machine.memory
        ≡ prepare_stack l s.machine.memory
            (spawned l (slot s idx) idx name origin exe entry arg pd).kernel_stack_base
            (spawned l (slot s idx) idx name origin exe entry arg pd).kernel_stack_top
  unfolding fill_slot spawned
  fill_slot_stack h =
      let blank : Process = blank_slot l (slot s idx) idx name origin exe pd in
      ap (λ (p : Process). prepare_stack l s.machine.memory p.kernel_stack_base p.kernel_stack_top)
        (get_or-set_self s.slots idx blank zero_process h)

  pub fill_slot-HasFrame :
      idx < length s.slots
      → 1 ≤ idx
      → idx < 8
      → HasFrame l
          (fill_slot l s idx name origin exe entry arg pd).machine.memory
          (spawned l (slot s idx) idx name origin exe entry arg pd).kernel_stack_base
          (spawned l (slot s idx) idx name origin exe entry arg pd).kernel_stack_top
  fill_slot-HasFrame h lo hi =
      let new : Process = spawned l (slot s idx) idx name origin exe entry arg pd in
      let made = spawned-IsSpawned l (slot s idx) idx name origin exe entry arg pd lo hi in
      subst (λ (m : Memory). HasFrame l m new.kernel_stack_base new.kernel_stack_top)
        (sym (fill_slot_stack h))
        (prepare_stack-HasFrame l s.machine.memory new.kernel_stack_base new.kernel_stack_top
          (omega (arith, made.stacked)) (omega (arith, made.stacked)))

  pub fill_slot_rest :
      let t : Sched = fill_slot l s idx name origin exe entry arg pd in
      t ≡ record s { slots = t.slots; machine = record (s.machine) { memory = t.machine.memory } }
  unfolding fill_slot
  fill_slot_rest = refl
