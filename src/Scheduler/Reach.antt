-- ===== src/Scheduler/Reach.antt =====
-- The scheduler as a transition system: the interrupts and calls that change the state of
-- src/kernel/process/scheduler.c, in any order. A sleep and an exit are split at their yield, so
-- that a timer tick may come between.
use minidos.Common.{
  ℕ, ◌<◌, ◌≡◌, ◌≢◌, refl, Bool, true, false, not, ◌||◌, Option, some, none, leb, if◌then◌else◌,
  length, subst, sym, ◌∙◌, Bool-cases, inl, inr, arith,
}
use minidos.Common.Int.{ℤ, pos, negsuc}
use minidos.Process.{Text, idle_pid, is_free, max_processes}
use minidos.Process.Slots.{set_slot_name_keeps, set_slot_origin_keeps}
use minidos.Scheduler.{Linkage, Sched, slot, put_slot}
use minidos.Scheduler.Invariant.{IsValidAt, IsValid}
use minidos.Scheduler.Switch.{
  on_timer_tick, on_yield, yield, block_current, terminate_slot, exit_current_from_interrupt,
  enable_preemption, disable_preemption,
}
use minidos.Scheduler.Manage.{
  spawn_kernel_task, terminate_process, runtime_init, set_current_name, set_current_origin,
  enter_user_mode,
}
use minidos.Scheduler.Steps.{
  on_timer_tick-IsValid, on_yield-IsValid, exit_current_from_interrupt-IsValid,
  block_current-IsValidAt, terminate_slot-IsValidAt, put_slot-IsValidAt, same_table,
  live_current_lem,
}
use minidos.Scheduler.Spawn.{SpawnOutcome, spawn_kernel_task_lem}
use minidos.Scheduler.Init.{InitOutcome, runtime_init-InitOutcome}

-- `c` is current, and is not the idle process, which only waits for interrupts.
abbrev pub Acts : Sched → ℕ → Type 0
Acts s c = (s.current ≡ some c) × (c ≢ idle_pid)

pub data Step (l : Linkage) (s : Sched) : Sched → Type 0 where
  tick : (frame : ℕ) → 0 < frame → Step l s (on_timer_tick l s frame).0
  yields : (frame : ℕ) → 0 < frame → Step l s (yield l s frame).0
  blocks : (c ticks : ℕ) → Acts s c → Step l s (block_current s c ticks)
  ends : (c : ℕ) → Acts s c → Step l s (terminate_slot l s c)
  leaves : (c frame : ℕ) → Acts s c → 0 < frame → Step l s (exit_current_from_interrupt l s frame).0
  spawns :
      (name origin : Option Text) (exe : Bool) (entry arg pd : ℕ)
      → Step l s (spawn_kernel_task l s name origin exe entry arg pd).0
  terminates : (pid : ℤ) → Step l s (terminate_process l s pid).0
  renames : (name : Option Text) → Step l s (set_current_name s name)
  reorigins : (origin : Option Text) (exe : Bool) → Step l s (set_current_origin s origin exe)
  enables : (quantum : ℕ) → Step l s (enable_preemption s quantum)
  disables : Step l s (disable_preemption s)
  enters : {t : Sched} (entry esp : ℕ) → enter_user_mode s entry esp ≡ some t → Step l s t

-- The states from a start that succeeds on.
pub data Reach (l : Linkage) : Sched → Type 0 where
  start :
      (s : Sched) {t : Sched}
      → length s.slots ≡ 8
      → s.runtime_ready ≡ false
      → s.current ≡ none
      → runtime_init l s ≡ (t, true)
      → Reach l t
  next : {s t : Sched} → Reach l s → Step l s t → Reach l t

pub outcome-IsValid :
    (l : Linkage) {s : Sched} {c : ℕ} (v : IsValidAt s c) (name origin : Option Text) (exe : Bool)
    (entry arg pd : ℕ) (r : Sched × Option ℕ)
    → SpawnOutcome l v name origin exe entry arg pd r
    → IsValidAt r.0 c
outcome-IsValid l {s} {c} v name origin exe entry arg pd (t, none) o =
    subst (λ x. IsValidAt x c) (sym o.0) v
outcome-IsValid l v name origin exe entry arg pd (t, some idx) o = o.valid

module _ (l : Linkage) {s : Sched} {c : ℕ} (v : IsValidAt s c) where
  yield-IsValid : (frame : ℕ) → 0 < frame → IsValid (yield l s frame).0
  unfolding yield
  yield-IsValid frame fr =
      subst (λ (b : Bool). IsValid (if b then on_yield l s frame else (s, 0)).0) (sym v.started)
        (on_yield-IsValid l frame fr v)

  terminate-IsValid : (pid : ℤ) → IsValidAt (terminate_process l s pid).0 c
  unfolding terminate_process
  terminate-IsValid (negsuc n) = v
  terminate-IsValid (pos pid) =
      elim (Bool-cases (not s.runtime_ready || leb pid idle_pid || leb max_processes pid)) [
        | inl y ↦ rw y v
        | inr y ↦ rw y (elim (Bool-cases (is_free (slot s pid).state)) [
          | inl z ↦ rw z v
          | inr z ↦ rw z (terminate_slot-IsValidAt l pid v (in_range y) (not_idle y))
        ])
      ]
    where
      in_range :
          (not s.runtime_ready || leb pid idle_pid || leb max_processes pid) ≡ false → pid < 8
      in_range y = ground arith

      not_idle :
          (not s.runtime_ready || leb pid idle_pid || leb max_processes pid) ≡ false → pid ≢ 1
      not_idle y = ground arith

  rename-IsValid : (name : Option Text) → IsValidAt (set_current_name s name) c
  unfolding set_current_name
  rename-IsValid name =
      rw (live_current_lem v, set_current_name)
        (put_slot-IsValidAt c _ v v.in_range
          (ground (arith, set_slot_name_keeps (slot s c) name, v.table.each c v.in_range)))

  reorigin-IsValid :
      (origin : Option Text) (exe : Bool) → IsValidAt (set_current_origin s origin exe) c
  unfolding set_current_origin
  reorigin-IsValid origin exe =
      rw (live_current_lem v, set_current_origin)
        (put_slot-IsValidAt c _ v v.in_range
          (ground (arith, set_slot_origin_keeps (slot s c) origin exe, v.table.each c v.in_range)))

  abbrev entered : ℕ → Sched
  entered esp = put_slot s c (record (slot s c) { user_esp = esp })

  enter_lem :
      {t : Sched} (entry esp : ℕ)
      → enter_user_mode s entry esp ≡ some t
      → (t.slots ≡ (entered esp).slots)
        × (t.current ≡ s.current)
        × (t.runtime_ready ≡ s.runtime_ready)
  unfolding enter_user_mode
  enter_lem entry esp e = ground (arith, live_current_lem v, e)

  enter-IsValid : {t : Sched} (entry esp : ℕ) → enter_user_mode s entry esp ≡ some t → IsValidAt t c
  enter-IsValid entry esp e =
      let (slots, cur, up) = enter_lem entry esp e in
      same_table
        (put_slot-IsValidAt c (record (slot s c) { user_esp = esp }) v v.in_range
          (ground (arith, v.table.each c v.in_range)))
        slots cur up

  current_is : {d : ℕ} → Acts s d → d ≡ c
  current_is a = ground (arith, v.now, a.0)

  blocks_here : (d ticks : ℕ) → Acts s d → IsValidAt (block_current s d ticks) c
  blocks_here d ticks a =
      let e : d ≡ c = current_is a in
      subst (λ x. IsValidAt (block_current s x ticks) c) (sym e)
        (block_current-IsValidAt ticks v (λ f. a.1 (e ∙ f)))

-- Every step from a valid state leads to a valid state.
pub Step-IsValid : {l : Linkage} {s t : Sched} → IsValid s → Step l s t → IsValid t
unfolding enable_preemption disable_preemption
Step-IsValid {l} (c, v) (tick frame h) = on_timer_tick-IsValid l frame h v
Step-IsValid {l} (c, v) (yields frame h) = yield-IsValid l v frame h
Step-IsValid {l} (c, v) (blocks d ticks a) = (c, blocks_here l v d ticks a)
Step-IsValid {l} (c, v) (ends d a) =
    (c, terminate_slot-IsValidAt l d v (omega (arith, current_is l v a, v.in_range)) a.1)
Step-IsValid {l} (c, v) (leaves d frame a h) =
    exit_current_from_interrupt-IsValid l frame h v (λ e. a.1 (current_is l v a ∙ e))
Step-IsValid {l} (c, v) (spawns name origin exe entry arg pd) = (
  c,
  outcome-IsValid l v name origin exe entry arg pd _
      (spawn_kernel_task_lem l v name origin exe entry arg pd),
)
Step-IsValid {l} (c, v) (terminates pid) = (c, terminate-IsValid l v pid)
Step-IsValid {l} (c, v) (renames name) = (c, rename-IsValid l v name)
Step-IsValid {l} (c, v) (reorigins origin exe) = (c, reorigin-IsValid l v origin exe)
Step-IsValid {l} (c, v) (enables quantum) = (c, same_table v refl refl refl)
Step-IsValid {l} (c, v) disables = (c, same_table v refl refl refl)
Step-IsValid {l} (c, v) (enters entry esp e) = (c, enter-IsValid l v entry esp e)

-- Whatever interrupts and calls have come since a successful start, in whatever order, the process
-- table is valid: eight slots with their pids and stack regions, a current process, at most that
-- one running, the idle process ready or running, and a saved frame for every other process that
-- is ready or blocked.
pub Reach-IsValid : {l : Linkage} {s : Sched} → Reach l s → IsValid s
Reach-IsValid {l} (start s size down out e) =
    (0, subst InitOutcome e (runtime_init-InitOutcome l s size down out))
Reach-IsValid (next r st) = Step-IsValid (Reach-IsValid r) st
