-- ===== src/Scheduler/Init.antt =====
-- `scheduler_runtime_init` of src/kernel/process/scheduler.c establishes the invariant.
use minidos.Common.{
  ℕ, zero, suc, ◌+◌, ◌≤◌, ◌<◌, ◌≡◌, ◌≢◌, ◌⊎◌, refl, Bool, true, false, some, none, List, [], ◌∷◌,
  get_or, set, length, length-set, get_or-set_self, get_or-set_ne, ℕ_discrete, arith, ap, sym,
  subst, ◌∙◌,
}
use minidos.Process.{Process, ready, is_running, running, unused, zero_process, reset_slot}
use minidos.Scheduler.{Linkage, Sched, slot, prepare_kernel_thread}
use minidos.Scheduler.Invariant.{IsValidAt, SlotsOk, is_waiting}
use minidos.Process.Slots.{HasStack, reset_slot_lem, reset_slot-HasStack}
use minidos.Scheduler.Manage.{
  reset_slots, initial_slots, guard_init, finish_init, runtime_init, unused_name, kernel_name,
  idle_name,
}

get_or-reset_slots :
    (kpd : ℕ) (ps : List Process) (k i : ℕ)
    → i < length ps
    → get_or (reset_slots kpd ps k) i zero_process
      ≡ reset_slot kpd (get_or ps i zero_process) (k + i) (some unused_name) unused
unfolding reset_slots
get_or-reset_slots kpd [] k i h = absurd (omega arith)
get_or-reset_slots kpd (p ∷ ps) k zero h =
    ap (λ n. reset_slot kpd p n (some unused_name) unused) (omega arith)
get_or-reset_slots kpd (p ∷ ps) k (suc i) h =
    get_or-reset_slots kpd ps (k + 1) i (omega arith)
    ∙ ap (λ n. reset_slot kpd (get_or ps i zero_process) n (some unused_name) unused) (omega arith)

length-reset_slots :
    (kpd : ℕ) (ps : List Process) (k : ℕ) → length (reset_slots kpd ps k) ≡ length ps
unfolding reset_slots
length-reset_slots kpd [] k = refl
length-reset_slots kpd (p ∷ ps) k = ap suc (length-reset_slots kpd ps (k + 1))

-- What holds of slot `i` once the table has been set up, but for the frame of the idle process.
record IsFresh (i : ℕ) (p : Process) : Type 0 where
  numbered : p.pid ≡ i
  sole : (is_running p.state ≡ false) ⊎ (i ≡ 0)
  waiting : (is_waiting p.state ≡ false) ⊎ (i ≡ 1)
  idle_ready : (i ≢ 1) ⊎ (p.state ≡ ready)
  stacked : (i ≡ 0) ⊎ HasStack i p

module _ (kpd : ℕ) where
  boot-IsFresh : (p : Process) → IsFresh 0 (reset_slot kpd p 0 (some kernel_name) running)
  boot-IsFresh p = ground (arith, reset_slot_lem kpd p 0 (some kernel_name) running)

  idle-IsFresh : (p : Process) → IsFresh 1 (reset_slot kpd p 1 (some idle_name) ready)
  idle-IsFresh p = ground (
    arith,
    reset_slot_lem kpd p 1 (some idle_name) ready,
    reset_slot-HasStack kpd p 1 (some idle_name) ready,
  )

  unused-IsFresh :
      (p : Process) (i : ℕ)
      → 2 ≤ i
      → i < 8
      → IsFresh i (reset_slot kpd p i (some unused_name) unused)
  unused-IsFresh p i lo hi = ground (
    arith,
    reset_slot_lem kpd p i (some unused_name) unused,
    reset_slot-HasStack kpd p i (some unused_name) unused,
  )

  get_or-cleared :
      (ps : List Process) (i : ℕ)
      → i < length ps
      → get_or (reset_slots kpd ps 0) i zero_process
        ≡ reset_slot kpd (get_or ps i zero_process) i (some unused_name) unused
  get_or-cleared ps i h =
      get_or-reset_slots kpd ps 0 i h
      ∙ ap (λ n. reset_slot kpd (get_or ps i zero_process) n (some unused_name) unused)
          (omega arith)

  -- The table that `initial_slots` leaves.
  initial_slots-IsFresh :
      (ps : List Process) (i : ℕ)
      → length ps ≡ 8
      → i < 8
      → IsFresh i (get_or (initial_slots kpd ps) i zero_process)
  unfolding initial_slots
  initial_slots-IsFresh ps i size h = elim (ℕ_discrete 1 i) [
    | yes e ↦
        rw (← e, get_or-set_self booted 1 _ zero_process booted_size)
          (idle-IsFresh (get_or booted 1 zero_process))
    | no ne ↦ rw (get_or-set_ne booted 1 i _ zero_process ne) (elim (ℕ_discrete 0 i) [
      | yes e ↦
          rw (← e, get_or-set_self cleared 0 _ zero_process cleared_size)
            (boot-IsFresh (get_or cleared 0 zero_process))
      | no nz ↦
          rw
            (get_or-set_ne cleared 0 i _ zero_process nz, get_or-cleared ps i (omega (arith, size)))
            (unused-IsFresh (get_or ps i zero_process) i (omega arith) h)
    ])
  ]
    where
      cleared : List Process
      cleared = reset_slots kpd ps 0

      booted : List Process
      booted =
          set cleared 0
            (reset_slot kpd (get_or cleared 0 zero_process) 0 (some kernel_name) running)

      cleared_size : 0 < length cleared
      cleared_size = omega (arith, size, length-reset_slots kpd ps 0)

      booted_size : 1 < length booted
      booted_size = omega (
        arith,
        size,
        length-reset_slots kpd ps 0,
        length-set cleared 0
            (reset_slot kpd (get_or cleared 0 zero_process) 0 (some kernel_name) running),
      )

  length-initial_slots : (ps : List Process) → length (initial_slots kpd ps) ≡ length ps
  unfolding initial_slots
  length-initial_slots ps = length-set _ 1 _ ∙ length-set _ 0 _ ∙ length-reset_slots kpd ps 0

-- The idle process gets its frame, and the boot process is current.
started-SlotsOk :
    (l : Linkage) (s : Sched)
    → length s.slots ≡ 8
    → ((i : ℕ) → i < 8 → IsFresh i (slot s i))
    → SlotsOk 0 (prepare_kernel_thread l s 1 l.idle_thread 0).slots
unfolding prepare_kernel_thread
started-SlotsOk l s size fresh = record {
  size = length-set s.slots 1 _ ∙ size;
  each = λ i h. elim (ℕ_discrete 1 i) [
    | yes e ↦
        rw (← e, get_or-set_self s.slots 1 _ zero_process (omega (arith, size)))
          (ground (arith, fresh 1))
    | no ne ↦ rw (get_or-set_ne s.slots 1 i _ zero_process ne) (ground (arith, fresh i h))
  ];
}

-- What `scheduler_runtime_init` does, by its result.
abbrev pub InitOutcome : Sched × Bool → Type 0
InitOutcome (t, true) = IsValidAt t 0
InitOutcome (t, false) = (t.runtime_ready ≡ false) × (t.current ≡ none)

finish_init-InitOutcome :
    (l : Linkage) (s : Sched) (armed : Bool)
    → length s.slots ≡ 8
    → ((i : ℕ) → i < 8 → IsFresh i (slot s i))
    → s.runtime_ready ≡ false
    → s.current ≡ none
    → InitOutcome (finish_init l s armed)
unfolding finish_init
finish_init-InitOutcome l s false size fresh down out = (down, out)
finish_init-InitOutcome l s true size fresh down out = record {
  started = refl;
  now = refl;
  in_range = omega arith;
  table = started-SlotsOk l s size fresh;
}

runtime_init_down :
    (l : Linkage) (s : Sched)
    → s.runtime_ready ≡ false
    → runtime_init l s ≡ finish_init l (guard_init l s).0 (guard_init l s).1
unfolding runtime_init
runtime_init_down l s down = rw (down, runtime_init)

-- On the table of eight slots, before the runtime is up, a start that succeeds leaves a valid state
-- where the boot process is current; one that fails leaves the runtime down and no process current.
pub runtime_init-InitOutcome :
    (l : Linkage) (s : Sched)
    → length s.slots ≡ 8
    → s.runtime_ready ≡ false
    → s.current ≡ none
    → InitOutcome (runtime_init l s)
unfolding guard_init
runtime_init-InitOutcome l s size down out = subst InitOutcome (sym (runtime_init_down l s down)) (
    finish_init-InitOutcome l (guard_init l s).0 (guard_init l s).1
      (length-initial_slots l.kernel_pd s.slots ∙ size)
      (λ i h. initial_slots-IsFresh l.kernel_pd s.slots i size h) down out)
