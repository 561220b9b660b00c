-- ===== src/Scheduler/Spawn.antt =====
-- Spawning, `sched_spawn_kernel_thread_internal` of src/kernel/process/scheduler.c: which slot it
-- takes, what stands there afterwards, and which memory it writes.
use minidos.Common.{
  subst, sym, ℕ, ◌≤◌, ◌<◌, ◌≡◌, ◌≢◌, ◌⊎◌, inl, inr, refl, Bool, true, false, if◌then◌else◌, Option,
  some, none, ◌==◌, set, Bool-cases, arith, get_or-set_self, length, get_or-set_ne,
}
use minidos.Process.{Process, is_free, zero_process, Text}
use minidos.Process.Fresh.{IsFresh}
use minidos.Scheduler.{Linkage, Sched, slot, find_free_slot_from, external_pid_min}
use minidos.Scheduler.Frame.{HasFrame}
use minidos.Scheduler.Invariant.{IsValidAt, SlotsOk, set-SlotsOk}
use minidos.Scheduler.Manage.{fill_slot, spawn_internal, spawn_kernel_task}
use minidos.Scheduler.Free.{Free, found, full, find_free_from-Free}
use minidos.Scheduler.Spawned.{
  spawned, IsSpawned, OutsideStack, fill_slot-slots, fill_slot-memory, fill_slot-HasFrame,
  fill_slot_rest, spawned-IsFresh, spawned-IsSpawned,
}

-- What a spawn that takes slot `idx` does to a valid state where `c` is current.
pub record SpawnEffect (l : Linkage) (s t : Sched) (c idx entry arg pd : ℕ) : Type 0 where
  pub external : (external_pid_min ≤ idx) × (idx < 8)
  pub was_free : is_free (slot s idx).state ≡ true
  pub first : (j : ℕ) → external_pid_min ≤ j → j < idx → is_free (slot s j).state ≡ false
  pub spawned_slot : IsSpawned idx entry arg (slot t idx)
  pub fresh : IsFresh (if pd == 0 then l.kernel_pd else pd) (slot t idx)
  pub frame :
      HasFrame l t.machine.memory (slot t idx).kernel_stack_base (slot t idx).kernel_stack_top
  pub others : (j : ℕ) → idx ≢ j → slot t j ≡ slot s j
  pub rest_kept :
      t ≡ record s { slots = t.slots; machine = record (s.machine) { memory = t.machine.memory } }
  pub memory : (b : ℕ) → OutsideStack idx b → t.machine.memory b ≡ s.machine.memory b
  pub valid : IsValidAt t c

module _ (l : Linkage) {s : Sched} {c : ℕ} (v : IsValidAt s c) (name : Option Text)
    (origin : Option Text) (exe : Bool) (entry arg pd : ℕ) where
  fill_slot-IsValidAt :
      (n : Text) (idx : ℕ) {p : Process}
      → idx < 8
      → (fill_slot l s idx n origin exe entry arg pd).slots ≡ set s.slots idx p
      → IsSpawned idx entry arg p
      → IsValidAt (fill_slot l s idx n origin exe entry arg pd) c
  unfolding fill_slot
  fill_slot-IsValidAt n idx {p} hi slots made = record {
    started = v.started;
    now = v.now;
    in_range = v.in_range;
    table = subst (SlotsOk c) (sym slots) (set-SlotsOk c v.table idx p hi (ground (arith, made)));
  }

  fill_slot-SpawnEffect :
      (n : Text) (idx : ℕ)
      → external_pid_min ≤ idx
      → idx < 8
      → is_free (slot s idx).state ≡ true
      → ((j : ℕ) → external_pid_min ≤ j → j < idx → is_free (slot s j).state ≡ false)
      → SpawnEffect l s (fill_slot l s idx n origin exe entry arg pd) c idx entry arg pd
  fill_slot-SpawnEffect n idx lo hi y rest = record {
    external = (lo, hi);
    was_free = y;
    first = rest;
    spawned_slot = rw (slots, get_or-set_self s.slots idx new zero_process inside) made;
    fresh = rw (slots, get_or-set_self s.slots idx new zero_process inside) fresh;
    frame = rw (slots, get_or-set_self s.slots idx new zero_process inside) framed;
    rest_kept = fill_slot_rest l s idx n origin exe entry arg pd;
    others = λ j ne. rw slots (get_or-set_ne s.slots idx j new zero_process ne);
    memory =
        λ b out. fill_slot-memory l s idx n origin exe entry arg pd b inside (omega arith) hi out;
    valid = fill_slot-IsValidAt n idx hi slots made;
  }
    where
      new : Process
      new = spawned l (slot s idx) idx n origin exe entry arg pd

      inside : idx < length s.slots
      inside = omega (arith, v.table.size)

      slots : (fill_slot l s idx n origin exe entry arg pd).slots ≡ set s.slots idx new
      slots = fill_slot-slots l s idx n origin exe entry arg pd inside

      fresh : IsFresh (if pd == 0 then l.kernel_pd else pd) new
      fresh = spawned-IsFresh l (slot s idx) idx n origin exe entry arg pd

      framed :
          HasFrame l
            (fill_slot l s idx n origin exe entry arg pd).machine.memory
            new.kernel_stack_base
            new.kernel_stack_top
      framed = fill_slot-HasFrame l s idx n origin exe entry arg pd inside (omega arith) hi

      made : IsSpawned idx entry arg new
      made = spawned-IsSpawned l (slot s idx) idx n origin exe entry arg pd (omega arith) hi

  -- What a spawn does, by its result.
  abbrev pub SpawnOutcome : Sched × Option ℕ → Type 0
  SpawnOutcome (t, some idx) = SpawnEffect l s t c idx entry arg pd
  SpawnOutcome (t, none) =
      (t ≡ s)
      × ((name ≡ none)
          ⊎ (entry ≡ 0)
          ⊎ ((j : ℕ) → external_pid_min ≤ j → j < 8 → is_free (slot s j).state ≡ false))

  spawn_found :
      (n : Option Text) (i : ℕ)
      → name ≡ n
      → external_pid_min ≤ i
      → i < 8
      → is_free (slot s i).state ≡ true
      → ((j : ℕ) → external_pid_min ≤ j → j < i → is_free (slot s j).state ≡ false)
      → find_free_slot_from s external_pid_min ≡ some i
      → SpawnOutcome (spawn_internal l s n origin exe entry arg pd external_pid_min)
  unfolding spawn_internal
  spawn_found none i e lo hi y rest f = rw (f, spawn_internal) (refl, inl e)
  spawn_found (some n) i e lo hi y rest f = elim (Bool-cases (entry == 0)) [
    | inl z ↦ rw (f, spawn_internal, z) (refl, inr (inl (ground arith)))
    | inr z ↦ rw (f, spawn_internal, z) (fill_slot-SpawnEffect n i lo hi y rest)
  ]

  spawn_outcome :
      {o : Option ℕ}
      → Free s.slots external_pid_min 8 o
      → find_free_slot_from s external_pid_min ≡ o
      → SpawnOutcome (spawn_internal l s name origin exe entry arg pd external_pid_min)
  unfolding spawn_internal
  spawn_outcome (found i lo hi y rest) f = spawn_found name i refl lo hi y rest f
  spawn_outcome (full busy) f = rw (f, spawn_internal) (refl, inr (inr busy))

  spawn_ready :
      spawn_kernel_task l s name origin exe entry arg pd
      ≡ spawn_internal l s name origin exe entry arg pd external_pid_min
  unfolding spawn_kernel_task
  spawn_ready = ground (arith, v.started)

  -- A spawn in a valid state that returns a pid took the first free slot from
  -- `SCHED_EXTERNAL_PID_MIN` on, and left there a ready process that has not run, in the address
  -- space asked for or the kernel's. Its stack holds the frame of the bootstrap of threads with
  -- interrupts on, the address that the bootstrap returns to, and zeros below. The other slots, the
  -- memory outside of that stack, the timer, the registers and the other variables are as they
  -- were, and the table is valid. A spawn that returns -1 changed nothing: the name or the entry was
  -- null, or no slot was free.
  pub spawn_kernel_task_lem : SpawnOutcome (spawn_kernel_task l s name origin exe entry arg pd)
  unfolding find_free_slot_from
  spawn_kernel_task_lem =
      subst SpawnOutcome (sym spawn_ready) (spawn_outcome (find_free_from-Free s.slots 5 3) refl)
