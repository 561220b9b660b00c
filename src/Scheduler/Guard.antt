-- ===== src/Scheduler/Guard.antt =====
-- The stack regions of src/kernel/process/scheduler.c and the report of a fault on a guard page.
use minidos.Common.{
  ℕ, ◌^◌, ◌≢◌, Option, zero, suc, ◌+◌, ◌-◌, ◌*◌, ◌%◌, ◌≤◌, ◌<◌, ◌≡◌, ◌⊎◌, some, ℕ_discrete, arith,
}
use minidos.Process.{
  Process, ProcessState, Text, stack_bytes, reset_slot, stack_arena_base, stack_region_bytes,
  guard_bytes, stack_page_size,
}
use minidos.Process.Slots.{HasStack, reset_slot-HasStack}
use minidos.Scheduler.{Sched, slot}
use minidos.Scheduler.Invariant.{IsValidAt}
use minidos.Scheduler.Manage.{guard_fault_from, describe_guard_fault}

-- The guard page of slot `i` holds the address `a`.
abbrev InGuard : ℕ → ℕ → Type 0
InGuard i a =
    (stack_arena_base + i * stack_region_bytes ≤ a + stack_region_bytes)
    × (a + stack_region_bytes < stack_arena_base + i * stack_region_bytes + guard_bytes)

stack_of : {s : Sched} {c : ℕ} → IsValidAt s c → (i : ℕ) → 1 ≤ i → i < 8 → HasStack i (slot s i)
stack_of v i lo hi = ground (arith, v.table.each i hi)

-- The region of a process: one guard page, on a page boundary, and its stack directly above.
abbrev pub IsRegion : Process → Type 0
IsRegion p =
    (0 < p.guard_page_base)
    × (p.guard_page_base % stack_page_size ≡ 0)
    × (p.kernel_stack_base ≡ p.guard_page_base + stack_page_size)
    × (p.kernel_stack_top ≡ p.kernel_stack_base + stack_bytes)
    × (p.kernel_stack_top < 2 ^ 32)

-- Slots that are reset with different indices other than 0, whatever they held before, have stacks
-- and guard pages in common with no other: each has its guard page directly below its stack, and
-- the one region ends where the other begins or before. No address wraps.
pub reset_slot-apart :
    (kernel_pd : ℕ) (p q : Process) (i j : ℕ) (m n : Option Text) (a b : ProcessState)
    → 1 ≤ i
    → i < 8
    → 1 ≤ j
    → j < 8
    → i ≢ j
    → let one = reset_slot kernel_pd p i m a in
      let two = reset_slot kernel_pd q j n b in
      IsRegion one
      × IsRegion two
      × ((one.kernel_stack_top ≤ two.guard_page_base)
          ⊎ (two.kernel_stack_top ≤ one.guard_page_base))
reset_slot-apart kernel_pd p q i j m n a b li hi lj hj ne =
    let one = reset_slot-HasStack kernel_pd p i m a li hi in
    let two = reset_slot-HasStack kernel_pd q j n b lj hj in
    (omega (arith, one), omega (arith, two), omega (arith, one, two, ne))

module _ {s : Sched} {c : ℕ} (v : IsValidAt s c) (a : ℕ) where
  guard_found :
      (i n j : ℕ)
      → 1 ≤ j
      → j ≤ i
      → i < j + n
      → j + n ≤ 8
      → InGuard i a
      → guard_fault_from s.slots (a - a % stack_page_size) j n ≡ some (i, (slot s i).name)
  unfolding guard_fault_from
  guard_found i zero j lo le lt up g = absurd (omega arith)
  guard_found i (suc n) j lo le lt up g = elim (ℕ_discrete j i) [
    | yes e ↦
        rw e (
          ground (arith, stack_of v i (omega arith) (omega arith), v.table.each i (omega arith), g))
    | no ne ↦ ground (
      arith,
      stack_of v j lo (omega arith),
      g,
      guard_found i n (j + 1) (omega arith) (omega arith) (omega arith) (omega arith) g,
    )
  ]

-- In a valid state a fault on the guard page of a slot is reported with that slot's pid and name.
describe_guard_fault_lem :
    {s : Sched} {c : ℕ} (i a : ℕ)
    → IsValidAt s c
    → 1 ≤ i
    → i < 8
    → InGuard i a
    → describe_guard_fault s a ≡ some (i, (slot s i).name)
unfolding describe_guard_fault
describe_guard_fault_lem i a v lo hi g =
    guard_found v a i 7 1 (omega arith) lo (omega arith) (omega arith) g
