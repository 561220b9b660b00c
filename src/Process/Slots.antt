-- ===== src/Process/Slots.antt =====
-- What `sched_set_slot_name`, `sched_set_slot_origin` and `sched_reset_slot` of
-- src/kernel/process/scheduler.c leave alone and what they set.
use minidos.Common.{
  ℕ, ◌+◌, ◌*◌, ◌≤◌, ◌<◌, ◌≡◌, refl, ◌∙◌, Bool, false, Option, none, some, [], ◌∷◌, arith,
}
use minidos.Process.{
  Process, ProcessState, Text, stack_arena_base, stack_region_bytes, guard_bytes, clear_slot,
  set_slot_name, set_slot_origin, set_slot_stack, reset_slot,
}

-- The stack of slot `i` lies in its own region of the arena, above its guard page.
abbrev pub HasStack : ℕ → Process → Type 0
HasStack i p =
    (p.guard_page_base + stack_region_bytes ≡ stack_arena_base + i * stack_region_bytes)
    × (p.kernel_stack_base ≡ p.guard_page_base + guard_bytes)
    × (p.kernel_stack_top ≡ stack_arena_base + i * stack_region_bytes)

pub set_slot_origin_keeps :
    (p : Process) (origin : Option Text) (exe : Bool)
    → ((set_slot_origin p origin exe).pid ≡ p.pid)
      × ((set_slot_origin p origin exe).state ≡ p.state)
      × ((set_slot_origin p origin exe).guard_page_base ≡ p.guard_page_base)
      × ((set_slot_origin p origin exe).kernel_stack_base ≡ p.kernel_stack_base)
      × ((set_slot_origin p origin exe).kernel_stack_top ≡ p.kernel_stack_top)
      × ((set_slot_origin p origin exe).irq_frame ≡ p.irq_frame)
unfolding set_slot_origin
set_slot_origin_keeps p none exe = (refl, refl, refl, refl, refl, refl)
set_slot_origin_keeps p (some []) exe = (refl, refl, refl, refl, refl, refl)
set_slot_origin_keeps p (some (c ∷ cs)) exe = (refl, refl, refl, refl, refl, refl)

pub set_slot_name_keeps :
    (p : Process) (name : Option Text)
    → ((set_slot_name p name).pid ≡ p.pid)
      × ((set_slot_name p name).state ≡ p.state)
      × ((set_slot_name p name).guard_page_base ≡ p.guard_page_base)
      × ((set_slot_name p name).kernel_stack_base ≡ p.kernel_stack_base)
      × ((set_slot_name p name).kernel_stack_top ≡ p.kernel_stack_top)
      × ((set_slot_name p name).irq_frame ≡ p.irq_frame)
unfolding set_slot_name
set_slot_name_keeps p none = (refl, refl, refl, refl, refl, refl)
set_slot_name_keeps p (some []) = (refl, refl, refl, refl, refl, refl)
set_slot_name_keeps p (some (c ∷ cs)) = (refl, refl, refl, refl, refl, refl)

set_slot_stack_keeps :
    (p : Process) (idx : ℕ)
    → ((set_slot_stack p idx).pid ≡ p.pid) × ((set_slot_stack p idx).state ≡ p.state)
unfolding set_slot_stack
set_slot_stack_keeps p idx = ground arith

set_slot_stack-HasStack :
    (p : Process) (idx : ℕ) → 1 ≤ idx → idx < 8 → HasStack idx (set_slot_stack p idx)
unfolding set_slot_stack
set_slot_stack-HasStack p idx lo hi = ground arith

module _ (kpd : ℕ) (p : Process) (idx : ℕ) (name : Option Text) (st : ProcessState) where
  -- A reset slot has the state asked for, and its index for a pid.
  pub reset_slot_lem :
      ((reset_slot kpd p idx name st).pid ≡ idx) × ((reset_slot kpd p idx name st).state ≡ st)
  unfolding reset_slot
  reset_slot_lem = (
    (set_slot_stack_keeps whole idx).0
        ∙ (set_slot_origin_keeps named none false).0
        ∙ (set_slot_name_keeps cleared name).0,
    (set_slot_stack_keeps whole idx).1
        ∙ (set_slot_origin_keeps named none false).1
        ∙ (set_slot_name_keeps cleared name).1,
  )
    where
      cleared : Process
      cleared = clear_slot kpd p idx st

      named : Process
      named = set_slot_name cleared name

      whole : Process
      whole = set_slot_origin named none false

  -- A reset slot other than the boot slot has the stack region of its index.
  pub reset_slot-HasStack : 1 ≤ idx → idx < 8 → HasStack idx (reset_slot kpd p idx name st)
  unfolding reset_slot
  reset_slot-HasStack lo hi =
      set_slot_stack-HasStack
        (set_slot_origin (set_slot_name (clear_slot kpd p idx st) name) none false) idx lo hi
