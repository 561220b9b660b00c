-- ===== src/Process/Fresh.antt =====
-- What `sched_reset_slot` and the naming of a slot in src/kernel/process/scheduler.c leave of a
-- process that has run before.
use minidos.Common.{
  ℕ, ◌≡◌, refl, Bool, true, false, if◌then◌else◌, Option, some, none, [], ◌∷◌, arith,
}
use minidos.Process.{
  Process, ProcessState, Text, clear_slot, set_slot_name, set_slot_origin, set_slot_stack,
  reset_slot,
}

-- A process that has not run yet, in the address space `directory`.
pub record IsFresh (directory : ℕ) (p : Process) : Type 0 where
  pub space : p.page_directory ≡ directory
  pub not_asleep : p.wake_tick ≡ 0
  pub no_runtime : p.runtime_ticks ≡ 0
  pub no_switch : p.switch_count ≡ 0
  pub no_user_stack : p.user_esp ≡ 0

pub set_slot_origin-IsFresh :
    (d : ℕ) (p : Process) (origin : Option Text) (exe : Bool)
    → IsFresh d p
    → IsFresh d (set_slot_origin p origin exe)
unfolding set_slot_origin
set_slot_origin-IsFresh d p none exe h = ground arith
set_slot_origin-IsFresh d p (some []) exe h = ground arith
set_slot_origin-IsFresh d p (some (c ∷ cs)) exe h = ground arith

set_slot_name-IsFresh :
    (d : ℕ) (p : Process) (name : Option Text) → IsFresh d p → IsFresh d (set_slot_name p name)
unfolding set_slot_name
set_slot_name-IsFresh d p none h = ground arith
set_slot_name-IsFresh d p (some []) h = ground arith
set_slot_name-IsFresh d p (some (c ∷ cs)) h = ground arith

set_slot_stack-IsFresh :
    (d : ℕ) (p : Process) (idx : ℕ) → IsFresh d p → IsFresh d (set_slot_stack p idx)
unfolding set_slot_stack
set_slot_stack-IsFresh d p idx h = ground arith

pub reset_slot-IsFresh :
    (kernel_pd : ℕ) (p : Process) (idx : ℕ) (name : Option Text) (st : ProcessState)
    → IsFresh kernel_pd (reset_slot kernel_pd p idx name st)
unfolding reset_slot clear_slot
reset_slot-IsFresh kernel_pd p idx name st = set_slot_stack-IsFresh kernel_pd _ idx (
    set_slot_origin-IsFresh kernel_pd _ none false (
      set_slot_name-IsFresh kernel_pd (clear_slot kernel_pd p idx st) name (record {
        space = refl;
        not_asleep = refl;
        no_runtime = refl;
        no_switch = refl;
        no_user_stack = refl;
      })))

-- The directory that a spawn gives.
pub in_space-IsFresh :
    (b : Bool) (kernel_pd pd : ℕ) {p : Process}
    → IsFresh kernel_pd p
    → IsFresh (if b then kernel_pd else pd) (if b then p else record p { page_directory = pd })
in_space-IsFresh true kernel_pd pd h = h
in_space-IsFresh false kernel_pd pd h = record {
  space = refl;
  not_asleep = h.not_asleep;
  no_runtime = h.no_runtime;
  no_switch = h.no_switch;
  no_user_stack = h.no_user_stack;
}
