-- ===== src/Scheduler/Exit.antt =====
-- The exit of the current process by `scheduler_exit_current_from_interrupt` of
-- src/kernel/process/scheduler.c.
use minidos.Common.{
  ℕ, ◌<◌, ◌≡◌, ◌≢◌, refl, sym, subst, ◌∙◌, ap, some, List, get_or, set, get_or-set_self,
  get_or-set_ne, arith, set-set,
}
use minidos.Process.{Process, idle_pid, zero_process, terminated, mark_terminated}
use minidos.Scheduler.{Linkage, Sched, slot, pick_next}
use minidos.Scheduler.Invariant.{IsValidAt}
use minidos.Scheduler.Pick.{Picks, next_ready, same, idle, pick_next_lem}
use minidos.Scheduler.Switch.{
  activate_slot, save_frame, terminate_slot, leave_to, exit_current_from_interrupt,
}
use minidos.Scheduler.Steps.{
  save_frame-IsValidAt, slot-put_slot, live_current_lem, terminate_slot-IsValidAt,
}
use minidos.Scheduler.Resume.{Resumes, picked_frame, activate_slot-Resumes}

-- The state after the current process of `s` has ended, with `frame` interrupted.
abbrev pub ended : Linkage → Sched → ℕ → ℕ → Sched
ended l s c frame = terminate_slot l (save_frame s c frame) c

module _ (l : Linkage) {s : Sched} {c : ℕ} (frame : ℕ) (v : IsValidAt s c) (ne : c ≢ idle_pid) where
  dead : Process
  unfolding mark_terminated
  dead = mark_terminated l.kernel_pd (record (slot s c) { irq_frame = frame })

  saved_ok : IsValidAt (save_frame s c frame) c
  saved_ok = save_frame-IsValidAt l c s frame v

  ended_ok : IsValidAt (ended l s c frame) c
  ended_ok = terminate_slot-IsValidAt l c saved_ok v.in_range ne

  ended_slots : (ended l s c frame).slots ≡ set s.slots c dead
  unfolding dead
  ended_slots =
      set-set s.slots c _ _
      ∙ ap (λ (p : Process). set s.slots c (mark_terminated l.kernel_pd p)) (slot-put_slot _ v)

  slot-ended : slot (ended l s c frame) c ≡ dead
  slot-ended =
      ap (λ (ps : List Process). get_or ps c zero_process) ended_slots
      ∙ get_or-set_self s.slots c dead zero_process (omega (arith, v.table.size, v.in_range))

  dead_terminated : (slot (ended l s c frame) c).state ≡ terminated
  unfolding dead
  dead_terminated = ap (λ (p : Process). p.state) slot-ended

  other_picked : (n : ℕ) → Picks (ended l s c frame).slots c n → n ≢ c
  other_picked n (next_ready k lo hi e y rest) f = absurd (omega (arith, v.in_range))
  other_picked n (same rest e y) f = cc (dead_terminated)
  other_picked n (idle rest y e) f = ne (sym f ∙ e)

  ended_other : (n : ℕ) → n ≢ c → slot (ended l s c frame) n ≡ slot s n
  ended_other n nc =
      ap (λ (ps : List Process). get_or ps n zero_process) ended_slots
      ∙ get_or-set_ne s.slots c n dead zero_process (λ e. nc (sym e))

  dead_frame : dead.irq_frame ≡ frame
  unfolding dead
  dead_frame = refl

  resumes :
      (n : ℕ)
      → Picks (ended l s c frame).slots c n
      → Resumes l s c frame n
          (activate_slot l (ended l s c frame) n).0
          (activate_slot l (ended l s c frame) n).1
  resumes n pk =
      let nc : n ≢ c = other_picked n pk in
      let (fr, hn) = picked_frame ended_ok pk nc in
      activate_slot-Resumes l s _ c frame dead v.table.size v.in_range ended_slots refl dead_frame n
        hn nc (rw (ended_other n nc) at fr)

  stays_dead :
      (n : ℕ) → n ≢ c → (slot (activate_slot l (ended l s c frame) n).0 c).state ≡ terminated
  unfolding activate_slot
  stays_dead n nc =
      ap (λ (p : Process). p.state) (get_or-set_ne (ended l s c frame).slots n c _ zero_process nc)
      ∙ dead_terminated

  exits :
      (n : ℕ)
      → pick_next (ended l s c frame) ≡ some n
      → 0 < frame
      → exit_current_from_interrupt l s frame ≡ activate_slot l (ended l s c frame) n
  unfolding exit_current_from_interrupt leave_to
  exits n e fr = ground (arith, live_current_lem v, e)

-- The exit of the current process, other than the idle one, always resumes another process: the
-- frame returned is the one that process had saved, not null, and the slot that ended is marked
-- so. The process that ended is never resumed by its own exit.
pub exit_current_from_interrupt-Resumes :
    (l : Linkage) {s : Sched} {c : ℕ} (frame : ℕ)
    → IsValidAt s c
    → c ≢ idle_pid
    → 0 < frame
    → let (t, r) = exit_current_from_interrupt l s frame in
      (n : ℕ) × Resumes l s c frame n t r × ((slot t c).state ≡ terminated)
exit_current_from_interrupt-Resumes l {s} {c} frame v ne fr =
    let (n, e, pk) = pick_next_lem (ended_ok l frame v ne) in
    subst (λ r. (m : ℕ) × Resumes l s c frame m r.0 r.1 × ((slot r.0 c).state ≡ terminated))
      (sym (exits l frame v ne n e fr))
      (n, resumes l frame v ne n pk, stays_dead l frame v ne n (other_picked l frame v ne n pk))
