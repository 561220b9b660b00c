-- ===== src/Scheduler/Steps.antt =====
-- Every step of scheduler.c keeps the invariant of the process table.
use minidos.Common.{
  subst, sym, ◌∙◌, ℕ, ◌-◌, ◌<◌, ◌≡◌, ◌≢◌, inl, inr, refl, true, false, Option, some, none, ◌==◌,
  Bool-cases, arith, get_or-set_self,
}
use minidos.Process.{Process, idle_pid, zero_process, mark_terminated}
use minidos.Timer.{timer_on_tick}
use minidos.Scheduler.{Linkage, Sched, slot, put_slot, live_current, pick_next}
use minidos.Scheduler.Invariant.{
  IsValidAt, IsValid, SlotsOk, SlotOk, set-SlotsOk, suspend-SlotsOk, activate-SlotsOk, map-SlotsOk,
}
use minidos.Scheduler.Pick.{pick_next-lt}
use minidos.Scheduler.Switch.{
  activate_slot, switch_to, save_frame, leave_to, switch_current, switch_from_frame, wake,
  wake_sleepers, tick_dispatch, account_tick, on_timer_tick, on_yield, block_current,
  terminate_slot, exit_current_from_interrupt,
}

-- The current slot is given anew.
pub put_slot-IsValidAt :
    {s : Sched} {c : ℕ} (i : ℕ) (p : Process)
    → IsValidAt s c
    → i < 8
    → SlotOk c i p
    → IsValidAt (put_slot s i p) c
put_slot-IsValidAt i p v h q = record {
  started = v.started;
  now = v.now;
  in_range = v.in_range;
  table = set-SlotsOk _ v.table i p h q;
}

pub slot-put_slot : {s : Sched} {c : ℕ} (p : Process) → IsValidAt s c → slot (put_slot s c p) c ≡ p
slot-put_slot {s} {c} p v =
    get_or-set_self s.slots c p zero_process (omega (arith, v.table.size, v.in_range))

-- A process becomes current where none is.
activate_slot-IsValidAt :
    (l : Linkage) (s : Sched) (n : ℕ)
    → s.runtime_ready ≡ true
    → SlotsOk 8 s.slots
    → n < 8
    → IsValidAt (activate_slot l s n).0 n
unfolding activate_slot
activate_slot-IsValidAt l s n r ok h = record {
  started = r;
  now = refl;
  in_range = h;
  table = activate-SlotsOk n _ ok h (ground (arith, ok.each n h));
}

module _ (l : Linkage) (c : ℕ) where
  switch_to-IsValid :
      (s : Sched) (o : Option ℕ)
      → IsValidAt s c
      → 0 < (slot s c).irq_frame
      → ((n : ℕ) → o ≡ some n → n < 8)
      → IsValid (switch_to l s c o).0
  unfolding switch_to
  switch_to-IsValid s none v f h =
      (c, put_slot-IsValidAt c _ v v.in_range (ground (arith, v.table.each c v.in_range)))
  switch_to-IsValid s (some n) v f h = elim (Bool-cases (n == c)) [
    | inl y ↦
        rw y (c, put_slot-IsValidAt c _ v v.in_range (ground (arith, v.table.each c v.in_range)))
    | inr y ↦ rw y (
      n,
      activate_slot-IsValidAt l _ n v.started
          (suspend-SlotsOk c v.table _ v.in_range (ground (arith, v.table.each c v.in_range)))
          (h n refl),
    )
  ]

  pub save_frame-IsValidAt :
      (s : Sched) (frame : ℕ) → IsValidAt s c → IsValidAt (save_frame s c frame) c
  save_frame-IsValidAt s frame v =
      put_slot-IsValidAt c _ v v.in_range (ground (arith, v.table.each c v.in_range))

  switch_current-IsValid :
      (s : Sched) (frame : ℕ) → 0 < frame → IsValidAt s c → IsValid (switch_current l s c frame).0
  unfolding switch_current
  switch_current-IsValid s frame h v =
      switch_to-IsValid (save_frame s c frame) (pick_next (save_frame s c frame)) saved
        (rw (slot-put_slot (record (slot s c) { irq_frame = frame }) v) h)
        (λ n e. pick_next-lt saved e)
    where
      saved : IsValidAt (save_frame s c frame) c
      saved = save_frame-IsValidAt s frame v

  pub switch_from_frame-IsValid :
      (s : Sched) (frame : ℕ) → 0 < frame → IsValidAt s c → IsValid (switch_from_frame l s frame).0
  unfolding switch_from_frame
  switch_from_frame-IsValid s frame h v = ground (arith, v.now, switch_current-IsValid s frame h v)

pub live_current_lem : {s : Sched} {c : ℕ} → IsValidAt s c → live_current s ≡ some c
live_current_lem v = ground (arith, v.now, v.started, v.in_range)

wake-SlotOk : (now c i : ℕ) (p : Process) → SlotOk c i p → SlotOk c i (wake now p)
unfolding wake
wake-SlotOk now c i p q = ground arith

wake_sleepers-IsValidAt :
    (now : ℕ) {s : Sched} {c : ℕ} → IsValidAt s c → IsValidAt (wake_sleepers now s) c
unfolding wake_sleepers
wake_sleepers-IsValidAt now {s} {c} v = record {
  started = v.started;
  now = v.now;
  in_range = v.in_range;
  table = map-SlotsOk (wake now) c (λ i p q. wake-SlotOk now c i p q) v.table;
}

account_tick-IsValidAt : {s : Sched} {c : ℕ} → IsValidAt s c → IsValidAt (account_tick s c) c
unfolding account_tick
account_tick-IsValidAt {s} {c} v =
    wake_sleepers-IsValidAt _
      (put_slot-IsValidAt c _ v v.in_range (ground (arith, v.table.each c v.in_range)))

-- Only the slots, the current index and the readiness of the runtime matter.
pub same_table :
    {s t : Sched} {c : ℕ}
    → IsValidAt s c
    → t.slots ≡ s.slots
    → t.current ≡ s.current
    → t.runtime_ready ≡ s.runtime_ready
    → IsValidAt t c
same_table {s} {t} {c} v e f g = record {
  started = g ∙ v.started;
  now = f ∙ v.now;
  in_range = v.in_range;
  table = subst (SlotsOk c) (sym e) v.table;
}

pub block_current-IsValidAt :
    {s : Sched} {c : ℕ} (ticks : ℕ)
    → IsValidAt s c
    → c ≢ idle_pid
    → IsValidAt (block_current s c ticks) c
unfolding block_current
block_current-IsValidAt {s} {c} ticks v ne =
    put_slot-IsValidAt c _ v v.in_range (ground (arith, v.table.each c v.in_range))

terminated-SlotOk :
    (l : Linkage) {c : ℕ} (p : Process)
    → SlotOk c c p
    → c ≢ idle_pid
    → SlotOk 8 c (mark_terminated l.kernel_pd p)
unfolding mark_terminated
terminated-SlotOk l p q ne = ground arith

pub terminate_slot-IsValidAt :
    (l : Linkage) {s : Sched} {c : ℕ} (i : ℕ)
    → IsValidAt s c
    → i < 8
    → i ≢ idle_pid
    → IsValidAt (terminate_slot l s i) c
unfolding mark_terminated
terminate_slot-IsValidAt l {s} {c} i v h ne =
    put_slot-IsValidAt i _ v h (ground (arith, v.table.each i h))

module _ (l : Linkage) (frame : ℕ) (fr : 0 < frame) where
  -- The ways in which a tick ends.
  tick_dispatch_cases :
      (P : Sched × ℕ → Type 0) (s : Sched) (c : ℕ)
      → P (s, 0)
      → P (record s { slice_ticks_left = s.slice_ticks_left - 1 }, 0)
      → P (switch_from_frame l s frame)
      → P (switch_from_frame l (record s { slice_ticks_left = s.quantum_ticks }) frame)
      → P (tick_dispatch l s c frame)
  unfolding tick_dispatch
  tick_dispatch_cases P s c p0 p1 p2 p3 = ground arith

  tick_dispatch-IsValid :
      {s : Sched} {c : ℕ} → IsValidAt s c → IsValid (tick_dispatch l s c frame).0
  tick_dispatch-IsValid {s} {c} v =
      tick_dispatch_cases (λ r. IsValid r.0) s c (c, v) (c, same_table v refl refl refl)
        (switch_from_frame-IsValid l c s frame fr v)
        (switch_from_frame-IsValid l c _ frame fr (same_table v refl refl refl))

  -- The timer interrupt.
  pub on_timer_tick-IsValid :
      {s : Sched} {c : ℕ} → IsValidAt s c → IsValid (on_timer_tick l s frame).0
  unfolding on_timer_tick
  on_timer_tick-IsValid {s} {c} v =
      rw (nonzero, live_current_lem ticked) (tick_dispatch-IsValid (account_tick-IsValidAt ticked))
    where
      nonzero : (frame == 0) ≡ false
      nonzero = ground arith

      ticked : IsValidAt (record s { timer = timer_on_tick s.timer }) c
      ticked = same_table v refl refl refl

  pub on_yield-IsValid : {s : Sched} {c : ℕ} → IsValidAt s c → IsValid (on_yield l s frame).0
  unfolding on_yield
  on_yield-IsValid {s} {c} v =
      ground (arith, live_current_lem v, switch_from_frame-IsValid l c s frame fr v)

  leave_to-IsValid :
      {s : Sched} {c : ℕ}
      → IsValidAt s c
      → SlotsOk 8 s.slots
      → (o : Option ℕ) → ((n : ℕ) → o ≡ some n → n < 8)
      → IsValid (leave_to l s o).0
  unfolding leave_to
  leave_to-IsValid {s} {c} v gone none h = (c, v)
  leave_to-IsValid {s} {c} v gone (some n) h =
      (n, activate_slot-IsValidAt l s n v.started gone (h n refl))

  pub exit_current_from_interrupt-IsValid :
      {s : Sched} {c : ℕ}
      → IsValidAt s c
      → c ≢ idle_pid
      → IsValid (exit_current_from_interrupt l s frame).0
  unfolding exit_current_from_interrupt
  exit_current_from_interrupt-IsValid {s} {c} v ne =
      rw (nonzero, live_current_lem v)
        (leave_to-IsValid ended_ok gone (pick_next ended) (λ n e. pick_next-lt ended_ok e))
    where
      nonzero : (frame == 0) ≡ false
      nonzero = ground arith

      saved : IsValidAt (save_frame s c frame) c
      saved = save_frame-IsValidAt l c s frame v

      ended : Sched
      ended = terminate_slot l (save_frame s c frame) c

      ended_ok : IsValidAt ended c
      ended_ok = terminate_slot-IsValidAt l c saved v.in_range ne

      gone : SlotsOk 8 ended.slots
      gone =
          suspend-SlotsOk c saved.table _ v.in_range
            (terminated-SlotOk l _ (saved.table.each c v.in_range) ne)
