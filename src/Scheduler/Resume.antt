-- ===== src/Scheduler/Resume.antt =====
-- What a switch of src/kernel/process/scheduler.c resumes: the frame, the page directory and the
-- kernel stack of the process that becomes current.
use minidos.Common.{
  ℕ, ◌+◌, ◌<◌, ◌≡◌, ◌≢◌, ◌⊎◌, inl, inr, refl, sym, subst, ◌∙◌, ap, true, false, some, List, ◌==◌,
  if◌then◌else◌, set, length, get_or-set_self, get_or-set_ne, length-set, Bool-cases, arith,
  set-set, ◌%◌,
}
use minidos.Process.{Process, running, zero_process}
use minidos.Scheduler.{Linkage, Sched, slot, put_slot, pick_next}
use minidos.Scheduler.Invariant.{IsValidAt}
use minidos.Scheduler.Pick.{Picks, NoneBetween, next_ready, same, idle, pick_next_lem}
use minidos.Scheduler.Switch.{
  activate_slot, resume, preempt, switch_to, save_frame, switch_current, switch_from_frame,
}
use minidos.Scheduler.Steps.{save_frame-IsValidAt, slot-put_slot}

-- In the state `s` slot `c` was interrupted at `frame`. The switch to slot `n` leaves the state `t`
-- and returns the frame `r`.
pub record Resumes (l : Linkage) (s : Sched) (c frame n : ℕ) (t : Sched) (r : ℕ) : Type 0 where
  pub another : n ≢ c
  pub current : t.current ≡ some n
  pub runs : (slot t n).state ≡ running
  pub restored : r ≡ (slot s n).irq_frame
  pub nonzero : 0 < r
  pub directory :
      t.machine.cr3
      ≡ (if (slot s n).page_directory == 0 then l.kernel_pd else (slot s n).page_directory)
  pub stack : t.machine.esp0 ≡ (slot s n).kernel_stack_top
  pub refilled : t.slice_ticks_left ≡ s.quantum_ticks
  pub saved : (slot t c).irq_frame ≡ frame
  pub others : (j : ℕ) → j ≢ c → j ≢ n → slot t j ≡ slot s j

-- A process that is picked, and is not the current one, waits with a saved frame.
pub picked_frame :
    {s : Sched} {c n : ℕ}
    → IsValidAt s c
    → Picks s.slots c n
    → n ≢ c
    → (0 < (slot s n).irq_frame) × (n < 8)
picked_frame {s} {c} {n} v (next_ready k lo hi e y rest) ne =
    ground (arith, v.table.each n (omega arith))
picked_frame {s} {c} {n} v (same rest e y) ne = absurd (ne e)
picked_frame {s} {c} {n} v (idle rest y e) ne = ground (arith, v.table.each n (omega arith))

module _ (l : Linkage) (s u : Sched) (c frame : ℕ) (p : Process) (size : length s.slots ≡ 8)
    (hc : c < 8) (put : u.slots ≡ set s.slots c p) (quantum : u.quantum_ticks ≡ s.quantum_ticks)
    (keep : p.irq_frame ≡ frame) where
  other_slot : (n : ℕ) → n ≢ c → slot u n ≡ slot s n
  other_slot n ne = rw put (get_or-set_ne s.slots c n p zero_process (λ e. ne (sym e)))

  same_slot : slot u c ≡ p
  same_slot = rw put (get_or-set_self s.slots c p zero_process (omega (arith, size)))

  u_size : length u.slots ≡ 8
  u_size = rw put (length-set s.slots c p ∙ size)

  pub activate_slot-Resumes :
      (n : ℕ)
      → n < 8
      → n ≢ c
      → 0 < (slot s n).irq_frame
      → Resumes l s c frame n (activate_slot l u n).0 (activate_slot l u n).1
  unfolding activate_slot
  activate_slot-Resumes n hn ne fr = record {
    another = ne;
    current = refl;
    runs = rw (get_or-set_self u.slots n _ zero_process (omega (arith, u_size)));
    restored = ap (λ (q : Process). q.irq_frame) (other_slot n ne);
    nonzero = rw (other_slot n ne) fr;
    directory =
        ap (λ (q : Process). if q.page_directory == 0 then l.kernel_pd else q.page_directory)
          (other_slot n ne);
    stack = ap (λ (q : Process). q.kernel_stack_top) (other_slot n ne);
    refilled = quantum;
    saved =
        rw (get_or-set_ne u.slots n c _ zero_process ne)
          (ap (λ (q : Process). q.irq_frame) same_slot ∙ keep);
    others =
        λ j a b. rw (get_or-set_ne u.slots n j _ zero_process (λ e. b (sym e))) (other_slot j a);
  }

-- The current process goes on, since no other is ready.
pub record Stays (s : Sched) (c frame : ℕ) (t : Sched) (r : ℕ) : Type 0 where
  pub alone : NoneBetween s.slots c 1 8
  pub current : t.current ≡ some c
  pub returns : r ≡ 0
  pub saved : (slot t c).irq_frame ≡ frame
  pub others : (j : ℕ) → j ≢ c → slot t j ≡ slot s j

-- The scan leaves slot `c` out, so that a change there does not matter.
NoneBetween-set :
    (slots : List Process) (c : ℕ) (p : Process)
    → c < 8
    → NoneBetween (set slots c p) c 1 8
    → NoneBetween slots c 1 8
NoneBetween-set slots c p h rest j lo hi =
    rw (get_or-set_ne slots c ((c + j) % 8) p zero_process (omega arith)) at (rest j lo hi)

same-alone :
    {slots : List Process} {c n : ℕ} → c < 8 → n ≡ c → Picks slots c n → NoneBetween slots c 1 8
same-alone h e (next_ready k lo hi eq y rest) = absurd (omega arith)
same-alone h e (same rest f y) = rest
same-alone h e (idle rest y f) = rest

abbrev pub Switched : Linkage → Sched → ℕ → ℕ → Sched × ℕ → Type 0
Switched l s c frame (t, r) = Stays s c frame t r ⊎ ((n : ℕ) × Resumes l s c frame n t r)

module _ (l : Linkage) {s : Sched} {c : ℕ} (v : IsValidAt s c) (frame : ℕ) where
  framed : Process
  framed = record (slot s c) { irq_frame = frame }

  framed_slot : slot (save_frame s c frame) c ≡ framed
  unfolding framed
  framed_slot = slot-put_slot framed v

  resume_keeps : (p : Process) → (resume p).irq_frame ≡ p.irq_frame
  resume_keeps p = ground arith

  preempt_keeps : (p : Process) → (preempt p).irq_frame ≡ p.irq_frame
  preempt_keeps p = ground arith

  pub saved_ok : IsValidAt (save_frame s c frame) c
  saved_ok = save_frame-IsValidAt l c s frame v

  rewritten : (q : Process) → (put_slot (save_frame s c frame) c q).slots ≡ set s.slots c q
  rewritten q = set-set s.slots c (record (slot s c) { irq_frame = frame }) q

  pub saved_other : (n : ℕ) → n ≢ c → slot (save_frame s c frame) n ≡ slot s n
  saved_other n ne = get_or-set_ne s.slots c n _ zero_process (λ e. ne (sym e))

  framed_frame : (slot (save_frame s c frame) c).irq_frame ≡ frame
  unfolding framed
  framed_frame = ap (λ (q : Process). q.irq_frame) framed_slot

  stays :
      (n : ℕ)
      → (n == c) ≡ true
      → Picks (save_frame s c frame).slots c n
      → Stays s c frame
          (put_slot (save_frame s c frame) c (resume (slot (save_frame s c frame) c)))
          0
  stays n y pk = record {
    alone = NoneBetween-set s.slots c _ v.in_range (same-alone v.in_range (ground arith) pk);
    current = v.now;
    returns = refl;
    saved =
        ap (λ (q : Process). q.irq_frame)
          (slot-put_slot (resume (slot (save_frame s c frame) c)) saved_ok)
        ∙ (resume_keeps (slot (save_frame s c frame) c) ∙ framed_frame);
    others = λ j ne.
        get_or-set_ne (save_frame s c frame).slots c j _ zero_process (λ e. ne (sym e))
        ∙ saved_other j ne;
  }

  switched :
      (n : ℕ)
      → (n == c) ≡ false
      → Picks (save_frame s c frame).slots c n
      → let u = put_slot (save_frame s c frame) c (preempt (slot (save_frame s c frame) c)) in
        Resumes l s c frame n (activate_slot l u n).0 (activate_slot l u n).1
  switched n y pk =
      let ne : n ≢ c = ground arith in
      let (fr, hn) = picked_frame saved_ok pk ne in
      activate_slot-Resumes l s _ c frame (preempt (slot (save_frame s c frame) c)) v.table.size
        v.in_range (rewritten _) refl (preempt_keeps (slot (save_frame s c frame) c) ∙ framed_frame)
        n hn ne (rw (saved_other n ne) at fr)

  switch_to-Switched :
      (n : ℕ)
      → pick_next (save_frame s c frame) ≡ some n
      → Picks (save_frame s c frame).slots c n
      → Switched l s c frame (switch_to l (save_frame s c frame) c (some n))
  unfolding switch_to
  switch_to-Switched n e pk = elim (Bool-cases (n == c)) [
    | inl y ↦ rw y (inl (stays n y pk))
    | inr y ↦ rw y (inr (n, switched n y pk))
  ]

  pub switch_from_frame_lem :
      (n : ℕ)
      → pick_next (save_frame s c frame) ≡ some n
      → switch_from_frame l s frame ≡ switch_to l (save_frame s c frame) c (some n)
  unfolding switch_from_frame switch_current
  switch_from_frame_lem n e = ground (arith, v.now, v.in_range, e)

  -- A switch in a valid state, with `frame` interrupted, either goes on with the current process,
  -- and then no other process but the idle one is ready; or it makes another process current and
  -- running, and returns the frame that this process had saved, which is not null, with its page
  -- directory and its kernel stack loaded and the slice refilled. In both cases `frame` is saved in
  -- the slot that was current, and the other slots are as they were.
  pub switch_from_frame-Switched : Switched l s c frame (switch_from_frame l s frame)
  switch_from_frame-Switched =
      let (n, e, pk) = pick_next_lem saved_ok in
      subst (Switched l s c frame) (sym (switch_from_frame_lem n e)) (switch_to-Switched n e pk)
