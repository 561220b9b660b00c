-- ===== src/Scheduler/Invariant.antt =====
-- What holds of the process table between two steps of scheduler.c, and how an update of one slot
-- keeps it.
use minidos.Common.{
  ℕ, ◌<◌, ◌≡◌, ◌≢◌, ◌⊎◌, sym, ◌∙◌, Bool, true, false, some, List, get_or, set, map, length,
  length-set, length-map, get_or-set_self, get_or-set_ne, get_or-map, ℕ_discrete, arith, ◌||◌,
}
use minidos.Process.{
  Process, ProcessState, ready, running, is_ready, is_running, is_blocked, zero_process,
}
use minidos.Process.Slots.{HasStack}
use minidos.Scheduler.{Sched, slot}

-- A process that will be, or may become, a candidate for the processor.
abbrev pub is_waiting : ProcessState → Bool
is_waiting st = is_ready st || is_blocked st

-- What holds of slot `i` where `c` is the current index; `c = 8` says that no process is current.
pub record SlotOk (c i : ℕ) (p : Process) : Type 0 where
  pub numbered : p.pid ≡ i
  pub sole : (is_running p.state ≡ false) ⊎ (i ≡ c)
  pub resumable : (is_waiting p.state ≡ false) ⊎ (i ≡ c) ⊎ (0 < p.irq_frame)
  pub idle_live : (i ≢ 1) ⊎ (p.state ≡ ready) ⊎ (p.state ≡ running)
  pub stacked : (i ≡ 0) ⊎ HasStack i p

pub record SlotsOk (c : ℕ) (slots : List Process) : Type 0 where
  pub size : length slots ≡ 8
  pub each : (i : ℕ) → i < 8 → SlotOk c i (get_or slots i zero_process)

-- The runtime is up and `c` is the current process.
pub record IsValidAt (s : Sched) (c : ℕ) : Type 0 where
  pub started : s.runtime_ready ≡ true
  pub now : s.current ≡ some c
  pub in_range : c < 8
  pub table : SlotsOk c s.slots

abbrev pub IsValid : Sched → Type 0
IsValid s = (c : ℕ) × IsValidAt s c

-- At most one process runs, and it is the current one.
running_is_current :
    {s : Sched} {c : ℕ} (i : ℕ) → IsValidAt s c → i < 8 → (slot s i).state ≡ running → i ≡ c
running_is_current i v h r = ground (arith, v.table.each i h)

module _ (c : ℕ) {slots : List Process} (ok : SlotsOk c slots) where
  -- A slot is given anew, and the current process stays or is another one.
  set-each :
      (d i : ℕ) (p : Process)
      → i < 8
      → SlotOk d i p
      → ((j : ℕ) → j < 8 → j ≢ i → SlotOk d j (get_or slots j zero_process))
      → (j : ℕ) → j < 8
      → SlotOk d j (get_or (set slots i p) j zero_process)
  set-each d i p h q others j k = elim (ℕ_discrete i j) [
    | yes e ↦ rw (← e, get_or-set_self slots i p zero_process (omega (arith, ok.size))) q
    | no ne ↦ rw (get_or-set_ne slots i j p zero_process ne) (others j k (λ e. ne (sym e)))
  ]

  pub set-SlotsOk : (i : ℕ) (p : Process) → i < 8 → SlotOk c i p → SlotsOk c (set slots i p)
  set-SlotsOk i p h q = record {
    size = length-set slots i p ∙ ok.size;
    each = set-each c i p h q (λ j k ne. ok.each j k);
  }

  -- The current process is put aside: no process is current.
  pub suspend-SlotsOk : (p : Process) → c < 8 → SlotOk 8 c p → SlotsOk 8 (set slots c p)
  suspend-SlotsOk p h q = record {
    size = length-set slots c p ∙ ok.size;
    each = set-each 8 c p h q (λ j k ne. ground (arith, ok.each j k));
  }

-- A process becomes current where none was.
pub activate-SlotsOk :
    {slots : List Process} (i : ℕ) (p : Process)
    → SlotsOk 8 slots
    → i < 8
    → SlotOk i i p
    → SlotsOk i (set slots i p)
activate-SlotsOk {slots} i p ok h q = record {
  size = length-set slots i p ∙ ok.size;
  each = set-each 8 ok i i p h q (λ j k ne. ground (arith, ok.each j k));
}

pub map-SlotsOk :
    (f : Process → Process) (c : ℕ) {slots : List Process}
    → ((i : ℕ) (p : Process) → SlotOk c i p → SlotOk c i (f p))
    → SlotsOk c slots
    → SlotsOk c (map f slots)
map-SlotsOk f c {slots} keep ok = record {
  size = length-map f slots ∙ ok.size;
  each = λ i h.
      rw (get_or-map f slots i zero_process zero_process (omega (arith, ok.size)))
        (keep i (get_or slots i zero_process) (ok.each i h));
}
