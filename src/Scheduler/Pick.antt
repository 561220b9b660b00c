-- ===== src/Scheduler/Pick.antt =====
-- The choice of the next process, `sched_pick_next` of src/kernel/process/scheduler.c, against a
-- round-robin specification.
use minidos.Common.{
  ℕ, zero, suc, ◌+◌, ◌-◌, ◌%◌, ◌≤◌, ◌<◌, ◌≡◌, ◌≢◌, ◌⊎◌, inl, inr, refl, Bool, true, false, not,
  ◌&&◌, Option, some, none, List, ◌==◌, if◌then◌else◌, get_or, Bool-cases, arith, ℕ_discrete,
  dec_lt, sym, ◌∙◌,
}
use mathlib.Core.Bool.{false≢true}
use minidos.Process.{Process, is_ready, is_running, idle_pid, zero_process, ready, running}
use minidos.Scheduler.{Sched, slot, find_ready_from, find_ready_non_idle, pick_idle, pick_next}
use minidos.Scheduler.Invariant.{IsValidAt}

-- A process that the round robin may choose.
abbrev pub is_candidate : List Process → ℕ → Bool
is_candidate slots i = not (i == idle_pid) && is_ready (get_or slots i zero_process).state

-- No step from `a` up to `b` from slot `c` leads to a candidate.
abbrev pub NoneBetween : List Process → ℕ → ℕ → ℕ → Type 0
NoneBetween slots c a b = (j : ℕ) → a ≤ j → j < b → is_candidate slots ((c + j) % 8) ≡ false

-- The process that follows slot `c`.
pub data Picks (slots : List Process) (c n : ℕ) : Type 0 where
  -- the first ready process after the current one, going round, the idle process left out
  next_ready :
      (k : ℕ)
      → 1 ≤ k
      → k < 8
      → n ≡ (c + k) % 8
      → is_candidate slots n ≡ true
      → NoneBetween slots c 1 k
      → Picks slots c n
  -- the current process itself, if it is the only one that can go on
  same :
      NoneBetween slots c 1 8
      → n ≡ c
      → (get_or slots c zero_process).state ≡ running
      → Picks slots c n
  -- the idle process, if no other can go on
  idle :
      NoneBetween slots c 1 8
      → is_running (get_or slots c zero_process).state ≡ false
      → n ≡ idle_pid
      → Picks slots c n

-- What a scan from step `a` up to `b` finds.
data Scan (slots : List Process) (c a b : ℕ) : Option ℕ → Type 0 where
  hit :
      (k n : ℕ)
      → a ≤ k
      → k < b
      → n ≡ (c + k) % 8
      → is_candidate slots n ≡ true
      → NoneBetween slots c a k
      → Scan slots c a b (some n)
  miss : NoneBetween slots c a b → Scan slots c a b none

none_before :
    (slots : List Process) (c step m : ℕ)
    → is_candidate slots ((c + step) % 8) ≡ false
    → NoneBetween slots c (step + 1) m
    → NoneBetween slots c step m
none_before slots c step m h rest j lo hi = elim (ℕ_discrete step j) [
  | yes e ↦ rw (← e) h
  | no ne ↦ rest j (omega arith) hi
]

widen :
    (slots : List Process) (c step n : ℕ) {r : Option ℕ}
    → is_candidate slots ((c + step) % 8) ≡ false
    → Scan slots c (step + 1) (step + 1 + n) r
    → Scan slots c step (step + suc n) r
widen slots c step n h (hit k m lo hi e y rest) =
    hit k m (omega arith) (omega arith) e y (none_before slots c step k h rest)
widen slots c step n h (miss rest) =
    miss (λ j lo hi. none_before slots c step (step + 1 + n) h rest j lo (omega arith))

module _ (slots : List Process) (c : ℕ) where
  find_ready_step :
      (step n : ℕ)
      → find_ready_from slots c step (suc n) ≡ (
          if is_candidate slots ((c + step) % 8)
          then some ((c + step) % 8)
          else find_ready_from slots c (step + 1) n)
  unfolding find_ready_from
  find_ready_step step n = ground arith

  scan : (n step : ℕ) → Scan slots c step (step + n) (find_ready_from slots c step n)
  unfolding find_ready_from
  scan zero step = miss (λ j lo hi. absurd (omega arith))
  scan (suc n) step = elim (Bool-cases (is_candidate slots ((c + step) % 8))) [
    | inl y ↦
        rw (find_ready_step step n, y)
          (hit step ((c + step) % 8) (omega arith) (omega arith) refl y
            (λ j lo hi. absurd (omega arith)))
    | inr n' ↦ rw (find_ready_step step n, n') (widen slots c step n n' (scan n (step + 1)))
  ]

-- The round robin ends by finding no one only if there is no one to find.
pick_rest :
    (s : Sched) (c : ℕ)
    → IsValidAt s c
    → {r : Option ℕ} → find_ready_non_idle s ≡ r
    → Scan s.slots c 1 8 r
    → (n : ℕ) × (pick_next s ≡ some n) × Picks s.slots c n
unfolding pick_next pick_idle
pick_rest s c v e (hit k n lo hi eq y rest) = (n, rw (e, pick_next), next_ready k lo hi eq y rest)
pick_rest s c v e (miss rest) = elim (Bool-cases (is_running (slot s c).state)) [
  | inl y ↦ (c, ground (arith, v.now), same rest refl ground arith)
  | inr y ↦ (idle_pid, ground (arith, v.now, v.table.each 1), idle rest y refl)
]

-- In a valid state `sched_pick_next` never gives up: it returns the first ready process after the
-- current one in cyclic order, the idle process left out; with none ready the current process if
-- it runs; and the idle process otherwise.
pub pick_next_lem :
    {s : Sched} {c : ℕ} → IsValidAt s c → (n : ℕ) × (pick_next s ≡ some n) × Picks s.slots c n
unfolding find_ready_non_idle
pick_next_lem {s} {c} v = pick_rest s c v (rw v.now) (scan s.slots c 7 1)

pub Picks-lt : {slots : List Process} {c n : ℕ} → c < 8 → Picks slots c n → n < 8
Picks-lt h (next_ready k lo hi eq y rest) = omega arith
Picks-lt h (same rest e r) = omega arith
Picks-lt h (idle rest r e) = omega arith

pub pick_next-lt : {s : Sched} {c n : ℕ} → IsValidAt s c → pick_next s ≡ some n → n < 8
pick_next-lt {s} {c} {n} v e =
    ground (arith, Picks-lt v.in_range (pick_next_lem v).2, (pick_next_lem v).1)

-- How far slot `i` is after slot `c`, going round.
abbrev pub distance : ℕ → ℕ → ℕ
distance c i = (i + 8 - c) % 8

come_round :
    (c i : ℕ)
    → c < 8
    → i < 8
    → i ≢ c
    → ((c + distance c i) % 8 ≡ i) × (1 ≤ distance c i) × (distance c i < 8)
come_round c i hc hi ne = omega arith

not_skipped :
    (slots : List Process) {c i m : ℕ}
    → c < 8
    → i < 8
    → i ≢ c
    → is_candidate slots i ≡ true
    → NoneBetween slots c 1 m
    → m ≤ distance c i
not_skipped slots {c} {i} {m} hc hi ne y rest = elim (dec_lt (distance c i) m) [
  | yes lt ↦ absurd (contra (rest (distance c i) (come_round c i hc hi ne).1 lt))
  | no ge ↦ omega arith
]
  where
    contra : is_candidate slots ((c + distance c i) % 8) ≡ false → ⊥
    contra h =
        let e : is_candidate slots i ≡ false = rw (come_round c i hc hi ne).0 at h in
        false≢true (sym e ∙ y)

Picks-nearer :
    {slots : List Process} {c n i : ℕ}
    → c < 8
    → i < 8
    → i ≢ c
    → is_candidate slots i ≡ true
    → Picks slots c n
    → (n ≡ i) ⊎ (distance n i < distance c i)
Picks-nearer {slots} {c} {n} {i} hc hi ne y (next_ready k lo hk eq w rest) =
    omega (arith, not_skipped slots hc hi ne y rest)
Picks-nearer {slots} {c} {n} {i} hc hi ne y (same rest e r) =
    omega (arith, not_skipped slots hc hi ne y rest)
Picks-nearer {slots} {c} {n} {i} hc hi ne y (idle rest r e) =
    omega (arith, not_skipped slots hc hi ne y rest)

-- In a valid state where a process other than the current one is ready, and is not the idle
-- process, the choice is that process or comes strictly nearer to it in cyclic order.
pub pick_next_progress :
    {s : Sched} {c n : ℕ} (i : ℕ)
    → IsValidAt s c
    → i < 8
    → i ≢ c
    → i ≢ idle_pid
    → (slot s i).state ≡ ready
    → pick_next s ≡ some n
    → (n ≡ i) ⊎ (distance n i < distance c i)
pick_next_progress {s} {c} {n} i v h ne ni r e = near (pick_next_lem v)
  where
    near :
        (m : ℕ) × (pick_next s ≡ some m) × Picks s.slots c m
        → (n ≡ i) ⊎ (distance n i < distance c i)
    near (m, em, pk) =
        let same : m ≡ n = cc in rw (← same) (Picks-nearer v.in_range h ne (ground arith) pk)
