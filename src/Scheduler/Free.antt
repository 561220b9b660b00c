-- ===== src/Scheduler/Free.antt =====
-- The search for a free slot, `sched_find_free_slot_from` of src/kernel/process/scheduler.c.
use minidos.Common.{
  ℕ, zero, suc, ◌+◌, ◌≤◌, ◌<◌, ◌≡◌, inl, inr, true, false, Option, some, none, List, get_or,
  Bool-cases, arith, ℕ_discrete,
}
use minidos.Process.{Process, is_free, zero_process}
use minidos.Scheduler.{find_free_from}

-- What the search for a free slot finds.
pub data Free (slots : List Process) (a b : ℕ) : Option ℕ → Type 0 where
  found :
      (i : ℕ)
      → a ≤ i
      → i < b
      → is_free (get_or slots i zero_process).state ≡ true
      → ((j : ℕ) → a ≤ j → j < i → is_free (get_or slots j zero_process).state ≡ false)
      → Free slots a b (some i)
  full :
      ((j : ℕ) → a ≤ j → j < b → is_free (get_or slots j zero_process).state ≡ false)
      → Free slots a b none

module _ (slots : List Process) where
  busy_before :
      (a b : ℕ)
      → is_free (get_or slots a zero_process).state ≡ false
      → ((j : ℕ) → a + 1 ≤ j → j < b → is_free (get_or slots j zero_process).state ≡ false)
      → (j : ℕ) → a ≤ j
      → j < b
      → is_free (get_or slots j zero_process).state ≡ false
  busy_before a b h rest j lo hi = elim (ℕ_discrete a j) [
    | yes e ↦ rw (← e) h
    | no ne ↦ rest j (omega arith) hi
  ]

  Free-widen :
      (a n : ℕ) {o : Option ℕ}
      → is_free (get_or slots a zero_process).state ≡ false
      → Free slots (a + 1) (a + 1 + n) o
      → Free slots a (a + suc n) o
  Free-widen a n h (found i lo hi y rest) =
      found i (omega arith) (omega arith) y (busy_before a i h rest)
  Free-widen a n h (full rest) =
      full (λ j lo hi. busy_before a (a + 1 + n) h rest j lo (omega arith))

  pub find_free_from-Free : (n a : ℕ) → Free slots a (a + n) (find_free_from slots a n)
  unfolding find_free_from
  find_free_from-Free zero a = full (λ j lo hi. absurd (omega arith))
  find_free_from-Free (suc n) a = elim (Bool-cases (is_free (get_or slots a zero_process).state)) [
    | inl y ↦
        rw (y, find_free_from)
          (found a (omega arith) (omega arith) y (λ j lo hi. absurd (omega arith)))
    | inr y ↦ rw (y, find_free_from) (Free-widen a n y (find_free_from-Free n (a + 1)))
  ]
