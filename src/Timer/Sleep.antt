-- ===== src/Timer/Sleep.antt =====
-- What `timer_sleep_ticks` of src/kernel/time/timer.c waits for.
use minidos.Common.{
  ℕ, zero, suc, ◌+◌, ◌^◌, ◌≤◌, ◌<◌, ap, true, List, [], ◌∷◌, ◌++◌, ◌≡◌, refl, sym, ◌∙◌, subst,
  Option, some, arith, ltb, if◌then◌else◌, sub32, add32, Bool-cases, inl, inr,
}
use minidos.Timer.{Timer, timer_on_tick, pass, sleep_loop, timer_sleep_ticks}
use minidos.Timer.Laws.{IsValid}

abbrev pub total : List ℕ → ℕ
total [] = 0
total (k ∷ ks) = k + total ks

-- The timer `k` ticks later.
unfoldable pub advance : ℕ → Timer → Timer
advance k t = record t { ticks = add32 t.ticks k }

pass_lem : (k : ℕ) (t : Timer) → t.ready ≡ true → t.ticks < 2 ^ 32 → pass k t ≡ advance k t
unfolding pass advance timer_on_tick
pass_lem zero t r lt = ground arith
pass_lem (suc k) t r lt =
    let next = pass_lem k (record t { ticks = add32 t.ticks 1 }) r (omega arith) in
    ground (arith, next)

-- The rounds of a sleep of `n` ticks where `e` have passed before: `before` are those after which
-- fewer than `n` have passed, and `last` is the one that completes them.
pub record Rounds (e n : ℕ) (ks before : List ℕ) (last : ℕ) (rest : List ℕ) : Type 0 where
  pub split : ks ≡ before ++ last ∷ rest
  pub short : e + total before < n
  pub reached : n ≤ e + total before + last

-- The outcome of the loop.
abbrev pub Sleeps : ℕ → ℕ → List ℕ → Timer → Option (Timer × List ℕ) → Type 0
Sleeps e n ks t r =
    (before : List ℕ) × (last : ℕ) × (rest : List ℕ) × Rounds e n ks before last rest
    × (r ≡ some (advance (total before + last) t, rest))

-- No round between two readings is so long that the difference of the counters wraps.
abbrev pub IsPaced : ℕ → List ℕ → Type 0
IsPaced n [] = Unit {0}
IsPaced n (k ∷ ks) = (n + k ≤ 2 ^ 32) × IsPaced n ks

advance_add : (j k : ℕ) (t : Timer) → advance k (advance j t) ≡ advance (j + k) t
unfolding advance
advance_add j k t = ap (λ n. record t { ticks = n }) (omega arith)

advance-lt : (k : ℕ) (t : Timer) → (advance k t).ticks < 2 ^ 32
unfolding advance
advance-lt k t = omega arith

elapsed :
    (t : Timer) (start e k : ℕ)
    → t.ticks < 2 ^ 32
    → start < 2 ^ 32
    → e + k < 2 ^ 32
    → sub32 t.ticks start ≡ e
    → sub32 (advance k t).ticks start ≡ e + k
unfolding advance
elapsed t start e k lt ls fits is = omega (arith, is)

advance-ready : (k : ℕ) (t : Timer) → (advance k t).ready ≡ t.ready
unfolding advance
advance-ready k t = refl

-- One round, where `e` ticks have passed before.
sleep_loop_round :
    (k : ℕ) (ks : List ℕ) (t : Timer) (start e n : ℕ)
    → t.ready ≡ true
    → t.ticks < 2 ^ 32
    → sub32 (advance k t).ticks start ≡ e + k
    → sleep_loop (k ∷ ks) t start n
      ≡ (if ltb (e + k) n then sleep_loop ks (advance k t) start n else some (advance k t, ks))
unfolding sleep_loop
sleep_loop_round k ks t start e n r lt now =
    ap (λ u. if ltb (sub32 u.ticks start) n then sleep_loop ks u start n else some (u, ks))
      (pass_lem k t r lt)
    ∙ ap (λ d. if ltb d n then sleep_loop ks (advance k t) start n else some (advance k t, ks)) now

sleep_loop-Sleeps :
    (ks : List ℕ) (t : Timer) (start e n : ℕ)
    → t.ready ≡ true
    → t.ticks < 2 ^ 32
    → start < 2 ^ 32
    → sub32 t.ticks start ≡ e
    → e < n
    → IsPaced n ks
    → n ≤ e + total ks
    → Sleeps e n ks t (sleep_loop ks t start n)
sleep_loop-Sleeps [] t start e n r lt ls is short paced enough = absurd (omega arith)
sleep_loop-Sleeps (k ∷ ks) t start e n r lt ls is short (pace, paced) enough =
    let now = elapsed t start e k lt ls (omega arith) is in
    let round = sleep_loop_round k ks t start e n r lt now in
    elim (Bool-cases (ltb (e + k) n)) [
      | inr over ↦ (
        [],
        k,
        ks,
        record { split = refl; short = omega arith; reached = ground arith },
        round
            ∙ ap (λ b. if b then sleep_loop ks (advance k t) start n else some (advance k t, ks))
                over
            ∙ ap (λ m. some (advance m t, ks)) (omega arith),
      )
      | inl under ↦
          let (before, last, rest, rounds, is_rest) =
            sleep_loop-Sleeps ks (advance k t) start (e + k) n (advance-ready k t ∙ r)
              (advance-lt k t) ls now (ground arith) paced (omega arith) in
          let whole : advance (total before + last) (advance k t)
              ≡ advance (k + total before + last) t =
            advance_add k (total before + last) t ∙ ap (λ m. advance m t) (omega arith) in
          (
            k ∷ before,
            last,
            rest,
            record {
              split = ap (λ l. k ∷ l) rounds.split;
              short = omega (arith, rounds.short);
              reached = omega (arith, rounds.reached);
            },
            round
                ∙ ap
                    (λ b. if b then sleep_loop ks (advance k t) start n else some (advance k t, ks))
                    under
                ∙ is_rest
                ∙ ap (λ u. some (u, rest)) whole,
          )
    ]

sleep_ticks_loop :
    (ks : List ℕ) (t : Timer) (n : ℕ)
    → t.ready ≡ true
    → 0 < n
    → timer_sleep_ticks true ks t n ≡ sleep_loop ks t t.ticks n
unfolding timer_sleep_ticks
sleep_ticks_loop ks t n r pos = ground arith

-- `timer_sleep_ticks` with interrupts on, on a valid timer, returns at the first reading of the
-- counter by which `n` timer interrupts have come, never before that, and leaves the readings after
-- it; whichever of the interrupts come outside of the halt. It does return where so many interrupts
-- come, and where too few to let the 32-bit difference wrap come between two readings.
pub timer_sleep_ticks_lem :
    (ks : List ℕ) (t : Timer) (n : ℕ)
    → IsValid t
    → 0 < n
    → IsPaced n ks
    → n ≤ total ks
    → Sleeps 0 n ks t (timer_sleep_ticks true ks t n)
timer_sleep_ticks_lem ks t n v pos paced enough =
    subst (Sleeps 0 n ks t) (sym (sleep_ticks_loop ks t n v.running pos)) (
      sleep_loop-Sleeps ks t t.ticks 0 n v.running v.ticks_lt v.ticks_lt (omega arith) pos paced
        (omega arith))
