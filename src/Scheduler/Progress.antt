-- ===== src/Scheduler/Progress.antt =====
-- Repeated switches of src/kernel/process/scheduler.c: a ready process gets its turn.
use minidos.Common.{
  ℕ, ◌≤◌, ◌<◌, ◌≡◌, ◌≢◌, ◌⊎◌, inl, inr, refl, sym, subst, ap, ◌∙◌, some, List, [], ◌∷◌, ◌++◌, ◌==◌,
  length, ℕ_discrete, Bool-cases, arith,
}
use minidos.Process.{Process, ready, running, idle_pid}
use minidos.Scheduler.{Linkage, Sched, slot}
use minidos.Scheduler.Invariant.{IsValidAt}
use minidos.Scheduler.Pick.{pick_next_lem, distance, pick_next_progress}
use minidos.Scheduler.Switch.{activate_slot, switch_to, save_frame, switch_from_frame}
use minidos.Scheduler.Steps.{switch_from_frame-IsValid}
use minidos.Scheduler.Resume.{
  Switched, saved_ok, saved_other, switch_from_frame_lem, switch_from_frame-Switched,
}

-- One switch after another, the interrupted frames given in order.
unfoldable pub switches : Linkage → List ℕ → Sched → Sched
switches l [] s = s
switches l (f ∷ fs) s = switches l fs (switch_from_frame l s f).0

abbrev pub AllNonzero : List ℕ → Type 0
AllNonzero [] = Unit {0}
AllNonzero (f ∷ fs) = (0 < f) × AllNonzero fs

-- A ready process other than the current and the idle one.
pub record Waits (s : Sched) (c i : ℕ) : Type 0 where
  pub in_range : i < 8
  pub not_current : i ≢ c
  pub not_idle : i ≢ idle_pid
  pub is_ready : (slot s i).state ≡ ready

switch_to-current :
    (l : Linkage) (s : Sched) (c n : ℕ)
    → s.current ≡ some c
    → (switch_to l s c (some n)).0.current ≡ some n
unfolding switch_to activate_slot
switch_to-current l s c n now = elim (Bool-cases (n == c)) [
  | inl e ↦ rw e (now ∙ ap (λ k. some k) (ground arith))
  | inr e ↦ rw e refl
]

module _ (l : Linkage) {s : Sched} {c : ℕ} (v : IsValidAt s c) (frame i : ℕ) (w : Waits s c i) where
  saved_ready : (slot (save_frame s c frame) i).state ≡ ready
  saved_ready = ap (λ (p : Process). p.state) (saved_other l v frame i w.not_current) ∙ w.is_ready

  -- A switch makes the process current, or another one that is nearer to it.
  switch_nearer :
      (n : ℕ) × ((switch_from_frame l s frame).0.current ≡ some n)
      × ((n ≡ i) ⊎ (distance n i < distance c i))
  switch_nearer =
      let (n, e, pk) = pick_next_lem (saved_ok l v frame) in
      (
        n,
        ap (λ (r : Sched × ℕ). r.0.current) (switch_from_frame_lem l v frame n e)
            ∙ switch_to-current l (save_frame s c frame) c n v.now,
        pick_next_progress i (saved_ok l v frame) w.in_range w.not_current w.not_idle saved_ready e,
      )

  other_kept :
      {t : Sched} {r n : ℕ}
      → Switched l s c frame (t, r)
      → t.current ≡ some n
      → i ≢ n
      → slot t i ≡ slot s i
  other_kept (inl st) now apart = st.others i w.not_current
  other_kept {n = n} (inr (m, go)) now apart =
      let same : some m ≡ some n = sym go.current ∙ now in go.others i w.not_current (λ e. apart cc)

  its_turn :
      {t : Sched} {r : ℕ}
      → Switched l s c frame (t, r)
      → t.current ≡ some i
      → (slot t i).state ≡ running
  its_turn (inl st) now =
      let same : some c ≡ some i = sym st.current ∙ now in absurd (w.not_current cc)
  its_turn {t} (inr (m, go)) now =
      let same : some m ≡ some i = sym go.current ∙ now in
      let here : m ≡ i = cc in subst (λ k. (slot t k).state ≡ running) here go.runs

-- The switches up to the one that makes process `i` current: no more than `limit` of them.
pub record Turn (l : Linkage) (fs : List ℕ) (s : Sched) (i limit : ℕ) : Type 0 where
  pub before : List ℕ
  pub rest : List ℕ
  pub split : fs ≡ before ++ rest
  pub soon : length before ≤ limit
  pub current : (switches l before s).current ≡ some i
  pub runs : (slot (switches l before s) i).state ≡ running

come_around :
    (l : Linkage) (fs : List ℕ) (s : Sched) (c i : ℕ)
    → IsValidAt s c
    → Waits s c i
    → AllNonzero fs
    → distance c i ≤ length fs
    → Turn l fs s i (distance c i)
unfolding switches
come_around l [] s c i v w nz enough = absurd (omega (arith, v.in_range, w.in_range, w.not_current))
come_around l (f ∷ fs) s c i v w (fr, nz) enough =
    let t : Sched = (switch_from_frame l s f).0 in
    let (n, now, near) = switch_nearer l v f i w in
    let did = switch_from_frame-Switched l v f in
    elim (ℕ_discrete n i) [
      | yes e ↦
          let turn : t.current ≡ some i = now ∙ ap (λ k. some k) e in
          record {
            before = f ∷ [];
            rest = fs;
            split = refl;
            soon = omega (arith, v.in_range, w.in_range, w.not_current);
            current = turn;
            runs = its_turn l v f i w did turn;
          }
      | no apart ↦
          let ne : i ≢ n = λ e. apart (sym e) in
          let less : distance n i < distance c i = elim near [
            | inl e ↦ absurd (apart e)
            | inr d ↦ d
          ] in
          let (m, ok) = switch_from_frame-IsValid l c s f fr v in
          let same : m ≡ n = cc in
          let next =
            come_around l fs t n i (subst (λ k. IsValidAt t k) same ok)
              (record {
                in_range = w.in_range;
                not_current = ne;
                not_idle = w.not_idle;
                is_ready =
                    ap (λ (p : Process). p.state) (other_kept l v f i w did now ne) ∙ w.is_ready;
              })
              nz (omega (arith, less)) in
          record {
            before = f ∷ next.before;
            rest = next.rest;
            split = ap (λ u. f ∷ u) next.split;
            soon = omega (arith, next.soon, less);
            current = next.current;
            runs = next.runs;
          }
    ]

-- Where the scheduler switches again and again from a valid state, each time at some interrupted
-- frame and with no other step between, a process that is ready, and is neither the current nor the
-- idle one, is current and runs after at most seven switches.
pub switches-Turn :
    (l : Linkage) (fs : List ℕ) {s : Sched} {c : ℕ} (i : ℕ)
    → IsValidAt s c
    → Waits s c i
    → AllNonzero fs
    → 7 ≤ length fs
    → Turn l fs s i 7
switches-Turn l fs {s} {c} i v w nz enough =
    let turn = come_around l fs s c i v w nz (omega arith) in
    record {
      before = turn.before;
      rest = turn.rest;
      split = turn.split;
      soon = omega (arith, turn.soon);
      current = turn.current;
      runs = turn.runs;
    }
