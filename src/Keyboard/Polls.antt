-- ===== src/Keyboard/Polls.antt =====
-- src/kernel/input/keyboard.c: what the readers of the keyboard see, and the runs of the driver.
use minidos.Common.{
  ℕ, ◌≡◌, inl, inr, refl, sym, ap, ◌∙◌, Bool, true, false, not, Option, some, none, List, [], ◌∷◌,
  ◌==◌, if◌then◌else◌, arith, length, Bool-cases,
}
use minidos.Timer.{Timer}
use minidos.Keyboard.{Keyboard, pop_char, allow_poll_fallback}
use minidos.Keyboard.Decode.{process_scancode}
use minidos.Keyboard.Input.{
  Ports, key_ready, handle_irq, track_scancode, break_event, poll_one_char, report_fallback,
  try_get_char, has_input, or_polled, keep_polled, keyboard_init, keyboard_flush, set_irq_mode,
}
use minidos.Keyboard.Ring.{
  IsValid, contents, push_spec, pop_spec, ring_from-empty, ring_from-next, contents-push_char,
  contents-pop_char, push_char-IsValid, pop_char-IsValid, ring_from,
}
use minidos.Keyboard.Events.{
  SameRing, SameRing-trans, SameRing-contents, SameRing-IsValid, process_scancode-SameRing,
  accept_char-SameRing, handle_irq-IsValid,
}

report_fallback-SameRing :
    (k : Keyboard) (r : Keyboard × Option ℕ) → SameRing k r.0 → SameRing k (report_fallback r).0
report_fallback-SameRing k (k', none) h = h
report_fallback-SameRing k (k', some c) h = ground arith

SameRing-self : (k : Keyboard) → SameRing k k
SameRing-self k = record { key_buffer = refl; key_head = refl; key_tail = refl }

-- A poll does not touch the queue.
pub poll_one_char-SameRing :
    (k : Keyboard) (t : Timer) (p : Ports) → SameRing k (poll_one_char k t p).0
unfolding poll_one_char
poll_one_char-SameRing k t p = elim (Bool-cases (allow_poll_fallback k t)) [
  | inr e ↦ rw e (SameRing-self k)
  | inl e ↦ rw e (elim (Bool-cases (key_ready p)) [
    | inr f ↦ rw f (SameRing-self k)
    | inl f ↦ rw f (
        report_fallback-SameRing k _ (
          SameRing-trans k (process_scancode k p.byte).0 _ (process_scancode-SameRing k p.byte) (
            accept_char-SameRing (process_scancode k p.byte).0 t (process_scancode k p.byte).1
              p.byte k.extended_code (break_event k p.byte) (track_scancode k p.byte))))
  ])
]

abbrev pub is_nonempty : List ℕ → Bool
is_nonempty [] = false
is_nonempty (c ∷ q) = true

-- The queue is empty exactly where the two indices meet.
empty_lem : (k : Keyboard) → IsValid k → is_nonempty (contents k) ≡ not (k.key_tail == k.key_head)
unfolding contents ring_from
empty_lem k v = ground (
  arith,
  ring_from-empty k.key_buffer k.key_head k.key_tail,
  ring_from-next k.key_buffer k.key_head k.key_tail,
)

push_spec_nonempty :
    (q : List ℕ) (c : ℕ) → is_nonempty q ≡ false → is_nonempty (push_spec q c) ≡ true
unfolding push_spec
push_spec_nonempty [] c h = refl
push_spec_nonempty (d ∷ q) c h = cc

keep_polled_lem :
    (k k' : Keyboard) (o : Option ℕ)
    → IsValid k
    → SameRing k k'
    → is_nonempty (contents k) ≡ false
    → (keep_polled (k', o)).1 ≡ is_nonempty (contents (keep_polled (k', o)).0)
keep_polled_lem k k' none v h e = sym e ∙ ap is_nonempty (sym (SameRing-contents k k' h))
keep_polled_lem k k' (some c) v h e =
    sym (push_spec_nonempty (contents k') c (ap is_nonempty (SameRing-contents k k' h) ∙ e))
    ∙ ap is_nonempty (sym (contents-push_char k' c (SameRing-IsValid k k' h v)))

-- In a valid state `keyboard_has_input` says yes exactly where a character waits in the queue
-- afterwards, so that a character which its poll took from the controller is not lost.
has_input_lem :
    (k : Keyboard) (t : Timer) (p : Ports)
    → IsValid k
    → (has_input k t p).1 ≡ is_nonempty (contents (has_input k t p).0)
unfolding has_input
has_input_lem k t p v = elim (Bool-cases (k.key_tail == k.key_head)) [
  | inr e ↦ rw e (sym (empty_lem k v ∙ ap not e))
  | inl e ↦ rw e (
      keep_polled_lem k (poll_one_char k t p).0 (poll_one_char k t p).1 v
        (poll_one_char-SameRing k t p) (empty_lem k v ∙ ap not e))
]

no_pop :
    (q q' : List ℕ) (o : Option ℕ)
    → pop_spec q ≡ (q', none)
    → (q, o) ≡ (if is_nonempty q then pop_spec q else (q, o))
unfolding pop_spec
no_pop [] q' o h = refl
no_pop (c ∷ q) q' o h = cc

some_pop :
    (q q' : List ℕ) (c : ℕ) (o : Option ℕ)
    → pop_spec q ≡ (q', some c)
    → (q', some c) ≡ (if is_nonempty q then pop_spec q else (q, o))
unfolding pop_spec
some_pop [] q' c o h = cc
some_pop (d ∷ q) q' c o h = sym h

or_polled_lem :
    (k : Keyboard) (r polled : Keyboard × Option ℕ)
    → pop_spec (contents k) ≡ (contents r.0, r.1)
    → contents polled.0 ≡ contents k
    → (contents (or_polled r polled).0, (or_polled r polled).1)
      ≡ (if is_nonempty (contents k) then pop_spec (contents k) else (contents k, polled.1))
unfolding pop_spec
or_polled_lem k (k', none) (k'', o) h g = ap (λ q. (q, o)) g ∙ no_pop (contents k) (contents k') o h
or_polled_lem k (k', some c) (k'', o) h g = some_pop (contents k) (contents k') c o h

-- In a valid state `keyboard_try_get_char` takes the character that has waited longest, and keeps
-- the order of the others; where none waits it gives what a poll brings and leaves the queue empty.
try_get_char_lem :
    (k : Keyboard) (t : Timer) (p : Ports)
    → IsValid k
    → (contents (try_get_char k t p).0, (try_get_char k t p).1) ≡ (
        if is_nonempty (contents k)
        then pop_spec (contents k)
        else (contents k, (poll_one_char k t p).1))
unfolding try_get_char
try_get_char_lem k t p v =
    or_polled_lem k (pop_char k) (poll_one_char k t p) (contents-pop_char k v)
      (SameRing-contents k (poll_one_char k t p).0 (poll_one_char-SameRing k t p))

-- The calls and interrupts that change the keyboard.
pub data Op : Type 0 where
  irq poll ask : Timer → Ports → Op
  flush : Op
  irq_mode : Bool → Op

unfoldable pub perform : Op → Keyboard → Keyboard
perform (irq t p) k = handle_irq k t p
perform (poll t p) k = (try_get_char k t p).0
perform (ask t p) k = (has_input k t p).0
perform flush k = keyboard_flush k
perform (irq_mode b) k = set_irq_mode k b

unfoldable pub perform_all : List Op → Keyboard → Keyboard
unfolding perform
perform_all [] k = k
perform_all (o ∷ os) k = perform_all os (perform o k)

or_polled-IsValid :
    (r p : Keyboard × Option ℕ) → IsValid r.0 → IsValid p.0 → IsValid (or_polled r p).0
or_polled-IsValid (k, none) p v w = w
or_polled-IsValid (k, some c) p v w = v

keep_polled-IsValid : (r : Keyboard × Option ℕ) → IsValid r.0 → IsValid (keep_polled r).0
keep_polled-IsValid (k, none) v = v
keep_polled-IsValid (k, some c) v = push_char-IsValid k c v

has_input-IsValid : (k : Keyboard) (t : Timer) (p : Ports) → IsValid k → IsValid (has_input k t p).0
unfolding has_input
has_input-IsValid k t p v = elim (Bool-cases (k.key_tail == k.key_head)) [
  | inr e ↦ rw e v
  | inl e ↦ rw e (
      keep_polled-IsValid (poll_one_char k t p)
        (SameRing-IsValid k (poll_one_char k t p).0 (poll_one_char-SameRing k t p) v))
]

perform-IsValid : (o : Op) (k : Keyboard) → IsValid k → IsValid (perform o k)
unfolding perform try_get_char keyboard_flush set_irq_mode
perform-IsValid (irq t p) k v = handle_irq-IsValid k t p v
perform-IsValid (poll t p) k v =
    or_polled-IsValid (pop_char k) (poll_one_char k t p) (pop_char-IsValid k v)
      (SameRing-IsValid k (poll_one_char k t p).0 (poll_one_char-SameRing k t p) v)
perform-IsValid (ask t p) k v = has_input-IsValid k t p v
perform-IsValid flush k v = ground arith
perform-IsValid (irq_mode b) k v = ground arith

perform_all-IsValid : (os : List Op) (k : Keyboard) → IsValid k → IsValid (perform_all os k)
unfolding perform_all
perform_all-IsValid [] k v = v
perform_all-IsValid (o ∷ os) k v = perform_all-IsValid os (perform o k) (perform-IsValid o k v)

-- From an initialised driver with its 128-byte buffer, whatever interrupts and calls come, in any
-- order, the indices stay within the buffer.
pub keyboard_init-IsValid :
    (k : Keyboard) (command_byte : ℕ) (os : List Op)
    → length k.key_buffer ≡ 128
    → IsValid (perform_all os (keyboard_init k command_byte))
unfolding keyboard_init
keyboard_init-IsValid k command_byte os size =
    perform_all-IsValid os (keyboard_init k command_byte) (ground arith)
