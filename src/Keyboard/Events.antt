-- ===== src/Keyboard/Events.antt =====
-- src/kernel/input/keyboard.c: what an interrupt and a poll do to the queue of characters.
use minidos.Common.{
  ℕ, ◌≡◌, inl, inr, refl, ap, ◌∙◌, Bool, Option, some, none, List, if◌then◌else◌, arith, Bool-cases,
}
use minidos.Timer.{Timer}
use minidos.Keyboard.{Keyboard, is_duplicate_make}
use minidos.Keyboard.Decode.{
  process_scancode, process_scancode_set1, process_scancode_set2, plain_set1, plain_set2,
  extended_set1, extended_set2,
}
use minidos.Keyboard.Input.{
  Ports, key_ready, note_irq, accept_char, push_option, handle_irq, track_scancode, break_event,
}
use minidos.Keyboard.Ring.{IsValid, contents, push_spec, contents-push_char, push_char-IsValid}

-- The ring is left alone.
pub record SameRing (k k' : Keyboard) : Type 0 where
  pub key_buffer : k'.key_buffer ≡ k.key_buffer
  pub key_head : k'.key_head ≡ k.key_head
  pub key_tail : k'.key_tail ≡ k.key_tail

extended_set1-SameRing : (k : Keyboard) (s : ℕ) → SameRing k (extended_set1 k s).0
unfolding extended_set1
extended_set1-SameRing k s = ground arith

plain_set1-SameRing : (k : Keyboard) (s : ℕ) → SameRing k (plain_set1 k s).0
unfolding plain_set1
plain_set1-SameRing k s = ground arith

extended_set2-SameRing : (k : Keyboard) (s : ℕ) → SameRing k (extended_set2 k s).0
unfolding extended_set2
extended_set2-SameRing k s = ground arith

plain_set2-SameRing : (k : Keyboard) (s : ℕ) → SameRing k (plain_set2 k s).0
unfolding plain_set2
plain_set2-SameRing k s = ground arith

process_scancode_set1-SameRing : (k : Keyboard) (s : ℕ) → SameRing k (process_scancode_set1 k s).0
unfolding process_scancode_set1
process_scancode_set1-SameRing k s =
    ground (arith, extended_set1-SameRing k s, plain_set1-SameRing k s)

process_scancode_set2-SameRing : (k : Keyboard) (s : ℕ) → SameRing k (process_scancode_set2 k s).0
unfolding process_scancode_set2
process_scancode_set2-SameRing k s =
    ground (arith, extended_set2-SameRing k s, plain_set2-SameRing k s)

pub process_scancode-SameRing : (k : Keyboard) (s : ℕ) → SameRing k (process_scancode k s).0
unfolding process_scancode
process_scancode-SameRing k s =
    ground (arith, process_scancode_set1-SameRing k s, process_scancode_set2-SameRing k s)

is_duplicate_make-SameRing :
    (k : Keyboard) (t : Timer) (s : ℕ) (e b : Bool) → SameRing k (is_duplicate_make k t s e b).0
unfolding is_duplicate_make
is_duplicate_make-SameRing k t s e b = ground arith

pub accept_char-SameRing :
    (k : Keyboard) (t : Timer) (c s : ℕ) (e b r : Bool) → SameRing k (accept_char k t c s e b r).0
unfolding accept_char
accept_char-SameRing k t c s e b r = ground (arith, is_duplicate_make-SameRing k t s e b)

note_irq-SameRing : (k : Keyboard) (t : Timer) → SameRing k (note_irq k t)
unfolding note_irq
note_irq-SameRing k t = record { key_buffer = refl; key_head = refl; key_tail = refl }

pub SameRing-trans : (k k' k'' : Keyboard) → SameRing k k' → SameRing k' k'' → SameRing k k''
SameRing-trans k k' k'' h g = ground arith

pub SameRing-contents : (k k' : Keyboard) → SameRing k k' → contents k' ≡ contents k
unfolding contents
SameRing-contents k k' h = ground arith

pub SameRing-IsValid : (k k' : Keyboard) → SameRing k k' → IsValid k → IsValid k'
SameRing-IsValid k k' h v = ground arith

-- What an interrupt does before it pushes: the new state and the character.
abbrev pub irq_result : Keyboard → Timer → Ports → Keyboard × Option ℕ
irq_result k t p =
    accept_char (note_irq (process_scancode k p.byte).0 t) t (process_scancode k p.byte).1 p.byte
      k.extended_code (break_event k p.byte) (track_scancode k p.byte)

pub irq_result-SameRing : (k : Keyboard) (t : Timer) (p : Ports) → SameRing k (irq_result k t p).0
irq_result-SameRing k t p =
    let k1 : Keyboard = (process_scancode k p.byte).0 in
    SameRing-trans k k1 (irq_result k t p).0 (process_scancode-SameRing k p.byte) (
      SameRing-trans k1 (note_irq k1 t) (irq_result k t p).0 (note_irq-SameRing k1 t) (
        accept_char-SameRing (note_irq k1 t) t (process_scancode k p.byte).1 p.byte k.extended_code
          (break_event k p.byte) (track_scancode k p.byte)))

-- A queue with what came, if anything.
pub push_some : List ℕ → Option ℕ → List ℕ
push_some q none = q
push_some q (some c) = push_spec q c

push_option-contents :
    (k k' : Keyboard) (o : Option ℕ)
    → IsValid k
    → SameRing k k'
    → contents (push_option (k', o)) ≡ push_some (contents k) o
unfolding push_some
push_option-contents k k' none v h = SameRing-contents k k' h
push_option-contents k k' (some c) v h =
    contents-push_char k' c (SameRing-IsValid k k' h v)
    ∙ ap (λ q. push_spec q c) (SameRing-contents k k' h)

push_option-IsValid : (k : Keyboard) (o : Option ℕ) → IsValid k → IsValid (push_option (k, o))
push_option-IsValid k none v = v
push_option-IsValid k (some c) v = push_char-IsValid k c v

pub handle_irq-contents :
    (k : Keyboard) (t : Timer) (p : Ports)
    → IsValid k
    → contents (handle_irq k t p)
      ≡ (if key_ready p then push_some (contents k) (irq_result k t p).1 else contents k)
unfolding handle_irq
handle_irq-contents k t p v = elim (Bool-cases (key_ready p)) [
  | inl e ↦ rw e (
      push_option-contents k (irq_result k t p).0 (irq_result k t p).1 v
        (irq_result-SameRing k t p))
  | inr e ↦ rw e refl
]

pub handle_irq-IsValid :
    (k : Keyboard) (t : Timer) (p : Ports) → IsValid k → IsValid (handle_irq k t p)
unfolding handle_irq
handle_irq-IsValid k t p v = elim (Bool-cases (key_ready p)) [
  | inl e ↦ rw e (
      push_option-IsValid (irq_result k t p).0 (irq_result k t p).1
        (SameRing-IsValid k (irq_result k t p).0 (irq_result-SameRing k t p) v))
  | inr e ↦ rw e v
]
