-- ===== src/Keyboard/Ring.antt =====
-- src/kernel/input/keyboard.c: `push_char` and `pop_char` against a queue of at most 127
-- characters.
use minidos.Common.{
  ℕ, zero, suc, ◌+◌, ◌-◌, ◌%◌, ◌<◌, ◌≡◌, ◌≢◌, refl, ap, ap₂, subst, Option, some, none, List, [],
  ◌∷◌, ◌++◌, ltb, if◌then◌else◌, get_or, set, length, length-set, get_or-set_self, get_or-set_ne,
  arith,
}
use minidos.Keyboard.{Keyboard, push_char, pop_char}

pub record IsValid (k : Keyboard) : Type 0 where
  pub buffer_size : length k.key_buffer ≡ 128
  pub head_within : k.key_head < 128
  pub tail_within : k.key_tail < 128

-- The `n` characters from index `i` on, around the end of the buffer.
unfoldable pub ring_from : List ℕ → ℕ → ℕ → List ℕ
ring_from buf i zero = []
ring_from buf i (suc n) = get_or buf i 0 ∷ ring_from buf ((i + 1) % 128) n

-- How many characters wait.
abbrev pub waiting : Keyboard → ℕ
waiting k = (k.key_head + 128 - k.key_tail) % 128

-- The queue that the ring stands for.
unfoldable pub contents : Keyboard → List ℕ
unfolding ring_from
contents k = ring_from k.key_buffer k.key_tail (waiting k)

pub length-ring_from : (buf : List ℕ) (i n : ℕ) → length (ring_from buf i n) ≡ n
unfolding ring_from
length-ring_from buf i zero = refl
length-ring_from buf i (suc n) = ap suc (length-ring_from buf ((i + 1) % 128) n)

-- A write at the free index after `n` characters appends.
ring_from-set :
    (buf : List ℕ) (i n c : ℕ)
    → length buf ≡ 128
    → i < 128
    → n < 127
    → ring_from (set buf ((i + n) % 128) c) i (suc n) ≡ ring_from buf i n ++ c ∷ []
unfolding ring_from
ring_from-set buf i zero c size lt room =
    let here : (i + 0) % 128 ≡ i = omega arith in
    ap (λ x. x ∷ []) (rw here (get_or-set_self buf i c 0 (omega (arith, size))))
ring_from-set buf i (suc n) c size lt room =
    let step : ((i + 1) % 128 + n) % 128 ≡ (i + suc n) % 128 = omega arith in
    ap₂ (λ x xs. x ∷ xs)
      (get_or-set_ne buf ((i + suc n) % 128) i c 0 (λ e. absurd (omega (arith, e))))
      (subst
        (λ j.
          ring_from (set buf j c) ((i + 1) % 128) (suc n)
          ≡ ring_from buf ((i + 1) % 128) n ++ c ∷ [])
        step (ring_from-set buf ((i + 1) % 128) n c size (omega arith) (omega arith)))

-- A full queue drops the character.
unfoldable pub push_spec : List ℕ → ℕ → List ℕ
push_spec q c = if ltb (length q) 127 then q ++ c ∷ [] else q

ring_from-push :
    (buf : List ℕ) (head tail c : ℕ)
    → length buf ≡ 128
    → head < 128
    → tail < 128
    → (head + 1) % 128 ≢ tail
    → ring_from (set buf head c) tail (((head + 1) % 128 + 128 - tail) % 128)
      ≡ ring_from buf tail ((head + 128 - tail) % 128) ++ c ∷ []
ring_from-push buf head tail c size lt lt' room =
    let n : ℕ = (head + 128 - tail) % 128 in
    let more : suc n ≡ ((head + 1) % 128 + 128 - tail) % 128 = omega arith in
    let place : (tail + n) % 128 ≡ head = omega arith in
    subst (λ m. ring_from (set buf head c) tail m ≡ ring_from buf tail n ++ c ∷ []) more
      (subst (λ j. ring_from (set buf j c) tail (suc n) ≡ ring_from buf tail n ++ c ∷ []) place
        (ring_from-set buf tail n c size lt' (omega arith)))

pub length-contents : (k : Keyboard) → length (contents k) ≡ waiting k
unfolding contents
length-contents k = length-ring_from k.key_buffer k.key_tail (waiting k)

-- In a valid state `push_char` appends the character to the queue that the ring stands for, and
-- drops it exactly where 127 characters wait.
pub contents-push_char :
    (k : Keyboard) (c : ℕ) → IsValid k → contents (push_char k c) ≡ push_spec (contents k) c
unfolding contents push_char push_spec
contents-push_char k c v = ground (
  arith,
  length-ring_from k.key_buffer k.key_tail (waiting k),
  ring_from-push k.key_buffer k.key_head k.key_tail c,
)

-- The character that has waited longest, and the others.
unfoldable pub pop_spec : List ℕ → List ℕ × Option ℕ
pop_spec [] = ([], none)
pop_spec (c ∷ q) = (q, some c)

pub ring_from-empty :
    (buf : List ℕ) (head tail : ℕ)
    → head < 128
    → tail ≡ head
    → ring_from buf tail ((head + 128 - tail) % 128) ≡ []
unfolding ring_from
ring_from-empty buf head tail lt e =
    let none_left : (head + 128 - tail) % 128 ≡ 0 = omega (arith, e) in
    ap (ring_from buf tail) none_left

pub ring_from-next :
    (buf : List ℕ) (head tail : ℕ)
    → head < 128
    → tail < 128
    → tail ≢ head
    → ring_from buf tail ((head + 128 - tail) % 128)
      ≡ get_or buf tail 0 ∷ ring_from buf ((tail + 1) % 128) ((head + 128 - (tail + 1) % 128) % 128)
unfolding ring_from
ring_from-next buf head tail lt lt' ne =
    let n : ℕ = (head + 128 - (tail + 1) % 128) % 128 in
    let more : (head + 128 - tail) % 128 ≡ suc n = omega arith in ap (ring_from buf tail) more

-- In a valid state `pop_char` takes the character at the front of the queue and leaves the others
-- in their order; where the queue is empty it gives none and leaves it empty.
pub contents-pop_char :
    (k : Keyboard) → IsValid k → pop_spec (contents k) ≡ (contents (pop_char k).0, (pop_char k).1)
unfolding contents pop_char pop_spec
contents-pop_char k v = ground (
  arith,
  ring_from-empty k.key_buffer k.key_head k.key_tail,
  ring_from-next k.key_buffer k.key_head k.key_tail,
)

pub push_char-IsValid : (k : Keyboard) (c : ℕ) → IsValid k → IsValid (push_char k c)
unfolding push_char
push_char-IsValid k c v = record {
  buffer_size = ground (arith, length-set k.key_buffer k.key_head c);
  head_within = ground arith;
  tail_within = ground arith;
}

pub pop_char-IsValid : (k : Keyboard) → IsValid k → IsValid (pop_char k).0
unfolding pop_char
pop_char-IsValid k v = ground arith
