-- ===== src/Keyboard/Line.antt =====
-- src/kernel/input/keyboard.c: `keyboard_read_line`, over the characters that `keyboard_get_char`
-- returns, against an editor that keeps what is typed as a stack. Its echo is a list of characters.
use minidos.Common.{
  ℕ, ◌+◌, ◌-◌, ◌<◌, ◌≤◌, ◌≡◌, refl, subst, ◌∙◌, Bool, true, false, Bool-cases, inl, inr, List, [],
  ◌∷◌, Option, none, some, ltb, ◌==◌, if◌then◌else◌, get_or, set, length, length-set,
  get_or-set_self, get_or-set_ne, arith,
}

-- The buffer after the call, the characters that it did not take, and the echo, the last first.
pub record Line : Type 0 where
  pub buffer : List ℕ
  pub rest : List ℕ
  pub echo : List ℕ

-- The loop from index `i` on. `none` where it waits for a character when the list is over.
-- The index, the buffer and the echo after a backspace.
unfoldable pub take_backspace : ℕ → List ℕ → List ℕ → ℕ × List ℕ × List ℕ
take_backspace i buffer echo = if ltb 0 i then (i - 1, buffer, 8 ∷ echo) else (i, buffer, echo)

-- The same after any character that is no newline.
unfoldable pub take_char : ℕ → ℕ → List ℕ → List ℕ → ℕ × List ℕ × List ℕ
unfolding take_backspace
take_char c i buffer echo =
    if c == 8 then take_backspace i buffer echo else (i + 1, set buffer i c, c ∷ echo)

unfoldable pub read_loop : List ℕ → ℕ → ℕ → List ℕ → List ℕ → Option Line
unfolding take_char
read_loop [] max_len i buffer echo =
    if ltb (i + 1) max_len
    then none
    else some (record { buffer = set buffer i 0; rest = []; echo = echo })
read_loop (c ∷ cs) max_len i buffer echo =
    let next : ℕ × List ℕ × List ℕ = take_char c i buffer echo in
    let more : Option Line = read_loop cs max_len next.0 next.1 next.2 in
    if ltb (i + 1) max_len
    then (if c == 10
        then some (record { buffer = set buffer i 0; rest = cs; echo = 10 ∷ echo })
        else more)
    else some (record { buffer = set buffer i 0; rest = c ∷ cs; echo = echo })

unfoldable pub read_line : List ℕ → ℕ → List ℕ → Option Line
unfolding read_loop
read_line cs max_len buffer = read_loop cs max_len 0 buffer []

-- What the editor makes of a backspace, and of any character that is no newline.
abbrev pub erased : List ℕ → List ℕ
erased [] = []
erased (x ∷ xs) = xs

abbrev pub edited : ℕ → List ℕ → List ℕ
edited c typed = if c == 8 then erased typed else c ∷ typed

-- The editor: what is typed, the last first, with room for `max_len - 1` characters.
unfoldable pub edit : List ℕ → ℕ → List ℕ → Option (List ℕ × List ℕ)
edit [] max_len typed = if ltb (length typed + 1) max_len then none else some (typed, [])
edit (c ∷ cs) max_len typed =
    let more = edit cs max_len (edited c typed) in
    if ltb (length typed + 1) max_len
    then (if c == 10 then some (typed, cs) else more)
    else some (typed, c ∷ cs)

-- The buffer begins with the typed characters.
unfoldable pub Holds : List ℕ → List ℕ → Type 0
Holds buffer [] = Unit
Holds buffer (x ∷ xs) = (get_or buffer (length xs) 0 ≡ x) × Holds buffer xs

Holds-set :
    (buffer typed : List ℕ) (i v : ℕ)
    → length typed ≤ i
    → Holds buffer typed
    → Holds (set buffer i v) typed
unfolding Holds
Holds-set buffer [] i v le h = tt
Holds-set buffer (x ∷ xs) i v le (e, h) = (
  get_or-set_ne buffer i (length xs) v 0 (λ q. absurd (omega (arith, q))) ∙ e,
  Holds-set buffer xs i v (omega arith) h,
)

-- The string in the buffer is the typed one: its characters, a zero after them, and the bytes from
-- `max_len` on as they were.
pub record IsString (max_len : ℕ) (before : List ℕ) (typed : List ℕ) (after : List ℕ) : Type 0 where
  pub text : Holds after typed
  pub terminated : get_or after (length typed) 1 ≡ 0
  pub fits : length typed < max_len
  pub outside : (j : ℕ) → max_len ≤ j → get_or after j 0 ≡ get_or before j 0

abbrev pub Reads : ℕ → List ℕ → Option (List ℕ × List ℕ) → Option Line → Type 0
Reads max_len before none none = Unit
Reads max_len before none (some l) = ⊥
Reads max_len before (some e) none = ⊥
Reads max_len before (some (typed, rest)) (some l) =
    IsString max_len before typed l.buffer × (l.rest ≡ rest)

Reads-if :
    (max_len : ℕ) (before : List ℕ) (t : Bool) (e e' : Option (List ℕ × List ℕ))
    (l l' : Option Line)
    → Reads max_len before e l
    → Reads max_len before e' l'
    → Reads max_len before (if t then e else e') (if t then l else l')
Reads-if max_len before true e e' l l' h g = h
Reads-if max_len before false e e' l l' h g = g

-- The buffer holds the typed characters, with the bytes from `max_len` on untouched.
record IsTyped (max_len : ℕ) (before typed : List ℕ) (i : ℕ) (buffer : List ℕ) : Type 0 where
  index : i ≡ length typed
  lt : i < max_len
  room : max_len ≤ length buffer
  text : Holds buffer typed
  outside : (j : ℕ) → max_len ≤ j → get_or buffer j 0 ≡ get_or before j 0

take_backspace-IsTyped :
    (max_len i : ℕ) (before typed buffer echo : List ℕ)
    → IsTyped max_len before typed i buffer
    → IsTyped max_len before
        (erased typed)
        (take_backspace i buffer echo).0
        (take_backspace i buffer echo).1
unfolding take_backspace Holds
take_backspace-IsTyped max_len i before [] buffer echo h =
    let at_start : ltb 0 i ≡ false = ground (arith, h.index) in rw at_start h
take_backspace-IsTyped max_len i before (x ∷ xs) buffer echo h =
    let inside : ltb 0 i ≡ true = ground (arith, h.index) in
    rw inside (record {
      index = omega (arith, h.index);
      lt = omega (arith, h.lt);
      room = h.room;
      text = h.text.1;
      outside = h.outside;
    })

take_char-IsTyped :
    (max_len c i : ℕ) (before typed buffer echo : List ℕ)
    → i + 1 < max_len
    → IsTyped max_len before typed i buffer
    → IsTyped max_len before
        (edited c typed)
        (take_char c i buffer echo).0
        (take_char c i buffer echo).1
unfolding take_char Holds
take_char-IsTyped max_len c i before typed buffer echo more h = elim (Bool-cases (c == 8)) [
  | inl b ↦ rw b (take_backspace-IsTyped max_len i before typed buffer echo h)
  | inr b ↦ rw b (record {
    index = omega (arith, h.index);
    lt = more;
    room = omega (arith, h.room, length-set buffer i c);
    text = (
      subst (λ n. get_or (set buffer i c) n 0 ≡ c) h.index
          (get_or-set_self buffer i c 0 (omega (arith, h.lt, h.room))),
      Holds-set buffer typed i c (omega (arith, h.index)) h.text,
    );
    outside =
        λ j m. get_or-set_ne buffer i j c 0 (λ q. absurd (omega (arith, q, h.lt))) ∙ h.outside j m;
  })
]

finish_line :
    (max_len i : ℕ) (before buffer typed : List ℕ)
    → IsTyped max_len before typed i buffer
    → IsString max_len before typed (set buffer i 0)
finish_line max_len i before buffer typed h = record {
  text = Holds-set buffer typed i 0 (omega (arith, h.index)) h.text;
  terminated =
      subst (λ n. get_or (set buffer i 0) n 1 ≡ 0) h.index
        (get_or-set_self buffer i 0 1 (omega (arith, h.lt, h.room)));
  fits = omega (arith, h.index, h.lt);
  outside =
      λ j m. get_or-set_ne buffer i j 0 0 (λ q. absurd (omega (arith, q, h.lt))) ∙ h.outside j m;
}

read_loop_lem :
    (cs : List ℕ) (max_len i : ℕ) (before buffer echo typed : List ℕ)
    → IsTyped max_len before typed i buffer
    → Reads max_len before (edit cs max_len typed) (read_loop cs max_len i buffer echo)
unfolding edit read_loop
read_loop_lem [] max_len i before buffer echo typed h =
    subst
      (λ n.
        Reads max_len before (if ltb (n + 1) max_len then none else some (typed, []))
          (read_loop [] max_len i buffer echo))
      h.index
      (Reads-if max_len before (ltb (i + 1) max_len) _ _ _ _ tt
        (finish_line max_len i before buffer typed h, refl))
read_loop_lem (c ∷ cs) max_len i before buffer echo typed h =
    subst
      (λ n.
        Reads max_len before
          (if ltb (n + 1) max_len
            then (if c == 10 then some (typed, cs) else edit cs max_len (edited c typed))
            else some (typed, c ∷ cs))
          (read_loop (c ∷ cs) max_len i buffer echo))
      h.index
      (elim (Bool-cases (ltb (i + 1) max_len)) [
        | inr full ↦ rw full (finish_line max_len i before buffer typed h, refl)
        | inl room ↦ rw room (
            Reads-if max_len before (c == 10) _ _ _ _
              (finish_line max_len i before buffer typed h, refl)
              (read_loop_lem cs max_len (take_char c i buffer echo).0 before
                (take_char c i buffer echo).1 (take_char c i buffer echo).2 (edited c typed)
                (take_char-IsTyped max_len c i before typed buffer echo (ground (arith, room)) h)))
      ])

-- For a buffer of at least `max_len` bytes, not 0, `keyboard_read_line` reads what the editor
-- makes of the characters that come: it waits for more exactly where the editor does, and else
-- leaves in the buffer the edited text with a zero after it, within `max_len` bytes, touches none
-- beyond them, and takes as many characters as the editor.
pub read_line-edit :
    (cs : List ℕ) (max_len : ℕ) (buffer : List ℕ)
    → 0 < max_len
    → max_len ≤ length buffer
    → Reads max_len buffer (edit cs max_len []) (read_line cs max_len buffer)
unfolding read_line Holds
read_line-edit cs max_len buffer pos le =
    read_loop_lem cs max_len 0 buffer buffer [] []
      (record { index = refl; lt = pos; room = le; text = tt; outside = λ j m. refl })
