-- ===== src/Mouse/Cursor.antt =====
-- src/kernel/input/mouse.c: the cursor stays on the screen, and moves by what the packets say.
use minidos.Common.{
  ℕ, ◌+◌, ◌/◌, ◌%◌, ◌<◌, ◌≡◌, ◌⊎◌, refl, ap, sym, subst, ◌∙◌, Bool, true, not, ◌&&◌, ◌==◌,
  if◌then◌else◌, add32, List, [], ◌∷◌, arith, Bool-cases, inl, inr,
}
use minidos.Common.Int.{ℤ, pos, ◌+ℤ◌, ◌-ℤ◌, ltb_ℤ, leb_ℤ, ◌≤ℤ◌, ◌<ℤ◌}
use minidos.Mouse.{
  Mouse, Screen, delta, at_least_one, hold, apply_packet, put_packet, take_byte, mouse_handle_irq,
}

-- A coordinate on a screen of some size, of one point at least.
abbrev pub On : ℤ → ℤ → Type 0
On v size = (pos 0 ≤ℤ v) × (v <ℤ at_least_one size)

hold-On : (v size : ℤ) → On (hold v (at_least_one size)) size
unfolding hold at_least_one ◌-ℤ◌
hold-On v size = ground arith

pub record IsValid (m : Mouse) (s : Screen) : Type 0 where
  pub on_x : On m.x s.width
  pub on_y : On m.y s.height
  pub index : m.packet_index < 3

apply_packet-IsValid : (m : Mouse) (s : Screen) → IsValid m s → IsValid (apply_packet m s) s
unfolding apply_packet
apply_packet-IsValid m s v = elim (Bool-cases (m.packet0 / 64 % 4 == 0)) [
  | inr overflow ↦ rw overflow v
  | inl good ↦ rw good (record {
    on_x = hold-On (m.x +ℤ delta (m.packet0 / 16 % 2 == 1) m.packet1) s.width;
    on_y = hold-On (m.y -ℤ delta (m.packet0 / 32 % 2 == 1) m.packet2) s.height;
    index = v.index;
  })
]

take_byte-IsValid : (m : Mouse) (s : Screen) (b : ℕ) → IsValid m s → IsValid (take_byte m s b) s
unfolding take_byte put_packet
take_byte-IsValid m s b v =
    let done = apply_packet-IsValid (record (put_packet m b) { packet_index = 0 }) s in
    ground (arith, done)

-- The bytes that the interrupts bring, with the status of the controller.
unfoldable pub handle_all : List (ℕ × ℕ) → Mouse → Screen → Mouse
unfolding mouse_handle_irq
handle_all [] m s = m
handle_all ((status, b) ∷ bs) m s = handle_all bs (mouse_handle_irq m s status b) s

mouse_handle_irq-IsValid :
    (m : Mouse) (s : Screen) (status b : ℕ)
    → IsValid m s
    → IsValid (mouse_handle_irq m s status b) s
unfolding mouse_handle_irq
mouse_handle_irq-IsValid m s status b v = ground (arith, take_byte-IsValid m s b v)

-- Whatever bytes come, in or out of step with the packets, the cursor stays on a screen of the same
-- size, and the index within the packet.
handle_all-IsValid :
    (bs : List (ℕ × ℕ)) (m : Mouse) (s : Screen) → IsValid m s → IsValid (handle_all bs m s) s
unfolding handle_all
handle_all-IsValid [] m s v = v
handle_all-IsValid ((status, b) ∷ bs) m s v =
    handle_all-IsValid bs (mouse_handle_irq m s status b) s
      (mouse_handle_irq-IsValid m s status b v)

-- A coordinate moves to its target where that is on the screen, and stops at the edge where it is
-- not.
abbrev pub Moves : ℤ → ℤ → ℤ → Type 0
Moves size new_place target =
    (pos 0 ≤ℤ target) × (target <ℤ at_least_one size) × (new_place ≡ target)
    ⊎ (target <ℤ pos 0) × (new_place ≡ pos 0)
    ⊎ (at_least_one size ≤ℤ target) × (new_place ≡ at_least_one size -ℤ pos 1)

hold-Moves : (size target : ℤ) → Moves size (hold target (at_least_one size)) target
unfolding hold
hold-Moves size target = elim (Bool-cases (ltb_ℤ target (pos 0))) [
  | inl low ↦ rw low (inr (inl (ground arith, refl)))
  | inr up ↦ elim (Bool-cases (leb_ℤ (at_least_one size) target)) [
    | inl high ↦ rw up (rw high (inr (inr (ground arith, refl))))
    | inr inside ↦ rw up (rw inside (inl (ground arith, ground arith, refl)))
  ]
]

first_byte :
    (m : Mouse) (s : Screen) (b : ℕ)
    → m.present ≡ true
    → m.packet_index ≡ 0
    → b / 8 % 2 ≡ 1
    → take_byte m s b ≡ record m { packet0 = b; packet_index = 1 }
unfolding take_byte put_packet
first_byte m s b here start sync = ground arith

second_byte :
    (m : Mouse) (s : Screen) (b : ℕ)
    → m.present ≡ true
    → m.packet_index ≡ 1
    → take_byte m s b ≡ record m { packet1 = b; packet_index = 2 }
unfolding take_byte put_packet
second_byte m s b here at = ground arith

picked :
    {A : Type 0} (p unsync : Bool) (i : ℕ) (m done more : A)
    → p ≡ true
    → i ≡ 2
    → (if not p then m else if i == 0 && unsync then m else if i + 1 == 3 then done else more)
      ≡ done
picked p unsync i m done more h e = ground arith

third_place : (m : Mouse) (b : ℕ) → m.packet_index ≡ 2 → put_packet m b ≡ record m { packet2 = b }
unfolding put_packet
third_place m b at = ground arith

third_byte :
    (m : Mouse) (s : Screen) (b : ℕ)
    → m.present ≡ true
    → m.packet_index ≡ 2
    → take_byte m s b ≡ apply_packet (record m { packet2 = b; packet_index = 0 }) s
unfolding take_byte put_packet
third_byte m s b here at =
    picked m.present (b / 8 % 2 == 0) m.packet_index m
      (apply_packet (record (put_packet m b) { packet_index = 0 }) s)
      (record (put_packet m b) { packet_index = m.packet_index + 1 }) here at
    ∙ ap (λ j. apply_packet (record j { packet_index = 0 }) s) (third_place m b at)

-- A byte of the mouse at the ports.
abbrev pub mouse_byte : ℕ → ℕ × ℕ
mouse_byte b = (0x21, b)

whole_packet :
    (m : Mouse) (s : Screen) (b c d : ℕ)
    → m.present ≡ true
    → m.packet_index ≡ 0
    → b / 8 % 2 ≡ 1
    → handle_all (mouse_byte b ∷ mouse_byte c ∷ mouse_byte d ∷ []) m s
      ≡ apply_packet (record m { packet0 = b; packet1 = c; packet2 = d; packet_index = 0 }) s
unfolding handle_all mouse_handle_irq
whole_packet m s b c d here start sync =
    ap (λ j. take_byte (take_byte j s c) s d) (first_byte m s b here start sync)
    ∙ ap (λ j. take_byte j s d)
        (second_byte (record m { packet0 = b; packet_index = 1 }) s c here refl)
    ∙ third_byte (record m { packet0 = b; packet1 = c; packet_index = 2 }) s d here refl

-- What a packet of the bytes `b`, `c` and `d` does to the mouse.
abbrev pub Follows : Mouse → Screen → ℕ → ℕ → ℕ → Mouse → Type 0
Follows m s b c d after =
    Moves s.width after.x (m.x +ℤ delta (b / 16 % 2 == 1) c)
    × Moves s.height after.y (m.y -ℤ delta (b / 32 % 2 == 1) d)
    × (after.buttons ≡ b % 8)
    × (after.seq ≡ add32 m.seq 1)
    × (after.packet_index ≡ 0)

apply_packet-Follows :
    (m : Mouse) (s : Screen)
    → m.packet0 / 64 % 4 ≡ 0
    → m.packet_index ≡ 0
    → Follows m s m.packet0 m.packet1 m.packet2 (apply_packet m s)
unfolding apply_packet
apply_packet-Follows m s small start =
    let good : (m.packet0 / 64 % 4 == 0) ≡ true = ground arith in
    rw good (
      hold-Moves s.width (m.x +ℤ delta (m.packet0 / 16 % 2 == 1) m.packet1),
      hold-Moves s.height (m.y -ℤ delta (m.packet0 / 32 % 2 == 1) m.packet2),
      refl,
      refl,
      start,
    )

-- Three bytes in step, the first with bit 3 set and no overflow bit, move the cursor by the two
-- signed deltas, up for a positive one: each coordinate goes to its target where that is on the
-- screen, and otherwise to the edge that it lies beyond. They set the buttons, count one packet,
-- and leave the driver in step.
pub handle_all-Follows :
    (m : Mouse) (s : Screen) (b c d : ℕ)
    → m.present ≡ true
    → m.packet_index ≡ 0
    → b / 8 % 2 ≡ 1
    → b / 64 % 4 ≡ 0
    → Follows m s b c d (handle_all (mouse_byte b ∷ mouse_byte c ∷ mouse_byte d ∷ []) m s)
handle_all-Follows m s b c d here start sync small =
    subst (Follows m s b c d) (sym (whole_packet m s b c d here start sync)) (
      apply_packet-Follows (record m { packet0 = b; packet1 = c; packet2 = d; packet_index = 0 }) s
        small refl)
