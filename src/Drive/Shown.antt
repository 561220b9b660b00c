-- ===== src/Drive/Shown.antt =====
-- src/kernel/storage/drive.c: the numbers that it prints.
use minidos.Common.{
  ℕ, zero, suc, ◌+◌, ◌-◌, ◌*◌, ◌/◌, ◌%◌, ◌^◌, ◌≤◌, ◌<◌, ◌≡◌, refl, Bool-cases, inl, inr, List, [],
  ◌∷◌, ◌++◌, ◌==◌, length, arith,
}
use minidos.Drive.Listing.{fill_digits, print_backwards, print_num}

-- The number that a row of decimal digits stands for.
abbrev value : ℕ → List ℕ → ℕ
value acc [] = acc
value acc (c ∷ cs) = value (acc * 10 + (c - b'0')) cs

append-value : (cs : List ℕ) (acc c : ℕ) → value acc (cs ++ c ∷ []) ≡ value acc cs * 10 + (c - b'0')
append-value [] acc c = refl
append-value (d ∷ cs) acc c = append-value cs (acc * 10 + (d - b'0')) c

fill_digits_lem :
    (room num : ℕ) → num < 10 ^ room → value 0 (print_backwards (fill_digits room num)) ≡ num
unfolding fill_digits print_backwards
fill_digits_lem zero num h = omega arith
fill_digits_lem (suc room) num h = elim (Bool-cases (num == 0)) [
  | inl e ↦ rw e (ground arith)
  | inr e ↦
      rw
        (
          e,
          append-value (print_backwards (fill_digits room (num / 10))) 0 (b'0' + num % 10),
          fill_digits_lem room (num / 10) (omega arith),
        )
        (omega arith)
]

length-fill_digits : (k room num : ℕ) → num < 10 ^ k → length (fill_digits room num) ≤ k
unfolding fill_digits
length-fill_digits k zero num h = omega arith
length-fill_digits zero (suc room) num h = ground arith
length-fill_digits (suc k) (suc room) num h = elim (Bool-cases (num == 0)) [
  | inl e ↦ rw e (omega arith)
  | inr e ↦ rw e (omega (arith, length-fill_digits k room (num / 10) (omega arith)))
]

-- The digits that are printed for an `unsigned int` are those of the number, 10 at most, so that
-- they fit the buffer of 12.
print_num_lem :
    (num : ℕ) → num < 2 ^ 32 → (value 0 (print_num num) ≡ num) × (length (fill_digits 12 num) ≤ 10)
unfolding print_num
print_num_lem num h = (
  elim (Bool-cases (num == 0)) [
    | inl e ↦ rw e (ground arith)
    | inr e ↦ rw e (fill_digits_lem 12 num (omega arith))
  ],
  length-fill_digits 10 12 num (omega arith),
)
