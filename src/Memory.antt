-- ===== src/Memory.antt =====
-- The physical memory that the kernel writes through pointers. Every modelled access is to an
-- aligned 32-bit word, so a memory is a function from the address of a word to its value.
use minidos.Common.{
  ℕ, zero, suc, ◌+◌, ◌*◌, ◌≤◌, ◌<◌, ◌≡◌, ◌≢◌, refl, ◌⊎◌, List, [], ◌∷◌, ◌==◌, if◌then◌else◌, length,
  arith, ap, ◌∙◌, get_or,
}

abbrev pub Memory : Type 0
Memory = ℕ → ℕ

unfoldable pub write : Memory → ℕ → ℕ → Memory
write m a v b = if a == b then v else m b

-- Consecutive words, the first at `a`.
unfoldable pub write_words : Memory → ℕ → List ℕ → Memory
write_words m a [] = m
write_words m a (v ∷ vs) = write_words (write m a v) (a + 4) vs

-- `n` words of zeros from `a` on.
unfoldable pub zero_words : Memory → ℕ → ℕ → Memory
zero_words m a zero = m
zero_words m a (suc n) = zero_words (write m a 0) (a + 4) n

pub write_self : (m : Memory) (a v : ℕ) → write m a v a ≡ v
unfolding write
write_self m a v = ground arith

pub write_ne : (m : Memory) (a v b : ℕ) → a ≢ b → write m a v b ≡ m b
unfolding write
write_ne m a v b h = ground arith

-- Addresses below the first word written, and from the end of the last one on, keep their value.
pub write_words_outside :
    (m : Memory) (a : ℕ) (vs : List ℕ) (b : ℕ)
    → (b < a) ⊎ (a + 4 * length vs ≤ b)
    → write_words m a vs b ≡ m b
unfolding write_words
write_words_outside m a [] b h = refl
write_words_outside m a (v ∷ vs) b h =
    ground (arith, write_words_outside (write m a v) (a + 4) vs b, write_ne m a v b)

pub zero_words_outside :
    (m : Memory) (a n b : ℕ) → (b < a) ⊎ (a + 4 * n ≤ b) → zero_words m a n b ≡ m b
unfolding zero_words
zero_words_outside m a zero b h = refl
zero_words_outside m a (suc n) b h =
    ground (arith, zero_words_outside (write m a 0) (a + 4) n b, write_ne m a 0 b)

-- The words written are there to be read.
pub write_words_at :
    (m : Memory) (a : ℕ) (vs : List ℕ) (k : ℕ)
    → k < length vs
    → write_words m a vs (a + 4 * k) ≡ get_or vs k 0
unfolding write_words
write_words_at m a [] k h = absurd (omega arith)
write_words_at m a (v ∷ vs) zero h =
    write_words_outside (write m a v) (a + 4) vs (a + 4 * 0) (omega arith)
    ∙ ap (λ b. write m a v b) (omega arith)
    ∙ write_self m a v
write_words_at m a (v ∷ vs) (suc k) h =
    ap (λ b. write_words (write m a v) (a + 4) vs b) (omega arith)
    ∙ write_words_at (write m a v) (a + 4) vs k (omega arith)

pub zero_words_at : (m : Memory) (a n k : ℕ) → k < n → zero_words m a n (a + 4 * k) ≡ 0
unfolding zero_words
zero_words_at m a zero k h = absurd (omega arith)
zero_words_at m a (suc n) zero h =
    zero_words_outside (write m a 0) (a + 4) n (a + 4 * 0) (omega arith)
    ∙ ap (λ b. write m a 0 b) (omega arith)
    ∙ write_self m a 0
zero_words_at m a (suc n) (suc k) h =
    ap (λ b. zero_words (write m a 0) (a + 4) n b) (omega arith)
    ∙ zero_words_at (write m a 0) (a + 4) n k (omega arith)
