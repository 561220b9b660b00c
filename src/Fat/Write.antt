-- ===== src/Fat/Write.antt =====
-- src/kernel/storage/fat16.c: what `fat16_write_fat_entry` does to the entries of each copy of the
-- table.
use minidos.Common.{
  ◌⊎◌, sym, subst, ℕ, ◌+◌, ◌*◌, ◌/◌, ◌%◌, ◌^◌, ◌<◌, ◌≡◌, ◌≢◌, inl, inr, ap, ◌∙◌, ◌==◌,
  if◌then◌else◌, arith,
}
use minidos.Fat.{FatType, fat12, fat16, Fs, decode12, encode12, write_copy}
use minidos.Fat.Entry.{
  IsSound, disk_byte, entry_offset, entry_of, new_pair, put_pair, put_entry, write_copy_lem,
}

-- What of a value the entry keeps.
unfoldable pub fit : FatType → ℕ → ℕ
fit fat12 v = v % 2 ^ 12
fit fat16 v = v % 2 ^ 16

decode12-encode12 : (c pair v : ℕ) → decode12 c (encode12 c pair v) ≡ v % 2 ^ 12
unfolding decode12 encode12
decode12-encode12 c pair v = ground arith

encode12_bound : (c pair v : ℕ) → encode12 c pair v < 2 ^ 16
unfolding encode12
encode12_bound c pair v = ground arith

-- The entry after shares the high half of the second byte, the entry before the low half of the
-- first.
decode12_after :
    (c lo hi x v : ℕ)
    → c % 2 ≡ 0
    → lo < 256
    → hi < 256
    → decode12 (c + 1) (encode12 c (lo + 256 * hi) v / 256 % 256 + 256 * x)
      ≡ decode12 (c + 1) (hi + 256 * x)
unfolding decode12 encode12
decode12_after c lo hi x v even l h = ground arith

decode12_before :
    (c lo hi x v : ℕ)
    → c % 2 ≡ 0
    → lo < 256
    → hi < 256
    → x < 256
    → decode12 c (x + 256 * (encode12 (c + 1) (lo + 256 * hi) v % 256)) ≡ decode12 c (x + 256 * lo)
unfolding decode12 encode12
decode12_before c lo hi x v even l h b = ground arith

-- The pair of bytes at `b + q` after a write of `e` at `b + p`.
abbrev pair_at : (ℕ → ℕ) → ℕ → ℕ → ℕ → ℕ → ℕ
pair_at t b p e q = put_pair t (b + p) e (b + q) + 256 * put_pair t (b + p) e (b + q + 1)

pair_at_same : (t : ℕ → ℕ) (b p e : ℕ) → e < 2 ^ 16 → pair_at t b p e p ≡ e
pair_at_same t b p e h = ground arith

pair_at_after :
    (t : ℕ → ℕ) (b p e : ℕ) → pair_at t b p e (p + 1) ≡ e / 256 % 256 + 256 * t (b + (p + 1) + 1)
pair_at_after t b p e = ground arith

pair_at_before : (t : ℕ → ℕ) (b q e : ℕ) → pair_at t b (q + 1) e q ≡ t (b + q) + 256 * (e % 256)
pair_at_before t b q e = ground arith

pair_at_far :
    (t : ℕ → ℕ) (b p e q : ℕ)
    → (q + 1 < p) ⊎ (p + 1 < q)
    → pair_at t b p e q ≡ t (b + q) + 256 * t (b + q + 1)
pair_at_far t b p e q h = ground arith

-- Two clusters: the entries are the same, one comes right after the other, or they are apart.
offsets12 :
    (c c' : ℕ)
    → c' ≢ c
    → (c' ≡ c + 1) × (c % 2 ≡ 0)
      ⊎ (c ≡ c' + 1) × (c' % 2 ≡ 0)
      ⊎ (c' + c' / 2 + 1 < c + c / 2)
      ⊎ (c + c / 2 + 1 < c' + c' / 2)
offsets12 c c' ne = omega arith

-- The pair that the entry of `c` occupies.
abbrev old_pair : (ℕ → ℕ) → ℕ → ℕ → ℕ
old_pair t b p = t (b + p) + 256 * t (b + p + 1)

next_byte : (b p : ℕ) → b + (p + 1) ≡ b + p + 1
next_byte b p = omega arith

next_offset : (c : ℕ) → c % 2 ≡ 0 → c + 1 + (c + 1) / 2 ≡ c + c / 2 + 1
next_offset c even = omega arith

put12_after :
    (t : ℕ → ℕ) (b c p v : ℕ)
    → c % 2 ≡ 0
    → ((n : ℕ) → t n < 256)
    → decode12 (c + 1) (pair_at t b p (encode12 c (old_pair t b p) v) (p + 1))
      ≡ decode12 (c + 1) (old_pair t b (p + 1))
put12_after t b c p v even h =
    ap (decode12 (c + 1)) (pair_at_after t b p (encode12 c (old_pair t b p) v))
    ∙ decode12_after c (t (b + p)) (t (b + p + 1)) (t (b + (p + 1) + 1)) v even (h (b + p))
        (h (b + p + 1))
    ∙ ap (λ m. decode12 (c + 1) (t m + 256 * t (b + (p + 1) + 1))) (sym (next_byte b p))

put12_before :
    (t : ℕ → ℕ) (b c q v : ℕ)
    → c % 2 ≡ 0
    → ((n : ℕ) → t n < 256)
    → decode12 c (pair_at t b (q + 1) (encode12 (c + 1) (old_pair t b (q + 1)) v) q)
      ≡ decode12 c (old_pair t b q)
put12_before t b c q v even h =
    ap (decode12 c) (pair_at_before t b q (encode12 (c + 1) (old_pair t b (q + 1)) v))
    ∙ decode12_before c (t (b + (q + 1))) (t (b + (q + 1) + 1)) (t (b + q)) v even (h (b + (q + 1)))
        (h (b + (q + 1) + 1)) (h (b + q))
    ∙ ap (λ m. decode12 c (t (b + q) + 256 * t m)) (next_byte b q)

put12_ne :
    (t : ℕ → ℕ) (b c v c' : ℕ)
    → ((n : ℕ) → t n < 256)
    → c' ≢ c
    → decode12 c' (pair_at t b (c + c / 2) (encode12 c (old_pair t b (c + c / 2)) v) (c' + c' / 2))
      ≡ decode12 c' (old_pair t b (c' + c' / 2))
put12_ne t b c v c' h ne = elim (offsets12 c c' ne) [
  | inl (e, even) ↦
      subst
        (λ k.
          decode12 k (pair_at t b (c + c / 2) (encode12 c (old_pair t b (c + c / 2)) v) (k + k / 2))
          ≡ decode12 k (old_pair t b (k + k / 2)))
        (sym e)
        (subst
          (λ q.
            decode12 (c + 1) (pair_at t b (c + c / 2) (encode12 c (old_pair t b (c + c / 2)) v) q)
            ≡ decode12 (c + 1) (old_pair t b q))
          (sym (next_offset c even)) (put12_after t b c (c + c / 2) v even h))
  | inr (inl (e, even)) ↦
      subst
        (λ k.
          decode12 c'
            (pair_at t b (k + k / 2) (encode12 k (old_pair t b (k + k / 2)) v) (c' + c' / 2))
          ≡ decode12 c' (old_pair t b (c' + c' / 2)))
        (sym e)
        (subst
          (λ p.
            decode12 c' (pair_at t b p (encode12 (c' + 1) (old_pair t b p) v) (c' + c' / 2))
            ≡ decode12 c' (old_pair t b (c' + c' / 2)))
          (sym (next_offset c' even)) (put12_before t b c' (c' + c' / 2) v even h))
  | inr (inr far) ↦
      ap (decode12 c')
        (pair_at_far t b (c + c / 2) (encode12 c (old_pair t b (c + c / 2)) v) (c' + c' / 2) far)
]

entry12_pair :
    (t : ℕ → ℕ) (b c : ℕ)
    → entry_of fat12 (λ n. t (b + n)) c ≡ decode12 c (old_pair t b (c + c / 2))
unfolding entry_of
entry12_pair t b c =
    ap (λ m. decode12 c (t (b + (c + c / 2)) + 256 * t m)) (next_byte b (c + c / 2))

-- The entries of the copy at sector `base` of a disk given by its bytes.
abbrev pub entry_in : FatType → (ℕ → ℕ) → ℕ → ℕ → ℕ
entry_in ty t base c = entry_of ty (λ n. t (512 * base + n)) c

entry_in-put_entry_same :
    (ty : FatType) (t : ℕ → ℕ) (base c v : ℕ)
    → entry_in ty (put_entry ty t base c v) base c ≡ fit ty v
unfolding fit put_entry new_pair entry_offset entry_of
entry_in-put_entry_same fat12 t base c v =
    let b : ℕ = 512 * base in
    let e : ℕ = encode12 c (old_pair t b (c + c / 2)) v in
    entry12_pair (put_pair t (b + (c + c / 2)) e) b c
    ∙ ap (decode12 c)
        (pair_at_same t b (c + c / 2) e (encode12_bound c (old_pair t b (c + c / 2)) v))
    ∙ decode12-encode12 c (old_pair t b (c + c / 2)) v
entry_in-put_entry_same fat16 t base c v = ground arith

entry_in-put_entry_ne :
    (ty : FatType) (t : ℕ → ℕ) (base c v c' : ℕ)
    → ((n : ℕ) → t n < 256)
    → c' ≢ c
    → entry_in ty (put_entry ty t base c v) base c' ≡ entry_in ty t base c'
unfolding put_entry new_pair entry_offset entry_of
entry_in-put_entry_ne fat12 t base c v c' h ne =
    let b : ℕ = 512 * base in
    let e : ℕ = encode12 c (old_pair t b (c + c / 2)) v in
    entry12_pair (put_pair t (b + (c + c / 2)) e) b c'
    ∙ put12_ne t b c v c' h ne
    ∙ sym (entry12_pair t b c')
entry_in-put_entry_ne fat16 t base c v c' h ne = ground arith

pub entry_of-agree :
    (ty : FatType) (f g : ℕ → ℕ) (c : ℕ) → ((n : ℕ) → f n ≡ g n) → entry_of ty f c ≡ entry_of ty g c
entry_of-agree ty f g c h = λ i. entry_of ty (λ n. h n i) c

at_or :
    (f g : ℕ → ℕ) (c c' x : ℕ)
    → f c ≡ x
    → (c' ≢ c → f c' ≡ g c')
    → f c' ≡ (if c' == c then x else g c')
at_or f g c c' x h k = ground arith

pub entry_in-put_entry :
    (ty : FatType) (t : ℕ → ℕ) (base c v c' : ℕ)
    → ((n : ℕ) → t n < 256)
    → entry_in ty (put_entry ty t base c v) base c'
      ≡ (if c' == c then fit ty v else entry_in ty t base c')
entry_in-put_entry ty t base c v c' h =
    at_or (entry_in ty (put_entry ty t base c v) base) (entry_in ty t base) c c' (fit ty v)
      (entry_in-put_entry_same ty t base c v) (entry_in-put_entry_ne ty t base c v c' h)

-- On a disk whose transfers succeed, writing the entry of a cluster into a copy of the table and
-- reading that copy gives the value back, cut to 12 or 16 bits, and every other cluster's entry in
-- the copy reads as before, also where entries share a byte or straddle two sectors.
pub write_copy-entry_in :
    (ty : FatType) (fs : Fs) (base c v c' : ℕ)
    → IsSound fs.device
    → entry_in ty (disk_byte (write_copy ty fs base c v).0.device) base c'
      ≡ (if c' == c then fit ty v else entry_in ty (disk_byte fs.device) base c')
write_copy-entry_in ty fs base c v c' h =
    entry_of-agree ty _ _ c' (λ n. (write_copy_lem ty fs base c v (512 * base + n) h).1)
    ∙ entry_in-put_entry ty (disk_byte fs.device) base c v c' h.bytes
