-- ===== src/Fat/RoundTrip.antt =====
-- src/kernel/storage/fat16.c: `fat16_write_fat_entry` against `fat16_read_fat_entry`.
use minidos.Common.{
  ℕ, zero, suc, ◌+◌, ◌<◌, ◌≡◌, ◌≢◌, sym, subst, refl, ap, ◌∙◌, true, ◌==◌, ◌&&◌, ltb, leb,
  if◌then◌else◌, arith,
}
use minidos.Fat.{Fs, write_copies, write_fat_entry, read_fat_entry}
use minidos.Fat.Entry.{IsSound, table, write_copy_lem, read_fat_entry_lem}
use minidos.Fat.Write.{fit}
use minidos.Fat.Copies.{
  Fits, copy_base, copy_entry, after_copy, copy_here, copy_there, write_copy-Same,
  write_copy-IsSound,
}

-- The cluster's entry lies within the volume's tables.
unfoldable pub InTable : Fs → ℕ → Type 0
InTable fs c = Fits fs.fat_type fs.bpb.sectors_per_fat c

-- One round that succeeds goes on with the next copy.
pub write_copies_step :
    (fs : Fs) (c v k n : ℕ)
    → IsSound fs.device
    → write_copies fs c v k (suc n) ≡ write_copies (after_copy fs k c v) c v (k + 1) n
unfolding write_copies
write_copies_step fs c v k n h =
    rw ((write_copy_lem fs.fat_type fs (copy_base fs.bpb k) c v 0 h).0) refl

if_step :
    (k0 k n c c' x x' e1 e2 e3 : ℕ)
    → e1 ≡ (if leb (k0 + 1) k && ltb k (k0 + 1 + n) && c' == c then x' else e2)
    → x' ≡ x
    → (k ≡ k0 → e2 ≡ (if c' == c then x else e3))
    → (k ≢ k0 → e2 ≡ e3)
    → e1 ≡ (if leb k0 k && ltb k (k0 + suc n) && c' == c then x else e3)
if_step k0 k n c c' x x' e1 e2 e3 a b here there = ground arith

if_none : (k0 k c c' x e : ℕ) → e ≡ (if leb k0 k && ltb k (k0 + 0) && c' == c then x else e)
if_none k0 k c c' x e = ground arith

pub InTable-after : (fs : Fs) (k c v c' : ℕ) → InTable fs c' → InTable (after_copy fs k c v) c'
unfolding InTable
InTable-after fs k c v c' f =
    let same = write_copy-Same fs.fat_type fs (copy_base fs.bpb k) c v in
    subst (λ t. Fits t (after_copy fs k c v).bpb.sectors_per_fat c') (sym same.fat_type)
      (subst (λ b. Fits fs.fat_type b.sectors_per_fat c') (sym same.bpb) f)

after_here :
    (fs : Fs) (k0 k c v c' : ℕ)
    → IsSound fs.device
    → k ≡ k0
    → copy_entry (after_copy fs k0 c v) k c'
      ≡ (if c' == c then fit fs.fat_type v else copy_entry fs k c')
after_here fs k0 k c v c' h e =
    subst
      (λ j.
        copy_entry (after_copy fs k0 c v) j c'
        ≡ (if c' == c then fit fs.fat_type v else copy_entry fs j c'))
      (sym e) (copy_here fs k0 c v c' h)

-- Copies `k0` to `k0 + n - 1` get the value, the others stay.
pub write_copies_lem :
    (n : ℕ) (fs : Fs) (k0 c v k c' : ℕ)
    → IsSound fs.device
    → InTable fs c
    → InTable fs c'
    → ((write_copies fs c v k0 n).1 ≡ true)
      × (copy_entry (write_copies fs c v k0 n).0 k c' ≡ (
          if leb k0 k && ltb k (k0 + n) && c' == c then fit fs.fat_type v else copy_entry fs k c'))
unfolding write_copies InTable
write_copies_lem zero fs k0 c v k c' h f f' =
    (refl, if_none k0 k c c' (fit fs.fat_type v) (copy_entry fs k c'))
write_copies_lem (suc n) fs k0 c v k c' h f f' =
    let ih =
      write_copies_lem n (after_copy fs k0 c v) (k0 + 1) c v k c'
        (write_copy-IsSound fs.fat_type fs (copy_base fs.bpb k0) c v h)
        (InTable-after fs k0 c v c f) (InTable-after fs k0 c v c' f') in
    let same = write_copy-Same fs.fat_type fs (copy_base fs.bpb k0) c v in
    let e = copy_entry (write_copies (after_copy fs k0 c v) c v (k0 + 1) n).0 k c' in
    subst
      (λ r.
        (r.1 ≡ true)
        × (copy_entry r.0 k c' ≡ (
            if leb k0 k && ltb k (k0 + suc n) && c' == c
            then fit fs.fat_type v
            else copy_entry fs k c')))
      (sym (write_copies_step fs c v k0 n h))
      (
        ih.0,
        if_step k0 k n c c' (fit fs.fat_type v) (fit (after_copy fs k0 c v).fat_type v) e
            (copy_entry (after_copy fs k0 c v) k c') (copy_entry fs k c') ih.1
            (ap (λ t. fit t v) same.fat_type) (after_here fs k0 k c v c' h)
            (copy_there fs k0 k c v c' h f f'),
      )

if_lt :
    (k n c c' x e e' : ℕ)
    → k < n
    → e ≡ (if leb 0 k && ltb k (0 + n) && c' == c then x else e')
    → e ≡ (if c' == c then x else e')
if_lt k n c c' x e e' lt h = ground arith

-- On a disk whose transfers succeed, `fat16_write_fat_entry` succeeds. In each copy of the table
-- the entry of the cluster then reads as the value, cut to 12 or 16 bits, and the entry of every
-- other cluster as before, for both kinds of table, where the entries lie within a table.
pub write_fat_entry_lem :
    (fs : Fs) (c v k c' : ℕ)
    → IsSound fs.device
    → InTable fs c
    → InTable fs c'
    → k < fs.bpb.fat_count
    → ((write_fat_entry fs c v).1 ≡ true)
      × (copy_entry (write_fat_entry fs c v).0 k c'
          ≡ (if c' == c then fit fs.fat_type v else copy_entry fs k c'))
unfolding write_fat_entry
write_fat_entry_lem fs c v k c' h f f' lt =
    let all = write_copies_lem fs.bpb.fat_count fs 0 c v k c' h f f' in
    (
      all.0,
      if_lt k fs.bpb.fat_count c c' (fit fs.fat_type v)
          (copy_entry (write_copies fs c v 0 fs.bpb.fat_count).0 k c') (copy_entry fs k c') lt
          all.1,
    )

write_copies-IsSound :
    (n : ℕ) (fs : Fs) (c v k : ℕ) → IsSound fs.device → IsSound (write_copies fs c v k n).0.device
unfolding write_copies
write_copies-IsSound zero fs c v k h = h
write_copies-IsSound (suc n) fs c v k h =
    subst (λ r. IsSound r.0.device) (sym (write_copies_step fs c v k n h))
      (write_copies-IsSound n (after_copy fs k c v) c v (k + 1)
        (write_copy-IsSound fs.fat_type fs (copy_base fs.bpb k) c v h))

pub write_fat_entry-IsSound :
    (fs : Fs) (c v : ℕ) → IsSound fs.device → IsSound (write_fat_entry fs c v).0.device
unfolding write_fat_entry
write_fat_entry-IsSound fs c v h = write_copies-IsSound fs.bpb.fat_count fs c v 0 h

pub read_fat_entry-first :
    (fs : Fs) (c : ℕ) → IsSound fs.device → (read_fat_entry fs c).1 ≡ copy_entry fs 0 c
unfolding copy_entry table
read_fat_entry-first fs c h = read_fat_entry_lem fs c h

-- On a disk whose transfers succeed and that has a table, reading an entry after a write of the
-- same cluster's gives the value, cut to 12 or 16 bits, and reading one after a write of another
-- cluster's gives what it gave before, where both entries lie within a table.
pub read_fat_entry-write_fat_entry :
    (fs : Fs) (c v c' : ℕ)
    → IsSound fs.device
    → InTable fs c
    → InTable fs c'
    → 0 < fs.bpb.fat_count
    → (read_fat_entry (write_fat_entry fs c v).0 c').1
      ≡ (if c' == c then fit fs.fat_type v else (read_fat_entry fs c').1)
read_fat_entry-write_fat_entry fs c v c' h f f' some_copy =
    read_fat_entry-first (write_fat_entry fs c v).0 c' (write_fat_entry-IsSound fs c v h)
    ∙ (write_fat_entry_lem fs c v 0 c' h f f' some_copy).1
    ∙ ap (λ e. if c' == c then fit fs.fat_type v else e) (sym (read_fat_entry-first fs c' h))
