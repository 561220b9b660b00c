-- ===== src/Fat/FirstFit.antt =====
-- src/kernel/storage/fat16.c: `fat16_alloc_cluster_internal` against a search for the first entry
-- that is 0.
use minidos.Common.{
  ℕ, zero, suc, ◌+◌, ◌-◌, ◌%◌, ◌^◌, ◌≤◌, ◌≡◌, refl, sym, subst, ◌∙◌, ◌==◌, if◌then◌else◌, arith,
  Bool-cases, inl, inr, Option, none, some, add32,
}
use minidos.Fat.Geometry.{get_total_clusters}
use minidos.Fat.{FatType, fat12, fat16, Fs, read_fat_entry, write_fat_entry, end_of_chain}
use minidos.Fat.Alloc.{alloc_loop, alloc_cluster}
use minidos.Fat.Write.{fit}
use minidos.Fat.Entries.{
  read_fat_entry-SameDisk, SameDisk-IsReady, entry, last_cluster, IsReady, read_fat_entry-entry,
  entry-read_fat_entry, entry-write_fat_entry,
}

-- The first of the `n` clusters from `c` on whose entry is 0.
unfoldable pub first_free : (ℕ → ℕ) → ℕ → ℕ → Option ℕ
first_free e c zero = none
first_free e c (suc n) = let rest = first_free e (c + 1) n in if e c == 0 then some c else rest

-- The entries once a cluster is taken.
pub taken : FatType → (ℕ → ℕ) → Option ℕ → ℕ → ℕ
taken ty e none d = e d
taken ty e (some c) d = if d == c then end_of_chain ty else e d

fit_eoc : (ty : FatType) → fit ty (end_of_chain ty) ≡ end_of_chain ty
unfolding fit end_of_chain
fit_eoc fat12 = refl
fit_eoc fat16 = refl

-- A result of the allocation, for the entries `e` before it and the entry of `d` after it.
abbrev pub Allocates : FatType → (ℕ → ℕ) → Option ℕ → ℕ → Fs × Option ℕ → Type 0
Allocates ty e o d r = (r.1 ≡ o) × (entry r.0 d ≡ taken ty e o d)

alloc_loop_step :
    (fs : Fs) (c n : ℕ)
    → IsReady fs
    → c ≤ last_cluster fs
    → alloc_loop fs c (suc n) ≡ (
        if entry fs c == 0
        then (
          (write_fat_entry
              (read_fat_entry fs c).0
              c
              (end_of_chain (read_fat_entry fs c).0.fat_type)).0,
          some c,
        )
        else alloc_loop (read_fat_entry fs c).0 (c + 1) n)
unfolding alloc_loop
alloc_loop_step fs c n r le =
    let no_wrap : c % 2 ^ 16 ≡ c = omega (arith, r.numbered) in
    let fs1 : Fs = (read_fat_entry fs c).0 in
    let h = read_fat_entry-SameDisk fs c in
    let le1 : c ≤ last_cluster fs1 = subst (λ b. c ≤ get_total_clusters b + 1) (sym h.bpb) le in
    let written =
      (entry-write_fat_entry fs1 c (end_of_chain fs1.fat_type) c (SameDisk-IsReady fs fs1 h r) le1
        le1).0 in
    rw no_wrap (rw (read_fat_entry-entry fs c r) (rw written refl))

entries_same : (fs : Fs) (c : ℕ) → entry (read_fat_entry fs c).0 ≡ entry fs
entries_same fs c = λ i d. entry-read_fat_entry fs c d i

take_cluster :
    (fs : Fs) (c d : ℕ)
    → IsReady fs
    → c ≤ last_cluster fs
    → d ≤ last_cluster fs
    → entry
        (write_fat_entry
          (read_fat_entry fs c).0
          c
          (end_of_chain (read_fat_entry fs c).0.fat_type)).0
        d
      ≡ (if d == c then end_of_chain fs.fat_type else entry fs d)
take_cluster fs c d r lc ld =
    let fs1 : Fs = (read_fat_entry fs c).0 in
    let h = read_fat_entry-SameDisk fs c in
    (entry-write_fat_entry fs1 c (end_of_chain fs1.fat_type) d (SameDisk-IsReady fs fs1 h r)
      (subst (λ b. c ≤ get_total_clusters b + 1) (sym h.bpb) lc)
      (subst (λ b. d ≤ get_total_clusters b + 1) (sym h.bpb) ld)).1
    ∙ (λ i. if d == c then fit_eoc (h.fat_type i) i else entries_same fs c i d)

alloc_loop_lem :
    (n : ℕ) (fs : Fs) (c d : ℕ)
    → IsReady fs
    → c + n ≤ last_cluster fs + 1
    → d ≤ last_cluster fs
    → Allocates fs.fat_type (entry fs) (first_free (entry fs) c n) d (alloc_loop fs c n)
unfolding alloc_loop first_free taken
alloc_loop_lem zero fs c d r le ld = (refl, refl)
alloc_loop_lem (suc n) fs c d r le ld =
    let fs1 : Fs = (read_fat_entry fs c).0 in
    let h = read_fat_entry-SameDisk fs c in
    subst (Allocates fs.fat_type (entry fs) (first_free (entry fs) c (suc n)) d)
      (sym (alloc_loop_step fs c n r (omega (arith, le))))
      (elim (Bool-cases (entry fs c == 0)) [
        | inl free ↦ rw free (refl, take_cluster fs c d r (omega (arith, le)) ld)
        | inr used ↦ rw used (
            subst
              (λ e. Allocates fs.fat_type e (first_free e (c + 1) n) d (alloc_loop fs1 (c + 1) n))
              (entries_same fs c)
              (subst
                (λ ty.
                  Allocates ty (entry fs1) (first_free (entry fs1) (c + 1) n) d
                    (alloc_loop fs1 (c + 1) n))
                h.fat_type
                (alloc_loop_lem n fs1 (c + 1) d (SameDisk-IsReady fs fs1 h r)
                  (subst (λ b. c + 1 + n ≤ get_total_clusters b + 1 + 1) (sym h.bpb)
                    (omega (arith, le)))
                  (subst (λ b. d ≤ get_total_clusters b + 1) (sym h.bpb) ld))))
      ])

-- On a ready volume `fat16_alloc_cluster` gives the first cluster from 2 on whose entry is 0, and
-- leaves the end of a chain in its entry and every other entry as it was; it fails exactly where no
-- entry is 0, and then changes none.
pub alloc_cluster-first_free :
    (fs : Fs) (d : ℕ)
    → IsReady fs
    → d ≤ last_cluster fs
    → Allocates fs.fat_type
        (entry fs)
        (first_free (entry fs) 2 (get_total_clusters fs.bpb))
        d
        (alloc_cluster fs)
unfolding alloc_cluster
alloc_cluster-first_free fs d r ld =
    let total : ℕ = get_total_clusters fs.bpb in
    let all : add32 total 1 - 1 ≡ total = omega (arith, r.numbered) in
    subst
      (λ n. Allocates fs.fat_type (entry fs) (first_free (entry fs) 2 total) d (alloc_loop fs 2 n))
      (sym all) (alloc_loop_lem total fs 2 d r (omega arith) ld)
